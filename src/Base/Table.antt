-- ===== src/Base/Table.antt =====
-- Maps as association lists: `HashMap`, or a table by its primary key.
use Prim.Native.Nat.{◌+◌, ◌<◌}
use mathlib.Core.Path.{◌≡◌, refl}
use mathlib.Core.Bool.{Bool, true, false}
use mathlib.Core.List.{List, [], ◌∷◌}
use mathlib.Core.Option.{Option, none, some}
use native.Mathlib.Omega.{arith}
use canonical_cloud.Base.Tests.{Eq, ◌==◌, if◌then◌else◌, is_some}
use canonical_cloud.Base.Lists.{length, retain, length-retain_le}

pub eq_refl {ℓ} : {A : Type ℓ} ⦃e : Eq A⦄ (a : A) → (a == a) ≡ true
eq_refl ⦃e⦄ a = (e.same_iff a a).1 refl

module _ {ℓ κ} {K : Type ℓ} ⦃e : Eq K⦄ {V : Type κ} where
  unfoldable pub lookup : K → List (K × V) → Option V
  lookup k [] = none
  lookup k ((j, v) ∷ m) = if j == k then some v else lookup k m

  unfoldable pub insert : K → V → List (K × V) → List (K × V)
  insert key value [] = (key, value) ∷ []
  insert key value ((other, kept) ∷ rest) =
      if other == key then (key, value) ∷ rest else (other, kept) ∷ insert key value rest

  pub lookup-insert :
      (key other : K) (value : V) (table : List (K × V))
      → lookup other (insert key value table)
        ≡ (if key == other then some value else lookup other table)
  unfolding lookup insert
  lookup-insert key other value [] = refl
  lookup-insert key other value ((i, w) ∷ table) = ground (
    arith,
    e.same_iff key other,
    e.same_iff i key,
    e.same_iff i other,
    lookup-insert key other value table,
  )

  pub length-insert :
      (k : K) (v : V) (m : List (K × V))
      → length (insert k v m) ≡ (if is_some (lookup k m) then length m else length m + 1)
  unfolding lookup insert
  length-insert k v [] = omega arith
  length-insert k v ((j, w) ∷ m) = ground (arith, length-insert k v m)

  pub lookup-retain-none :
      (j : K) (p : K × V → Bool) (m : List (K × V))
      → lookup j m ≡ none
      → lookup j (retain p m) ≡ none
  unfolding lookup retain
  lookup-retain-none j p [] h = refl
  lookup-retain-none j p ((i, w) ∷ m) h = ground (arith, lookup-retain-none j p m)

  pub lookup-retain-some :
      (j : K) (p : K × V → Bool) (m : List (K × V)) {v : V}
      → lookup j m ≡ some v
      → p (j, v) ≡ true
      → lookup j (retain p m) ≡ some v
  unfolding lookup retain
  lookup-retain-some j p [] h hp = cc
  lookup-retain-some j p ((i, w) ∷ m) {v} h hp =
      ground (arith, e.same_iff i j, lookup-retain-some j p m {v = v})

  -- An entry that fails the test is gone, and the map is shorter by it.
  pub length-retain_dead :
      (j : K) (p : K × V → Bool) (m : List (K × V)) {v : V}
      → lookup j m ≡ some v
      → p (j, v) ≡ false
      → length (retain p m) < length m
  unfolding lookup retain
  length-retain_dead j p [] h hp = cc
  length-retain_dead j p ((i, w) ∷ m) {v} h hp =
      ground (arith, e.same_iff i j, length-retain_le p m, length-retain_dead j p m {v = v})

  -- No key stands twice.
  abbrev pub IsMap : List (K × V) → Type κ
  IsMap [] = Unit
  IsMap ((k, v) ∷ m) = (lookup k m ≡ none) × IsMap m

  pub insert-IsMap : (k : K) (v : V) (m : List (K × V)) → IsMap m → IsMap (insert k v m)
  unfolding insert
  insert-IsMap k v [] h = (unfold lookup in refl, tt)
  insert-IsMap k v ((j, w) ∷ m) h =
      ground (arith, e.same_iff j k, e.same_iff k j, lookup-insert k j v m, insert-IsMap k v m h.1)

  pub retain-IsMap : (p : K × V → Bool) (m : List (K × V)) → IsMap m → IsMap (retain p m)
  unfolding retain
  retain-IsMap p [] h = tt
  retain-IsMap p ((j, w) ∷ m) h = ground (arith, lookup-retain-none j p m, retain-IsMap p m h.1)

  pub lookup-retain_dead :
      (j : K) (p : K × V → Bool) (m : List (K × V)) {v : V}
      → IsMap m
      → lookup j m ≡ some v
      → p (j, v) ≡ false
      → lookup j (retain p m) ≡ none
  unfolding lookup retain
  lookup-retain_dead j p [] h f d = refl
  lookup-retain_dead j p ((i, w) ∷ m) {v} h f d =
      ground (arith, e.same_iff i j, lookup-retain-none i p m, lookup-retain_dead j p m {v = v} h.1)
