-- ===== src/Base/Results.antt =====
-- `Result<A, E>`, with `?` as the bind of a `do` block.
use mathlib.Core.Bool.{Bool, true, false}
use mathlib.Core.Option.{Option, none, some}
use mathlib.Core.Path.{◌≡◌, refl, subst}
use canonical_cloud.Base.Tests.{if◌then◌else◌}

pub data Result {ℓ} (E : Type 0) (A : Type ℓ) : Type ℓ where
  ok : A → Result E A
  err : E → Result E A

infixl 5 ◌>>=◌ ◌>>◌
abbrev pub ◌>>=◌ {ℓ κ} :
    {E : Type 0} {A : Type ℓ} {B : Type κ} → Result E A → (A → Result E B) → Result E B
ok a >>= f = f a
err e >>= f = err e

abbrev pub ◌>>◌ {ℓ} : {E : Type 0} {B : Type ℓ} → Result E (Unit {0}) → Result E B → Result E B
m >> k = m >>= λ _. k

abbrev pub is_ok {ℓ} : {E : Type 0} {A : Type ℓ} → Result E A → Bool
is_ok (ok a) = true
is_ok (err e) = false

-- `Option::ok_or`
abbrev pub ok_or {ℓ} : {E : Type 0} {A : Type ℓ} → Option A → E → Result E A
ok_or none e = err e
ok_or (some a) e = ok a

-- `Result::map_err`
abbrev pub map_err {ℓ} : {E F : Type 0} {A : Type ℓ} → (E → F) → Result E A → Result F A
map_err f (ok a) = ok a
map_err f (err e) = err (f e)

-- What a result has, if it is not an error.
abbrev pub Ensures {ℓ} : {E : Type 0} {A : Type 0} → (A → Type ℓ) → Result E A → Type ℓ
Ensures Q (ok a) = Q a
Ensures Q (err e) = Unit

abbrev pub Anything : {A : Type 0} → A → Type 0
Anything a = Unit

pub anything : {E A : Type 0} (r : Result E A) → Ensures Anything r
anything (ok a) = tt
anything (err e) = tt

pub ensured :
    {E A : Type 0} (Q : A → Type 0) (r : Result E A) (a : A) → Ensures Q r → r ≡ ok a → Q a
ensured Q r a h e = subst (Ensures Q) e h

pub bind-Ensures :
    {E A B : Type 0} (P : A → Type 0) (Q : B → Type 0) (r : Result E A) (f : A → Result E B)
    → Ensures P r
    → ((a : A) → P a → Ensures Q (f a))
    → Ensures Q (r >>= f)
bind-Ensures P Q (ok a) f h k = k a h
bind-Ensures P Q (err e) f h k = tt

-- A test that refuses, and one that lets through.
pub refusing-Ensures :
    {E A : Type 0} (Q : A → Type 0) (t : Bool) (e : E) (r : Result E A)
    → (t ≡ false → Ensures Q r)
    → Ensures Q (if t then err e else r)
refusing-Ensures Q true e r h = tt
refusing-Ensures Q false e r h = h refl

pub passing-Ensures :
    {E A : Type 0} (Q : A → Type 0) (t : Bool) (e : E) (r : Result E A)
    → (t ≡ true → Ensures Q r)
    → Ensures Q (if t then r else err e)
passing-Ensures Q true e r h = h refl
passing-Ensures Q false e r h = tt

pub then-Ensures :
    {E A : Type 0} (Q : A → Type 0) (test : Result E (Unit {0})) (r : Result E A)
    → (test ≡ ok tt → Ensures Q r)
    → Ensures Q (test >> r)
then-Ensures Q (ok tt) r h = h refl
then-Ensures Q (err e) r h = tt

pub imp-Ensures :
    {E A : Type 0} (P Q : A → Type 0) (r : Result E A)
    → ((a : A) → P a → Q a)
    → Ensures P r
    → Ensures Q r
imp-Ensures P Q (ok a) h p = h a p
imp-Ensures P Q (err e) h p = tt
