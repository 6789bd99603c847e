-- ===== src/Session/Rows.antt =====
-- Lemmas on the table operations of Session/Model.antt.
use canonical_cloud.Base.{
  ◌≡◌, refl, Option, none, some, [], ◌∷◌, Text, Bool, if◌then◌else◌, ◌==◌, text_eq, text_beq_iff,
  is_some, arith, All, retain, inl, inr, Bool-cases, subst,
}
use canonical_cloud.Session.Model.{WebSession, Rows, find_by_id, update, written, on_row}

pub find_by_id-id :
    (id : Text) (rows : Rows) (m : WebSession) → find_by_id id rows ≡ some m → m.id_hash ≡ id
unfolding find_by_id
find_by_id-id id [] m h = cc
find_by_id-id id (r ∷ rows) m h = ground (arith, text_beq_iff r.id_hash id, find_by_id-id id rows m)

pub find_by_id-update :
    (m : WebSession) (rows : Rows) (j : Text)
    → find_by_id j (update m rows) ≡ (
        if m.id_hash == j
        then (if is_some (find_by_id j rows) then some m else none)
        else find_by_id j rows)
unfolding find_by_id update
find_by_id-update m [] j = ground arith
find_by_id-update m (r ∷ rows) j = ground (
  arith,
  text_beq_iff m.id_hash j,
  text_beq_iff r.id_hash j,
  text_beq_iff r.id_hash m.id_hash,
  find_by_id-update m rows j,
)

module _ {ℓ} (P : WebSession → Type ℓ) where
  pub find_by_id-All :
      (id : Text) (rows : Rows) (m : WebSession) → All P rows → find_by_id id rows ≡ some m → P m
  unfolding find_by_id
  find_by_id-All id [] m h e = absurd (ground arith)
  find_by_id-All id (r ∷ rows) m h e = elim (Bool-cases (r.id_hash == id)) [
    | inl hit ↦ let p : r ≡ m = ground arith in subst P p h.0
    | inr miss ↦ find_by_id-All id rows m h.1 (rw miss at e)
  ]

  pub update-All : (m : WebSession) (rows : Rows) → P m → All P rows → All P (update m rows)
  unfolding update
  update-All m [] p h = tt
  update-All m (r ∷ rows) p h = ground (arith, update-All m rows p h.1)

-- No identifier stands twice: the primary key.
abbrev pub Unique : Rows → Type 0
Unique [] = Unit
Unique (m ∷ rows) = (find_by_id m.id_hash rows ≡ none) × Unique rows

pub update-Unique : (m : WebSession) (rows : Rows) → Unique rows → Unique (update m rows)
unfolding update
update-Unique m [] h = tt
update-Unique m (r ∷ rows) h = ground (
  arith,
  text_beq_iff r.id_hash m.id_hash,
  text_beq_iff m.id_hash r.id_hash,
  find_by_id-update m rows r.id_hash,
  update-Unique m rows h.1,
)

pub find_by_id-retain-none :
    (p : WebSession → Bool) (id : Text) (rows : Rows)
    → find_by_id id rows ≡ none
    → find_by_id id (retain p rows) ≡ none
unfolding find_by_id retain
find_by_id-retain-none p id [] h = refl
find_by_id-retain-none p id (r ∷ rows) h = ground (arith, find_by_id-retain-none p id rows)

pub retain-Unique : (p : WebSession → Bool) (rows : Rows) → Unique rows → Unique (retain p rows)
unfolding retain
retain-Unique p [] h = tt
retain-Unique p (r ∷ rows) h =
    ground (arith, find_by_id-retain-none p r.id_hash rows, retain-Unique p rows h.1)

-- A deletion removes exactly the rows that pass its test.
pub find_by_id-retain :
    (p : WebSession → Bool) (id : Text) (rows : Rows) (m : WebSession)
    → Unique rows
    → find_by_id id rows ≡ some m
    → find_by_id id (retain p rows) ≡ (if p m then some m else none)
unfolding find_by_id retain
find_by_id-retain p id [] m u h = cc
find_by_id-retain p id (r ∷ rows) m u h = ground (
  arith,
  text_beq_iff r.id_hash id,
  find_by_id-retain-none p r.id_hash rows,
  find_by_id-retain p id rows m u.1,
)

module _ {ℓ} {A : Type ℓ} (id : Text) (missing : A) (body : WebSession → A × Option WebSession)
    (rows : Rows) where
  pub on_row_found :
      (m : WebSession)
      → find_by_id id rows ≡ some m
      → on_row id missing body rows ≡ written (body m) rows
  unfolding on_row
  on_row_found m e = rw (e, on_row)

  pub on_row_missing : find_by_id id rows ≡ none → on_row id missing body rows ≡ (missing, rows)
  unfolding on_row
  on_row_missing e = rw (e, on_row)

pub written-none :
    {A : Type 0} (r : A × Option WebSession) (rows : Rows)
    → r.1 ≡ none
    → written r rows ≡ (r.0, rows)
written-none (a, none) rows e = refl
written-none (a, some m) rows e = cc

pub written-some :
    {A : Type 0} (r : A × Option WebSession) (rows : Rows) (m : WebSession)
    → r.1 ≡ some m
    → written r rows ≡ (r.0, update m rows)
written-some (a, none) rows m e = cc
written-some (a, some k) rows m e = cc

pub written_fst : {A : Type 0} (r : A × Option WebSession) (rows : Rows) → (written r rows).0 ≡ r.0
written_fst (a, none) rows = refl
written_fst (a, some k) rows = refl

pub find_by_id-update_self :
    (rows : Rows) (id : Text) (m m' : WebSession)
    → find_by_id id rows ≡ some m
    → m'.id_hash ≡ m.id_hash
    → find_by_id id (update m' rows) ≡ some m'
find_by_id-update_self rows id m m' e h =
    ground
      (arith, find_by_id-update m' rows id, text_beq_iff m'.id_hash id, find_by_id-id id rows m e)

module _ {A : Type 0} (id : Text) (missing : A) (body : WebSession → A × Option WebSession)
    (rows : Rows) where
  pub on_row_fst :
      (m : WebSession) → find_by_id id rows ≡ some m → (on_row id missing body rows).0 ≡ (body m).0
  on_row_fst m e = rw (on_row_found id missing body rows m e) (written_fst (body m) rows)

  -- A write is found under the identifier.
  pub on_row_writes :
      (m m' : WebSession)
      → find_by_id id rows ≡ some m
      → (body m).1 ≡ some m'
      → m'.id_hash ≡ m.id_hash
      → find_by_id id (on_row id missing body rows).1 ≡ some m'
  on_row_writes m m' e w h =
      rw (on_row_found id missing body rows m e, written-some (body m) rows m' w)
        (find_by_id-update_self rows id m m' e h)

  -- A transaction that writes nothing leaves the table.
  pub on_row_keeps :
      (m : WebSession)
      → find_by_id id rows ≡ some m
      → (body m).1 ≡ none
      → on_row id missing body rows ≡ ((body m).0, rows)
  on_row_keeps m e w = rw (on_row_found id missing body rows m e) (written-none (body m) rows w)
