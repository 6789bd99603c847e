-- ===== src/Session/Steps.antt =====
-- The transactions of canonical-web-server.rs/crates/canonical-session/src/lib.rs as steps on the
-- table of sessions, in any order and by any number of replicas, and what holds after all of them.
use canonical_cloud.Base.{
  ◌≡◌, Option, none, some, Text, true, arith, All, Bool-cases, Option-cases, inl, inr, ◌⊎◌, text_eq,
  ◌==◌, text_beq_iff, sym, ap, ◌∙◌, subst,
}
use canonical_cloud.Session.Model.{WebSession, Rows, find_by_id, update, on_row, written}
use canonical_cloud.Session.Rows.{
  Unique, find_by_id-id, find_by_id-All, update-All, update-Unique, find_by_id-update,
}
use canonical_cloud.Session.Evolution.{IsValid, Evolves, Writes}

-- The table has one row for each identifier, and every row is valid.
pub record IsTable (rows : Rows) : Type 0 where
  pub unique : Unique rows
  pub valid : All IsValid rows

-- Every row is still there and evolved, or it is gone; and no row has come.
pub record Keeps (rows rows' : Rows) : Type 0 where
  pub row :
      (id : Text) (m : WebSession)
      → find_by_id id rows ≡ some m
      → ((m' : WebSession) × (find_by_id id rows' ≡ some m') × Evolves m m')
        ⊎ (find_by_id id rows' ≡ none)
  pub absent : (id : Text) → find_by_id id rows ≡ none → find_by_id id rows' ≡ none

pub Evolves-refl : (m : WebSession) → Evolves m m
Evolves-refl m = ground arith

pub Evolves-trans : (a b c : WebSession) → Evolves a b → Evolves b c → Evolves a c
Evolves-trans a b c h k = ground arith

pub Keeps-refl : (rows : Rows) → Keeps rows rows
Keeps-refl rows = record { row = λ id m e. inl (m, e, Evolves-refl m); absent = λ id e. e }

pub Keeps-trans : (a b c : Rows) → Keeps a b → Keeps b c → Keeps a c
Keeps-trans a b c h k = record {
  row = λ id m e. elim (h.row id m e) [
    | inr gone ↦ inr (k.absent id gone)
    | inl (m', e', v) ↦ elim (k.row id m' e') [
      | inr gone ↦ inr gone
      | inl (m'', e'', v') ↦ inl (m'', e'', Evolves-trans m m' m'' v v')
    ]
  ];
  absent = λ id e. k.absent id (h.absent id e);
}

module _ (m m' : WebSession) (rows : Rows) (id : Text) (found : find_by_id id rows ≡ some m) where
  pub update-IsTable : IsValid m' → IsTable rows → IsTable (update m' rows)
  update-IsTable v t = record {
    unique = update-Unique m' rows t.unique;
    valid = update-All IsValid m' rows v t.valid;
  }

  same_row :
      (j : Text) (k : WebSession)
      → m'.id_hash ≡ m.id_hash
      → (m'.id_hash == j) ≡ true
      → find_by_id j rows ≡ some k
      → m ≡ k
  same_row j k h hit f =
      let p : id ≡ j =
        sym (find_by_id-id id rows m found) ∙ sym h ∙ (text_beq_iff m'.id_hash j).0 hit in
      cc (found, f, ap (λ x. find_by_id x rows) p)

  pub update-Keeps : Evolves m m' → Keeps rows (update m' rows)
  update-Keeps e = record {
    row = λ j k f. elim (Bool-cases (m'.id_hash == j)) [
      | inl hit ↦ inl (
        m',
        rw (find_by_id-update m' rows j, hit, f),
        subst (λ x. Evolves x m') (same_row j k e.id_hash hit f) e,
      )
      | inr miss ↦ inl (k, rw (find_by_id-update m' rows j, miss) f, Evolves-refl k)
    ];
    absent = λ j f. rw (find_by_id-update m' rows j, f) (ground arith);
  }

module _ {A : Type 0} (m : WebSession) (rows : Rows) (id : Text)
    (found : find_by_id id rows ≡ some m) (t : IsTable rows) where
  written-IsTable : (r : A × Option WebSession) → Writes m r.1 → IsTable (written r rows).1
  written-IsTable (a, none) w = t
  written-IsTable (a, some m') w = update-IsTable m m' rows id found w.0 t

  written-Keeps : (r : A × Option WebSession) → Writes m r.1 → Keeps rows (written r rows).1
  written-Keeps (a, none) w = Keeps-refl rows
  written-Keeps (a, some m') w = update-Keeps m m' rows id found w.1

-- A transaction on one row keeps the table, if what it writes is valid and evolved.
pub on_row-Keeps :
    {A : Type 0} (id : Text) (missing : A) (body : WebSession → A × Option WebSession) (rows : Rows)
    → IsTable rows
    → ((m : WebSession) → IsValid m → Writes m (body m).1)
    → IsTable (on_row id missing body rows).1 × Keeps rows (on_row id missing body rows).1
unfolding on_row
on_row-Keeps id missing body rows t w = elim (Option-cases (find_by_id id rows)) [
  | inl e ↦ rw (e, on_row) (t, Keeps-refl rows)
  | inr (m, e) ↦
      let v = w m (find_by_id-All IsValid id rows m t.valid e) in
      rw (e, on_row)
        (written-IsTable m rows id e t (body m) v, written-Keeps m rows id e t (body m) v)
]
