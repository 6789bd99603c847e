-- ===== src/Session/Batch.antt =====
-- The batches of `reconcile_revocations` (Session/Reconcile.antt): sorting, limiting, marking and
-- pruning keep the table.
use canonical_cloud.Base.{
  ℕ, zero, suc, ◌≡◌, refl, Option, none, some, [], ◌∷◌, Bool, not, arith, All, All-retain, take,
  retain, Bool-cases, inl, inr, text_eq, subst, Result, ok, err, ◌>>=◌,
}
use canonical_cloud.Session.Model.{WebSession, SessionError, Rows, find_by_id}
use canonical_cloud.Session.Rows.{
  find_by_id-retain, find_by_id-retain-none, retain-Unique, find_by_id-All,
}
use canonical_cloud.Session.Evolution.{IsValid, is_settled, overwritten-Writes}
use canonical_cloud.Session.Reconcile.{
  insert_by, order_by_asc, overwritten, update_found, mark_selected, mark_all, settle, prune,
  reconcile, expired_batch, is_expired, is_confirmed_prunable, is_abandoned_prunable,
}
use canonical_cloud.Session.Policy.{revocation_batch_size}
use canonical_cloud.Session.Steps.{
  IsTable, Keeps, Keeps-refl, Evolves-refl, Keeps-trans, update-IsTable, update-Keeps,
}

module _ {ℓ} (P : WebSession → Type ℓ) where
  insert_by-All :
      (key : WebSession → ℕ) (m : WebSession) (rows : Rows)
      → P m
      → All P rows
      → All P (insert_by key m rows)
  unfolding insert_by
  insert_by-All key m [] p h = (p, tt)
  insert_by-All key m (r ∷ rows) p h = ground (arith, insert_by-All key m rows p h.1)

  order_by_asc-All :
      (key : WebSession → ℕ) (rows : Rows) → All P rows → All P (order_by_asc key rows)
  unfolding order_by_asc
  order_by_asc-All key [] h = tt
  order_by_asc-All key (r ∷ rows) h =
      insert_by-All key r (order_by_asc key rows) h.0 (order_by_asc-All key rows h.1)

  take-All : (n : ℕ) (rows : Rows) → All P rows → All P (take n rows)
  take-All zero rows h = tt
  take-All (suc n) [] h = tt
  take-All (suc n) (r ∷ rows) h = (h.0, take-All n rows h.1)

module _ (now : ℕ) (selected : WebSession) (v : IsValid selected) (rows rows' : Rows)
    (t : IsTable rows) where
  update_found-Keeps :
      (found : Option WebSession)
      → find_by_id selected.id_hash rows ≡ found
      → update_found now selected rows found ≡ ok rows'
      → IsTable rows' × Keeps rows rows'
  unfolding update_found
  update_found-Keeps none e h = cc h
  update_found-Keeps (some m) e h =
      let w =
        overwritten-Writes now selected m v
          (find_by_id-All IsValid selected.id_hash rows m t.valid e) in
      let m' = overwritten now selected m in
      subst (λ x. IsTable x × Keeps rows x) (cc h)
        (
          update-IsTable m m' rows selected.id_hash e w.0 t,
          update-Keeps m m' rows selected.id_hash e w.1,
        )

  mark_selected-Keeps :
      mark_selected now selected rows ≡ ok rows' → IsTable rows' × Keeps rows rows'
  unfolding mark_selected
  mark_selected-Keeps h = elim (Bool-cases (is_settled selected)) [
    | inl e ↦ subst (λ x. IsTable x × Keeps rows x) (ground (arith, e, h)) (t, Keeps-refl rows)
    | inr e ↦ update_found-Keeps (find_by_id selected.id_hash rows) refl (ground (arith, e, h))
  ]

marked_then :
    (now : ℕ) (m : WebSession) (expired rows rows' : Rows)
    → IsValid m
    → IsTable rows
    → ((rows1 : Rows)
        → IsTable rows1
        → mark_all now expired rows1 ≡ ok rows'
        → IsTable rows' × Keeps rows1 rows')
    → (r : Result SessionError Rows) → mark_selected now m rows ≡ r
    → (r >>= mark_all now expired) ≡ ok rows'
    → IsTable rows' × Keeps rows rows'
marked_then now m expired rows rows' v t rest (err e) f h = cc h
marked_then now m expired rows rows' v t rest (ok rows1) f h =
    let (t1, k1) = mark_selected-Keeps now m v rows rows1 t f in
    let (t2, k2) = rest rows1 t1 h in (t2, Keeps-trans rows rows1 rows' k1 k2)

mark_all-Keeps :
    (now : ℕ) (expired rows rows' : Rows)
    → All IsValid expired
    → IsTable rows
    → mark_all now expired rows ≡ ok rows'
    → IsTable rows' × Keeps rows rows'
unfolding mark_all
mark_all-Keeps now [] rows rows' v t h =
    subst (λ x. IsTable x × Keeps rows x) (cc h) (t, Keeps-refl rows)
mark_all-Keeps now (m ∷ expired) rows rows' v t h =
    marked_then now m expired rows rows' v.0 t
      (λ rows1 t1. mark_all-Keeps now expired rows1 rows' v.1 t1) _ refl h

pub retain-Keeps :
    (p : WebSession → Bool) (rows : Rows)
    → IsTable rows
    → IsTable (retain p rows) × Keeps rows (retain p rows)
retain-Keeps p rows t = (
  record { unique = retain-Unique p rows t.unique; valid = All-retain IsValid p rows t.valid },
  record {
    row = λ id m e. elim (Bool-cases (p m)) [
      | inl kept ↦ inl (m, rw (find_by_id-retain p id rows m t.unique e, kept), Evolves-refl m)
      | inr dropped ↦ inr (rw (find_by_id-retain p id rows m t.unique e, dropped))
    ];
    absent = λ id e. find_by_id-retain-none p id rows e;
  },
)

-- The rows that a reconciliation selects are rows of the table.
pub expired_batch-All {ℓ} :
    (P : WebSession → Type ℓ) (now : ℕ) (rows : Rows) → All P rows → All P (expired_batch now rows)
unfolding expired_batch
expired_batch-All P now rows h =
    take-All P revocation_batch_size _
      (order_by_asc-All P (λ m. m.expires_at) _ (All-retain P (is_expired now) rows h))

settle-Keeps :
    (now : ℕ) (rows : Rows) (r : Result SessionError Rows)
    → IsTable rows
    → ((rows' : Rows) → r ≡ ok rows' → IsTable rows' × Keeps rows rows')
    → IsTable (settle now rows r).1 × Keeps rows (settle now rows r).1
unfolding settle prune
settle-Keeps now rows (err e) t h = (t, Keeps-refl rows)
settle-Keeps now rows (ok marked) t h =
    let (t1, k1) = h marked refl in
    let (t2, k2) = retain-Keeps (λ m. not (is_confirmed_prunable now m)) _ t1 in
    let (t3, k3) = retain-Keeps (λ m. not (is_abandoned_prunable now m)) _ t2 in
    (t3, Keeps-trans rows _ _ k1 (Keeps-trans _ _ _ k2 k3))

-- A reconciliation keeps the table, whatever table it selected from before.
pub reconcile-Keeps :
    (started : ℕ) (seen : Rows) (utc_now now : ℕ) (rows : Rows)
    → IsTable seen
    → IsTable rows
    → let rows' = (reconcile started (expired_batch started seen) utc_now now rows).1 in
      IsTable rows' × Keeps rows rows'
unfolding reconcile
reconcile-Keeps started seen utc_now now rows s t = settle-Keeps started rows _ t λ rows' h.
    mark_all-Keeps started (expired_batch started seen) rows rows'
      (expired_batch-All IsValid started seen s.valid) t h
