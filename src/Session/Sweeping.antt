-- ===== src/Session/Sweeping.antt =====
-- That `reconcile_revocations` of canonical-web-server.rs/crates/canonical-session/src/lib.rs takes the
-- steps of Session/Reach.antt.
use canonical_cloud.Base.{
  ℕ, ◌≡◌, refl, sym, subst, List, [], ◌∷◌, Text, Bool, true, false, err, Bool-cases, inl, inr,
}
use canonical_cloud.Session.Model.{database, Rows}
use canonical_cloud.Session.World.{◌>>=◌, Service, M, World, transact, after, failing}
use canonical_cloud.Session.Reconcile.{select_expired, expired_batch, reconcile}
use canonical_cloud.Session.Flows.{attempt_each, reconcile_revocations}
use canonical_cloud.Session.Steps.{IsTable}
use canonical_cloud.Session.Reach.{reconciles, Reach, Reach-Retains}
use canonical_cloud.Session.Guarantee.{
  Rely, Guarantees, Any, Post-Any, Guarantees-pure, Guarantees-transact, Guarantees-bind,
  after-Reach, Reach-trans,
}
use canonical_cloud.Session.Interference.{one, attempted-Guarantees}
use canonical_cloud.Session.Durable.{transact_runs, transact_fails}

module _ (service : Service) (drawn : Text → Bool) where
  open service use {libs}

  attempt_each-Guarantees : (ids : List Text) → Guarantees libs drawn Any (attempt_each service ids)
  unfolding attempt_each
  attempt_each-Guarantees [] = Guarantees-pure tt tt
  attempt_each-Guarantees (id ∷ ids) =
      attempted-Guarantees service drawn id _ (λ r. attempt_each-Guarantees ids)

  -- What a reconciliation does with the rows that it has selected.
  settled : ℕ × Rows → M (Unit {0})
  settled selected =
      transact (reconcile selected.0 selected.1) >>= λ picked. attempt_each service picked.0

  settled-Guarantees :
      (started : ℕ) (seen : Rows)
      → IsTable seen
      → Guarantees libs drawn Any (settled (started, expired_batch started seen))
  unfolding settled
  settled-Guarantees started seen t =
      Guarantees-bind {Q = Any} _ _
        (Guarantees-transact (reconcile started (expired_batch started seen))
          (λ utc now rows. one (reconciles started utc now seen rows t))
          (λ utc now rows. Post-Any _))
        (λ picked _. attempt_each-Guarantees picked.0)

  selected_runs :
      (w : World)
      → failing w.events ≡ false
      → let v = after w.events w in
        (transact select_expired >>= settled) w
        ≡ settled (v.database_now, expired_batch v.database_now v.rows) v
  unfolding ◌>>=◌ select_expired
  selected_runs w e = rw (transact_runs select_expired w e) refl

  selected_fails :
      (w : World)
      → failing w.events ≡ true
      → (transact select_expired >>= settled) w ≡ (err database, after w.events w)
  unfolding ◌>>=◌
  selected_fails w e = rw (transact_fails select_expired w e) refl

  -- A reconciliation among other tasks takes the steps of its transactions, with the rows that it has
  -- selected from a table that was there before.
  reconcile_revocations-Reach :
      (w : World)
      → IsTable w.rows
      → Rely libs drawn w.events
      → Reach libs drawn w.rows (reconcile_revocations service w).1.rows
  unfolding reconcile_revocations settled
  reconcile_revocations-Reach w t rely =
      let v = after w.events w in
      let (reached, rely') = after-Reach w.events w rely rely in
      elim (Bool-cases (failing w.events)) [
        | inl e ↦ subst (λ x. Reach libs drawn w.rows x.1.rows) (sym (selected_fails w e)) reached
        | inr e ↦
            let own =
              ((settled-Guarantees v.database_now v.rows (Reach-Retains reached t).0).at v
                rely').0 in
            subst (λ x. Reach libs drawn w.rows x.1.rows) (sym (selected_runs w e))
              (Reach-trans reached own)
      ]
