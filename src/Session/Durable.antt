-- ===== src/Session/Durable.antt =====
-- A successful `revoke` (canonical-web-server.rs/crates/canonical-session/src/lib.rs) is final,
-- whatever the identity provider answers and whatever runs beside it and after it.
use canonical_cloud.Base.{
  ℕ, ◌≡◌, sym, ap, ◌∙◌, subst, Text, Bool, true, false, ok, err, Bool-cases, Option-cases, inl, inr,
}
use canonical_cloud.Session.Model.{database, RefreshClaim, Rows, find_by_id}
use canonical_cloud.Session.Cipher.{hash_token}
use canonical_cloud.Session.Rows.{on_row_missing, on_row_fst}
use canonical_cloud.Session.Refresh.{mark_revocation}
use canonical_cloud.Session.Revocation.{Tx, queue_revocation}
use canonical_cloud.Session.World.{
  after, failing, commit, Service, M, World, transact, attempt, pure, ◌>>=◌,
}
use canonical_cloud.Session.Flows.{attempt_revocation, revoke}
use canonical_cloud.Session.Steps.{IsTable}
use canonical_cloud.Session.Reach.{Reach, Reach-Retains}
use canonical_cloud.Session.Logout.{Refused, logout_is_final}
use canonical_cloud.Session.Guarantee.{
  Rely, Guarantees, Any, after-Reach, Guarantees-pure, Reach-trans,
}
use canonical_cloud.Session.Interference.{attempted-Guarantees}

queue_revocation-ok :
    (id : Text) (utc now : ℕ) (rows : Rows) → (queue_revocation id utc now rows).0 ≡ ok tt
unfolding queue_revocation
queue_revocation-ok id utc now rows = elim (Option-cases (find_by_id id rows)) [
  | inl e ↦ ap (λ r. r.0) (on_row_missing id (ok tt) (λ m. (ok tt, mark_revocation now m)) rows e)
  | inr (m, e) ↦ on_row_fst id (ok tt) (λ m. (ok tt, mark_revocation now m)) rows m e
]

-- A transaction that does not fail is its body on the table behind its wait.
pub transact_runs :
    {A : Type 0} (body : ℕ → ℕ → Tx A) (w : World)
    → failing w.events ≡ false
    → let v = after w.events w in
      let r = body v.utc_now v.database_now v.rows in
      transact body w ≡ (r.0, record v { rows = r.1 })
unfolding transact commit
transact_runs body w e = rw e

pub transact_fails :
    {A : Type 0} (body : ℕ → ℕ → Tx A) (w : World)
    → failing w.events ≡ true
    → transact body w ≡ (err database, after w.events w)
unfolding transact
transact_fails body w e = rw e

-- What `revoke` does behind its first transaction.
attempt_logged : Service → Text → M (Unit {0})
attempt_logged service id = attempt (attempt_revocation service id) >>= λ _. pure tt

attempt_logged-Guarantees :
    (service : Service) (drawn : Text → Bool) (id : Text)
    → Guarantees service.libs drawn Any (attempt_logged service id)
unfolding attempt_logged
attempt_logged-Guarantees service drawn id =
    attempted-Guarantees service drawn id _ (λ r. Guarantees-pure tt tt)

-- The world behind a logout that was queued.
queued : Text → World → World
queued id w =
    let v = after w.events w in
    record v { rows = (queue_revocation id v.utc_now v.database_now v.rows).1 }

revoke_runs :
    (service : Service) (id : Text) (w : World)
    → failing w.events ≡ false
    → (transact (queue_revocation id) >>= λ _. attempt_logged service id) w
      ≡ attempt_logged service id (queued id w)
unfolding ◌>>=◌ queued
revoke_runs service id w e =
    let v = after w.events w in
    rw (transact_runs (queue_revocation id) w e)
      (rw (queue_revocation-ok id v.utc_now v.database_now v.rows))

revoke_fails :
    (service : Service) (id : Text) (w : World)
    → failing w.events ≡ true
    → (transact (queue_revocation id) >>= λ _. attempt_logged service id) w
      ≡ (err database, after w.events w)
unfolding ◌>>=◌
revoke_fails service id w e = rw (transact_fails (queue_revocation id) w e)

-- Once the logout is queued, it stays so under what the task itself still does.
attempt_keeps_logout :
    (service : Service) (drawn : Text → Bool) (claim : RefreshClaim) (w w' : World) (rows : Rows)
    → IsTable w.rows
    → drawn claim.id_hash ≡ true
    → Rely service.libs drawn w.events
    → attempt_logged service claim.id_hash (queued claim.id_hash w) ≡ (ok tt, w')
    → Reach service.libs drawn w'.rows rows
    → Refused service.libs.cipher claim rows
unfolding queued
attempt_keeps_logout service drawn claim w w' rows t d r h later =
    let (reached, rely) = after-Reach w.events w r r in
    let v = after w.events w in
    let own =
      ((attempt_logged-Guarantees service drawn claim.id_hash).at (queued claim.id_hash w)
        rely).0 in
    logout_is_final service.libs drawn claim v.utc_now v.database_now v.rows rows
      (Reach-Retains reached t).0 d
      (Reach-trans
        (subst (λ x. Reach service.libs drawn (queued claim.id_hash w).rows x)
          (ap (λ x. x.1.rows) h) own)
        later)

-- From a table with unique identifiers and valid rows, if the other tasks run the program's
-- transactions, logins included, and no login draws the identifier of this session again, a successful
-- `revoke` is final: in the table that it leaves, and in every table that later transactions make of
-- it, a refresh of that session that was in flight stores nothing,
-- no new refresh starts and the reader of a lost refresh is turned away.
pub revoke_is_final :
    (service : Service) (drawn : Text → Bool) (raw_id : Text) (claim : RefreshClaim) (w w' : World)
    (rows : Rows)
    → IsTable w.rows
    → drawn claim.id_hash ≡ true
    → Rely service.libs drawn w.events
    → claim.id_hash ≡ hash_token service.libs.cipher raw_id
    → revoke service raw_id w ≡ (ok tt, w')
    → Reach service.libs drawn w'.rows rows
    → Refused service.libs.cipher claim rows
unfolding revoke attempt_logged
revoke_is_final service drawn raw_id claim w w' rows t d r i h later =
    let id = hash_token service.libs.cipher raw_id in
    elim (Bool-cases (failing w.events)) [
      | inl e ↦ cc (sym (revoke_fails service id w e) ∙ h)
      | inr e ↦
          attempt_keeps_logout service drawn claim w w' rows t d r
            (rw i (sym (revoke_runs service id w e) ∙ h)) later
    ]
