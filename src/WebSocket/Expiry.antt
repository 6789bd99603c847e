-- ===== src/WebSocket/Expiry.antt =====
-- A socket of canonical-web-server.rs/src/ws/mod.rs lives no longer than the session behind it: the
-- heartbeat reads the session as canonical-web-server.rs/crates/canonical-session/src/lib.rs does.
use canonical_cloud.Base.{
  ℕ, ◌≡◌, refl, ap, ◌∙◌, List, Text, text, none, some, Bool, true, err, leb, is_some, Bool-cases,
  Option-cases, inl, inr, arith,
}
use canonical_cloud.Auth.{AuthContext}
use canonical_cloud.Session.Model.{SessionError, unauthorized, WebSession, Rows, find_by_id}
use canonical_cloud.Session.Policy.{validate_model}
use canonical_cloud.Session.Rows.{on_row_missing, on_row_fst}
use canonical_cloud.Session.Steps.{IsTable}
use canonical_cloud.Session.Reach.{Reach-revoked}
use canonical_cloud.Session.Guarantee.{Rely, after-Reach}
use canonical_cloud.Session.Durable.{transact_runs, transact_fails}
use canonical_cloud.Session.World.{World, Service, after, failing, transact, ◌>>=◌}
use canonical_cloud.Session.Refreshing.{
  Role, valid_row, read_session, authenticate_hash, revalidate_with, revalidate,
}
use canonical_cloud.WebSocket.Serve.{PongTracker, closing, on_revalidated, on_heartbeat}

-- The row is gone, or its session is revoked.
abbrev Ended : Text → Rows → Type 0
Ended id rows = (m : WebSession) → find_by_id id rows ≡ some m → is_some m.revoked_at ≡ true

revoked-valid_row :
    (utc : ℕ) (m : WebSession) → is_some m.revoked_at ≡ true → valid_row utc m ≡ err unauthorized
unfolding valid_row validate_model
revoked-valid_row utc m h = ground (arith, h)

read-Ended :
    (id : Text) (utc now : ℕ) (rows : Rows)
    → Ended id rows
    → (read_session id utc now rows).0 ≡ err unauthorized
unfolding read_session
read-Ended id utc now rows h = elim (Option-cases (find_by_id id rows)) [
  | inl e ↦
      ap (λ r. r.0) (on_row_missing id (err unauthorized) (λ m. (valid_row utc m, none)) rows e)
  | inr (m, e) ↦
      on_row_fst id (err unauthorized) (λ m. (valid_row utc m, none)) rows m e
      ∙ revoked-valid_row utc m (h m e)
]

-- The read of a row that has ended fails: by the database, or because the row refuses.
read-fails :
    (id : Text) (w : World)
    → Ended id (after w.events w).rows
    → (error : SessionError) × ((transact (read_session id) w).0 ≡ err error)
read-fails id w h = elim (Bool-cases (failing w.events)) [
  | inl e ↦ (_, ap (λ r. r.0) (transact_fails (read_session id) w e))
  | inr e ↦
      let v = after w.events w in
      (
        unauthorized,
        ap (λ r. r.0) (transact_runs (read_session id) w e)
            ∙ read-Ended id v.utc_now v.database_now v.rows h,
      )
]

module _ (service : Service) (drawn : Text → Bool) (actor : AuthContext) (id : Text) where
  open service use {libs}

  revalidate-fails :
      (role : Role) (w : World)
      → actor.session_hash ≡ some id
      → Ended id (after w.events w).rows
      → (error : SessionError) × ((revalidate service role actor w).0 ≡ err error)
  unfolding revalidate revalidate_with authenticate_hash ◌>>=◌
  revalidate-fails role w s h = let (error, e) = read-fails id w h in (error, rw (s, e) refl)

  -- While others run only the program's own transactions, a revoked session has ended for good.
  after-Ended :
      (m : WebSession) (w : World)
      → Rely libs drawn w.events
      → drawn id ≡ true
      → IsTable w.rows
      → find_by_id id w.rows ≡ some m
      → is_some m.revoked_at ≡ true
      → Ended id (after w.events w).rows
  after-Ended m w rely d t e h =
      let (reach, _) = after-Reach w.events w rely rely in
      elim (Reach-revoked id m reach t d e h) [
        | inl gone ↦ λ k f. cc (gone, f)
        | inr (m', e', r, _) ↦ λ k f. cc (e', f, r, h)
      ]

  -- The first heartbeat after a logout closes the socket of that session as expired, and ends it:
  -- with the session revoked in a table with unique identifiers and valid rows, whatever the provider
  -- and the database do, when the other tasks and replicas run the program's own transactions,
  -- logins included, and no login draws the identifier of this session again.
  pub on_heartbeat-revoked :
      (m : WebSession) (timeout : ℕ) (role : Role) (written : Bool) (instant : ℕ) (payload : List ℕ)
      (tracker : PongTracker) (w : World)
      → actor.session_hash ≡ some id
      → Rely libs drawn w.events
      → drawn id ≡ true
      → IsTable w.rows
      → find_by_id id w.rows ≡ some m
      → is_some m.revoked_at ≡ true
      → (on_heartbeat service actor timeout role written instant payload tracker w).0
        ≡ closing (text "session expired")
  unfolding on_heartbeat on_revalidated
  on_heartbeat-revoked m timeout role written instant payload tracker w s rely d t e h =
      let (error, k) = revalidate-fails role w s (after-Ended m w rely d t e h) in
      elim (Bool-cases (leb actor.expires_at w.utc_now)) [
        | inl e' ↦ rw e' refl
        | inr e' ↦ rw (e', k) refl
      ]
