-- ===== src/Session/Logout.antt =====
-- A logout is final on the server: what a refresh in flight, a later refresh or a request can still
-- do after `queue_revocation` (canonical-web-server.rs/crates/canonical-session/src/lib.rs).
use canonical_cloud.Base.{
  ℕ, ◌≡◌, ◌≢◌, refl, Option, none, some, Text, Bool, true, Result, ok, err, is_some, arith, inl,
  inr, ◌⊎◌, Option-cases, Bool-cases,
}
use canonical_cloud.Auth.{Uuid, AuthTokens}
use canonical_cloud.Session.Model.{
  WebSession, SessionError, unauthorized, RefreshClaim, Rows, find_by_id,
}
use canonical_cloud.Session.Policy.{validate_model}
use canonical_cloud.Session.Cipher.{CipherLibs}
use canonical_cloud.Session.Rows.{
  find_by_id-All, on_row_found, on_row_missing, on_row_writes, on_row_keeps,
}
use canonical_cloud.Session.Evolution.{IsValid, is_settled}
use canonical_cloud.Session.Refresh.{
  lost, claim_refresh, claim_refresh_row, store_refresh, outcome_after_lost_refresh, lost_outcome,
  mark_revocation, marked,
}
use canonical_cloud.Session.Revocation.{Libs, queue_revocation}
use canonical_cloud.Session.Steps.{IsTable}
use canonical_cloud.Session.Reach.{Reach, queues, Step-Retains, Reach-Retains, Reach-revoked}
use canonical_cloud.Session.Fences.{stale_refresh}

mark_revocation_cases :
    (now : ℕ) (m : WebSession)
    → IsValid m
    → ((mark_revocation now m ≡ none) × (is_some m.revoked_at ≡ true))
      ⊎ ((m' : WebSession) × (mark_revocation now m ≡ some m')
          × (m'.id_hash ≡ m.id_hash)
          × (is_some m'.revoked_at ≡ true))
unfolding mark_revocation marked
mark_revocation_cases now m v = elim (Bool-cases (is_settled m)) [
  | inl s ↦ inl (ground arith, ground arith)
  | inr s ↦ inr (marked now m, ground arith, refl, ground arith)
]

-- The session of a logout is revoked when its transaction has committed.
pub queue_revokes :
    (id : Text) (utc_now now : ℕ) (rows : Rows) (m : WebSession)
    → IsTable rows
    → find_by_id id rows ≡ some m
    → (m' : WebSession) × (find_by_id id (queue_revocation id utc_now now rows).1 ≡ some m')
      × (is_some m'.revoked_at ≡ true)
unfolding queue_revocation
queue_revokes id utc_now now rows m t e =
    elim (mark_revocation_cases now m (find_by_id-All IsValid id rows m t.valid e)) [
      | inl (w, r) ↦ (
        m,
        rw
            (on_row_keeps {A = Result SessionError Unit} id (ok tt)
              (λ k. (ok tt, mark_revocation now k)) rows m e w)
            e,
        r,
      )
      | inr (m', w, h, r) ↦
          (m', on_row_writes id (ok tt) (λ k. (ok tt, mark_revocation now k)) rows m m' e w h, r)
    ]

revoked_refused :
    (libs : CipherLibs) (id : Text) (lease_id : Uuid) (utc_now now : ℕ) (m : WebSession)
    → is_some m.revoked_at ≡ true
    → (claim_refresh_row libs id utc_now now lease_id m ≡ (err unauthorized, none))
      × (lost_outcome utc_now now m ≡ err unauthorized)
unfolding claim_refresh_row lost_outcome validate_model
revoked_refused libs id lease_id utc_now now m h = ground arith

-- What every entry point answers for a session that is revoked or gone.
pub record Refused (libs : CipherLibs) (claim : RefreshClaim) (rows : Rows) : Type 0 where
  -- A refresh that was in flight stores nothing.
  pub in_flight :
      (tokens : AuthTokens) (session_id : Option Uuid) (access refresh : Text) (utc_now now : ℕ)
      → (store_refresh claim tokens session_id access refresh utc_now now rows ≡ (ok lost, rows))
        ⊎ (store_refresh claim tokens session_id access refresh utc_now now rows
            ≡ (err unauthorized, rows))
  -- No new refresh starts.
  pub claiming :
      (lease_id : Uuid) (utc_now now : ℕ)
      → claim_refresh libs claim.id_hash lease_id utc_now now rows ≡ (err unauthorized, rows)
  -- The reader of a lost refresh is turned away.
  pub reading :
      (utc_now now : ℕ)
      → outcome_after_lost_refresh claim.id_hash utc_now now rows ≡ (err unauthorized, rows)

gone-Refused :
    (libs : CipherLibs) (claim : RefreshClaim) (rows : Rows)
    → find_by_id claim.id_hash rows ≡ none
    → Refused libs claim rows
unfolding store_refresh claim_refresh outcome_after_lost_refresh
gone-Refused libs claim rows e = record {
  in_flight =
      λ tokens session_id access refresh utc_now now. inr (on_row_missing claim.id_hash _ _ rows e);
  claiming = λ lease_id utc_now now. on_row_missing claim.id_hash _ _ rows e;
  reading = λ utc_now now. on_row_missing claim.id_hash _ _ rows e;
}

lease_apart : (o : Option Uuid) (a : Uuid) → o ≡ none → o ≢ some a
lease_apart o a e = λ f. cc (e, f)

revoked-Refused :
    (libs : CipherLibs) (claim : RefreshClaim) (rows : Rows) (m : WebSession)
    → find_by_id claim.id_hash rows ≡ some m
    → is_some m.revoked_at ≡ true
    → m.refresh_lease_id ≡ none
    → Refused libs claim rows
unfolding claim_refresh outcome_after_lost_refresh
revoked-Refused libs claim rows m e r l = record {
  in_flight = λ tokens session_id access refresh utc_now now.
      inl
        (stale_refresh claim tokens session_id access refresh true utc_now now rows m e
          (lease_apart m.refresh_lease_id claim.lease_id l)).0;
  claiming = λ lease_id utc_now now.
      rw
        (on_row_found claim.id_hash (err unauthorized)
          (claim_refresh_row libs claim.id_hash utc_now now lease_id) rows m e)
        (rw (revoked_refused libs claim.id_hash lease_id utc_now now m r).0);
  reading = λ utc_now now.
      rw
        (on_row_found claim.id_hash (err unauthorized) (λ k. (lost_outcome utc_now now k, none))
          rows m e)
        (rw (revoked_refused libs claim.id_hash 0 utc_now now m r).1);
}

-- From a table with unique identifiers and valid rows, after a logout has committed, and whatever
-- transactions follow it, logins included but none under this session's identifier, a refresh that was in flight stores nothing, no new refresh starts, and
-- the reader of a lost refresh is turned away.
pub logout_is_final :
    (libs : Libs) (drawn : Text → Bool) (claim : RefreshClaim) (utc_now now : ℕ) (rows rows' : Rows)
    → IsTable rows
    → drawn claim.id_hash ≡ true
    → Reach libs drawn (queue_revocation claim.id_hash utc_now now rows).1 rows'
    → Refused libs.cipher claim rows'
logout_is_final libs drawn claim utc_now now rows rows' t d r =
    let (t1, k1) =
      Step-Retains {libs = libs} {drawn = drawn} (queues claim.id_hash utc_now now rows) t in
    elim (Option-cases (find_by_id claim.id_hash rows)) [
      | inl e ↦
          gone-Refused libs.cipher claim rows'
            ((Reach-Retains r t1).1.absent claim.id_hash d (k1.absent claim.id_hash d e))
      | inr (m, e) ↦
          let (m1, e1, r1) = queue_revokes claim.id_hash utc_now now rows m t e in
          elim (Reach-revoked claim.id_hash m1 r t1 d e1 r1) [
            | inl gone ↦ gone-Refused libs.cipher claim rows' gone
            | inr (m2, e2, still, unleased) ↦
                revoked-Refused libs.cipher claim rows' m2 e2 still unleased
          ]
    ]
