-- ===== src/Session/Refresh.antt =====
-- The transactions of a token refresh in canonical-web-server.rs/crates/canonical-session/src/lib.rs,
-- each as a function of the row that it locks. `utc_now` is the server's clock, `now` is
-- `database_now`. A transaction that returns an error before it commits writes nothing.
use canonical_cloud.Base.{
  ℕ, ◌+◌, Option, none, some, Text, Bool, true, false, not, ◌&&◌, if◌then◌else◌, Result, ok, err,
  ◌>>=◌, ltb, is_none, option_beq, nat_eq, unwrap_or, or_else, is_some, ◌||◌, text,
}
use canonical_cloud.Auth.{Uuid, AuthContext, AuthTokens, seconds}
use canonical_cloud.Session.Model.{
  WebSession, SessionError, unauthorized, auth_upstream, RefreshClaim, RefreshClaimResult, fresh,
  claimed, busy, Rows, on_row,
}
use canonical_cloud.Session.Policy.{
  refresh_lease, refresh_lease_is_active, validate_model, context_from_model,
}
use canonical_cloud.Session.Cipher.{CipherLibs, decrypt}

-- The row behind a queued logout.
unfoldable pub marked : ℕ → WebSession → WebSession
marked now m = record m {
  revoked_at = or_else m.revoked_at (some now);
  revocation_pending_at = or_else m.revocation_pending_at (some now);
  revocation_next_attempt_at =
      if is_none m.revocation_pending_at then some now else m.revocation_next_attempt_at;
  refresh_lease_id = none;
  refresh_lease_expires_at = none;
  updated_at = now;
}

-- `mark_revocation`: a row in a terminal state stays as it is.
unfoldable pub mark_revocation : ℕ → WebSession → Option WebSession
mark_revocation now m =
    if is_some m.upstream_revoked_at || is_some m.revocation_abandoned_at
    then none
    else some (marked now m)

-- The row without its refresh lease.
unfoldable pub clear_lease : ℕ → WebSession → WebSession
clear_lease now m = record m {
  refresh_lease_id = none;
  refresh_lease_expires_at = none;
  updated_at = now;
}

unfoldable pub leased : ℕ → Uuid → WebSession → WebSession
leased now lease_id m = record m {
  refresh_lease_id = some lease_id;
  refresh_lease_expires_at = some (now + refresh_lease);
  updated_at = now;
}

-- The part of `claim_refresh` behind the test of an active lease.
unfoldable pub take_lease :
    CipherLibs
    → Text
    → ℕ
    → Uuid
    → WebSession
    → Result SessionError RefreshClaimResult × Option WebSession
take_lease libs id_hash now lease_id m = elim (decrypt libs m.encrypted_refresh_token) [
  | err error ↦ (err error, none)
  | ok token ↦ (
    ok (
        claimed (record {
          id_hash = id_hash;
          lease_id = lease_id;
          user_id = m.user_id;
          supabase_session_id = m.supabase_session_id;
          refresh_token = token;
        })),
    some (leased now lease_id m),
  )
]

unfoldable pub claim_refresh_row :
    CipherLibs
    → Text
    → ℕ
    → ℕ
    → Uuid
    → WebSession
    → Result SessionError RefreshClaimResult × Option WebSession
claim_refresh_row libs id_hash utc_now now lease_id m = elim (validate_model utc_now m) [
  | err error ↦ (err error, none)
  | ok _ ↦
      if ltb (now + seconds 60) m.access_expires_at
      then (ok (fresh m), none)
      else if refresh_lease_is_active m.refresh_lease_id m.refresh_lease_expires_at now
      then (ok busy, none)
      else take_lease libs id_hash now lease_id m
]

-- `claim_refresh`; `lease_id` is the UUID that it draws.
unfoldable pub claim_refresh :
    CipherLibs → Text → Uuid → ℕ → ℕ → Rows → Result SessionError RefreshClaimResult × Rows
claim_refresh libs id_hash lease_id utc_now now =
    on_row id_hash (err unauthorized) (claim_refresh_row libs id_hash utc_now now lease_id)

-- How the last transaction of `execute_refresh_claim` ends: with the stored session, or behind
-- another holder of the row.
pub data Stored : Type 0 where
  stored : AuthContext → Stored
  lost : Stored

unfoldable pub store_refresh_row :
    RefreshClaim
    → AuthTokens
    → Option Uuid
    → Text
    → Text
    → ℕ
    → ℕ
    → WebSession
    → Result SessionError Stored × Option WebSession
store_refresh_row claim tokens session_id access refresh utc_now now m =
    if not (option_beq m.refresh_lease_id (some claim.lease_id))
    then (ok lost, none)
    else elim (validate_model utc_now m) [
      | err _ ↦ (err unauthorized, some (clear_lease now m))
      | ok _ ↦
          let m' : WebSession = record m {
            email = unwrap_or tokens.user.email (text "");
            supabase_session_id = session_id;
            encrypted_access_token = access;
            encrypted_refresh_token = refresh;
            access_expires_at = tokens.expires_at;
            refresh_lease_id = none;
            refresh_lease_expires_at = none;
            updated_at = now;
          } in
          (ok (stored (context_from_model m')), some m')
    ]

-- The last transaction of `execute_refresh_claim`.
unfoldable pub store_refresh :
    RefreshClaim
    → AuthTokens
    → Option Uuid
    → Text
    → Text
    → ℕ
    → ℕ
    → Rows
    → Result SessionError Stored × Rows
store_refresh claim tokens session_id access refresh utc_now now =
    on_row claim.id_hash (err unauthorized)
      (store_refresh_row claim tokens session_id access refresh utc_now now)

unfoldable pub finish_refresh_row :
    RefreshClaim → Bool → ℕ → WebSession → Result SessionError Bool × Option WebSession
finish_refresh_row claim revoke now m =
    if not (option_beq m.refresh_lease_id (some claim.lease_id))
    then (ok false, none)
    else (ok true, if revoke then mark_revocation now m else some (clear_lease now m))

unfoldable pub finish_refresh_claim :
    RefreshClaim → Bool → ℕ → ℕ → Rows → Result SessionError Bool × Rows
finish_refresh_claim claim revoke utc_now now =
    on_row claim.id_hash (ok false) (finish_refresh_row claim revoke now)

unfoldable pub lost_outcome : ℕ → ℕ → WebSession → Result SessionError AuthContext
lost_outcome utc_now now m = do
  valid ← validate_model utc_now m
  if is_none m.refresh_lease_id && ltb now m.access_expires_at
      then ok (context_from_model m)
      else err auth_upstream

unfoldable pub outcome_after_lost_refresh :
    Text → ℕ → ℕ → Rows → Result SessionError AuthContext × Rows
outcome_after_lost_refresh id_hash utc_now now =
    on_row id_hash (err unauthorized) (λ m. (lost_outcome utc_now now m, none))
