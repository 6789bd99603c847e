-- ===== src/Session/Policy.antt =====
-- The pure rules of canonical-web-server.rs/crates/canonical-session/src/lib.rs: delays, leases,
-- the identity of a rotated session, and the reading of provider errors.
use canonical_cloud.Base.{
  ℕ, ◌+◌, ◌*◌, ◌^◌, ◌-◌, min, max, Option, none, some, Bool, not, ◌&&◌, ◌||◌, if◌then◌else◌, Result,
  ok, err, ltb, leb, is_some, is_some_and, ◌==◌, nat_eq,
}
use canonical_cloud.Auth.{
  Uuid, AuthContext, AuthProviderError, invalid_credentials, unavailable, invalid_response, seconds,
  session_cookie,
}
use canonical_cloud.Session.Model.{WebSession, SessionError, unauthorized, auth_upstream, i32_max}

abbrev pub revocation_batch_size : ℕ
revocation_batch_size = 32

abbrev pub revocation_lease : ℕ
revocation_lease = seconds 75

abbrev pub revocation_retention : ℕ
revocation_retention = seconds (7 * 86400)

abbrev pub refresh_lease : ℕ
refresh_lease = seconds 30

abbrev pub refresh_wait : ℕ
refresh_wait = seconds 22

abbrev pub refresh_poll_initial : ℕ
refresh_poll_initial = 50000000

abbrev pub refresh_poll_max : ℕ
refresh_poll_max = seconds 1

abbrev pub i64_max : ℕ
i64_max = 2 ^ 63 - 1

-- `attempts` is never negative: it starts at 0 and only grows.
unfoldable pub revocation_retry_delay : ℕ → ℕ
revocation_retry_delay attempts =
    let exponent = max 1 (min attempts 10) in seconds (min (min (2 ^ exponent) i64_max) 3600)

unfoldable pub refresh_lease_is_active : Option Uuid → Option ℕ → ℕ → Bool
refresh_lease_is_active lease_id expires_at now =
    is_some lease_id && is_some_and expires_at (λ t. ltb now t)

-- `checked_mul` fails beyond the greatest `Duration`, which is longer than the poll maximum.
unfoldable pub next_refresh_poll_interval : ℕ → ℕ
next_refresh_poll_interval current = min (current * 2) refresh_poll_max

unfoldable pub context_from_model : WebSession → AuthContext
context_from_model m = record {
  user_id = m.user_id;
  email = m.email;
  source = session_cookie;
  supabase_session_id = m.supabase_session_id;
  session_hash = some m.id_hash;
  csrf_token = some m.csrf_token;
  expires_at = m.expires_at;
}

unfoldable pub map_auth_error : AuthProviderError → SessionError
map_auth_error invalid_credentials = unauthorized
map_auth_error unavailable = auth_upstream
map_auth_error invalid_response = auth_upstream

unfoldable pub resolve_rotated_session_id :
    Option Uuid → Option Uuid → Result AuthProviderError (Option Uuid)
resolve_rotated_session_id (some expected) (some actual) =
    if not (expected == actual) then err invalid_response else ok (some expected)
resolve_rotated_session_id (some expected) none = ok (some expected)
resolve_rotated_session_id none observed = ok observed

-- `validate_model`, with the server's own clock.
unfoldable pub validate_model : ℕ → WebSession → Result SessionError (Unit {0})
validate_model utc_now m =
    if is_some m.revoked_at || leb m.expires_at utc_now then err unauthorized else ok tt

-- `i32::saturating_add(1)`
unfoldable pub saturating_suc : ℕ → ℕ
saturating_suc n = min (n + 1) i32_max
