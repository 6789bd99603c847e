-- ===== src/Session/Create.antt =====
-- `SessionService::create` of canonical-web-server.rs/crates/canonical-session/src/lib.rs: a new
-- session row and the profile of its user, in one transaction. The random draws are arguments.
use canonical_cloud.Base.{
  ℕ, ◌+◌, ◌*◌, Option, none, some, List, ◌∷◌, Text, text, if◌then◌else◌, Result, ok, err, map_err,
  ◌>>=◌, ltb, is_some, unwrap_or, nat_eq, lookup, insert,
}
use canonical_cloud.Auth.{Uuid, AuthContext, AuthTokens, session_cookie}
use canonical_cloud.Auth.Token.{validated_session_id}
use canonical_cloud.Session.Model.{
  WebSession, SessionError, bad_request, database, Rows, find_by_id,
}
use canonical_cloud.Session.Policy.{map_auth_error, i64_max}
use canonical_cloud.Session.Cipher.{encrypt, hash_token}
use canonical_cloud.Session.Revocation.{Libs}

-- `user_profile` (canonical-web-server.rs/crates/canonical-store/src/entity/user_profile.rs).
pub record UserProfile : Type 0 where
  pub user_id : Uuid
  pub email : Text
  pub display_name : Option Text
  pub created_at : ℕ
  pub updated_at : ℕ

abbrev pub Profiles : Type 0
Profiles = List (Uuid × UserProfile)

-- The random draws of one call: the session identifier, the CSRF token and the two nonces.
pub record Draws : Type 0 where
  pub raw_id : Text
  pub csrf_token : Text
  pub access_nonce : List ℕ
  pub refresh_nonce : List ℕ

pub record CreatedSession : Type 0 where
  pub raw_id : Text
  pub csrf_token : Text
  pub context : AuthContext

-- The row that `create` inserts.
unfoldable pub new_session :
    Text → AuthTokens → Option Uuid → Text → Text → Text → ℕ → ℕ → WebSession
new_session id_hash tokens session_id access refresh csrf_token now expires_at = record {
  id_hash = id_hash;
  user_id = tokens.user.id;
  email = unwrap_or tokens.user.email (text "");
  supabase_session_id = session_id;
  encrypted_access_token = access;
  encrypted_refresh_token = refresh;
  access_expires_at = tokens.expires_at;
  refresh_lease_id = none;
  refresh_lease_expires_at = none;
  csrf_token = csrf_token;
  created_at = now;
  updated_at = now;
  expires_at = expires_at;
  revoked_at = none;
  revocation_pending_at = none;
  revocation_next_attempt_at = none;
  revocation_attempts = 0;
  upstream_revoked_at = none;
  revocation_abandoned_at = none;
  revocation_failure_kind = none;
}

-- `INSERT … ON CONFLICT (user_id) DO UPDATE SET email, updated_at`
unfoldable pub upsert_profile : AuthTokens → ℕ → Profiles → Profiles
upsert_profile tokens now profiles =
    let email : Text = unwrap_or tokens.user.email (text "") in
    insert tokens.user.id
      (elim (lookup tokens.user.id profiles) [
        | none ↦ record {
          user_id = tokens.user.id;
          email = email;
          display_name = none;
          created_at = now;
          updated_at = now;
        }
        | some profile ↦ record profile { email = email; updated_at = now }
      ])
      profiles

-- `ChronoDuration::from_std`: a duration counts at most `i64::MAX` milliseconds.
unfoldable pub duration_from_std : ℕ → Result SessionError ℕ
duration_from_std ttl =
    if ltb (i64_max * 1000000) ttl
    then err (bad_request (text "session TTL is too large"))
    else ok ttl

-- `INSERT` fails on a key that is there.
unfoldable pub insert_session : WebSession → Rows → Result SessionError Rows
insert_session m rows = if is_some (find_by_id m.id_hash rows) then err database else ok (m ∷ rows)

unfoldable pub created_context : Draws → WebSession → CreatedSession
created_context draws m = record {
  raw_id = draws.raw_id;
  csrf_token = draws.csrf_token;
  context = record {
    user_id = m.user_id;
    email = m.email;
    source = session_cookie;
    supabase_session_id = m.supabase_session_id;
    session_hash = some m.id_hash;
    csrf_token = some draws.csrf_token;
    expires_at = m.expires_at;
  };
}

-- The row that a successful call inserts; nothing is written before it is complete.
unfoldable pub created_row : Libs → Draws → ℕ → ℕ → AuthTokens → Result SessionError WebSession
created_row libs draws ttl now tokens = do
  lifetime ← duration_from_std ttl
  session_id ←
      map_err map_auth_error (validated_session_id libs.tokens tokens.access_token tokens.user.id)
  access ← encrypt libs.cipher draws.access_nonce tokens.access_token
  refresh ← encrypt libs.cipher draws.refresh_nonce tokens.refresh_token
  ok (
      new_session (hash_token libs.cipher draws.raw_id) tokens session_id access refresh
        draws.csrf_token now (now + lifetime))

-- An error leaves both tables as they were.
unfoldable pub create :
    Libs
    → Draws
    → ℕ
    → ℕ
    → AuthTokens
    → Rows
    → Profiles
    → Result SessionError (CreatedSession × Rows × Profiles)
create libs draws ttl now tokens rows profiles = do
  m ← created_row libs draws ttl now tokens
  rows' ← insert_session m rows
  ok (created_context draws m, rows', upsert_profile tokens now profiles)
