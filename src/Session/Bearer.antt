-- ===== src/Session/Bearer.antt =====
-- `authenticate_bearer` and `bearer_expiry` of
-- canonical-web-server.rs/crates/canonical-session/src/lib.rs.
use canonical_cloud.Base.{
  ℕ, suc, zero, ◌+◌, List, [], ◌∷◌, Option, none, some, Text, text, if◌then◌else◌, leb, unwrap_or,
  and_then, ℤ, pos, negsuc, map_err,
}
use canonical_cloud.Auth.{Uuid, AuthContext, SupabaseUser, bearer, seconds}
use canonical_cloud.Auth.Json.{Json, num, neg, get}
use canonical_cloud.Auth.Token.{TokenLibs, split, validated_session_id}
use canonical_cloud.Session.Policy.{map_auth_error, i64_max}
use canonical_cloud.Session.World.{
  Service, M, pure, lift, transact, utc_now, call_user, ◌>>=◌, ◌>>◌,
}
use canonical_cloud.Session.Refreshing.{reject_locally_revoked_bearer}

-- `Value::as_i64`: `neg n` is -n.
unfoldable pub as_i64 : Json → Option ℤ
as_i64 (num n) = if leb n i64_max then some (pos n) else none
as_i64 (neg zero) = some (pos 0)
as_i64 (neg (suc n)) = if leb n i64_max then some (negsuc n) else none
as_i64 _ = none

-- `str::split` and `nth(1)`
unfoldable pub second : List Text → Option Text
second (header ∷ payload ∷ rest) = some payload
second _ = none

unfoldable pub claim_expiry : (ℤ → Option ℕ) → Json → Option ℕ
claim_expiry timestamp_opt claims =
    and_then (get (text "exp") claims) λ exp. and_then (as_i64 exp) timestamp_opt

-- `timestamp_opt` is `Utc.timestamp_opt(…, 0).single()`, with an instant before 1970 as 0.
unfoldable pub bearer_expiry : TokenLibs → (ℤ → Option ℕ) → Text → Option ℕ
bearer_expiry libs timestamp_opt token = and_then (second (split b'.' token)) λ payload.
    and_then (libs.decode_no_pad payload)
      λ bytes. and_then (libs.parse_json bytes) (claim_expiry timestamp_opt)

module _ (service : Service) (timestamp_opt : ℤ → Option ℕ) where
  open service use {libs}

  unfoldable pub reject_revoked : Uuid → Option Uuid → M (Unit {0})
  reject_revoked user_id none = pure tt
  reject_revoked user_id (some session_id) =
      transact (reject_locally_revoked_bearer user_id session_id)

  unfoldable pub bearer_context : Text → SupabaseUser → Option Uuid → ℕ → AuthContext
  bearer_context token user session_id now = record {
    user_id = user.id;
    email = unwrap_or user.email [];
    source = bearer;
    supabase_session_id = session_id;
    session_hash = none;
    csrf_token = none;
    expires_at = unwrap_or (bearer_expiry libs.tokens timestamp_opt token) (now + seconds 300);
  }

  unfoldable pub authenticate_bearer : Text → M AuthContext
  authenticate_bearer token = do
    answer ← call_user service token
    user ← lift (map_err map_auth_error answer)
    session_id ← lift (map_err map_auth_error (validated_session_id libs.tokens token user.id))
    reject_revoked user.id session_id
    now ← utc_now
    pure (bearer_context token user session_id now)
