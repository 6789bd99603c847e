-- ===== src/Auth/Supabase.antt =====
-- `SupabaseAuth` of canonical-web-server.rs/crates/canonical-auth/src/lib.rs: how the answers of the
-- hosted identity service are read. The HTTP client is a library: a request's outcome, the status
-- and the decoded body, is an argument. `Utc::now()` is an argument too.
use canonical_cloud.Base.{
  ℕ, ◌+◌, Option, none, some, Text, Bool, not, ◌&&◌, ◌||◌, if◌then◌else◌, Result, ok, err, ok_or,
  ◌>>=◌, ◌==◌, nat_eq, leb, unwrap_or,
}
use canonical_cloud.Auth.{
  AuthTokens, SupabaseUser, AuthProviderError, invalid_credentials, unavailable, invalid_response,
  seconds,
}
use canonical_cloud.Auth.Token.{TokenLibs, validated_session_id}

-- `send().await`: no answer, or a status with the body that `json()` decodes it to.
pub record Response (B : Type 0) : Type 0 where
  pub status : ℕ
  pub json : Option B

abbrev pub Sent : Type 0 → Type 0
Sent B = Option (Response B)

-- `StatusCode::is_success`
unfoldable pub is_success : ℕ → Bool
is_success status = leb 200 status && leb status 299

pub record TokenResponse : Type 0 where
  pub access_token : Text
  pub refresh_token : Text
  pub expires_in : ℕ
  -- The instant that `timestamp_opt` makes of `expires_at`, if the field is there and in range.
  pub expires_at : Option ℕ
  pub user : SupabaseUser

module _ (libs : TokenLibs) where
  -- The body of an accepted token request.
  unfoldable pub token_body : ℕ → TokenResponse → Result AuthProviderError AuthTokens
  token_body now response = do
    session_id ← validated_session_id libs response.access_token response.user.id
    session ← ok_or session_id invalid_response
    ok (record {
      access_token = response.access_token;
      refresh_token = response.refresh_token;
      expires_at = unwrap_or response.expires_at (now + seconds response.expires_in);
      user = response.user;
    })

  unfoldable pub token_request : ℕ → Sent TokenResponse → Result AuthProviderError AuthTokens
  token_request now none = err unavailable
  token_request now (some response) =
      if response.status == 400 || response.status == 401
      then err invalid_credentials
      else if not (is_success response.status)
      then err unavailable
      else do body ← ok_or response.json invalid_response; token_body now body

unfoldable pub user_for_token : Sent SupabaseUser → Result AuthProviderError SupabaseUser
user_for_token none = err unavailable
user_for_token (some response) =
    if response.status == 401
    then err invalid_credentials
    else if not (is_success response.status)
    then err unavailable
    else ok_or response.json invalid_response

unfoldable pub sign_out : Sent (Unit {0}) → Result AuthProviderError (Unit {0})
sign_out none = err unavailable
sign_out (some response) =
    if is_success response.status
    then ok tt
    else if response.status == 401
    then err invalid_credentials
    else err unavailable
