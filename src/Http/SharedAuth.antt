-- ===== src/Http/SharedAuth.antt =====
-- canonical-web-server.rs/src/auth/shared_auth.rs: the verification of Shared Auth tokens, and
-- `authenticate_quote` of canonical-web-server.rs/src/auth/extractor.rs, which uses it. The HTTP client,
-- SHA-256, base64, JSON, UUID and time-stamp parsing are libraries, and parameters here.
use canonical_cloud.Base.{
  ℕ, ◌+◌, ◌*◌, ◌/◌, ◌%◌, ◌^◌, List, [], ◌∷◌, ◌++◌, Text, text, text_eq, Option, none, some, Bool,
  not, ◌&&◌, ◌||◌, if◌then◌else◌, Result, ok, err, ok_or, ltb, leb, ◌==◌, nat_eq, is_empty, is_some,
  is_none, all, lookup, trim, contains, utf8_len, and_then, filter_some, unwrap_or,
  to_ascii_lowercase, ℤ, ◌>>=◌, ◌>>◌,
}
use canonical_cloud.Auth.{AuthContext, CredentialSource, session_cookie, bearer, seconds}
use canonical_cloud.Auth.Token.{TokenLibs, split}
use canonical_cloud.Session.World.{Service, after}
use canonical_cloud.Session.Refreshing.{Role}
use canonical_cloud.Session.Bearer.{second, claim_expiry}
use canonical_cloud.Config.Urls.{Url}
use canonical_cloud.Config.Load.{starts_with}
use canonical_cloud.Http.Errors.{AppError}
use canonical_cloud.Http.Extractor.{
  HeaderMap, CookieJar, Parts, Site, Action, header_str, bearer_token, with_cookie,
}

abbrev pub max_token_bytes : ℕ
max_token_bytes = 16 * 1024

abbrev pub max_email_bytes : ℕ
max_email_bytes = 320

pub record VerifyResponse : Type 0 where
  pub status : ℕ
  pub headers : HeaderMap

-- The verifier with its libraries: `send` asks the realm about a token, `timestamp_opt` is that of
-- Session/Bearer.antt.
pub record SharedAuthVerifier : Type 0 where
  pub cookie_name : Text
  pub csrf_key : List ℕ
  pub send : Text → Option VerifyResponse
  pub tokens : TokenLibs
  pub timestamp_opt : ℤ → Option ℕ
  pub digest : List ℕ → List ℕ
  pub encode : List ℕ → Text
  pub as_bytes : Text → List ℕ

unfoldable pub required_header : HeaderMap → Text → Result AppError Text
required_header headers name =
    ok_or
      (filter_some (and_then (header_str name headers) λ value. some (trim value))
        (λ value. not (is_empty value)))
      AppError.unauthorized

-- `char::is_control`
unfoldable pub is_control : ℕ → Bool
is_control c = leb c 31 || (leb 127 c && leb c 159)

unfoldable pub no_control : Text → Bool
no_control s = all (λ c. not (is_control c)) s

-- `u64::to_be_bytes`
unfoldable pub to_be_bytes : ℕ → List ℕ
to_be_bytes n =
    n / 2 ^ 56 % 256
    ∷ n / 2 ^ 48 % 256
    ∷ n / 2 ^ 40 % 256
    ∷ n / 2 ^ 32 % 256
    ∷ n / 2 ^ 24 % 256
    ∷ n / 2 ^ 16 % 256
    ∷ n / 2 ^ 8 % 256
    ∷ n % 256
    ∷ []

-- The test of the response's status.
unfoldable pub accepted : ℕ → Result AppError (Unit {0})
accepted status =
    if status == 200
    then ok tt
    else if status == 401 || status == 403
    then err AppError.unauthorized
    else if status == 429
    then err AppError.auth_busy
    else err AppError.auth_upstream

unfoldable pub checked_email : Text → Result AppError Text
checked_email email =
    if is_empty email || ltb max_email_bytes (utf8_len email) || not (no_control email)
    then err AppError.unauthorized
    else ok email

module _ (shared : SharedAuthVerifier) where
  unfoldable pub token_fingerprint : Text → Text
  token_fingerprint token = shared.encode (
      shared.digest (
        shared.as_bytes (text "canonical-plus/shared-auth-token/v1")
        ++ (0 ∷ shared.as_bytes token)))

  unfoldable pub csrf_token : Text → Text
  csrf_token token = shared.encode (
      shared.digest (
        shared.as_bytes (text "canonical-plus/shared-auth-csrf/v1")
        ++ (0 ∷ (shared.csrf_key ++ (to_be_bytes (utf8_len token) ++ shared.as_bytes token)))))

  unfoldable pub csrf_token_for_source : Text → CredentialSource → Option Text
  csrf_token_for_source token session_cookie = some (csrf_token token)
  csrf_token_for_source token bearer = none

  unfoldable pub verified_expiry : ℕ → Text → ℕ
  verified_expiry now token =
      unwrap_or
        (filter_some
          (and_then (second (split b'.' token)) λ payload.
            and_then (shared.tokens.decode_no_pad payload) λ bytes.
              and_then (shared.tokens.parse_json bytes) (claim_expiry shared.timestamp_opt))
          (λ expiry. ltb now expiry))
        (now + seconds 300)

  -- The identity of a token that the realm has accepted.
  unfoldable pub identified : CredentialSource → ℕ → Text → HeaderMap → Result AppError AuthContext
  identified source now token headers = do
    id ← required_header headers (text "x-auth-user-id")
    user_id ← ok_or (shared.tokens.parse_uuid id) AppError.unauthorized
    given ← required_header headers (text "x-auth-email")
    email ← checked_email given
    provider ← required_header headers (text "x-auth-provider")
    provider_tenant ← required_header headers (text "x-auth-provider-tenant")
    ok record {
      user_id = user_id;
      email = email;
      source = source;
      supabase_session_id = none;
      session_hash = some (token_fingerprint token);
      csrf_token = csrf_token_for_source token source;
      expires_at = verified_expiry now token;
    }

  unfoldable pub on_response :
      CredentialSource → ℕ → Text → Option VerifyResponse → Result AppError AuthContext
  on_response source now token none = err AppError.auth_upstream
  on_response source now token (some response) =
      accepted response.status >> identified source now token response.headers

  -- `now` is the server's clock behind the request.
  unfoldable pub authenticate_as : CredentialSource → ℕ → Text → Result AppError AuthContext
  authenticate_as source now token =
      if is_empty token || ltb max_token_bytes (utf8_len token)
      then err AppError.unauthorized
      else on_response source now token (shared.send token)

  -- The verification among other tasks, which holds one of the permits.
  unfoldable pub verify : CredentialSource → ℕ → Text → Action AuthContext
  verify source permits token w =
      let w' = after w.events w in
      if permits == 0
      then (err AppError.auth_busy, w)
      else (authenticate_as source w'.utc_now token, w')

  module _ (service : Service) (site : Site) where
    unfoldable pub with_shared_cookie : ℕ → Option Text → Action AuthContext
    with_shared_cookie permits none w = (err AppError.unauthorized, w)
    with_shared_cookie permits (some token) w = verify session_cookie permits token w

    -- A request without an `Authorization` header.
    unfoldable pub by_cookies : Role → ℕ → CookieJar → Action AuthContext
    by_cookies role permits jar =
        if is_some (lookup site.session_cookie jar)
        then with_cookie service shared.timestamp_opt site role (lookup site.session_cookie jar)
        else with_shared_cookie permits (lookup shared.cookie_name jar)

    unfoldable pub with_shared_bearer : Bool → ℕ → Text → Action AuthContext
    with_shared_bearer allow_bearer permits token w =
        if not allow_bearer then (err AppError.unauthorized, w) else verify bearer permits token w

    unfoldable pub by_quote_credential :
        Role → Bool → ℕ → CookieJar → Result AppError (Option Text) → Action AuthContext
    by_quote_credential role allow_bearer permits jar (err e) w = (err e, w)
    by_quote_credential role allow_bearer permits jar (ok (some token)) w =
        with_shared_bearer allow_bearer permits token w
    by_quote_credential role allow_bearer permits jar (ok none) w = by_cookies role permits jar w

    unfoldable pub authenticate_quote : Role → Parts → Bool → ℕ → Action AuthContext
    authenticate_quote role parts allow_bearer permits =
        by_quote_credential role allow_bearer permits parts.jar (bearer_token parts.headers)

-- The characters of a cookie's name.
unfoldable pub is_cookie_char : ℕ → Bool
is_cookie_char c =
    (leb 48 c && leb c 57)
    || (leb 65 c && leb c 90)
    || (leb 97 c && leb c 122)
    || c == b'!'
    || (leb 35 c && leb c 43)
    || c == b'-'
    || c == b'.'
    || (leb 94 c && leb c 96)
    || c == b'|'
    || c == b'~'

unfoldable pub validate_cookie_name : Text → Bool → Result AppError (Unit {0})
validate_cookie_name value secure =
    let valid = not (is_empty value) && leb (utf8_len value) 128 && all is_cookie_char value in
    if not valid || (secure && not (starts_with (text "__Host-") value))
    then err (
        AppError.bad_request
          (text "SHARED_AUTH_BROWSER_COOKIE_NAME must be a valid host-only cookie name"))
    else ok tt

-- `str::ends_with`
unfoldable pub ends_with : Text → Text → Bool
ends_with suffix [] = is_empty suffix
ends_with suffix (c ∷ s) = (c ∷ s) == suffix || ends_with suffix s

-- The hosts that plain HTTP may go to.
unfoldable pub is_local_host : Text → Bool
is_local_host host =
    to_ascii_lowercase host == text "localhost"
    || host == text "127.0.0.1"
    || host == text "::1"
    || ends_with (text ".svc") host
    || contains (text ".svc.") host

unfoldable pub validate_verify_url : Url → Result AppError (Unit {0})
validate_verify_url url =
    if not (is_empty url.username)
      || is_some url.password
      || is_some url.query
      || is_some url.fragment
      || is_none url.host_str
    then err (
        AppError.bad_request
          (text "SHARED_AUTH_VERIFY_URL must not contain credentials, query, or fragment"))
    else if not (url.scheme == text "https")
        && not (url.scheme == text "http" && is_local_host (unwrap_or url.host_str []))
    then err (
        AppError.bad_request (
          text
            "SHARED_AUTH_VERIFY_URL requires HTTPS except on loopback or Kubernetes service DNS"))
    else ok tt
