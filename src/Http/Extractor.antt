-- ===== src/Http/Extractor.antt =====
-- canonical-web-server.rs/src/auth/extractor.rs: who a request comes from, and the tests of its origin
-- and of its CSRF token.
use canonical_cloud.Base.{
  ℕ, List, Text, text, text_eq, Option, none, some, Bool, true, not, if◌then◌else◌, Result, ok, err,
  ◌==◌, nat_eq, option_beq, is_empty, lookup, strip_prefix, and_then, filter_some, or_else, ℤ,
}
use canonical_cloud.Auth.{AuthContext, CredentialSource, session_cookie, bearer}
use canonical_cloud.Session.Model.{SessionError}
use canonical_cloud.Session.World.{World, Service}
use canonical_cloud.Session.Refreshing.{Role, authenticate}
use canonical_cloud.Session.Bearer.{authenticate_bearer}
use canonical_cloud.Config.Load.{contains_text}
use canonical_cloud.Http.Errors.{AppError, from_session}

-- The headers of a request by their lower-case names; a value is `none` where `to_str` fails.
abbrev pub HeaderMap : Type 0
HeaderMap = List (Text × Option Text)

-- The cookies of the request, as `CookieJar` reads them.
abbrev pub CookieJar : Type 0
CookieJar = List (Text × Text)

pub record Parts : Type 0 where
  pub headers : HeaderMap
  pub jar : CookieJar

-- What the handlers read of the application's configuration.
pub record Site : Type 0 where
  pub allowed_origins : List Text
  pub session_cookie : Text
  pub cookie_secure : Bool

abbrev pub Action : Type 0 → Type 0
Action A = World → Result AppError A × World

-- `map_err(AppError::from)`
abbrev pub as_app : {A W : Type 0} → Result SessionError A × W → Result AppError A × W
as_app (ok a, w) = (ok a, w)
as_app (err e, w) = (err (from_session e), w)

-- `headers.get(…).and_then(|value| value.to_str().ok())`
unfoldable pub header_str : Text → HeaderMap → Option Text
header_str name headers = and_then (lookup name headers) λ value. value

unfoldable pub token_of : Option Text → Result AppError (Option Text)
token_of none = err AppError.unauthorized
token_of (some token) = ok (some token)

unfoldable pub bearer_of : Option Text → Result AppError (Option Text)
bearer_of none = err AppError.unauthorized
bearer_of (some value) =
    token_of (filter_some (strip_prefix (text "Bearer ") value) (λ token. not (is_empty token)))

unfoldable pub in_header : Option (Option Text) → Result AppError (Option Text)
in_header none = ok none
in_header (some value) = bearer_of value

unfoldable pub bearer_token : HeaderMap → Result AppError (Option Text)
bearer_token headers = in_header (lookup (text "authorization") headers)

module _ (service : Service) (timestamp_opt : ℤ → Option ℕ) (site : Site) where
  -- A bearer holds one of the permits while it is verified.
  unfoldable pub with_bearer : Bool → ℕ → Text → Action AuthContext
  with_bearer allow_bearer permits token w =
      if not allow_bearer
      then (err AppError.unauthorized, w)
      else if permits == 0
      then (err AppError.auth_busy, w)
      else as_app (authenticate_bearer service timestamp_opt token w)

  unfoldable pub with_cookie : Role → Option Text → Action AuthContext
  with_cookie role none w = (err AppError.unauthorized, w)
  with_cookie role (some raw_id) w = as_app (authenticate service role raw_id w)

  unfoldable pub by_credential :
      Role → Bool → ℕ → CookieJar → Result AppError (Option Text) → Action AuthContext
  by_credential role allow_bearer permits jar (err e) w = (err e, w)
  by_credential role allow_bearer permits jar (ok (some token)) w =
      with_bearer allow_bearer permits token w
  by_credential role allow_bearer permits jar (ok none) w =
      with_cookie role (lookup site.session_cookie jar) w

  -- `authenticate` of the extractor, with the free permits of `bearer_auth_semaphore`.
  unfoldable pub authenticate_request : Role → Parts → Bool → ℕ → Action AuthContext
  authenticate_request role parts allow_bearer permits =
      by_credential role allow_bearer permits parts.jar (bearer_token parts.headers)

  -- `OptionalAuthenticated`
  unfoldable pub optional_of : Result AppError AuthContext → Result AppError (Option AuthContext)
  optional_of (ok context) = ok (some context)
  optional_of (err AppError.unauthorized) = ok none
  optional_of (err error) = err error

  unfoldable pub optional_authenticated : Role → Parts → ℕ → Action (Option AuthContext)
  optional_authenticated role parts permits w =
      let (r, w') = authenticate_request role parts true permits w in (optional_of r, w')

unfoldable pub allowed_origin : List Text → Option Text → Result AppError (Unit {0})
allowed_origin origins none = err AppError.forbidden
allowed_origin origins (some origin) =
    if contains_text origin origins then ok tt else err AppError.forbidden

unfoldable pub require_origin : HeaderMap → Site → Result AppError (Unit {0})
require_origin headers site =
    allowed_origin site.allowed_origins (header_str (text "origin") headers)

unfoldable pub same_csrf : Option Text → Option Text → Result AppError (Unit {0})
same_csrf expected none = err AppError.forbidden
same_csrf expected (some supplied) =
    if option_beq expected (some supplied) then ok tt else err AppError.forbidden

unfoldable pub csrf_for : CredentialSource → Option Text → Option Text → Result AppError (Unit {0})
csrf_for bearer expected supplied = ok tt
csrf_for session_cookie expected supplied = same_csrf expected supplied

unfoldable pub require_csrf : AuthContext → HeaderMap → Option Text → Result AppError (Unit {0})
require_csrf context headers form_token =
    csrf_for context.source context.csrf_token
      (or_else (header_str (text "x-csrf-token") headers) form_token)
