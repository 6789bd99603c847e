-- ===== src/Http/Routes.antt =====
-- The routes that change state: `login` and `logout` of canonical-web-server.rs/src/routes/auth.rs,
-- `push` of canonical-web-server.rs/src/routes/api/mod.rs and `upgrade` of
-- canonical-web-server.rs/src/routes/websocket.rs.
use canonical_cloud.Session.Policy.{i64_max}
use canonical_cloud.Base.{
  ℤ, min, ◌/◌, ℕ, List, [], ◌∷◌, Text, text, text_eq, Option, none, some, Bool, true, false,
  if◌then◌else◌, Result, ok, err, ◌==◌, nat_eq, is_some, is_some_and, lookup, ◌>>◌,
}
use canonical_cloud.Auth.{
  Uuid, AuthContext, CredentialSource, session_cookie, bearer, AuthTokens, AuthProviderError,
  invalid_credentials,
}
use canonical_cloud.RateLimit.{LoginRateLimiter, State, check}
use canonical_cloud.Session.Model.{SessionError, Rows}
use canonical_cloud.Session.Revocation.{Libs}
use canonical_cloud.Session.Create.{Draws, Profiles, CreatedSession, create}
use canonical_cloud.Session.World.{Service, World}
use canonical_cloud.Session.Flows.{revoke}
use canonical_cloud.Session.Refreshing.{Role}
use canonical_cloud.WebSocket.Hub.{ConnectionCounts, try_acquire_socket}
use canonical_cloud.Http.Errors.{AppError, from_session}
use canonical_cloud.Http.Extractor.{
  HeaderMap, CookieJar, Site, Action, as_app, require_origin, require_csrf, authenticate_request,
}

-- A handler behind its tests: `?` on their result.
unfoldable pub guarded :
    {A S : Type 0}
    → Result AppError (Unit {0})
    → (S → Result AppError A × S)
    → S
    → Result AppError A × S
guarded (err e) run s = (err e, s)
guarded (ok _) run s = run s

-- `if actor.source == CredentialSource::SessionCookie`
unfoldable pub for_cookie :
    CredentialSource → Result AppError (Unit {0}) → Result AppError (Unit {0})
for_cookie session_cookie tests = tests
for_cookie bearer tests = ok tt

-- The tests of `push` on a request that comes with a cookie.
unfoldable pub push_guard : Site → AuthContext → HeaderMap → Result AppError (Unit {0})
push_guard site actor headers =
    for_cookie actor.source (require_origin headers site >> require_csrf actor headers none)

-- `push`, in front of `push_mutations`, which is `run` here.
unfoldable pub push :
    {A S : Type 0}
    → Site
    → AuthContext
    → HeaderMap
    → (S → Result AppError A × S)
    → S
    → Result AppError A × S
push site actor headers run = guarded (push_guard site actor headers) run

unfoldable pub permitted : Option Uuid × ConnectionCounts → Result AppError Uuid × ConnectionCounts
permitted (none, counts) = (err (AppError.rate_limited 60), counts)
permitted (some permit, counts) = (ok permit, counts)

-- `upgrade`, up to the permit that the socket holds.
unfoldable pub upgrade :
    Site → AuthContext → HeaderMap → ConnectionCounts → Result AppError Uuid × ConnectionCounts
upgrade site actor headers =
    guarded (for_cookie actor.source (require_origin headers site))
      λ counts. permitted (try_acquire_socket actor.user_id counts)

pub record LoginForm : Type 0 where
  pub email : Text
  pub password : Text
  pub csrf : Text

-- What a login reads and writes: the limiter, the tables, and the sign-ins that the identity provider
-- was asked for, the newest first.
pub record LoginState : Type 0 where
  pub limiter : State
  pub rows : Rows
  pub profiles : Profiles
  pub sign_ins : List (Text × Text)

-- A cookie of a response, for the path `/`, `HttpOnly` and `SameSite=Lax`; its age in seconds.
pub record Cookie : Type 0 where
  pub name : Text
  pub value : Text
  pub secure : Bool
  pub max_age : Option ℕ

-- `jar.remove(…)` and `jar.add(…)`
pub data CookieChange : Type 0 where
  removed added : Cookie → CookieChange

unfoldable pub removal_cookie : Text → Bool → Cookie
removal_cookie name secure = record { name = name; value = []; secure = secure; max_age = some 0 }

-- The page with the refusal, as a whole or as a part for htmx, or the way to the application with its
-- cookies.
pub data LoginResponse : Type 0 where
  not_accepted : Bool → LoginResponse
  logged_in : CreatedSession → List CookieChange → Bool → LoginResponse

-- What a login takes from the application: the limiter with its digest, the provider, the session
-- service with its random draws and its lifetime.
pub record LoginService : Type 0 where
  pub limiter : LoginRateLimiter
  pub digest : Text → Text
  pub password_sign_in : Text → Text → Result AuthProviderError AuthTokens
  pub libs : Libs
  pub draws : Draws
  pub session_ttl : ℕ

abbrev pub login_csrf_cookie : Text
login_csrf_cookie = text "canonical_login_csrf"

-- `headers.contains_key("hx-request")`
unfoldable pub is_htmx : HeaderMap → Bool
is_htmx headers = is_some (lookup (text "hx-request") headers)

unfoldable pub csrf_matches : CookieJar → LoginForm → Bool
csrf_matches jar form = is_some_and (lookup login_csrf_cookie jar) (λ value. value == form.csrf)

module _ (service : LoginService) (site : Site) where
  -- The cookies of a login: that of the page goes, and that of the session comes.
  unfoldable pub login_cookies : CreatedSession → List CookieChange
  login_cookies created =
      removed (removal_cookie login_csrf_cookie site.cookie_secure)
      ∷ added record {
        name = site.session_cookie;
        value = created.raw_id;
        secure = site.cookie_secure;
        max_age = some (min (service.session_ttl / 1000000000) i64_max);
      }
      ∷ []

  -- The session of the tokens.
  unfoldable pub stored_login :
      Bool
      → LoginState
      → Result SessionError (CreatedSession × Rows × Profiles)
      → Result AppError LoginResponse × LoginState
  stored_login htmx s (err e) = (err (from_session e), s)
  stored_login htmx s (ok (created, rows, profiles)) = (
    ok (logged_in created (login_cookies created) htmx),
    record s { rows = rows; profiles = profiles },
  )

  unfoldable pub on_sign_in :
      Bool
      → ℕ
      → LoginState
      → Result AuthProviderError AuthTokens
      → Result AppError LoginResponse × LoginState
  on_sign_in htmx now s (err invalid_credentials) = (ok (not_accepted htmx), s)
  on_sign_in htmx now s (err error) = (err AppError.auth_upstream, s)
  on_sign_in htmx now s (ok tokens) =
      stored_login htmx s
        (create service.libs service.draws service.session_ttl now tokens s.rows s.profiles)

  -- The sign-in, with the free permits of `login_auth_semaphore`.
  unfoldable pub sign_in :
      LoginForm → Bool → ℕ → ℕ → LoginState → Result AppError LoginResponse × LoginState
  sign_in form htmx permits now s =
      if permits == 0
      then (err AppError.login_auth_busy, s)
      else on_sign_in htmx now (record s { sign_ins = (form.email, form.password) ∷ s.sign_ins })
          (service.password_sign_in form.email form.password)

  unfoldable pub limited :
      LoginForm
      → Bool
      → ℕ
      → ℕ
      → LoginState
      → Result ℕ (Unit {0}) × State
      → Result AppError LoginResponse × LoginState
  limited form htmx permits now s (err retry_after_seconds, limiter) =
      (err (AppError.rate_limited retry_after_seconds), record s { limiter = limiter })
  limited form htmx permits now s (ok _, limiter) =
      sign_in form htmx permits now (record s { limiter = limiter })

  unfoldable pub csrf_test : Bool → Result AppError (Unit {0})
  csrf_test true = ok tt
  csrf_test false = err AppError.forbidden

  -- The tests of `login` before it spends an attempt.
  unfoldable pub login_guard : HeaderMap → CookieJar → LoginForm → Result AppError (Unit {0})
  login_guard headers jar form = require_origin headers site >> csrf_test (csrf_matches jar form)

  -- `now` is the limiter's clock, and the server's for the session.
  unfoldable pub login :
      HeaderMap
      → CookieJar
      → LoginForm
      → ℕ
      → ℕ
      → LoginState
      → Result AppError LoginResponse × LoginState
  login headers jar form permits now = guarded (login_guard headers jar form) λ s.
      limited form (is_htmx headers) permits now s
        (check service.limiter service.digest form.email now s.limiter)

pub record LogoutResponse : Type 0 where
  pub cookie : CookieChange
  pub clear_site_data : Text

module _ (service : Service) (site : Site) where
  -- `revoke` of the request's session, if it names one.
  unfoldable pub revoke_cookie : Option Text → Action (Unit {0})
  revoke_cookie none w = (ok tt, w)
  revoke_cookie (some raw_id) w = as_app (revoke service raw_id w)

  unfoldable pub logout_guard : AuthContext → HeaderMap → Text → Result AppError (Unit {0})
  logout_guard actor headers csrf =
      require_origin headers site >> require_csrf actor headers (some csrf)

  -- The redirection to the login, which removes the cookie and all that the site has stored.
  unfoldable pub logged_out :
      {W : Type 0} → Result AppError (Unit {0}) × W → Result AppError LogoutResponse × W
  logged_out (err e, w) = (err e, w)
  logged_out (ok _, w) = (
    ok record {
      cookie = removed (removal_cookie site.session_cookie site.cookie_secure);
      clear_site_data = text "\"cache\", \"cookies\", \"storage\"";
    },
    w,
  )

  -- `logout` of an actor.
  unfoldable pub logout_as : AuthContext → HeaderMap → CookieJar → Text → Action LogoutResponse
  logout_as actor headers jar csrf =
      guarded (logout_guard actor headers csrf)
        λ w. logged_out (revoke_cookie (lookup site.session_cookie jar) w)

  -- The handler behind its extractor.
  unfoldable pub as_actor :
      HeaderMap
      → CookieJar
      → Text
      → Result AppError AuthContext × World
      → Result AppError LogoutResponse × World
  as_actor headers jar csrf (err e, w) = (err e, w)
  as_actor headers jar csrf (ok actor, w) = logout_as actor headers jar csrf w

  -- `logout`, with `SessionAuthenticated`: the extractor takes the cookie only.
  unfoldable pub logout :
      (ℤ → Option ℕ) → Role → HeaderMap → CookieJar → Text → Action LogoutResponse
  logout timestamp_opt role headers jar csrf w = as_actor headers jar csrf (
      authenticate_request service timestamp_opt site role (record { headers = headers; jar = jar })
        false 0 w)
