-- ===== src/Http/Guards.antt =====
-- What the tests of canonical-web-server.rs/src/auth/extractor.rs let through, and what the routes
-- behind them do.
use canonical_cloud.Base.{
  ℕ, ◌≡◌, ◌⊎◌, refl, ap, arith, List, Text, text, text_eq, text_beq_iff, Option, none, some, Bool,
  true, false, Result, ok, err, nat_eq, lookup, or_else, inl, inr, ℤ, ◌>>◌,
}
use canonical_cloud.Auth.{AuthContext, CredentialSource, session_cookie, bearer}
use canonical_cloud.Session.World.{World, Service}
use canonical_cloud.Session.Refreshing.{Role}
use canonical_cloud.Config.Load.{contains_text}
use canonical_cloud.Http.Errors.{AppError}
use canonical_cloud.Http.Extractor.{
  HeaderMap, CookieJar, Site, header_str, token_of, bearer_of, in_header, bearer_token, with_bearer,
  by_credential, authenticate_request, allowed_origin, require_origin, same_csrf, csrf_for,
  require_csrf,
}
use canonical_cloud.Http.Routes.{guarded, for_cookie, push_guard, push}

abbrev IsBearer : Result AppError (Option Text) → Type 0
IsBearer r = (r ≡ err AppError.unauthorized) ⊎ ((token : Text) × (r ≡ ok (some token)))

token_of-IsBearer : (o : Option Text) → IsBearer (token_of o)
unfolding token_of
token_of-IsBearer none = inl refl
token_of-IsBearer (some token) = inr (token, refl)

-- A request with an `Authorization` header is refused or has a token.
bearer_of-IsBearer : (value : Option Text) → IsBearer (bearer_of value)
unfolding bearer_of
bearer_of-IsBearer none = inl refl
bearer_of-IsBearer (some value) = token_of-IsBearer _

bearer_token-present :
    (headers : HeaderMap) (value : Option Text)
    → lookup (text "authorization") headers ≡ some value
    → bearer_token headers ≡ bearer_of value
unfolding bearer_token in_header
bearer_token-present headers value h = ap in_header h

module _ (service : Service) (timestamp_opt : ℤ → Option ℕ) (site : Site) where
  bearer-credential :
      (role : Role) (value : Option Text) (jar jar' : CookieJar) (allow_bearer : Bool) (permits : ℕ)
      (w : World)
      → (by_credential service timestamp_opt site role allow_bearer permits jar (bearer_of value) w
          ≡ by_credential service timestamp_opt site role allow_bearer permits jar'
              (bearer_of value)
              w)
        × (by_credential service timestamp_opt site role false permits jar (bearer_of value) w
            ≡ (err AppError.unauthorized, w))
  unfolding by_credential with_bearer
  bearer-credential role value jar jar' allow_bearer permits w = elim (bearer_of-IsBearer value) [
    | inl e ↦ rw e (refl, refl)
    | inr (token, e) ↦ rw e (refl, refl)
  ]

  -- A request with an `Authorization` header never falls back to a cookie: its answer, and what it
  -- does, do not depend on the cookies, and where bearers are not allowed it is refused and does
  -- nothing.
  pub authenticate_request-bearer :
      (role : Role) (headers : HeaderMap) (value : Option Text) (jar jar' : CookieJar)
      (allow_bearer : Bool) (permits : ℕ) (w : World)
      → lookup (text "authorization") headers ≡ some value
      → (authenticate_request service timestamp_opt site role
            (record { headers = headers; jar = jar })
            allow_bearer
            permits
            w
          ≡ authenticate_request service timestamp_opt site role
              (record { headers = headers; jar = jar' })
              allow_bearer
              permits
              w)
        × (authenticate_request service timestamp_opt site role
              (record { headers = headers; jar = jar })
              false
              permits
              w
            ≡ (err AppError.unauthorized, w))
  unfolding authenticate_request
  authenticate_request-bearer role headers value jar jar' allow_bearer permits w h =
      rw (bearer_token-present headers value h)
        (bearer-credential role value jar jar' allow_bearer permits w)

-- The origin of the request is allowed.
abbrev pub FromSite : HeaderMap → Site → Type 0
FromSite headers site =
    (origin : Text) × (header_str (text "origin") headers ≡ some origin)
    × (contains_text origin site.allowed_origins ≡ true)

pub allowed_origin_sound :
    (origins : List Text) (o : Option Text)
    → allowed_origin origins o ≡ ok tt
    → (origin : Text) × (o ≡ some origin) × (contains_text origin origins ≡ true)
unfolding allowed_origin
allowed_origin_sound origins none h = cc h
allowed_origin_sound origins (some origin) h = (origin, refl, ground (arith, h))

-- The token that comes with the request is the actor's.
abbrev pub HasCsrf : AuthContext → Option Text → Type 0
HasCsrf actor supplied = (token : Text) × (supplied ≡ some token) × (actor.csrf_token ≡ some token)

same_csrf_sound :
    (expected supplied : Option Text)
    → same_csrf expected supplied ≡ ok tt
    → (token : Text) × (supplied ≡ some token) × (expected ≡ some token)
unfolding same_csrf
same_csrf_sound expected none h = cc h
same_csrf_sound none (some token) h = cc h
same_csrf_sound (some other) (some token) h =
    (token, refl, ap (λ t. some t) ((text_beq_iff other token).0 (ground (arith, h))))

csrf_for_sound :
    (source : CredentialSource) (expected supplied : Option Text)
    → csrf_for source expected supplied ≡ ok tt
    → (source ≡ bearer) ⊎ ((token : Text) × (supplied ≡ some token) × (expected ≡ some token))
unfolding csrf_for
csrf_for_sound bearer expected supplied h = inl refl
csrf_for_sound session_cookie expected supplied h = inr (same_csrf_sound expected supplied h)

pub both : (a b : Result AppError (Unit {0})) → (a >> b) ≡ ok tt → (a ≡ ok tt) × (b ≡ ok tt)
both (ok tt) b h = (refl, h)
both (err e) b h = cc h

-- The guards of a request that a cookie has authenticated: it comes from an allowed origin, and has
-- the actor's own token, in its header or else in the form.
pub guards_sound :
    (site : Site) (actor : AuthContext) (headers : HeaderMap) (form_token : Option Text)
    → (require_origin headers site >> require_csrf actor headers form_token) ≡ ok tt
    → FromSite headers site
      × ((actor.source ≡ bearer)
          ⊎ HasCsrf actor (or_else (header_str (text "x-csrf-token") headers) form_token))
unfolding require_origin require_csrf
guards_sound site actor headers form_token h =
    let (a, b) = both _ _ h in
    (
      allowed_origin_sound site.allowed_origins (header_str (text "origin") headers) a,
      csrf_for_sound actor.source actor.csrf_token _ b,
    )

for_cookie_sound :
    (source : CredentialSource) (tests : Result AppError (Unit {0}))
    → for_cookie source tests ≡ ok tt
    → (source ≡ bearer) ⊎ (tests ≡ ok tt)
unfolding for_cookie
for_cookie_sound bearer tests h = inl refl
for_cookie_sound session_cookie tests h = inr h

-- A handler whose tests fail has changed nothing.
pub guarded-cases :
    {A S : Type 0} (tests : Result AppError (Unit {0})) (run : S → Result AppError A × S) (s : S)
    → ((guarded tests run s).1 ≡ s) ⊎ (tests ≡ ok tt)
unfolding guarded
guarded-cases (err e) run s = inl refl
guarded-cases (ok tt) run s = inr refl

pub guarded-rule :
    {A S : Type 0} (P : Result AppError A × S → Type 0) (tests : Result AppError (Unit {0}))
    (run : S → Result AppError A × S) (s : S)
    → ((e : AppError) → P (err e, s))
    → (tests ≡ ok tt → P (run s))
    → P (guarded tests run s)
unfolding guarded
guarded-rule P (err e) run s h k = h e
guarded-rule P (ok tt) run s h k = k refl

-- A batch of changes is only run for a bearer, or for a request from an allowed origin with the
-- actor's own token in its header: otherwise `push` changes nothing.
pub push-guarded :
    {A S : Type 0} (site : Site) (actor : AuthContext) (headers : HeaderMap)
    (run : S → Result AppError A × S) (s : S)
    → ((push site actor headers run s).1 ≡ s)
      ⊎ ((actor.source ≡ bearer)
          ⊎ (FromSite headers site
              × HasCsrf actor (or_else (header_str (text "x-csrf-token") headers) none)))
unfolding push push_guard
push-guarded site actor headers run s = elim (guarded-cases (push_guard site actor headers) run s) [
  | inl e ↦ inl e
  | inr e ↦ elim (for_cookie_sound actor.source _ e) [
    | inl b ↦ inr (inl b)
    | inr e' ↦
        let (origin, csrf) = guards_sound site actor headers none e' in
        inr (elim csrf [ inl b ↦ inl b | inr t ↦ inr (origin, t) ])
  ]
]
