-- ===== src/Http/Logins.antt =====
-- What a login of canonical-web-server.rs/src/routes/auth.rs makes sure of.
use canonical_cloud.Base.{ℕ, ◌<◌, ◌≡◌, text_eq, true, ok, nat_eq}
use canonical_cloud.RateLimit.{check}
use canonical_cloud.Http.Extractor.{HeaderMap, CookieJar, Site}
use canonical_cloud.Http.Routes.{LoginForm, LoginState, LoginService, csrf_matches}
use canonical_cloud.Http.Guards.{FromSite}

module _ (service : LoginService) (site : Site) where
  -- A login that may ask the identity provider: from an allowed origin, with the token of its own
  -- page, within the budget of attempts, and with a free permit.
  pub record Admitted (headers : HeaderMap) (jar : CookieJar) (form : LoginForm) (permits now : ℕ)
      (s : LoginState) : Type 0 where
    pub origin : FromSite headers site
    pub csrf : csrf_matches jar form ≡ true
    pub budget : (check service.limiter service.digest form.email now s.limiter).0 ≡ ok tt
    pub permit : 0 < permits

  -- The provider was not asked, and no session or profile was written.
  abbrev pub Untouched : LoginState → LoginState → Type 0
  Untouched s s' = (s'.sign_ins ≡ s.sign_ins) × (s'.rows ≡ s.rows) × (s'.profiles ≡ s.profiles)
