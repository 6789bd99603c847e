-- ===== src/Config/Loaded.antt =====
-- The configurations that canonical-web-server.rs/crates/canonical-config/src/lib.rs loads are safe.
use canonical_cloud.Base.{
  Ensures, Anything, anything, ensured, bind-Ensures, ℕ, ◌*◌, ◌≡◌, arith, List, Text, text, text_eq,
  Option, ok,
}
use canonical_cloud.Auth.{seconds}
use canonical_cloud.Config.Values.{
  Env, required, optional_parse, optional_bool, session_encryption_key_from_env, max_of_bits,
}
use canonical_cloud.Config.Urls.{is_loopback_origin, validated_origin}
use canonical_cloud.Config.Load.{
  Config, ConfigLibs, starts_with, cookie_of, ttl_of, Limits, limits_of, supabase_url_of,
  publishable_key_of, from_env,
}
use canonical_cloud.Config.Safety.{
  Within, ranged-Within, ttl-Within, IsKey, checked_key-IsKey, IsCookie, checked_cookie-IsCookie,
  IsAllowed, origins_of-IsAllowed,
}

-- Limits that are neither closed nor open.
pub record IsLimited (l : Limits) : Type 0 where
  pub attempts : Within 1 20 l.attempts
  pub window_seconds : Within 1 3600 l.window_seconds
  pub max_keys : Within 128 65536 l.max_keys
  pub global_attempts : Within 10 100000 l.global_attempts
  pub login_concurrency : Within 1 256 l.login_concurrency
  pub bearer_concurrency : Within 1 256 l.bearer_concurrency
  pub connections : Within 1 100 l.connections

limits_of-IsLimited : (env : Env) → Ensures IsLimited (limits_of env)
unfolding limits_of
limits_of-IsLimited env =
    bind-Ensures (Within 1 20) IsLimited _ _ (ranged-Within env _ _ _ _ 1 20) λ attempts a.
      bind-Ensures (Within 1 3600) IsLimited _ _ (ranged-Within env _ _ _ _ 1 3600) λ window w.
        bind-Ensures (Within 128 65536) IsLimited _ _ (ranged-Within env _ _ _ _ 128 65536)
          λ keys k.
            bind-Ensures (Within 10 100000) IsLimited _ _ (ranged-Within env _ _ _ _ 10 100000)
              λ all g.
                bind-Ensures (Within 1 256) IsLimited _ _ (ranged-Within env _ _ _ _ 1 256)
                  λ login l.
                    bind-Ensures (Within 1 256) IsLimited _ _ (ranged-Within env _ _ _ _ 1 256)
                      λ bearer b.
                        bind-Ensures (Within 1 100) IsLimited _ _ (ranged-Within env _ _ _ _ 1 100)
                          λ connections c. record {
                            attempts = a;
                            window_seconds = w;
                            max_keys = k;
                            global_attempts = g;
                            login_concurrency = l;
                            bearer_concurrency = b;
                            connections = c;
                          }

key-IsKey :
    (env : Env) (decode : Text → Option (List ℕ))
    → Ensures IsKey (session_encryption_key_from_env env decode)
unfolding session_encryption_key_from_env
key-IsKey env decode =
    bind-Ensures Anything IsKey (required env (text "APP_SESSION_ENCRYPTION_KEY")) _ (anything _)
      λ key_text _. checked_key-IsKey (decode key_text)

ttl_of-Within : (env : Env) → Ensures (Within (seconds 86400) (seconds (30 * 86400))) (ttl_of env)
unfolding ttl_of
ttl_of-Within env =
    bind-Ensures (Within 1 30) (Within (seconds 86400) (seconds (30 * 86400))) _ _
      (ranged-Within env _ _ _ _ 1 30) λ days h. ttl-Within days h

-- A configuration that is safe to serve with: see the fields.
pub record IsSafe (libs : ConfigLibs) (config : Config) : Type 0 where
  pub origins : IsAllowed libs.parse_url config.app_base_url config.allowed_origins
  pub cookie :
      IsCookie
        (is_loopback_origin libs.parse_url config.app_base_url)
        config.cookie_secure
        config.session_cookie
  pub key : IsKey config.session_encryption_key
  pub ttl : Within (seconds 86400) (seconds (30 * 86400)) config.session_ttl
  pub attempts : Within 1 20 config.login_rate_limit_attempts
  pub window : Within (seconds 1) (seconds 3600) config.login_rate_limit_window
  pub max_keys : Within 128 65536 config.login_rate_limit_max_keys
  pub global_attempts : Within 10 100000 config.login_rate_limit_global_attempts
  pub login_concurrency : Within 1 256 config.login_auth_max_concurrency
  pub bearer_concurrency : Within 1 256 config.bearer_auth_max_concurrency
  pub connections : Within 1 100 config.database_max_connections

module _ (libs : ConfigLibs) (env : Env) where
  from_env-Ensures : Ensures (IsSafe libs) (from_env libs env)
  unfolding from_env cookie_of
  from_env-Ensures =
      bind-Ensures Anything (IsSafe libs) (required env (text "APP_BASE_URL")) _ (anything _)
        λ base _.
          bind-Ensures Anything (IsSafe libs)
            (validated_origin libs.parse_url (text "APP_BASE_URL") base) _ (anything _)
            λ app_base_url _.
              bind-Ensures Anything (IsSafe libs)
                (optional_bool env (text "COOKIE_SECURE")
                  (starts_with (text "https://") app_base_url))
                _ (anything _)
                λ cookie_secure _.
                  bind-Ensures (IsAllowed libs.parse_url app_base_url) (IsSafe libs) _ _
                    (origins_of-IsAllowed env libs.parse_url app_base_url)
                    λ allowed o.
                      bind-Ensures IsKey (IsSafe libs) _ _ (key-IsKey env libs.decode) λ key k.
                        bind-Ensures Anything (IsSafe libs) (supabase_url_of libs env) _
                          (anything _)
                          λ url _.
                            bind-Ensures (Within (seconds 86400) (seconds (30 * 86400)))
                              (IsSafe libs) _ _ (ttl_of-Within env)
                              λ ttl t.
                                bind-Ensures
                                  (IsCookie (is_loopback_origin libs.parse_url app_base_url)
                                    cookie_secure)
                                  (IsSafe libs) _ _ (checked_cookie-IsCookie _ cookie_secure _)
                                  λ cookie c.
                                    bind-Ensures IsLimited (IsSafe libs) _ _
                                      (limits_of-IsLimited env)
                                      λ limits l.
                                        bind-Ensures Anything (IsSafe libs)
                                          (optional_parse env (max_of_bits 16) (text "PORT") 8081) _
                                          (anything _)
                                          λ port _.
                                            bind-Ensures Anything (IsSafe libs)
                                              (required env (text "DATABASE_URL")) _ (anything _)
                                              λ database _.
                                                bind-Ensures Anything (IsSafe libs)
                                                  (publishable_key_of libs env) _ (anything _)
                                                  λ publishable _. record {
                                                    origins = o;
                                                    cookie = c;
                                                    key = k;
                                                    ttl = t;
                                                    attempts = l.attempts;
                                                    window = ground (arith, l.window_seconds);
                                                    max_keys = l.max_keys;
                                                    global_attempts = l.global_attempts;
                                                    login_concurrency = l.login_concurrency;
                                                    bearer_concurrency = l.bearer_concurrency;
                                                    connections = l.connections;
                                                  }

  pub from_env-IsSafe : (config : Config) → from_env libs env ≡ ok config → IsSafe libs config
  from_env-IsSafe config e = ensured (IsSafe libs) (from_env libs env) config from_env-Ensures e
