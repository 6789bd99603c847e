-- ===== src/Config/Load.antt =====
-- `Config::from_env`, `MigrationConfig::from_env` and `SessionRevokerConfig::from_env` of
-- canonical-web-server.rs/crates/canonical-config/src/lib.rs.
use canonical_cloud.Base.{
  ℕ, List, [], ◌∷◌, Text, text, text_eq, Option, Bool, false, not, ◌&&◌, ◌||◌, if◌then◌else◌,
  Result, ok, err, ltb, ◌==◌, nat_eq, trim, is_empty, is_some, strip_prefix, unwrap_or, length, map,
  retain, ◌>>=◌,
}
use canonical_cloud.Auth.{seconds}
use canonical_cloud.Auth.Token.{TokenLibs, split}
use canonical_cloud.Config.Values.{
  ConfigError, invalid, Env, required, optional_parse, in_range, optional_bool,
  session_ttl_from_days, session_encryption_key_from_env, max_of_bits,
}
use canonical_cloud.Config.Urls.{
  ParseUrl, is_loopback_origin, validated_origin, validated_supabase_url,
  validated_supabase_publishable_key,
}

pub record Config : Type 0 where
  pub port : ℕ
  pub static_dir : Text
  pub app_asset_dir : Text
  pub database_url : Text
  pub database_max_connections : ℕ
  pub app_base_url : Text
  pub allowed_origins : List Text
  pub session_cookie : Text
  pub cookie_secure : Bool
  pub session_encryption_key : List ℕ
  pub session_ttl : ℕ
  pub login_rate_limit_attempts : ℕ
  pub login_rate_limit_global_attempts : ℕ
  pub login_rate_limit_window : ℕ
  pub login_rate_limit_max_keys : ℕ
  pub login_auth_max_concurrency : ℕ
  pub bearer_auth_max_concurrency : ℕ
  pub supabase_url : Text
  pub supabase_publishable_key : Text

-- What the loaders take from their libraries: URLs, base64 and the claims of tokens.
pub record ConfigLibs : Type 0 where
  pub parse_url : ParseUrl
  pub decode : Text → Option (List ℕ)
  pub tokens : TokenLibs

unfoldable pub starts_with : Text → Text → Bool
starts_with prefix s = is_some (strip_prefix prefix s)

unfoldable pub contains_text : Text → List Text → Bool
contains_text s [] = false
contains_text s (x ∷ set) = x == s || contains_text s set

-- `HashSet::insert`
unfoldable pub insert_text : Text → List Text → List Text
insert_text s set = if contains_text s set then set else s ∷ set

-- `collect::<Result<HashSet<_>, _>>()` of the validated origins.
unfoldable pub collect_origins : ParseUrl → List Text → List Text → Result ConfigError (List Text)
collect_origins parse set [] = ok set
collect_origins parse set (s ∷ rest) =
    validated_origin parse (text "APP_ALLOWED_ORIGINS") s >>= λ origin.
    collect_origins parse (insert_text origin set) rest

-- The checks of the set of origins.
unfoldable pub checked_origins : Text → List Text → Result ConfigError (List Text)
checked_origins app_base_url set =
    if is_empty set
    then err (invalid (text "APP_ALLOWED_ORIGINS") (text "at least one exact origin is required"))
    else if ltb 16 (length set)
    then err (invalid (text "APP_ALLOWED_ORIGINS") (text "at most 16 exact origins are allowed"))
    else if not (contains_text app_base_url set)
    then err (invalid (text "APP_ALLOWED_ORIGINS") (text "must include APP_BASE_URL"))
    else ok set

unfoldable pub origins_of : Env → ParseUrl → Text → Result ConfigError (List Text)
origins_of env parse app_base_url = do
  let listed = unwrap_or (env.var (text "APP_ALLOWED_ORIGINS")) app_base_url
  set ← collect_origins parse [] (retain (λ s. not (is_empty s)) (map trim (split b',' listed)))
  checked_origins app_base_url set

-- The checks of the session's cookie.
unfoldable pub checked_cookie : Bool → Bool → Text → Result ConfigError Text
checked_cookie loopback cookie_secure session_cookie =
    if starts_with (text "__Host-") session_cookie && not cookie_secure
    then err
        (invalid (text "APP_SESSION_COOKIE") (text "a __Host- cookie requires COOKIE_SECURE=true"))
    else if not loopback && not cookie_secure
    then err
        (invalid (text "COOKIE_SECURE") (text "must be true for non-loopback application origins"))
    else if not loopback && not (starts_with (text "__Host-") session_cookie)
    then err (
        invalid (text "APP_SESSION_COOKIE")
          (text "must use a __Host- prefix for non-loopback application origins"))
    else ok session_cookie

unfoldable pub default_cookie : Bool → Text
default_cookie cookie_secure =
    if cookie_secure then text "__Host-canonical_session" else text "canonical_session"

unfoldable pub cookie_of : Env → ParseUrl → Text → Bool → Result ConfigError Text
cookie_of env parse app_base_url cookie_secure =
    checked_cookie (is_loopback_origin parse app_base_url) cookie_secure
      (unwrap_or (env.var (text "APP_SESSION_COOKIE")) (default_cookie cookie_secure))

-- An `optional_parse` and its range check.
unfoldable pub ranged : Env → ℕ → Text → ℕ → Text → ℕ → ℕ → Result ConfigError ℕ
ranged env greatest name default message low high = do
  value ← optional_parse env greatest name default
  in_range name message low high value

unfoldable pub ttl_of : Env → Result ConfigError ℕ
ttl_of env = do
  days ←
      ranged env (max_of_bits 64) (text "APP_SESSION_TTL_DAYS") 30
        (text "must be between 1 and 30 days") 1 30
  session_ttl_from_days days

-- The limits of the login and of the other authentications.
pub record Limits : Type 0 where
  pub attempts : ℕ
  pub window_seconds : ℕ
  pub max_keys : ℕ
  pub global_attempts : ℕ
  pub login_concurrency : ℕ
  pub bearer_concurrency : ℕ
  pub connections : ℕ

unfoldable pub limits_of : Env → Result ConfigError Limits
limits_of env = do
  attempts ←
      ranged env (max_of_bits 32) (text "LOGIN_RATE_LIMIT_ATTEMPTS") 5
        (text "must be between 1 and 20") 1 20
  window_seconds ←
      ranged env (max_of_bits 64) (text "LOGIN_RATE_LIMIT_WINDOW_SECONDS") 600
        (text "must be between 1 and 3600 seconds") 1 3600
  max_keys ←
      ranged env (max_of_bits 64) (text "LOGIN_RATE_LIMIT_MAX_KEYS") 4096
        (text "must be between 128 and 65536") 128 65536
  global_attempts ←
      ranged env (max_of_bits 32) (text "LOGIN_RATE_LIMIT_GLOBAL_ATTEMPTS") 500
        (text "must be between 10 and 100000") 10 100000
  login_concurrency ←
      ranged env (max_of_bits 64) (text "LOGIN_AUTH_MAX_CONCURRENCY") 16
        (text "must be between 1 and 256") 1 256
  bearer_concurrency ←
      ranged env (max_of_bits 64) (text "BEARER_AUTH_MAX_CONCURRENCY") 32
        (text "must be between 1 and 256") 1 256
  connections ←
      ranged env (max_of_bits 32) (text "DATABASE_MAX_CONNECTIONS") 10
        (text "must be between 1 and 100") 1 100
  ok record {
    attempts = attempts;
    window_seconds = window_seconds;
    max_keys = max_keys;
    global_attempts = global_attempts;
    login_concurrency = login_concurrency;
    bearer_concurrency = bearer_concurrency;
    connections = connections;
  }

module _ (libs : ConfigLibs) (env : Env) where
  unfoldable pub supabase_url_of : Result ConfigError Text
  supabase_url_of = required env (text "SUPABASE_URL") >>= validated_supabase_url libs.parse_url

  unfoldable pub publishable_key_of : Result ConfigError Text
  publishable_key_of =
      required env (text "SUPABASE_PUBLISHABLE_KEY")
      >>= validated_supabase_publishable_key libs.tokens

  unfoldable pub from_env : Result ConfigError Config
  from_env = do
    base ← required env (text "APP_BASE_URL")
    app_base_url ← validated_origin libs.parse_url (text "APP_BASE_URL") base
    cookie_secure ←
        optional_bool env (text "COOKIE_SECURE") (starts_with (text "https://") app_base_url)
    allowed_origins ← origins_of env libs.parse_url app_base_url
    key ← session_encryption_key_from_env env libs.decode
    supabase_url ← supabase_url_of
    session_ttl ← ttl_of env
    session_cookie ← cookie_of env libs.parse_url app_base_url cookie_secure
    limits ← limits_of env
    port ← optional_parse env (max_of_bits 16) (text "PORT") 8081
    database_url ← required env (text "DATABASE_URL")
    publishable_key ← publishable_key_of
    ok record {
      port = port;
      static_dir = unwrap_or (env.var_os (text "STATIC_DIR")) (text "static");
      app_asset_dir = unwrap_or (env.var_os (text "APP_ASSET_DIR")) (text "client/dist");
      database_url = database_url;
      database_max_connections = limits.connections;
      app_base_url = app_base_url;
      allowed_origins = allowed_origins;
      session_cookie = session_cookie;
      cookie_secure = cookie_secure;
      session_encryption_key = key;
      session_ttl = session_ttl;
      login_rate_limit_attempts = limits.attempts;
      login_rate_limit_global_attempts = limits.global_attempts;
      login_rate_limit_window = seconds limits.window_seconds;
      login_rate_limit_max_keys = limits.max_keys;
      login_auth_max_concurrency = limits.login_concurrency;
      bearer_auth_max_concurrency = limits.bearer_concurrency;
      supabase_url = supabase_url;
      supabase_publishable_key = publishable_key;
    }

pub record MigrationConfig : Type 0 where
  pub database_url : Text
  pub database_max_connections : ℕ

unfoldable pub migration_from_env : Env → Result ConfigError MigrationConfig
migration_from_env env = do
  connections ←
      ranged env (max_of_bits 32) (text "MIGRATION_DATABASE_MAX_CONNECTIONS") 2
        (text "must be between 1 and 16") 1 16
  database_url ← required env (text "MIGRATION_DATABASE_URL")
  ok record { database_url = database_url; database_max_connections = connections }

pub record SessionRevokerConfig : Type 0 where
  pub database_url : Text
  pub database_max_connections : ℕ
  pub session_encryption_key : List ℕ
  pub supabase_url : Text
  pub supabase_publishable_key : Text

unfoldable pub revoker_from_env : ConfigLibs → Env → Result ConfigError SessionRevokerConfig
revoker_from_env libs env = do
  connections ←
      ranged env (max_of_bits 32) (text "SESSION_REVOCATION_DATABASE_MAX_CONNECTIONS") 2
        (text "must be between 1 and 8") 1 8
  database_url ← required env (text "SESSION_REVOCATION_DATABASE_URL")
  key ← session_encryption_key_from_env env libs.decode
  supabase_url ← supabase_url_of libs env
  publishable_key ← publishable_key_of libs env
  ok record {
    database_url = database_url;
    database_max_connections = connections;
    session_encryption_key = key;
    supabase_url = supabase_url;
    supabase_publishable_key = publishable_key;
  }
