-- ===== src/Config/Tests.antt =====
-- The configuration of canonical-web-server.rs/crates/canonical-config/src/lib.rs read from concrete
-- environments, with a codec that leaves its input as it is.
use canonical_cloud.Base.{
  ℕ, ◌*◌, ◌≡◌, refl, List, [], ◌∷◌, Text, text, text_eq, Option, none, some, true, Result, ok, err,
  lookup, text_beq, trim, to_ascii_lowercase,
}
use canonical_cloud.Auth.{seconds}
use canonical_cloud.Auth.Token.{TokenLibs, validate_publishable_key}
use canonical_cloud.Config.Values.{ConfigError, invalid, Env}
use canonical_cloud.Config.Urls.{
  Url, ParseUrl, is_loopback_host, is_safe_scheme, origin_of, bare_origin, validated_origin,
  trim_end_matches, supabase_host, supabase_parts, validated_supabase_url,
  validated_supabase_publishable_key,
}
use canonical_cloud.Config.Load.{Config, ConfigLibs}
use canonical_cloud.Config.Keys.{validated_supabase_publishable_key-agrees, answer_of}

abbrev tokens : TokenLibs
tokens = record {
  decode_no_pad = λ s. some s;
  decode_padded = λ s. some s;
  parse_json = λ bytes. none;
  parse_uuid = λ s. none;
}

abbrev key : List ℕ
key = text "0123456789abcdef0123456789abcdef"

abbrev variables : List (Text × Text)
variables =
    (text "APP_BASE_URL", text "https://app")
    ∷ (text "APP_SESSION_ENCRYPTION_KEY", key)
    ∷ (text "SUPABASE_URL", text "https://auth")
    ∷ (text "SUPABASE_PUBLISHABLE_KEY", text "sb_publishable_k")
    ∷ (text "DATABASE_URL", text "postgres")
    ∷ (text "LOGIN_RATE_LIMIT_ATTEMPTS", text "+7")
    ∷ []

abbrev env : Env
env = record { var = λ name. lookup name variables; var_os = λ name. none }

abbrev url_of : Text → Text → Text → Url
url_of scheme host as_str = record {
  scheme = scheme;
  username = [];
  password = none;
  host_str = some host;
  path = text "/";
  query = none;
  fragment = none;
  as_str = as_str;
  origin = as_str;
}

abbrev urls : List (Text × Url)
urls =
    (text "https://app", url_of (text "https") (text "app") (text "https://app"))
    ∷ (text "https://auth", url_of (text "https") (text "auth") (text "https://auth"))
    ∷ (text "http://[::1]", url_of (text "http") (text "[::1]") (text "http://[::1]"))
    ∷ []

abbrev found : Option Url → Result Text Url
found none = err (text "relative URL without a base")
found (some url) = ok url

abbrev parse : ParseUrl
parse s = found (lookup s urls)

abbrev libs : ConfigLibs
libs = record { parse_url = parse; decode = λ s. some s; tokens = tokens }

abbrev config : Config
config = record {
  port = 8081;
  static_dir = text "static";
  app_asset_dir = text "client/dist";
  database_url = text "postgres";
  database_max_connections = 10;
  app_base_url = text "https://app";
  allowed_origins = text "https://app" ∷ [];
  session_cookie = text "__Host-canonical_session";
  cookie_secure = true;
  session_encryption_key = key;
  session_ttl = seconds (30 * 86400);
  login_rate_limit_attempts = 7;
  login_rate_limit_global_attempts = 500;
  login_rate_limit_window = seconds 600;
  login_rate_limit_max_keys = 4096;
  login_auth_max_concurrency = 16;
  bearer_auth_max_concurrency = 32;
  supabase_url = text "https://auth";
  supabase_publishable_key = text "sb_publishable_k";
}

-- `host_str` of an IPv6 address has its brackets, which the address of the identity provider may
-- have, and the application's own may not.
loopback_address-supabase :
    validated_supabase_url parse (text "http://[::1]") ≡ ok (text "http://[::1]")
unfolding validated_supabase_url lookup text_beq supabase_parts supabase_host is_safe_scheme
    is_loopback_host to_ascii_lowercase trim_end_matches
loopback_address-supabase = refl

abbrev refused : Result ConfigError Text
refused =
    err (invalid (text "APP_BASE_URL") (text "HTTPS is required except for exact loopback origins"))

loopback_address-origin :
    validated_origin parse (text "APP_BASE_URL") (text "http://[::1]") ≡ refused
unfolding validated_origin lookup text_beq bare_origin origin_of is_safe_scheme is_loopback_host
    to_ascii_lowercase
loopback_address-origin = refl

validated_supabase_publishable_key-agrees_example :
    validated_supabase_publishable_key tokens (text " sb_secret_k")
    ≡ answer_of tokens (text "sb_secret_k") (validate_publishable_key tokens (text " sb_secret_k"))
unfolding trim
validated_supabase_publishable_key-agrees_example =
    validated_supabase_publishable_key-agrees tokens (text " sb_secret_k")
