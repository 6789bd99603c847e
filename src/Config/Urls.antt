-- ===== src/Config/Urls.antt =====
-- The addresses and the key of canonical-web-server.rs/crates/canonical-config/src/lib.rs:
-- `validated_origin`, `validated_supabase_url`, `validated_supabase_publishable_key`. The parsing of
-- a URL is a library, and a parameter here.
use canonical_cloud.Base.{
  ℕ, [], ◌∷◌, ◌++◌, Text, text, text_eq, Option, none, some, Bool, false, not, ◌&&◌, ◌||◌,
  if◌then◌else◌, Result, ok, err, ◌==◌, nat_eq, trim, is_empty, is_some, is_some_and, strip_prefix,
  to_ascii_lowercase, or_else, ok_or, map_err, option_beq, ◌>>=◌,
}
use canonical_cloud.Auth.Token.{TokenLibs, split, jwt_segments, claim_str}
use canonical_cloud.Config.Values.{ConfigError, invalid}

-- The parts of a parsed `Url`, with `as_str()` and `origin().ascii_serialization()`.
pub record Url : Type 0 where
  pub scheme : Text
  pub username : Text
  pub password : Option Text
  pub host_str : Option Text
  pub path : Text
  pub query : Option Text
  pub fragment : Option Text
  pub as_str : Text
  pub origin : Text

-- `Url::parse`, with the text of its error.
abbrev pub ParseUrl : Type 0
ParseUrl = Text → Result Text Url

unfoldable pub is_loopback_host : Text → Bool
is_loopback_host host =
    to_ascii_lowercase host == text "localhost" || host == text "127.0.0.1" || host == text "::1"

unfoldable pub is_loopback_url : Result Text Url → Bool
is_loopback_url (err e) = false
is_loopback_url (ok url) = is_some_and url.host_str is_loopback_host

unfoldable pub is_loopback_origin : ParseUrl → Text → Bool
is_loopback_origin parse origin = is_loopback_url (parse origin)

-- HTTPS, or HTTP where it is allowed.
unfoldable pub is_safe_scheme : Text → Bool → Bool
is_safe_scheme scheme loopback = scheme == text "https" || (scheme == text "http" && loopback)

unfoldable pub origin_of : Text → Url → Option Text → Result ConfigError Text
origin_of name url none = err (invalid name (text "a host is required"))
origin_of name url (some host) =
    if is_safe_scheme url.scheme (is_loopback_host host)
    then ok url.origin
    else err (invalid name (text "HTTPS is required except for exact loopback origins"))

unfoldable pub bare_origin : Text → Url → Result ConfigError Text
bare_origin name url =
    if not (is_empty url.username)
      || is_some url.password
      || is_some url.query
      || is_some url.fragment
      || not (url.path == text "/")
    then err
        (invalid name (text "expected an origin without credentials, path, query, or fragment"))
    else origin_of name url url.host_str

unfoldable pub validated_origin : ParseUrl → Text → Text → Result ConfigError Text
validated_origin parse name value =
    map_err (λ e. invalid name (text "expected an absolute HTTP(S) origin: " ++ e)) (parse value)
    >>= bare_origin name

-- `str::trim_end_matches`
unfoldable pub trim_end_matches : ℕ → Text → Text
trim_end_matches c [] = []
trim_end_matches c (d ∷ s) =
    let rest = trim_end_matches c s in if is_empty rest && d == c then [] else d ∷ rest

unfoldable pub supabase_host : Url → Option Text → Result ConfigError Text
supabase_host url none = err (invalid (text "SUPABASE_URL") (text "a host is required"))
supabase_host url (some host) =
    if is_safe_scheme url.scheme (is_loopback_host host || host == text "[::1]")
    then ok (trim_end_matches b'/' url.as_str)
    else err (
        invalid (text "SUPABASE_URL")
          (text "HTTPS is required except for localhost, 127.0.0.1, or ::1"))

unfoldable pub supabase_parts : Url → Result ConfigError Text
supabase_parts url =
    if not (is_empty url.username) || is_some url.password
    then err (invalid (text "SUPABASE_URL") (text "credentials are not allowed"))
    else if is_some url.fragment
    then err (invalid (text "SUPABASE_URL") (text "fragments are not allowed"))
    else if is_some url.query
    then err (invalid (text "SUPABASE_URL") (text "query strings are not allowed"))
    else supabase_host url url.host_str

unfoldable pub validated_supabase_url : ParseUrl → Text → Result ConfigError Text
validated_supabase_url parse value =
    map_err (λ e. invalid (text "SUPABASE_URL") (text "expected an absolute URL: " ++ e))
      (parse value)
    >>= supabase_parts

abbrev pub invalid_key : ConfigError
invalid_key = invalid (text "SUPABASE_PUBLISHABLE_KEY") (
    text
      "expected an sb_publishable_ key or a legacy anon JWT; secret/service-role keys are forbidden")

module _ (libs : TokenLibs) where
  unfoldable pub anon_key : Text → Text → Result ConfigError Text
  anon_key value payload = do
    bytes ← ok_or (or_else (libs.decode_no_pad payload) (libs.decode_padded payload)) invalid_key
    claims ← ok_or (libs.parse_json bytes) invalid_key
    if not (option_beq (claim_str (text "role") claims) (some (text "anon")))
        then err invalid_key
        else ok value

  unfoldable pub legacy_key : Text → Option (Text × Text × Text) → Result ConfigError Text
  legacy_key value none = err invalid_key
  legacy_key value (some (header, payload, signature)) =
      if is_empty header || is_empty payload || is_empty signature
      then err invalid_key
      else anon_key value payload

  unfoldable pub validated_supabase_publishable_key : Text → Result ConfigError Text
  validated_supabase_publishable_key untrimmed =
      let value = trim untrimmed in
      if is_some_and (strip_prefix (text "sb_publishable_") value) (λ suffix. not (is_empty suffix))
      then ok value
      else if is_some (strip_prefix (text "sb_secret_") value)
      then err invalid_key
      else legacy_key value (jwt_segments (split b'.' value))
