-- ===== src/Config/Values.antt =====
-- The values of environment variables in canonical-web-server.rs/crates/canonical-config/src/lib.rs:
-- `required`, `optional_parse`, `optional_bool`, the encryption key and the lifetime of a session.
use canonical_cloud.Base.{
  ℕ, ◌+◌, ◌*◌, ◌-◌, ◌^◌, List, [], ◌∷◌, Text, text, text_eq, Option, none, some, Bool, true, false,
  not, ◌&&◌, ◌||◌, if◌then◌else◌, Result, ok, err, ltb, leb, ◌==◌, nat_eq, trim, is_empty, map_err,
  ok_or, to_ascii_lowercase, length, all, ◌>>=◌,
}

pub data ConfigError : Type 0 where
  missing : Text → ConfigError
  invalid : Text → Text → ConfigError

-- `env::var`, where `none` is a variable that is not set or not Unicode, and `env::var_os`.
pub record Env : Type 0 where
  pub var : Text → Option Text
  pub var_os : Text → Option Text

unfoldable pub required_value : Text → Option Text → Result ConfigError Text
required_value name none = err (missing name)
required_value name (some value) = if is_empty (trim value) then err (missing name) else ok value

unfoldable pub required : Env → Text → Result ConfigError Text
required env name = required_value name (env.var name)

-- `u16`, `u32`, `u64` and, on the server's machines, `usize`.
abbrev pub max_of_bits : ℕ → ℕ
max_of_bits w = 2 ^ w - 1

-- The loop of `from_str_radix`, in front of the rest of the digits.
unfoldable pub parse_digits : ℕ → ℕ → Text → Result Text ℕ
parse_digits greatest n [] = ok n
parse_digits greatest n (c ∷ s) =
    let rest = parse_digits greatest (n * 10 + (c - 48)) s in
    if not (leb 48 c && leb c 57)
    then err (text "invalid digit found in string")
    else if ltb greatest (n * 10 + (c - 48))
    then err (text "number too large to fit in target type")
    else rest

-- A sign alone is not a number.
unfoldable pub parse_signed : ℕ → Text → Result Text ℕ
parse_signed greatest [] = err (text "invalid digit found in string")
parse_signed greatest (c ∷ s) = parse_digits greatest 0 (c ∷ s)

-- `str::parse` of an unsigned integer: 43 is `+`.
unfoldable pub parse_uint : ℕ → Text → Result Text ℕ
parse_uint greatest [] = err (text "cannot parse integer from empty string")
parse_uint greatest (c ∷ s) =
    if c == 43 then parse_signed greatest s else parse_digits greatest 0 (c ∷ s)

unfoldable pub parsed_or : ℕ → Text → ℕ → Option Text → Result ConfigError ℕ
parsed_or greatest name default none = ok default
parsed_or greatest name default (some value) = map_err (invalid name) (parse_uint greatest value)

unfoldable pub optional_parse : Env → ℕ → Text → ℕ → Result ConfigError ℕ
optional_parse env greatest name default = parsed_or greatest name default (env.var name)

-- `!(low..=high).contains(&value)`, with the message of the refusal.
unfoldable pub in_range : Text → Text → ℕ → ℕ → ℕ → Result ConfigError ℕ
in_range name message low high value =
    if leb low value && leb value high then ok value else err (invalid name message)

unfoldable pub bool_of : Text → Text → Result ConfigError Bool
bool_of name s =
    if s == text "1" || s == text "true" || s == text "yes"
    then ok true
    else if s == text "0" || s == text "false" || s == text "no"
    then ok false
    else err (invalid name (text "expected true or false"))

unfoldable pub bool_or : Text → Bool → Option Text → Result ConfigError Bool
bool_or name default none = ok default
bool_or name default (some value) = bool_of name (to_ascii_lowercase value)

unfoldable pub optional_bool : Env → Text → Bool → Result ConfigError Bool
optional_bool env name default = bool_or name default (env.var name)

-- `checked_mul` on a `u64`.
unfoldable pub checked_mul : ℕ → ℕ → Option ℕ
checked_mul a b = if leb (a * b) (max_of_bits 64) then some (a * b) else none

unfoldable pub session_ttl_from_days : ℕ → Result ConfigError ℕ
session_ttl_from_days days = do
  hours ←
      ok_or (checked_mul days 24)
        (invalid (text "APP_SESSION_TTL_DAYS") (text "value is too large"))
  minutes ←
      ok_or (checked_mul hours 60)
        (invalid (text "APP_SESSION_TTL_DAYS") (text "value is too large"))
  seconds ←
      ok_or (checked_mul minutes 60)
        (invalid (text "APP_SESSION_TTL_DAYS") (text "value is too large"))
  ok (seconds * 1000000000)

unfoldable pub checked_key : Option (List ℕ) → Result ConfigError (List ℕ)
checked_key none =
    err (invalid (text "APP_SESSION_ENCRYPTION_KEY") (text "expected standard base64"))
checked_key (some key) =
    if not (length key == 32)
    then err
        (invalid (text "APP_SESSION_ENCRYPTION_KEY") (text "decoded key must be exactly 32 bytes"))
    else if all (λ byte. byte == 0) key
    then err (
        invalid (text "APP_SESSION_ENCRYPTION_KEY")
          (text "replace the all-zero example with a random key"))
    else ok key

-- `decode` is base64's `STANDARD.decode`.
unfoldable pub session_encryption_key_from_env :
    Env → (Text → Option (List ℕ)) → Result ConfigError (List ℕ)
session_encryption_key_from_env env decode = do
  key_text ← required env (text "APP_SESSION_ENCRYPTION_KEY")
  checked_key (decode key_text)
