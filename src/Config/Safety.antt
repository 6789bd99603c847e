-- ===== src/Config/Safety.antt =====
-- What a configuration that canonical-web-server.rs/crates/canonical-config/src/lib.rs has loaded is
-- sure to have, whatever the environment says.
use canonical_cloud.Base.{
  Ensures, Anything, anything, bind-Ensures, refusing-Ensures, passing-Ensures, ℕ, ◌*◌, ◌≤◌, ◌≡◌,
  refl, arith, List, [], ◌∷◌, Text, text, text_eq, Option, none, some, Bool, true, false, not,
  Result, ok, err, ltb, leb, ◌==◌, nat_eq, is_empty, is_some, length, all, All, Bool-cases, inl,
  inr, ◌&&◌, ◌||◌, ◌>>=◌, map_err,
}
use canonical_cloud.Auth.{seconds}
use canonical_cloud.Config.Values.{
  ConfigError, Env, optional_parse, in_range, checked_mul, session_ttl_from_days, checked_key,
  max_of_bits,
}
use canonical_cloud.Config.Urls.{
  Url, ParseUrl, is_loopback_host, is_safe_scheme, origin_of, bare_origin, validated_origin,
}
use canonical_cloud.Config.Load.{
  starts_with, contains_text, insert_text, collect_origins, checked_origins, origins_of,
  checked_cookie, ranged,
}

-- An origin of a URL with a host and without credentials, over HTTPS or to the own machine.
pub record IsOrigin (parse : ParseUrl) (origin : Text) : Type 0 where
  pub value : Text
  pub url : Url
  pub host : Text
  pub parsed : parse value ≡ ok url
  pub of_url : url.origin ≡ origin
  pub at_host : url.host_str ≡ some host
  pub no_username : is_empty url.username ≡ true
  pub no_password : url.password ≡ none
  pub safe : is_safe_scheme url.scheme (is_loopback_host host) ≡ true

abbrev pub Within : ℕ → ℕ → ℕ → Type 0
Within low high n = (low ≤ n) × (n ≤ high)

in_range-Within :
    (name message : Text) (low high value : ℕ)
    → Ensures (Within low high) (in_range name message low high value)
unfolding in_range
in_range-Within name message low high value =
    passing-Ensures (Within low high) (leb low value && leb value high) _ _ λ e. ground (arith, e)

pub ranged-Within :
    (env : Env) (greatest : ℕ) (name : Text) (default : ℕ) (message : Text) (low high : ℕ)
    → Ensures (Within low high) (ranged env greatest name default message low high)
unfolding ranged
ranged-Within env greatest name default message low high =
    bind-Ensures Anything (Within low high) (optional_parse env greatest name default) _
      (anything _) λ value _. in_range-Within name message low high value

checked_mul-fits : (a b : ℕ) → a * b ≤ max_of_bits 64 → checked_mul a b ≡ some (a * b)
unfolding checked_mul
checked_mul-fits a b h = ground (arith, h)

pub ttl-Within :
    (days : ℕ)
    → Within 1 30 days
    → Ensures (Within (seconds 86400) (seconds (30 * 86400))) (session_ttl_from_days days)
unfolding session_ttl_from_days
ttl-Within days h =
    rw
      (
        checked_mul-fits days 24 (omega arith),
        checked_mul-fits (days * 24) 60 (omega arith),
        checked_mul-fits (days * 24 * 60) 60 (omega arith),
      )
      (omega arith)

abbrev pub IsKey : List ℕ → Type 0
IsKey key = (length key ≡ 32) × (all (λ byte. byte == 0) key ≡ false)

pub checked_key-IsKey : (o : Option (List ℕ)) → Ensures IsKey (checked_key o)
unfolding checked_key
checked_key-IsKey none = tt
checked_key-IsKey (some key) =
    refusing-Ensures IsKey (not (length key == 32)) _ _
      λ e. refusing-Ensures IsKey (all (λ byte. byte == 0) key) _ _ λ e'. (ground (arith, e), e')

-- A cookie for a host that is not the own machine is secure, and bound to the host.
abbrev pub IsCookie : Bool → Bool → Text → Type 0
IsCookie loopback cookie_secure session_cookie =
    (loopback ≡ false
      → (cookie_secure ≡ true) × (starts_with (text "__Host-") session_cookie ≡ true))
    × (starts_with (text "__Host-") session_cookie ≡ true → cookie_secure ≡ true)

pub checked_cookie-IsCookie :
    (loopback cookie_secure : Bool) (session_cookie : Text)
    → Ensures
        (IsCookie loopback cookie_secure)
        (checked_cookie loopback cookie_secure session_cookie)
unfolding checked_cookie
checked_cookie-IsCookie loopback cookie_secure session_cookie =
    let Q = IsCookie loopback cookie_secure in
    refusing-Ensures Q (starts_with (text "__Host-") session_cookie && not cookie_secure) _ _ λ e.
      refusing-Ensures Q (not loopback && not cookie_secure) _ _ λ e'.
        refusing-Ensures Q (not loopback && not (starts_with (text "__Host-") session_cookie)) _ _
          λ e''. ground (arith, e, e', e'')

origin_of-IsOrigin :
    (parse : ParseUrl) (name value : Text) (url : Url) (host : Option Text)
    → parse value ≡ ok url
    → url.host_str ≡ host
    → is_empty url.username ≡ true
    → url.password ≡ none
    → Ensures (IsOrigin parse) (origin_of name url host)
unfolding origin_of
origin_of-IsOrigin parse name value url none p h u k = tt
origin_of-IsOrigin parse name value url (some host) p h u k =
    passing-Ensures (IsOrigin parse) (is_safe_scheme url.scheme (is_loopback_host host)) _ _ λ e.
      record {
        value = value;
        url = url;
        host = host;
        parsed = p;
        of_url = refl;
        at_host = h;
        no_username = u;
        no_password = k;
        safe = e;
      }

absent : {A : Type 0} (o : Option A) → is_some o ≡ false → o ≡ none
absent none h = refl
absent (some a) h = cc h

no_credentials : (a b c d e : Bool) → (not a || b || c || d || e) ≡ false → (a ≡ true) × (b ≡ false)
no_credentials a b c d e h = ground (arith, h)

parsed-IsOrigin :
    (parse : ParseUrl) (name value : Text) (r : Result Text Url) (say : Text → ConfigError)
    → parse value ≡ r
    → Ensures (IsOrigin parse) (map_err say r >>= bare_origin name)
unfolding bare_origin
parsed-IsOrigin parse name value (err e) say p = tt
parsed-IsOrigin parse name value (ok url) say p = refusing-Ensures (IsOrigin parse) _ _ _ λ e.
    let (u, k) =
      no_credentials (is_empty url.username) (is_some url.password) (is_some url.query)
        (is_some url.fragment) (not (url.path == text "/")) e in
    origin_of-IsOrigin parse name value url url.host_str p refl u (absent url.password k)

pub validated_origin-IsOrigin :
    (parse : ParseUrl) (name value : Text)
    → Ensures (IsOrigin parse) (validated_origin parse name value)
unfolding validated_origin
validated_origin-IsOrigin parse name value = parsed-IsOrigin parse name value (parse value) _ refl

insert_text-All :
    (P : Text → Type 0) (s : Text) (set : List Text) → P s → All P set → All P (insert_text s set)
unfolding insert_text
insert_text-All P s set h k = elim (Bool-cases (contains_text s set)) [
  | inl e ↦ rw e k
  | inr e ↦ rw e (h, k)
]

collect_origins-All :
    (parse : ParseUrl) (set listed : List Text)
    → All (IsOrigin parse) set
    → Ensures (All (IsOrigin parse)) (collect_origins parse set listed)
unfolding collect_origins
collect_origins-All parse set [] h = h
collect_origins-All parse set (s ∷ rest) h =
    bind-Ensures (IsOrigin parse) (All (IsOrigin parse))
      (validated_origin parse (text "APP_ALLOWED_ORIGINS") s) _
      (validated_origin-IsOrigin parse _ s)
      λ origin k.
        collect_origins-All parse (insert_text origin set) rest (insert_text-All _ origin set k h)

-- One to sixteen origins, the application's own among them.
pub record IsAllowed (parse : ParseUrl) (app_base_url : Text) (set : List Text) : Type 0 where
  pub origins : All (IsOrigin parse) set
  pub own : contains_text app_base_url set ≡ true
  pub count : Within 1 16 (length set)

not_empty : (set : List Text) → is_empty set ≡ false → 1 ≤ length set
not_empty [] h = cc h
not_empty (s ∷ set) h = omega arith

checked_origins-IsAllowed :
    (parse : ParseUrl) (app_base_url : Text) (set : List Text)
    → All (IsOrigin parse) set
    → Ensures (IsAllowed parse app_base_url) (checked_origins app_base_url set)
unfolding checked_origins
checked_origins-IsAllowed parse app_base_url set h =
    let Q = IsAllowed parse app_base_url in
    refusing-Ensures Q (is_empty set) _ _ λ e. refusing-Ensures Q (ltb 16 (length set)) _ _ λ e'.
      refusing-Ensures Q (not (contains_text app_base_url set)) _ _ λ e''. record {
        origins = h;
        own = ground (arith, e'');
        count = (not_empty set e, ground (arith, e'));
      }

pub origins_of-IsAllowed :
    (env : Env) (parse : ParseUrl) (app_base_url : Text)
    → Ensures (IsAllowed parse app_base_url) (origins_of env parse app_base_url)
unfolding origins_of
origins_of-IsAllowed env parse app_base_url =
    bind-Ensures (All (IsOrigin parse)) (IsAllowed parse app_base_url) (collect_origins parse [] _)
      _ (collect_origins-All parse [] _ tt)
      λ set h. checked_origins-IsAllowed parse app_base_url set h
