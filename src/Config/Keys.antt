-- ===== src/Config/Keys.antt =====
-- The two readers of a publishable key, in canonical-web-server.rs/crates/canonical-config/src/lib.rs
-- and in canonical-web-server.rs/crates/canonical-auth/src/lib.rs, and the lifetime of a session.
use canonical_cloud.Base.{
  ◌≡◌, refl, arith, Text, text, text_eq, Option, none, some, Result, ok, err, trim, is_some,
  strip_prefix, Bool-cases, Option-cases, inl, inr, is_empty, not, is_some_and, ◌||◌, or_else,
  option_beq,
}
use canonical_cloud.Auth.Token.{
  TokenLibs, split, jwt_segments, claim_str, KeyError, validated_role, validate_segments,
  validate_publishable_key,
}
use canonical_cloud.Session.Create.{duration_from_std}
use canonical_cloud.Config.Values.{ConfigError, Env}
use canonical_cloud.Config.Urls.{
  anon_key, legacy_key, validated_supabase_publishable_key, invalid_key,
}
use canonical_cloud.Config.Load.{Config, ConfigLibs, from_env}
use canonical_cloud.Config.Loaded.{from_env-IsSafe}

module _ (libs : TokenLibs) where
  -- The answer of the one reader, made of that of the other.
  abbrev pub answer_of : Text → Result KeyError (Unit {0}) → Result ConfigError Text
  answer_of value (ok x) = ok value
  answer_of value (err e) = err invalid_key

  anon_key-role :
      (value payload : Text)
      → anon_key libs value payload ≡ answer_of value (validated_role libs payload)
  unfolding anon_key validated_role
  anon_key-role value payload =
      elim (Option-cases (or_else (libs.decode_no_pad payload) (libs.decode_padded payload))) [
        | inl e ↦ rw e refl
        | inr (bytes, e) ↦ elim (Option-cases (libs.parse_json bytes)) [
          | inl e' ↦ rw (e, e') refl
          | inr (claims, e') ↦
              elim (Bool-cases (option_beq (claim_str (text "role") claims) (some (text "anon")))) [
                | inl e'' ↦ rw (e, e', e'') refl
                | inr e'' ↦ rw (e, e', e'') refl
              ]
        ]
      ]

  legacy_key-segments :
      (value : Text) (o : Option (Text × Text × Text))
      → legacy_key libs value o ≡ answer_of value (validate_segments libs o)
  unfolding legacy_key validate_segments
  legacy_key-segments value none = refl
  legacy_key-segments value (some (header, payload, signature)) =
      elim (Bool-cases (is_empty header || is_empty payload || is_empty signature)) [
        | inl e ↦ rw e refl
        | inr e ↦ rw e (anon_key-role value payload)
      ]

  -- The configuration takes exactly the keys that the client of the identity provider is built
  -- with, and keeps them without the white space around them.
  pub validated_supabase_publishable_key-agrees :
      (key : Text)
      → validated_supabase_publishable_key libs key
        ≡ answer_of (trim key) (validate_publishable_key libs key)
  unfolding validated_supabase_publishable_key validate_publishable_key
  validated_supabase_publishable_key-agrees key =
      let value = trim key in
      let suffixed =
        is_some_and (strip_prefix (text "sb_publishable_") value)
          (λ suffix. not (is_empty suffix)) in
      elim (Bool-cases suffixed) [
        | inl e ↦ rw e refl
        | inr e ↦ elim (Bool-cases (is_some (strip_prefix (text "sb_secret_") value))) [
          | inl e' ↦ rw (e, e') refl
          | inr e' ↦ rw (e, e') (legacy_key-segments value (jwt_segments (split b'.' value)))
        ]
      ]

-- The lifetime of a session that a loaded configuration gives is never refused when a session is
-- created.
pub loaded_ttl-duration :
    (libs : ConfigLibs) (env : Env) (config : Config)
    → from_env libs env ≡ ok config
    → duration_from_std config.session_ttl ≡ ok config.session_ttl
unfolding duration_from_std
loaded_ttl-duration libs env config e =
    let safe = from_env-IsSafe libs env config e in ground (arith, safe.ttl)
