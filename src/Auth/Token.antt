-- ===== src/Auth/Token.antt =====
-- The claims of a token: `validated_session_id` and `validate_publishable_key` of
-- canonical-web-server.rs/crates/canonical-auth/src/lib.rs. Base64, JSON and UUID parsing are
-- libraries, and parameters here.
use canonical_cloud.Base.{
  ℕ, Option, none, some, List, [], ◌∷◌, Text, text, not, if◌then◌else◌, Result, ok, err, ok_or,
  ◌>>=◌, ◌==◌, nat_eq, text_eq, trim, is_empty, option_beq, strip_prefix, is_some_and, is_some,
  or_else, ◌||◌,
}
use canonical_cloud.Auth.{Uuid, AuthProviderError, invalid_response}
use canonical_cloud.Auth.Json.{Json, get, as_str}

-- What the token code takes from its libraries.
pub record TokenLibs : Type 0 where
  -- `URL_SAFE_NO_PAD.decode`
  pub decode_no_pad : Text → Option (List ℕ)
  -- `URL_SAFE.decode`
  pub decode_padded : Text → Option (List ℕ)
  -- `serde_json::from_slice`
  pub parse_json : List ℕ → Option Json
  -- `Uuid::parse_str`
  pub parse_uuid : Text → Option Uuid

push_head : ℕ → List Text → List Text
push_head c [] = (c ∷ []) ∷ []
push_head c (s ∷ rest) = (c ∷ s) ∷ rest

-- `str::split` at one character: one more piece than there are separators.
unfoldable pub split : ℕ → Text → List Text
unfolding push_head
split sep [] = [] ∷ []
split sep (c ∷ s) = let rest = split sep s in if c == sep then [] ∷ rest else push_head c rest

-- The payload, if the token has exactly three segments.
unfoldable pub jwt_segments : List Text → Option (Text × Text × Text)
jwt_segments (header ∷ payload ∷ signature ∷ []) = some (header, payload, signature)
jwt_segments _ = none

unfoldable pub claim_str : Text → Json → Option Text
claim_str k claims = elim (get k claims) [ none ↦ none | some v ↦ as_str v ]

module _ (libs : TokenLibs) where
  unfoldable pub uuid_claim : Text → Json → Option Uuid
  uuid_claim k claims = elim (claim_str k claims) [ none ↦ none | some s ↦ libs.parse_uuid s ]

  unfoldable pub validated_payload : Text → Uuid → Result AuthProviderError (Option Uuid)
  validated_payload payload expected_user_id = do
    bytes ← ok_or (libs.decode_no_pad payload) invalid_response
    claims ← ok_or (libs.parse_json bytes) invalid_response
    subject ← ok_or (uuid_claim (text "sub") claims) invalid_response
    if not (subject == expected_user_id) then err invalid_response else do
      session_id ← ok_or (uuid_claim (text "session_id") claims) invalid_response
      ok (some session_id)

  unfoldable pub validated_session_id : Text → Uuid → Result AuthProviderError (Option Uuid)
  validated_session_id access_token expected_user_id =
      elim (jwt_segments (split b'.' access_token)) [
        | none ↦ ok none
        | some (header, payload, signature) ↦ validated_payload payload expected_user_id
      ]

-- `SupabaseAuthBuildError::PrivilegedKey`, the only error of the key's validation.
pub data KeyError : Type 0 where
  privileged_key : KeyError

module _ (libs : TokenLibs) where
  -- The payload must name the role `anon`.
  unfoldable pub validated_role : Text → Result KeyError (Unit {0})
  validated_role payload = do
    bytes ← ok_or (or_else (libs.decode_no_pad payload) (libs.decode_padded payload)) privileged_key
    claims ← ok_or (libs.parse_json bytes) privileged_key
    if not (option_beq (claim_str (text "role") claims) (some (text "anon")))
        then err privileged_key
        else ok tt

  unfoldable pub validate_segments : Option (Text × Text × Text) → Result KeyError (Unit {0})
  validate_segments none = err privileged_key
  validate_segments (some (header, payload, signature)) =
      if is_empty header || is_empty payload || is_empty signature
      then err privileged_key
      else validated_role payload

  unfoldable pub validate_publishable_key : Text → Result KeyError (Unit {0})
  validate_publishable_key key =
      let value = trim key in
      if is_some_and (strip_prefix (text "sb_publishable_") value) (λ suffix. not (is_empty suffix))
      then ok tt
      else if is_some (strip_prefix (text "sb_secret_") value)
      then err privileged_key
      else validate_segments (jwt_segments (split b'.' value))
