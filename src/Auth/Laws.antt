-- ===== src/Auth/Laws.antt =====
-- What the readers of canonical-web-server.rs/crates/canonical-auth/src/lib.rs let through.
use canonical_cloud.Base.{
  ℕ, ◌≡◌, Option, none, some, List, Text, text, true, Result, ok, err, arith, ◌≢◌, text_eq, trim,
  strip_prefix, is_empty, [], ◌∷◌, not, is_some_and, Bool-cases, ◌>>=◌, nat_eq, refl, ok_or, inl,
  inr, Option-cases,
}
use canonical_cloud.Auth.{Uuid, AuthTokens, AuthProviderError, invalid_response}
use canonical_cloud.Auth.Json.{Json}
use canonical_cloud.Auth.Token.{
  TokenLibs, split, jwt_segments, uuid_claim, validated_payload, validated_session_id,
  validate_publishable_key, validate_segments, validated_role,
}
use canonical_cloud.Auth.Supabase.{Sent, TokenResponse, token_request, token_body}

-- What an accepted payload says: it decodes to claims with this subject and session.
pub record Claims (libs : TokenLibs) (payload : Text) (user id : Uuid) : Type 0 where
  pub bytes : List ℕ
  pub claims : Json
  pub decoded : libs.decode_no_pad payload ≡ some bytes
  pub parsed : libs.parse_json bytes ≡ some claims
  pub subject : uuid_claim libs (text "sub") claims ≡ some user
  pub session : uuid_claim libs (text "session_id") claims ≡ some id

-- No token is accepted for two users, nor for two sessions.
pub token_bound :
    (libs : TokenLibs) (token : Text) (user other id id' : Uuid)
    → validated_session_id libs token user ≡ ok (some id)
    → validated_session_id libs token other ≡ ok (some id')
    → (user ≡ other) × (id ≡ id')
unfolding validated_session_id validated_payload
token_bound libs token user other id id' h h' = ground arith

session_required :
    {A : Type 0} (r : Result AuthProviderError (Option Uuid)) (a : A) {b : A}
    → (do session ← r; id ← ok_or session invalid_response; ok a) ≡ ok b
    → (id : Uuid) × (r ≡ ok (some id)) × (a ≡ b)
session_required (ok (some id)) a h = (id, refl, cc)
session_required (ok none) a h = cc
session_required (err e) a h = cc

token_body_bound :
    (libs : TokenLibs) (now : ℕ) (response : TokenResponse) (tokens : AuthTokens)
    → token_body libs now response ≡ ok tokens
    → (id : Uuid) × (validated_session_id libs tokens.access_token tokens.user.id ≡ ok (some id))
unfolding token_body
token_body_bound libs now response tokens h =
    let (id, e, p) =
      session_required (validated_session_id libs response.access_token response.user.id) _ h in
    (id, rw (← p) e)

-- Every pair of tokens that a token request returns names a session of the user it came with.
pub token_request_bound :
    (libs : TokenLibs) (now : ℕ) (sent : Sent TokenResponse) (tokens : AuthTokens)
    → token_request libs now sent ≡ ok tokens
    → (id : Uuid) × (validated_session_id libs tokens.access_token tokens.user.id ≡ ok (some id))
unfolding token_request
token_request_bound libs now none tokens h = cc
token_request_bound libs now (some response) tokens h = elim (Option-cases response.json) [
  | inl e ↦ absurd (ground arith)
  | inr (body, e) ↦ token_body_bound libs now body tokens (ground arith)
]

prefixes_apart :
    (s : Text) (suffix : Text)
    → strip_prefix (text "sb_publishable_") s ≡ some suffix
    → strip_prefix (text "sb_secret_") s ≡ none
unfolding strip_prefix
prefixes_apart [] suffix h = cc
prefixes_apart (a ∷ []) suffix h = ground arith
prefixes_apart (a ∷ b ∷ []) suffix h = ground arith
prefixes_apart (a ∷ b ∷ c ∷ []) suffix h = ground arith
prefixes_apart (a ∷ b ∷ c ∷ d ∷ s) suffix h = ground arith

-- What an accepted key is: a publishable key with a body, or a JSON token whose role is `anon`.
pub data IsPublishable (libs : TokenLibs) (value : Text) : Type 0 where
  publishable :
      (suffix : Text)
      → strip_prefix (text "sb_publishable_") value ≡ some suffix
      → suffix ≢ []
      → IsPublishable libs value
  anonymous :
      (header payload signature : Text)
      → jwt_segments (split b'.' value) ≡ some (header, payload, signature)
      → validated_role libs payload ≡ ok tt
      → IsPublishable libs value

IsPublishable-case :
    (libs : TokenLibs) (value : Text)
    → (stripped : Option Text) → strip_prefix (text "sb_publishable_") value ≡ stripped
    → is_some_and stripped (λ suffix. not (is_empty suffix)) ≡ true
    → IsPublishable libs value × (strip_prefix (text "sb_secret_") value ≡ none)
IsPublishable-case libs value none e h = cc
IsPublishable-case libs value (some []) e h = cc
IsPublishable-case libs value (some (c ∷ suffix)) e h =
    (publishable (c ∷ suffix) e (λ p. cc p), prefixes_apart value (c ∷ suffix) e)

segments_case :
    (libs : TokenLibs) (value : Text) (segments : Option (Text × Text × Text))
    → jwt_segments (split b'.' value) ≡ segments
    → validate_segments libs segments ≡ ok tt
    → IsPublishable libs value
unfolding validate_segments
segments_case libs value none e h = cc
segments_case libs value (some (header, payload, signature)) e h =
    anonymous header payload signature e (ground arith)

-- An accepted key is publishable or anonymous, and never one with the prefix of a secret key.
pub validate_publishable_key_sound :
    (libs : TokenLibs) (key : Text)
    → validate_publishable_key libs key ≡ ok tt
    → IsPublishable libs (trim key) × (strip_prefix (text "sb_secret_") (trim key) ≡ none)
unfolding validate_publishable_key
validate_publishable_key_sound libs key h =
    elim (Bool-cases
      (is_some_and (strip_prefix (text "sb_publishable_") (trim key)) (λ s. not (is_empty s)))) [
        | inl e ↦ IsPublishable-case libs (trim key) _ refl e
        | inr e ↦ (segments_case libs (trim key) _ refl (ground arith), ground arith)
      ]
