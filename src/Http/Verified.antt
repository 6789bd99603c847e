-- ===== src/Http/Verified.antt =====
-- What a context has that canonical-web-server.rs/src/auth/shared_auth.rs has verified.
use canonical_cloud.Base.{ℕ, ◌<◌, ◌≡◌, Text, Option, none, some, nat_eq}
use canonical_cloud.Auth.{AuthContext, CredentialSource, session_cookie, bearer}
use canonical_cloud.Http.SharedAuth.{SharedAuthVerifier, token_fingerprint, csrf_token}

module _ (shared : SharedAuthVerifier) (source : CredentialSource) (now : ℕ) (token : Text) where
  -- A cookie has the CSRF token that is tied to its token; a bearer has none.
  abbrev pub HasToken : CredentialSource → Option Text → Type 0
  HasToken session_cookie csrf = csrf ≡ some (csrf_token shared token)
  HasToken bearer csrf = csrf ≡ none

  -- The context of a token, from the credential it came with.
  pub record IsVerified (context : AuthContext) : Type 0 where
    pub of_source : context.source ≡ source
    pub csrf : HasToken source context.csrf_token
    pub of_token : context.session_hash ≡ some (token_fingerprint shared token)
    pub alive : now < context.expires_at
