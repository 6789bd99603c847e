-- ===== src/Session/Entering.antt =====
-- That `create` of canonical-web-server.rs/crates/canonical-session/src/lib.rs takes a step of
-- Session/Reach.antt.
use canonical_cloud.Base.{
  ℕ, ◌+◌, ◌≡◌, refl, sym, ap, ◌∙◌, subst, ◌∷◌, Option, none, Text, Bool, false, Result, ok, err,
  map_err, ◌>>=◌, arith,
}
use canonical_cloud.Auth.{Uuid, AuthTokens}
use canonical_cloud.Auth.Token.{validated_session_id}
use canonical_cloud.Session.Model.{WebSession, SessionError, Rows, find_by_id}
use canonical_cloud.Session.Policy.{map_auth_error}
use canonical_cloud.Session.Cipher.{encrypt, hash_token}
use canonical_cloud.Session.Revocation.{Libs}
use canonical_cloud.Session.Create.{
  Draws, Profiles, CreatedSession, new_session, duration_from_std, created_row, insert_session,
  create,
}
use canonical_cloud.Session.Reach.{Step, creates}

bound :
    {A B : Type 0} (r : Result SessionError A) (f : A → Result SessionError B) (b : B)
    → (r >>= f) ≡ ok b
    → (a : A) × (r ≡ ok a) × (f a ≡ ok b)
bound (ok a) f b h = (a, refl, h)
bound (err e) f b h = cc h

module _ (libs : Libs) (draws : Draws) (ttl now : ℕ) (tokens : AuthTokens) where
  -- The row of a new session, under the hash of the identifier that was drawn.
  IsNew : WebSession → Type 0
  IsNew m =
      (session_id : Option Uuid) × (access refresh : Text) × (expires_at : ℕ) × (m
        ≡ new_session (hash_token libs.cipher draws.raw_id) tokens session_id access refresh
            draws.csrf_token now expires_at)

  created_row-IsNew : (m : WebSession) → created_row libs draws ttl now tokens ≡ ok m → IsNew m
  unfolding created_row IsNew
  created_row-IsNew m h =
      let (lifetime, _, h1) = bound (duration_from_std ttl) _ m h in
      let (session_id, _, h2) =
        bound
          (map_err map_auth_error
            (validated_session_id libs.tokens tokens.access_token tokens.user.id))
          _ m h1 in
      let (access, _, h3) =
        bound (encrypt libs.cipher draws.access_nonce tokens.access_token) _ m h2 in
      let (refresh, _, h4) =
        bound (encrypt libs.cipher draws.refresh_nonce tokens.refresh_token) _ m h3 in
      (session_id, access, refresh, now + lifetime, cc h4)

  inserted :
      (m : WebSession) (rows rows' : Rows)
      → insert_session m rows ≡ ok rows'
      → (find_by_id m.id_hash rows ≡ none) × (m ∷ rows ≡ rows')
  unfolding insert_session
  inserted m rows rows' h = ground arith

  -- A login that answers has taken the step of a creation.
  create-Step :
      (drawn : Text → Bool) (rows rows' : Rows) (profiles profiles' : Profiles)
      (answer : CreatedSession)
      → drawn (hash_token libs.cipher draws.raw_id) ≡ false
      → create libs draws ttl now tokens rows profiles ≡ ok (answer, rows', profiles')
      → Step libs drawn rows rows'
  unfolding create IsNew
  create-Step drawn rows rows' profiles profiles' answer undrawn h =
      let (m, e, h1) =
        bound (created_row libs draws ttl now tokens) _ (answer, rows', profiles') h in
      let (rows1, e1, h2) = bound (insert_session m rows) _ (answer, rows', profiles') h1 in
      let (absent, front) = inserted m rows rows1 e1 in
      let (session_id, access, refresh, expires_at, new) = created_row-IsNew m e in
      let id = hash_token libs.cipher draws.raw_id in
      let m' = new_session id tokens session_id access refresh draws.csrf_token now expires_at in
      let step : Step libs drawn rows (m' ∷ rows) =
        creates id draws.csrf_token access refresh tokens session_id now expires_at rows
          (unfold new_session in subst (λ k. find_by_id k.id_hash rows ≡ none) new absent)
          undrawn in
      let last : m' ∷ rows ≡ rows' = ap (λ k. k ∷ rows) (sym new) ∙ front ∙ cc h2 in
      subst (λ x. Step libs drawn rows x) last step
