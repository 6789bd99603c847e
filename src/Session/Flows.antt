-- ===== src/Session/Flows.antt =====
-- The operations of canonical-web-server.rs/crates/canonical-session/src/lib.rs that go through
-- several transactions and calls of the identity provider.
use canonical_cloud.Base.{
  ℕ, zero, suc, ◌+◌, Option, none, some, List, [], ◌∷◌, Text, text, not, Result, ok, err, leb,
  if◌then◌else◌, ◌==◌, nat_eq,
}
use canonical_cloud.Auth.{
  Uuid, AuthTokens, AuthProviderError, invalid_credentials, invalid_response, seconds,
}
use canonical_cloud.Auth.Token.{validated_session_id}
use canonical_cloud.Session.Model.{SessionError, RevocationClaim}
use canonical_cloud.Session.Policy.{map_auth_error, resolve_rotated_session_id}
use canonical_cloud.Session.Cipher.{encrypt, hash_token}
use canonical_cloud.Session.Revocation.{
  queue_revocation, claim_revocation, persist_rotation, confirm_revocation, abandon_revocation,
  defer_revocation,
}
use canonical_cloud.Session.Reconcile.{select_expired, reconcile}
use canonical_cloud.Session.World.{
  Service, M, pure, raise, lift, attempt, transact, utc_now, draw, call_refresh, call_sign_out,
  ◌>>=◌, ◌>>◌,
}

pub data RevocationRefreshFailure : Type 0 where
  upstream : AuthProviderError → RevocationRefreshFailure
  local : SessionError → RevocationRefreshFailure

-- `map_err(RevocationRefreshFailure::Local)`
unfoldable pub as_local : {A : Type 0} → Result SessionError A → Result RevocationRefreshFailure A
as_local (ok a) = ok a
as_local (err e) = err (local e)

module _ (service : Service) where
  open service use {libs}

  -- `encrypt`, with a nonce that it draws.
  unfoldable pub encrypt_token : Text → M Text
  encrypt_token plaintext = do k ← draw; lift (encrypt libs.cipher (service.nonce k) plaintext)

  unfoldable pub persist_revocation_rotation :
      RevocationClaim → AuthTokens → Option Uuid → M RevocationClaim
  persist_revocation_rotation claim tokens session_id = do
    access ← encrypt_token tokens.access_token
    refresh ← encrypt_token tokens.refresh_token
    transact (persist_rotation claim tokens session_id access refresh)

  -- The checks of `refresh_revocation_claim` on the tokens that it was given.
  unfoldable pub rotation_identity :
      RevocationClaim → AuthTokens → Result AuthProviderError (Option Uuid)
  rotation_identity claim tokens =
      if not (tokens.user.id == claim.user_id)
      then err invalid_response
      else elim (validated_session_id libs.tokens tokens.access_token claim.user_id) [
        | err e ↦ err e
        | ok observed ↦ resolve_rotated_session_id claim.supabase_session_id observed
      ]

  unfoldable pub persist_checked :
      RevocationClaim
      → AuthTokens
      → Result AuthProviderError (Option Uuid)
      → M (Result RevocationRefreshFailure RevocationClaim)
  persist_checked claim tokens (err e) = pure (err (upstream e))
  persist_checked claim tokens (ok session_id) = do
    r ← attempt (persist_revocation_rotation claim tokens session_id)
    pure (as_local r)

  unfoldable pub rotate_with :
      RevocationClaim
      → Result AuthProviderError AuthTokens
      → M (Result RevocationRefreshFailure RevocationClaim)
  rotate_with claim (err e) = pure (err (upstream e))
  rotate_with claim (ok tokens) = persist_checked claim tokens (rotation_identity claim tokens)

  unfoldable pub refresh_revocation_claim :
      RevocationClaim → M (Result RevocationRefreshFailure RevocationClaim)
  refresh_revocation_claim claim = do
    answer ← call_refresh service claim.refresh_token
    rotate_with claim answer

  -- `defer_revocation(…)?; return Err(map_auth_error(error))`
  unfoldable pub defer_and_fail : RevocationClaim → AuthProviderError → M (Unit {0})
  defer_and_fail claim error = do transact (defer_revocation claim); raise (map_auth_error error)

  -- The `match` on the result of `refresh_revocation_claim`: `go` goes on with the rotated claim.
  unfoldable pub after_rotation :
      RevocationClaim
      → (RevocationClaim → M (Unit {0}))
      → Result RevocationRefreshFailure RevocationClaim
      → M (Unit {0})
  after_rotation claim go (ok rotated) = go rotated
  after_rotation claim go (err (upstream invalid_credentials)) =
      transact (abandon_revocation claim (text "credentials_rejected"))
  after_rotation claim go (err (upstream error)) = defer_and_fail claim error
  after_rotation claim go (err (local error)) = raise error

  unfoldable pub rotate_then : RevocationClaim → (RevocationClaim → M (Unit {0})) → M (Unit {0})
  rotate_then claim go = do r ← refresh_revocation_claim claim; after_rotation claim go r

  -- The arms of the loop's `match` while `refreshed` is set.
  unfoldable pub signed_out_last :
      RevocationClaim → Result AuthProviderError (Unit {0}) → M (Unit {0})
  signed_out_last claim (ok _) = transact (confirm_revocation claim)
  signed_out_last claim (err error) = defer_and_fail claim error

  -- The arms while it is not: a rejected token is refreshed once.
  unfoldable pub signed_out_first :
      RevocationClaim
      → (RevocationClaim → M (Unit {0}))
      → Result AuthProviderError (Unit {0})
      → M (Unit {0})
  signed_out_first claim go (ok _) = transact (confirm_revocation claim)
  signed_out_first claim go (err invalid_credentials) = rotate_then claim go
  signed_out_first claim go (err error) = defer_and_fail claim error

  -- The `loop` of `attempt_revocation`. The number is 1 while `refreshed` is false, and 0 then.
  unfoldable pub sign_out_loop : ℕ → RevocationClaim → M (Unit {0})
  sign_out_loop zero claim = do
    answer ← call_sign_out service claim.access_token
    signed_out_last claim answer
  sign_out_loop (suc left) claim = do
    answer ← call_sign_out service claim.access_token
    signed_out_first claim (sign_out_loop left) answer

  unfoldable pub attempt_claim : RevocationClaim → M (Unit {0})
  attempt_claim claim = do
    now ← utc_now
    if leb claim.access_expires_at (now + seconds 5)
        then rotate_then claim (sign_out_loop 0)
        else sign_out_loop 1 claim

  unfoldable pub with_claim : Option RevocationClaim → M (Unit {0})
  with_claim none = pure tt
  with_claim (some claim) = attempt_claim claim

  unfoldable pub attempt_revocation : Text → M (Unit {0})
  attempt_revocation id_hash = do claim ← transact (claim_revocation libs id_hash); with_claim claim

  -- `revoke`: an error of the attempt is only logged.
  unfoldable pub revoke : Text → M (Unit {0})
  revoke raw_id = do
    let id_hash = hash_token libs.cipher raw_id
    transact (queue_revocation id_hash)
    r ← attempt (attempt_revocation id_hash)
    pure tt

  unfoldable pub attempt_each : List Text → M (Unit {0})
  attempt_each [] = pure tt
  attempt_each (id_hash ∷ rest) = do r ← attempt (attempt_revocation id_hash); attempt_each rest

  -- The other tasks run between the selection of the expired rows, which locks none of them, and the
  -- rest of the transaction.
  unfoldable pub reconcile_revocations : M (Unit {0})
  reconcile_revocations = do
    selected ← transact select_expired
    picked ← transact (reconcile selected.0 selected.1)
    attempt_each picked.0
