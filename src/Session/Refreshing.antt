-- ===== src/Session/Refreshing.antt =====
-- The refresh of a session in canonical-web-server.rs/crates/canonical-session/src/lib.rs:
-- `execute_refresh_claim`, the polling of the local leader, `authenticate_hash` and `revalidate`.
use canonical_cloud.Base.{
  ℕ, zero, suc, ◌+◌, ◌-◌, min, Option, none, some, [], ◌∷◌, Text, Bool, true, false, not, Result,
  ok, err, ltb, leb, if◌then◌else◌, ◌==◌, nat_eq, ◌&&◌, is_some, option_beq, ◌||◌,
}
use canonical_cloud.Auth.{
  Uuid, AuthTokens, AuthContext, AuthProviderError, invalid_credentials, seconds,
}
use canonical_cloud.Auth.Token.{validated_session_id}
use canonical_cloud.Session.Model.{
  WebSession, SessionError, unauthorized, auth_upstream, RefreshClaim, RefreshClaimResult, fresh,
  claimed, busy, Rows, on_row,
}
use canonical_cloud.Session.Policy.{
  map_auth_error, resolve_rotated_session_id, validate_model, context_from_model, refresh_wait,
  refresh_poll_initial, next_refresh_poll_interval,
}
use canonical_cloud.Session.Cipher.{hash_token}
use canonical_cloud.Session.Refresh.{
  Stored, stored, lost, claim_refresh, store_refresh, finish_refresh_claim,
  outcome_after_lost_refresh,
}
use canonical_cloud.Session.Revocation.{Tx}
use canonical_cloud.Session.World.{
  Service, M, pure, raise, attempt, transact, utc_now, draw, call_refresh, ◌>>=◌, ◌>>◌,
}
use canonical_cloud.Session.Flows.{encrypt_token}

-- The read of `authenticate_hash`, with `validate_model`.
unfoldable pub valid_row : ℕ → WebSession → Result SessionError WebSession
valid_row utc_now m = elim (validate_model utc_now m) [ ok _ ↦ ok m | err e ↦ err e ]

unfoldable pub read_session : Text → ℕ → ℕ → Tx WebSession
read_session id_hash utc_now now =
    on_row id_hash (err unauthorized) (λ m. (valid_row utc_now m, none))

-- `reject_locally_revoked_bearer`: a revoked session of the user has this identity.
unfoldable pub revoked_locally : Uuid → Uuid → Rows → Bool
revoked_locally user_id session_id [] = false
revoked_locally user_id session_id (m ∷ rows) =
    (m.user_id == user_id
      && option_beq m.supabase_session_id (some session_id)
      && is_some m.revoked_at)
    || revoked_locally user_id session_id rows

unfoldable pub reject_locally_revoked_bearer : Uuid → Uuid → ℕ → ℕ → Tx (Unit {0})
reject_locally_revoked_bearer user_id session_id _ _ rows =
    (if revoked_locally user_id session_id rows then err unauthorized else ok tt, rows)

-- What the coordinator makes of a caller: refused at its bound, the leader, or a follower that has
-- waited for the leader's lock.
pub data Role : Type 0 where
  refused leader follower : Role

-- The rounds of the loop below: sleeps of 50, 100, 200, 400 and 800 milliseconds, 21 of at most a
-- second, and the last round.
abbrev pub poll_fuel : ℕ
poll_fuel = 27

module _ (service : Service) where
  open service use {libs}

  -- The fence of `execute_refresh_claim`'s error paths: `error`, if the claim still held the row.
  unfoldable pub fail_claim : RefreshClaim → Bool → SessionError → M AuthContext
  fail_claim claim revoke error = do
    finished ← transact (finish_refresh_claim claim revoke)
    if finished then raise error else transact (outcome_after_lost_refresh claim.id_hash)

  unfoldable pub after_store : RefreshClaim → Stored → M AuthContext
  after_store claim (stored context) = pure context
  after_store claim lost = transact (outcome_after_lost_refresh claim.id_hash)

  -- An encryption failure releases the lease, and is returned whatever the release answers.
  unfoldable pub or_release : RefreshClaim → Result SessionError Text → M Text
  or_release claim (ok token) = pure token
  or_release claim (err error) = do
    r ← attempt (transact (finish_refresh_claim claim false))
    raise error

  unfoldable pub store_tokens : RefreshClaim → AuthTokens → Option Uuid → M AuthContext
  store_tokens claim tokens session_id = do
    r ← attempt (encrypt_token service tokens.access_token)
    access ← or_release claim r
    r' ← attempt (encrypt_token service tokens.refresh_token)
    refresh ← or_release claim r'
    outcome ← transact (store_refresh claim tokens session_id access refresh)
    after_store claim outcome

  unfoldable pub store_identified :
      RefreshClaim → AuthTokens → Result AuthProviderError (Option Uuid) → M AuthContext
  store_identified claim tokens (ok session_id) = store_tokens claim tokens session_id
  store_identified claim tokens (err error) = fail_claim claim true (map_auth_error error)

  -- The session identity that the rotated token names, against the one of the claim.
  unfoldable pub refreshed_identity :
      RefreshClaim → AuthTokens → Result AuthProviderError (Option Uuid)
  refreshed_identity claim tokens =
      elim (validated_session_id libs.tokens tokens.access_token tokens.user.id) [
        | err e ↦ err e
        | ok observed ↦ resolve_rotated_session_id claim.supabase_session_id observed
      ]

  unfoldable pub use_tokens : RefreshClaim → Result AuthProviderError AuthTokens → M AuthContext
  use_tokens claim (err invalid_credentials) = fail_claim claim true unauthorized
  use_tokens claim (err error) = fail_claim claim false (map_auth_error error)
  use_tokens claim (ok tokens) =
      if not (tokens.user.id == claim.user_id)
      then fail_claim claim true unauthorized
      else store_identified claim tokens (refreshed_identity claim tokens)

  unfoldable pub execute_refresh_claim : RefreshClaim → M AuthContext
  execute_refresh_claim claim = do
    answer ← call_refresh service claim.refresh_token
    use_tokens claim answer

  -- `time::sleep`: the server's clock is past the sleep when it returns.
  unfoldable pub sleep : ℕ → M (Unit {0})
  sleep duration w = (ok tt, record w { utc_now = w.utc_now + duration })

  -- What one poll of the leader's loop comes to: a result, or another poll after a sleep.
  unfoldable pub poll_again : (ℕ → M (Option AuthContext)) → ℕ → ℕ → M (Option AuthContext)
  poll_again again deadline interval = do
    now ← utc_now
    if ltb now deadline
        then (do sleep (min interval (deadline - now)); again (next_refresh_poll_interval interval))
        else raise auth_upstream

  unfoldable pub executed : RefreshClaim → M (Option AuthContext)
  executed claim = do context ← execute_refresh_claim claim; pure (some context)

  unfoldable pub on_claim :
      (ℕ → M (Option AuthContext)) → ℕ → ℕ → RefreshClaimResult → M (Option AuthContext)
  on_claim again deadline interval (fresh m) = pure (some (context_from_model m))
  on_claim again deadline interval (claimed claim) = executed claim
  on_claim again deadline interval busy = poll_again again deadline interval

  -- The `loop` of `refresh_as_local_leader` on fuel; `none` means that the fuel ran out. Each round
  -- draws the UUID of its lease.
  unfoldable pub poll_loop : ℕ → Text → ℕ → ℕ → M (Option AuthContext)
  poll_loop zero id_hash deadline interval = pure none
  poll_loop (suc fuel) id_hash deadline interval = do
    k ← draw
    r ← transact (claim_refresh libs.cipher id_hash (service.new_v4 k))
    on_claim (poll_loop fuel id_hash deadline) deadline interval r

  unfoldable pub in_time : Option AuthContext → M AuthContext
  in_time none = raise auth_upstream
  in_time (some context) = pure context

  unfoldable pub refresh_as_local_leader : Text → M AuthContext
  refresh_as_local_leader id_hash = do
    now ← utc_now
    o ← poll_loop poll_fuel id_hash (now + refresh_wait) refresh_poll_initial
    in_time o

  unfoldable pub refresh_fenced : Role → Text → M AuthContext
  refresh_fenced refused id_hash = raise auth_upstream
  refresh_fenced leader id_hash = refresh_as_local_leader id_hash
  refresh_fenced follower id_hash = transact (outcome_after_lost_refresh id_hash)

  unfoldable pub authenticate_hash : Role → Text → M AuthContext
  authenticate_hash role id_hash = do
    m ← transact (read_session id_hash)
    now ← utc_now
    if leb m.access_expires_at (now + seconds 60)
        then refresh_fenced role id_hash
        else pure (context_from_model m)

  unfoldable pub authenticate : Role → Text → M AuthContext
  authenticate role raw_id = authenticate_hash role (hash_token libs.cipher raw_id)

  -- The middle arm of `revalidate`: a bearer that has not expired.
  unfoldable pub revalidate_bearer : AuthContext → Option Uuid → M (Unit {0})
  revalidate_bearer context none = pure tt
  revalidate_bearer context (some session_id) =
      transact (reject_locally_revoked_bearer context.user_id session_id)

  unfoldable pub revalidate_with : Role → AuthContext → Option Text → M (Unit {0})
  revalidate_with role context (some id_hash) = do c ← authenticate_hash role id_hash; pure tt
  revalidate_with role context none = do
    now ← utc_now
    if ltb now context.expires_at
        then revalidate_bearer context context.supabase_session_id
        else raise unauthorized

  unfoldable pub revalidate : Role → AuthContext → M (Unit {0})
  revalidate role context = revalidate_with role context context.session_hash
