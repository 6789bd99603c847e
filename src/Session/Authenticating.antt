-- ===== src/Session/Authenticating.antt =====
-- The authentication of a session's cookie (canonical-web-server.rs/crates/canonical-session/src/lib.rs)
-- among other tasks and failures: it changes the table by the program's transactions, and names the
-- session of the cookie.
use canonical_cloud.Base.{
  ℕ, zero, suc, ◌+◌, ◌≡◌, subst, sym, Option, none, some, Text, Bool, not, Result, ok, err, ltb,
  leb, ◌==◌, nat_eq,
}
use canonical_cloud.Auth.{
  Uuid, AuthTokens, AuthContext, AuthProviderError, invalid_credentials, unavailable,
  invalid_response, seconds,
}
use canonical_cloud.Session.Model.{
  SessionError, unauthorized, RefreshClaim, RefreshClaimResult, fresh, claimed, busy,
}
use canonical_cloud.Session.Policy.{refresh_poll_initial}
use canonical_cloud.Session.Cipher.{hash_token}
use canonical_cloud.Session.Refresh.{
  Stored, stored, lost, finish_refresh_claim, outcome_after_lost_refresh, lost_outcome,
}
use canonical_cloud.Session.World.{World, Service, M, transact}
use canonical_cloud.Session.Refreshing.{
  Role, refused, leader, follower, valid_row, read_session, fail_claim, after_store, or_release,
  store_tokens, store_identified, refreshed_identity, use_tokens, execute_refresh_claim, sleep,
  poll_again, executed, on_claim, poll_loop, poll_fuel, in_time, refresh_as_local_leader,
  refresh_fenced, authenticate_hash, authenticate,
}
use canonical_cloud.Session.Reach.{Reach, here, claims, stores, finishes}
use canonical_cloud.Session.Guarantee.{
  Guarantees, Any, Post-Any, Guarantees-pure, Guarantees-raise, Guarantees-if, Guarantees-transact,
  Guarantees-bind, Guarantees-attempt, Guarantees-utc_now, Guarantees-draw, Guarantees-call_refresh,
}
use canonical_cloud.Session.Interference.{one, encrypt_token-Guarantees}
use canonical_cloud.Session.Identity.{
  IsSession, ClaimsFor, StoredFor, context-IsSession, on_row-reads, read_session-Post, outcome-Post,
  claim_refresh-Post, store_refresh-Post,
}

-- The context of the session, if there is one.
abbrev SomeSession : Text → Option AuthContext → Type 0
SomeSession id none = Unit
SomeSession id (some context) = IsSession id context

module _ (service : Service) (drawn : Text → Bool) where
  open service use {libs}

  outcome-Guarantees :
      (id : Text) → Guarantees libs drawn (IsSession id) (transact (outcome_after_lost_refresh id))
  unfolding outcome_after_lost_refresh
  outcome-Guarantees id =
      Guarantees-transact _
        (λ utc now rows.
          subst (λ x. Reach libs drawn rows x)
            (sym (on_row-reads id (err unauthorized) (lost_outcome utc now) rows)) here)
        (outcome-Post id)

  finish-Guarantees :
      (claim : RefreshClaim) (revoke : Bool)
      → Guarantees libs drawn Any (transact (finish_refresh_claim claim revoke))
  finish-Guarantees claim revoke =
      Guarantees-transact _ (λ utc now rows. one (finishes claim revoke utc now rows))
        (λ utc now rows. Post-Any _)

  fail_claim-Guarantees :
      (claim : RefreshClaim) (revoke : Bool) (error : SessionError)
      → Guarantees libs drawn (IsSession claim.id_hash) (fail_claim service claim revoke error)
  unfolding fail_claim
  fail_claim-Guarantees claim revoke error =
      Guarantees-bind _ _ (finish-Guarantees claim revoke) λ finished _.
        Guarantees-if finished _ _ (Guarantees-raise error) (outcome-Guarantees claim.id_hash)

  after_store-Guarantees :
      (claim : RefreshClaim) (outcome : Stored)
      → StoredFor claim.id_hash outcome
      → Guarantees libs drawn (IsSession claim.id_hash) (after_store service claim outcome)
  unfolding after_store
  after_store-Guarantees claim (stored context) q = Guarantees-pure context q
  after_store-Guarantees claim lost q = outcome-Guarantees claim.id_hash

  or_release-Guarantees :
      (claim : RefreshClaim) (r : Result SessionError Text)
      → Guarantees libs drawn Any (or_release service claim r)
  unfolding or_release
  or_release-Guarantees claim (ok token) = Guarantees-pure token tt
  or_release-Guarantees claim (err error) =
      Guarantees-bind _ _ (Guarantees-attempt _ (finish-Guarantees claim _))
        (λ r _. Guarantees-raise error)

  store_tokens-Guarantees :
      (claim : RefreshClaim) (tokens : AuthTokens) (session_id : Option Uuid)
      → Guarantees libs drawn
          (IsSession claim.id_hash)
          (store_tokens service claim tokens session_id)
  unfolding store_tokens
  store_tokens-Guarantees claim tokens session_id =
      Guarantees-bind _ _
        (Guarantees-attempt _ (encrypt_token-Guarantees service drawn tokens.access_token))
        λ r _. Guarantees-bind _ _ (or_release-Guarantees claim r) λ access _.
          Guarantees-bind _ _
            (Guarantees-attempt _ (encrypt_token-Guarantees service drawn tokens.refresh_token))
            λ r' _. Guarantees-bind _ _ (or_release-Guarantees claim r') λ refresh _.
              Guarantees-bind _ _
                (Guarantees-transact _
                  (λ utc now rows. one (stores claim tokens session_id access refresh utc now rows))
                  (store_refresh-Post claim tokens session_id access refresh))
                (after_store-Guarantees claim)

  store_identified-Guarantees :
      (claim : RefreshClaim) (tokens : AuthTokens) (r : Result AuthProviderError (Option Uuid))
      → Guarantees libs drawn (IsSession claim.id_hash) (store_identified service claim tokens r)
  unfolding store_identified
  store_identified-Guarantees claim tokens (ok session_id) =
      store_tokens-Guarantees claim tokens session_id
  store_identified-Guarantees claim tokens (err error) = fail_claim-Guarantees claim _ _

  use_tokens-Guarantees :
      (claim : RefreshClaim) (r : Result AuthProviderError AuthTokens)
      → Guarantees libs drawn (IsSession claim.id_hash) (use_tokens service claim r)
  unfolding use_tokens
  use_tokens-Guarantees claim (err invalid_credentials) = fail_claim-Guarantees claim _ _
  use_tokens-Guarantees claim (err unavailable) = fail_claim-Guarantees claim _ _
  use_tokens-Guarantees claim (err invalid_response) = fail_claim-Guarantees claim _ _
  use_tokens-Guarantees claim (ok tokens) =
      Guarantees-if (not (tokens.user.id == claim.user_id)) _ _ (fail_claim-Guarantees claim _ _)
        (store_identified-Guarantees claim tokens (refreshed_identity service claim tokens))

  execute-Guarantees :
      (claim : RefreshClaim)
      → Guarantees libs drawn (IsSession claim.id_hash) (execute_refresh_claim service claim)
  unfolding execute_refresh_claim
  execute-Guarantees claim =
      Guarantees-bind _ _ (Guarantees-call_refresh service claim.refresh_token)
        (λ answer _. use_tokens-Guarantees claim answer)

  sleep-Guarantees : (duration : ℕ) → Guarantees libs drawn Any (sleep service duration)
  unfolding sleep
  sleep-Guarantees duration = record { at = λ w r. (here, r, tt) }

  module _ (id : Text) where
    -- Another round of the loop.
    abbrev Again : (ℕ → M (Option AuthContext)) → Type 0
    Again again = (interval : ℕ) → Guarantees libs drawn (SomeSession id) (again interval)

    poll_again-Guarantees :
        (again : ℕ → M (Option AuthContext)) (deadline interval : ℕ)
        → Again again
        → Guarantees libs drawn (SomeSession id) (poll_again service again deadline interval)
    unfolding poll_again
    poll_again-Guarantees again deadline interval g =
        Guarantees-bind _ _ Guarantees-utc_now λ now _.
          Guarantees-if (ltb now deadline) _ _
            (Guarantees-bind _ _ (sleep-Guarantees _) (λ _ _. g _)) (Guarantees-raise _)

    executed-Guarantees :
        (claim : RefreshClaim)
        → claim.id_hash ≡ id
        → Guarantees libs drawn (SomeSession id) (executed service claim)
    unfolding executed
    executed-Guarantees claim e =
        Guarantees-bind _ _ (execute-Guarantees claim)
          λ context q. Guarantees-pure (some context) (subst (λ x. IsSession x context) e q)

    on_claim-Guarantees :
        (again : ℕ → M (Option AuthContext)) (deadline interval : ℕ) (r : RefreshClaimResult)
        → Again again
        → ClaimsFor id r
        → Guarantees libs drawn (SomeSession id) (on_claim service again deadline interval r)
    unfolding on_claim
    on_claim-Guarantees again deadline interval (fresh m) g q =
        Guarantees-pure _ (context-IsSession id m q)
    on_claim-Guarantees again deadline interval (claimed claim) g q = executed-Guarantees claim q
    on_claim-Guarantees again deadline interval busy g q =
        poll_again-Guarantees again deadline interval g

    poll_loop-Guarantees :
        (fuel deadline interval : ℕ)
        → Guarantees libs drawn (SomeSession id) (poll_loop service fuel id deadline interval)
    unfolding poll_loop
    poll_loop-Guarantees zero deadline interval = Guarantees-pure none tt
    poll_loop-Guarantees (suc fuel) deadline interval = Guarantees-bind _ _ Guarantees-draw λ k _.
        Guarantees-bind _ _
          (Guarantees-transact _ (λ utc now rows. one (claims id (service.new_v4 k) utc now rows))
            (claim_refresh-Post libs.cipher id (service.new_v4 k)))
          λ r q.
            on_claim-Guarantees (poll_loop service fuel id deadline) deadline interval r
              (poll_loop-Guarantees fuel deadline) q

    in_time-Guarantees :
        (o : Option AuthContext)
        → SomeSession id o
        → Guarantees libs drawn (IsSession id) (in_time service o)
    unfolding in_time
    in_time-Guarantees none q = Guarantees-raise _
    in_time-Guarantees (some context) q = Guarantees-pure context q

    refresh_fenced-Guarantees :
        (role : Role) → Guarantees libs drawn (IsSession id) (refresh_fenced service role id)
    unfolding refresh_fenced refresh_as_local_leader
    refresh_fenced-Guarantees refused = Guarantees-raise _
    refresh_fenced-Guarantees leader = Guarantees-bind _ _ Guarantees-utc_now λ now _.
        Guarantees-bind _ _ (poll_loop-Guarantees poll_fuel _ refresh_poll_initial)
          in_time-Guarantees
    refresh_fenced-Guarantees follower = outcome-Guarantees id

    authenticate_hash-Guarantees :
        (role : Role) → Guarantees libs drawn (IsSession id) (authenticate_hash service role id)
    unfolding authenticate_hash read_session
    authenticate_hash-Guarantees role =
        Guarantees-bind _ _
          (Guarantees-transact (read_session id)
            (λ utc now rows.
              subst (λ x. Reach libs drawn rows x)
                (sym (on_row-reads id (err unauthorized) (valid_row utc) rows)) here)
            (read_session-Post id))
          λ m q. Guarantees-bind _ _ Guarantees-utc_now λ now _.
            Guarantees-if (leb m.access_expires_at (now + seconds 60)) _ _
              (refresh_fenced-Guarantees role) (Guarantees-pure _ (context-IsSession id m q))

  pub authenticate-Guarantees :
      (role : Role) (raw_id : Text)
      → Guarantees libs drawn
          (IsSession (hash_token libs.cipher raw_id))
          (authenticate service role raw_id)
  unfolding authenticate
  authenticate-Guarantees role raw_id =
      authenticate_hash-Guarantees (hash_token libs.cipher raw_id) role
