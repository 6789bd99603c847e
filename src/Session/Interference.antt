-- ===== src/Session/Interference.antt =====
-- The steps of a logout in canonical-web-server.rs/crates/canonical-session/src/lib.rs, run among
-- other tasks, replicas and database failures, change the table by its transactions alone.
use canonical_cloud.Base.{ℕ, zero, suc, Option, none, some, Text, Bool, Result, ok, err}
use canonical_cloud.Auth.{
  Uuid, AuthTokens, AuthProviderError, invalid_credentials, unavailable, invalid_response,
}
use canonical_cloud.Session.Model.{SessionError, RevocationClaim, Rows}
use canonical_cloud.Session.Revocation.{Libs, confirm_revocation, abandon_revocation}
use canonical_cloud.Session.World.{Service, M, transact, attempt, ◌>>=◌}
use canonical_cloud.Session.Flows.{
  RevocationRefreshFailure, upstream, local, as_local, encrypt_token, persist_revocation_rotation,
  rotation_identity, persist_checked, rotate_with, refresh_revocation_claim, defer_and_fail,
  after_rotation, rotate_then, signed_out_last, signed_out_first, sign_out_loop, attempt_claim,
  with_claim, attempt_revocation, revoke,
}
use canonical_cloud.Session.Reach.{
  Reach, here, next, Step, queues, attempts, persists, confirms, abandons, defers,
}
use canonical_cloud.Session.Genuine.{
  IsGenuine, GenuineSome, GenuineOk, claim_revocation-GenuineSome, persist_rotation-IsGenuine,
}
use canonical_cloud.Session.Guarantee.{
  Post, Guarantees, Any, Post-Any, Guarantees-pure, Guarantees-raise, Guarantees-if,
  Guarantees-transact, Guarantees-bind, Guarantees-attempt, Guarantees-utc_now, Guarantees-draw,
  Guarantees-lift, Guarantees-call_refresh, Guarantees-call_sign_out,
}

pub one :
    {libs : Libs} {drawn : Text → Bool} {a b : Rows} → Step libs drawn a b → Reach libs drawn a b
one s = next here s

module _ (service : Service) (drawn : Text → Bool) where
  open service use {libs}

  pub encrypt_token-Guarantees : (s : Text) → Guarantees libs drawn Any (encrypt_token service s)
  unfolding encrypt_token
  encrypt_token-Guarantees s = Guarantees-bind _ _ Guarantees-draw (λ k _. Guarantees-lift _)

  persist-Guarantees :
      (claim : RevocationClaim) (tokens : AuthTokens) (session_id : Option Uuid)
      → IsGenuine claim
      → Guarantees libs drawn IsGenuine
          (persist_revocation_rotation service claim tokens session_id)
  unfolding persist_revocation_rotation
  persist-Guarantees claim tokens session_id g =
      Guarantees-bind _ _ (encrypt_token-Guarantees tokens.access_token) λ access _.
        Guarantees-bind _ _ (encrypt_token-Guarantees tokens.refresh_token) λ refresh _.
          Guarantees-transact _
            (λ utc now rows. one (persists claim tokens session_id access refresh utc now rows g))
            (λ utc now rows.
              persist_rotation-IsGenuine claim tokens session_id access refresh utc now rows g)

  as_local-GenuineOk :
      (r : Result SessionError RevocationClaim) → Post IsGenuine r → GenuineOk (as_local r)
  unfolding as_local
  as_local-GenuineOk (ok c) g = g
  as_local-GenuineOk (err e) g = tt

  persist_checked-Guarantees :
      (claim : RevocationClaim) (tokens : AuthTokens) (r : Result AuthProviderError (Option Uuid))
      → IsGenuine claim
      → Guarantees libs drawn GenuineOk (persist_checked service claim tokens r)
  unfolding persist_checked
  persist_checked-Guarantees claim tokens (err e) g = Guarantees-pure _ tt
  persist_checked-Guarantees claim tokens (ok session_id) g =
      Guarantees-bind _ _ (Guarantees-attempt _ (persist-Guarantees claim tokens session_id g))
        (λ r q. Guarantees-pure _ (as_local-GenuineOk r q))

  rotate_with-Guarantees :
      (claim : RevocationClaim) (r : Result AuthProviderError AuthTokens)
      → IsGenuine claim
      → Guarantees libs drawn GenuineOk (rotate_with service claim r)
  unfolding rotate_with
  rotate_with-Guarantees claim (err e) g = Guarantees-pure _ tt
  rotate_with-Guarantees claim (ok tokens) g =
      persist_checked-Guarantees claim tokens (rotation_identity service claim tokens) g

  defer_and_fail-Guarantees :
      (claim : RevocationClaim) (e : AuthProviderError)
      → IsGenuine claim
      → Guarantees libs drawn Any (defer_and_fail service claim e)
  unfolding defer_and_fail
  defer_and_fail-Guarantees claim e g =
      Guarantees-bind {Q = Any} _ _
        (Guarantees-transact _ (λ utc now rows. one (defers claim utc now rows g))
          (λ utc now rows. Post-Any _))
        (λ _ _. Guarantees-raise _)

  abandon-Guarantees :
      (claim : RevocationClaim) (kind : Text)
      → IsGenuine claim
      → Guarantees libs drawn Any (transact (abandon_revocation claim kind))
  abandon-Guarantees claim kind g =
      Guarantees-transact _ (λ utc now rows. one (abandons claim kind utc now rows g))
        (λ utc now rows. Post-Any _)

  confirm-Guarantees :
      (claim : RevocationClaim)
      → IsGenuine claim
      → Guarantees libs drawn Any (transact (confirm_revocation claim))
  confirm-Guarantees claim g =
      Guarantees-transact _ (λ utc now rows. one (confirms claim utc now rows g))
        (λ utc now rows. Post-Any _)

  after_rotation-Guarantees :
      (claim : RevocationClaim) (go : RevocationClaim → M (Unit {0}))
      (r : Result RevocationRefreshFailure RevocationClaim)
      → IsGenuine claim
      → ((c : RevocationClaim) → IsGenuine c → Guarantees libs drawn Any (go c))
      → GenuineOk r
      → Guarantees libs drawn Any (after_rotation service claim go r)
  unfolding after_rotation
  after_rotation-Guarantees claim go (ok c) g h q = h c q
  after_rotation-Guarantees claim go (err (upstream invalid_credentials)) g h q =
      abandon-Guarantees claim _ g
  after_rotation-Guarantees claim go (err (upstream unavailable)) g h q =
      defer_and_fail-Guarantees claim unavailable g
  after_rotation-Guarantees claim go (err (upstream invalid_response)) g h q =
      defer_and_fail-Guarantees claim invalid_response g
  after_rotation-Guarantees claim go (err (local e)) g h q = Guarantees-raise e

  rotate_then-Guarantees :
      (claim : RevocationClaim) (go : RevocationClaim → M (Unit {0}))
      → IsGenuine claim
      → ((c : RevocationClaim) → IsGenuine c → Guarantees libs drawn Any (go c))
      → Guarantees libs drawn Any (rotate_then service claim go)
  unfolding rotate_then refresh_revocation_claim
  rotate_then-Guarantees claim go g h =
      Guarantees-bind {Q = GenuineOk} _ _
        (Guarantees-bind _ _ (Guarantees-call_refresh service claim.refresh_token)
          (λ answer _. rotate_with-Guarantees claim answer g))
        (λ r q. after_rotation-Guarantees claim go r g h q)

  signed_out_last-Guarantees :
      (claim : RevocationClaim) (r : Result AuthProviderError (Unit {0}))
      → IsGenuine claim
      → Guarantees libs drawn Any (signed_out_last service claim r)
  unfolding signed_out_last
  signed_out_last-Guarantees claim (ok u) g = confirm-Guarantees claim g
  signed_out_last-Guarantees claim (err e) g = defer_and_fail-Guarantees claim e g

  signed_out_first-Guarantees :
      (claim : RevocationClaim) (go : RevocationClaim → M (Unit {0}))
      (r : Result AuthProviderError (Unit {0}))
      → IsGenuine claim
      → ((c : RevocationClaim) → IsGenuine c → Guarantees libs drawn Any (go c))
      → Guarantees libs drawn Any (signed_out_first service claim go r)
  unfolding signed_out_first
  signed_out_first-Guarantees claim go (ok u) g h = confirm-Guarantees claim g
  signed_out_first-Guarantees claim go (err invalid_credentials) g h =
      rotate_then-Guarantees claim go g h
  signed_out_first-Guarantees claim go (err unavailable) g h =
      defer_and_fail-Guarantees claim unavailable g
  signed_out_first-Guarantees claim go (err invalid_response) g h =
      defer_and_fail-Guarantees claim invalid_response g

  sign_out_loop-Guarantees :
      (left : ℕ) (claim : RevocationClaim)
      → IsGenuine claim
      → Guarantees libs drawn Any (sign_out_loop service left claim)
  unfolding sign_out_loop
  sign_out_loop-Guarantees zero claim g =
      Guarantees-bind _ _ (Guarantees-call_sign_out service claim.access_token)
        (λ r _. signed_out_last-Guarantees claim r g)
  sign_out_loop-Guarantees (suc left) claim g =
      Guarantees-bind _ _ (Guarantees-call_sign_out service claim.access_token) λ r _.
        signed_out_first-Guarantees claim (sign_out_loop service left) r g
          (sign_out_loop-Guarantees left)

  attempt_claim-Guarantees :
      (claim : RevocationClaim)
      → IsGenuine claim
      → Guarantees libs drawn Any (attempt_claim service claim)
  unfolding attempt_claim
  attempt_claim-Guarantees claim g = Guarantees-bind _ _ Guarantees-utc_now λ now _.
      Guarantees-if _ _ _
        (rotate_then-Guarantees claim (sign_out_loop service 0) g (sign_out_loop-Guarantees 0))
        (sign_out_loop-Guarantees 1 claim g)

  with_claim-Guarantees :
      (claim : Option RevocationClaim)
      → GenuineSome claim
      → Guarantees libs drawn Any (with_claim service claim)
  unfolding with_claim
  with_claim-Guarantees none g = Guarantees-pure _ tt
  with_claim-Guarantees (some claim) g = attempt_claim-Guarantees claim g

  pub attempt_revocation-Guarantees :
      (id : Text) → Guarantees libs drawn Any (attempt_revocation service id)
  unfolding attempt_revocation
  attempt_revocation-Guarantees id =
      Guarantees-bind _ _
        (Guarantees-transact _ (λ utc now rows. one (attempts id utc now rows))
          (claim_revocation-GenuineSome libs id))
        with_claim-Guarantees

  pub attempted-Guarantees :
      (id : Text) (f : Result SessionError (Unit {0}) → M (Unit {0}))
      → ((r : Result SessionError (Unit {0})) → Guarantees libs drawn Any (f r))
      → Guarantees libs drawn Any (attempt (attempt_revocation service id) >>= f)
  attempted-Guarantees id f h =
      Guarantees-bind _ _ (Guarantees-attempt _ (attempt_revocation-Guarantees id)) (λ r _. h r)

  pub revoke-Guarantees : (raw_id : Text) → Guarantees libs drawn Any (revoke service raw_id)
  unfolding revoke
  revoke-Guarantees raw_id =
      Guarantees-bind {Q = Any} _ _
        (Guarantees-transact _ (λ utc now rows. one (queues _ utc now rows))
          (λ utc now rows. Post-Any _))
        (λ _ _. attempted-Guarantees _ _ (λ r. Guarantees-pure tt tt))
