-- ===== src/Session/Calls.antt =====
-- How often the logout of canonical-web-server.rs/crates/canonical-session/src/lib.rs calls the
-- identity provider, whatever it answers: `attempt_revocation` ends with few calls.
use canonical_cloud.Base.{ℕ, ◌+◌, ◌≤◌, arith, Text, Result, ok, err, Option, none, some}
use canonical_cloud.Auth.{
  Uuid, AuthTokens, AuthProviderError, invalid_credentials, unavailable, invalid_response,
}
use canonical_cloud.Session.Model.{RevocationClaim}
use canonical_cloud.Session.World.{
  Service, M, World, transact, utc_now, draw, call_refresh, call_sign_out,
}
use canonical_cloud.Session.Flows.{
  encrypt_token, persist_revocation_rotation, persist_checked, rotate_with,
  refresh_revocation_claim, defer_and_fail, RevocationRefreshFailure, upstream, local,
  after_rotation, rotate_then, signed_out_last, signed_out_first, sign_out_loop, attempt_claim,
  with_claim, attempt_revocation,
}
use canonical_cloud.Session.Spending.{
  refreshes, sign_outs, Spends, Spends-pure, Spends-raise, Spends-lift, Spends-attempt,
  Spends-transact, Spends-bind, Spends-if, Spends-utc_now, Spends-draw, Spends-upto, after-calls,
}

module _ (service : Service) where
  call_refresh-Spends : (token : Text) → Spends 1 0 (call_refresh service token)
  unfolding call_refresh
  call_refresh-Spends token = record {
    at = λ w. let h = after-calls w.events w in rw h omega arith;
  }

  call_sign_out-Spends : (token : Text) → Spends 0 1 (call_sign_out service token)
  unfolding call_sign_out
  call_sign_out-Spends token = record {
    at = λ w. let h = after-calls w.events w in rw h omega arith;
  }

  encrypt_token-Spends : (plaintext : Text) → Spends 0 0 (encrypt_token service plaintext)
  unfolding encrypt_token
  encrypt_token-Spends plaintext =
      Spends-bind 0 0 0 0 draw _ (Spends-draw 0 0) λ k. Spends-lift 0 0 _

  persist-Spends :
      (claim : RevocationClaim) (tokens : AuthTokens) (session_id : Option Uuid)
      → Spends 0 0 (persist_revocation_rotation service claim tokens session_id)
  unfolding persist_revocation_rotation
  persist-Spends claim tokens session_id =
      Spends-bind 0 0 0 0 _ _ (encrypt_token-Spends tokens.access_token) λ access.
        Spends-bind 0 0 0 0 _ _ (encrypt_token-Spends tokens.refresh_token)
          λ refresh. Spends-transact 0 0 _

  persist_checked-Spends :
      (claim : RevocationClaim) (tokens : AuthTokens) (r : Result AuthProviderError (Option Uuid))
      → Spends 0 0 (persist_checked service claim tokens r)
  unfolding persist_checked
  persist_checked-Spends claim tokens (err e) = Spends-pure 0 0 _
  persist_checked-Spends claim tokens (ok session_id) =
      Spends-bind 0 0 0 0 _ _ (Spends-attempt 0 0 _ (persist-Spends claim tokens session_id))
        λ r. Spends-pure 0 0 _

  rotate_with-Spends :
      (claim : RevocationClaim) (answer : Result AuthProviderError AuthTokens)
      → Spends 0 0 (rotate_with service claim answer)
  unfolding rotate_with
  rotate_with-Spends claim (err e) = Spends-pure 0 0 _
  rotate_with-Spends claim (ok tokens) = persist_checked-Spends claim tokens _

  refresh-Spends : (claim : RevocationClaim) → Spends 1 0 (refresh_revocation_claim service claim)
  unfolding refresh_revocation_claim
  refresh-Spends claim =
      Spends-bind 1 0 0 0 _ _ (call_refresh-Spends claim.refresh_token) (rotate_with-Spends claim)

  defer_and_fail-Spends :
      (claim : RevocationClaim) (error : AuthProviderError)
      → Spends 0 0 (defer_and_fail service claim error)
  unfolding defer_and_fail
  defer_and_fail-Spends claim error =
      Spends-bind 0 0 0 0 _ _ (Spends-transact 0 0 _) λ x. Spends-raise 0 0 _

  after_rotation-Spends :
      (b : ℕ) (claim : RevocationClaim) (go : RevocationClaim → M (Unit {0}))
      (r : Result RevocationRefreshFailure RevocationClaim)
      → ((c : RevocationClaim) → Spends 0 b (go c))
      → Spends 0 b (after_rotation service claim go r)
  unfolding after_rotation
  after_rotation-Spends b claim go (ok rotated) s = s rotated
  after_rotation-Spends b claim go (err (upstream invalid_credentials)) s = Spends-transact 0 b _
  after_rotation-Spends b claim go (err (upstream unavailable)) s =
      Spends-upto 0 0 0 b _ (omega arith) (omega arith) (defer_and_fail-Spends claim unavailable)
  after_rotation-Spends b claim go (err (upstream invalid_response)) s =
      Spends-upto 0 0 0 b _ (omega arith) (omega arith)
        (defer_and_fail-Spends claim invalid_response)
  after_rotation-Spends b claim go (err (local error)) s = Spends-raise 0 b _

  rotate_then-Spends :
      (claim : RevocationClaim) (go : RevocationClaim → M (Unit {0}))
      → ((c : RevocationClaim) → Spends 0 1 (go c))
      → Spends 1 1 (rotate_then service claim go)
  unfolding rotate_then
  rotate_then-Spends claim go s =
      Spends-bind 1 0 0 1 _ _ (refresh-Spends claim) λ r. after_rotation-Spends 1 claim go r s

  signed_out_last-Spends :
      (claim : RevocationClaim) (answer : Result AuthProviderError (Unit {0}))
      → Spends 0 0 (signed_out_last service claim answer)
  unfolding signed_out_last
  signed_out_last-Spends claim (ok x) = Spends-transact 0 0 _
  signed_out_last-Spends claim (err error) = defer_and_fail-Spends claim error

  signed_out_first-Spends :
      (claim : RevocationClaim) (go : RevocationClaim → M (Unit {0}))
      (answer : Result AuthProviderError (Unit {0}))
      → ((c : RevocationClaim) → Spends 0 1 (go c))
      → Spends 1 1 (signed_out_first service claim go answer)
  unfolding signed_out_first
  signed_out_first-Spends claim go (ok x) s = Spends-transact 1 1 _
  signed_out_first-Spends claim go (err invalid_credentials) s = rotate_then-Spends claim go s
  signed_out_first-Spends claim go (err unavailable) s =
      Spends-upto 0 0 1 1 _ (omega arith) (omega arith) (defer_and_fail-Spends claim unavailable)
  signed_out_first-Spends claim go (err invalid_response) s =
      Spends-upto 0 0 1 1 _ (omega arith) (omega arith)
        (defer_and_fail-Spends claim invalid_response)

  last-Spends : (claim : RevocationClaim) → Spends 0 1 (sign_out_loop service 0 claim)
  unfolding sign_out_loop
  last-Spends claim =
      Spends-bind 0 1 0 0 _ _ (call_sign_out-Spends claim.access_token)
        (signed_out_last-Spends claim)

  first-Spends : (claim : RevocationClaim) → Spends 1 2 (sign_out_loop service 1 claim)
  unfolding sign_out_loop
  first-Spends claim =
      Spends-bind 0 1 1 1 _ _ (call_sign_out-Spends claim.access_token)
        λ answer. signed_out_first-Spends claim (sign_out_loop service 0) answer last-Spends

  attempt_claim-Spends : (claim : RevocationClaim) → Spends 1 2 (attempt_claim service claim)
  unfolding attempt_claim
  attempt_claim-Spends claim = Spends-bind 0 0 1 2 utc_now _ (Spends-utc_now 0 0) λ now.
      Spends-if 1 2 _ _ _
        (Spends-upto 1 1 1 2 _ (omega arith) (omega arith)
          (rotate_then-Spends claim (sign_out_loop service 0) last-Spends))
        (first-Spends claim)

  with_claim-Spends : (o : Option RevocationClaim) → Spends 1 2 (with_claim service o)
  unfolding with_claim
  with_claim-Spends none = Spends-pure 1 2 _
  with_claim-Spends (some claim) = attempt_claim-Spends claim

-- However the provider answers, and whatever happens meanwhile, one `attempt_revocation` asks the
-- provider for new tokens at most once and for a sign-out at most twice.
pub attempt_revocation-calls :
    (service : Service) (id_hash : Text) (w : World)
    → (refreshes (attempt_revocation service id_hash w).1.calls ≤ 1 + refreshes w.calls)
      × (sign_outs (attempt_revocation service id_hash w).1.calls ≤ 2 + sign_outs w.calls)
unfolding attempt_revocation
attempt_revocation-calls service id_hash w =
    (Spends-bind 0 0 1 2 (transact _) (with_claim service) (Spends-transact 0 0 _)
        (with_claim-Spends service)).at
      w
