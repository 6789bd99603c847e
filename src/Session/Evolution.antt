-- ===== src/Session/Evolution.antt =====
-- How one transaction of canonical-web-server.rs/crates/canonical-session/src/lib.rs may change the
-- row that it locks: the invariant of a row, and what no transaction undoes.
use canonical_cloud.Base.{
  ℕ, ◌≤◌, ◌<◌, ◌≡◌, refl, Option, none, some, Text, Bool, true, false, not, ◌&&◌, ◌||◌, Result, ok,
  err, is_some, arith, ltb, Bool-cases, inl, inr,
}
use canonical_cloud.Auth.{Uuid, AuthTokens}
use canonical_cloud.Session.Model.{WebSession, SessionError, RefreshClaim, RevocationClaim, i32_max}
use canonical_cloud.Session.Policy.{validate_model, saturating_suc}
use canonical_cloud.Session.Cipher.{CipherLibs}
use canonical_cloud.Session.Refresh.{
  mark_revocation, marked, clear_lease, leased, take_lease, claim_refresh_row, store_refresh_row,
  finish_refresh_row,
}
use canonical_cloud.Session.Reconcile.{overwritten}
use canonical_cloud.Session.Revocation.{
  Libs, decrypt_pair, not_claimable, undecryptable, claimed_row, claim_decrypted,
  claim_revocation_row, fenced_off, rotate_row, confirmed, abandoned, deferred,
}

-- The logout of the row has ended: confirmed upstream, or abandoned.
abbrev pub is_settled : WebSession → Bool
is_settled m = is_some m.upstream_revoked_at || is_some m.revocation_abandoned_at

-- The states of a row's logout: none, pending, confirmed or abandoned; it may be pending again behind
-- its end, since a reconciliation writes to rows that it has selected without a lock.
pub record IsValid (m : WebSession) : Type 0 where
  pub due : is_some m.revocation_next_attempt_at ≡ is_some m.revocation_pending_at
  pub revoked : is_some m.revoked_at ≡ (is_some m.revocation_pending_at || is_settled m)
  pub exclusive : (is_some m.upstream_revoked_at && is_some m.revocation_abandoned_at) ≡ false
  pub failure : is_some m.revocation_failure_kind ≡ is_some m.revocation_abandoned_at
  pub lease : is_some m.refresh_lease_expires_at ≡ is_some m.refresh_lease_id
  pub unleased : (is_some m.revoked_at && is_some m.refresh_lease_id) ≡ false
  pub attempted : (ltb 0 m.revocation_attempts && not (is_some m.revoked_at)) ≡ false
  pub bounded : m.revocation_attempts ≤ i32_max

-- What no transaction undoes: a session's identity, that it is revoked, and the end of its logout.
pub record Evolves (m m' : WebSession) : Type 0 where
  pub id_hash : m'.id_hash ≡ m.id_hash
  pub user_id : m'.user_id ≡ m.user_id
  pub csrf_token : m'.csrf_token ≡ m.csrf_token
  pub expires_at : m'.expires_at ≡ m.expires_at
  pub created_at : m'.created_at ≡ m.created_at
  pub attempts : m.revocation_attempts ≤ m'.revocation_attempts
  pub revoked : is_some m.revoked_at ≡ true → is_some m'.revoked_at ≡ true
  pub settled :
      is_settled m ≡ true
      → (m'.upstream_revoked_at ≡ m.upstream_revoked_at)
        × (m'.revocation_abandoned_at ≡ m.revocation_abandoned_at)

-- The row that a transaction writes is valid again, and evolved from the one it read.
abbrev pub Writes : WebSession → Option WebSession → Type 0
Writes m none = Unit
Writes m (some m') = IsValid m' × Evolves m m'

pub mark_revocation-Writes :
    (now : ℕ) (m : WebSession) → IsValid m → Writes m (mark_revocation now m)
unfolding mark_revocation marked
mark_revocation-Writes now m v = ground arith

clear_lease-Writes :
    (now : ℕ) (m : WebSession)
    → IsValid m
    → is_some m.refresh_lease_id ≡ true
    → Writes m (some (clear_lease now m))
unfolding clear_lease
clear_lease-Writes now m v l = ground arith

pub claim_refresh_row-Writes :
    (libs : CipherLibs) (id : Text) (utc_now now : ℕ) (lease_id : Uuid) (m : WebSession)
    → IsValid m
    → Writes m (claim_refresh_row libs id utc_now now lease_id m).1
unfolding claim_refresh_row take_lease leased validate_model
claim_refresh_row-Writes libs id utc_now now lease_id m v = ground arith

pub store_refresh_row-Writes :
    (claim : RefreshClaim) (tokens : AuthTokens) (session_id : Option Uuid) (access refresh : Text)
    (utc_now now : ℕ) (m : WebSession)
    → IsValid m
    → Writes m (store_refresh_row claim tokens session_id access refresh utc_now now m).1
unfolding store_refresh_row validate_model clear_lease
store_refresh_row-Writes claim tokens session_id access refresh utc_now now m v = ground arith

pub finish_refresh_row-Writes :
    (claim : RefreshClaim) (revoke : Bool) (now : ℕ) (m : WebSession)
    → IsValid m
    → Writes m (finish_refresh_row claim revoke now m).1
unfolding finish_refresh_row clear_lease
finish_refresh_row-Writes claim revoke now m v = ground (arith, mark_revocation-Writes now m v)

claim_decrypted-Writes :
    (libs : Libs) (id : Text) (now : ℕ) (m : WebSession) (pair : Text × Text)
    → IsValid m
    → not_claimable now m ≡ false
    → Writes m (claim_decrypted libs.tokens id now m pair).1
unfolding claim_decrypted claimed_row saturating_suc not_claimable
claim_decrypted-Writes libs id now m pair v c = ground arith

undecryptable-Writes :
    (now : ℕ) (m : WebSession)
    → IsValid m
    → not_claimable now m ≡ false
    → Writes m (some (undecryptable now m))
unfolding undecryptable saturating_suc not_claimable
undecryptable-Writes now m v c = ground arith

claimable-Writes :
    (libs : Libs) (id : Text) (now : ℕ) (m : WebSession) (pair : Result SessionError (Text × Text))
    → IsValid m
    → not_claimable now m ≡ false
    → decrypt_pair libs.cipher m ≡ pair
    → Writes m (claim_revocation_row libs id now m).1
unfolding claim_revocation_row
claimable-Writes libs id now m (ok pair) v c e =
    rw (c, e, claim_revocation_row) (claim_decrypted-Writes libs id now m pair v c)
claimable-Writes libs id now m (err error) v c e =
    rw (c, e, claim_revocation_row) (undecryptable-Writes now m v c)

pub claim_revocation_row-Writes :
    (libs : Libs) (id : Text) (now : ℕ) (m : WebSession)
    → IsValid m
    → Writes m (claim_revocation_row libs id now m).1
unfolding claim_revocation_row
claim_revocation_row-Writes libs id now m v = elim (Bool-cases (not_claimable now m)) [
  | inl e ↦ rw (e, claim_revocation_row) tt
  | inr e ↦ claimable-Writes libs id now m _ v e refl
]

-- The transactions of a claim write only behind its fence.
module _ (claim : RevocationClaim) (m : WebSession) (v : IsValid m) (genuine : 0 < claim.attempts)
    (open_fence : fenced_off claim m ≡ false) where
  pub rotate_row-Writes :
      (now : ℕ) (tokens : AuthTokens) (session_id : Option Uuid) (access refresh : Text)
      → Writes m (some (rotate_row now tokens session_id access refresh m))
  unfolding rotate_row fenced_off
  rotate_row-Writes now tokens session_id access refresh = ground arith

  pub confirmed-Writes : (now : ℕ) → Writes m (some (confirmed now m))
  unfolding confirmed fenced_off
  confirmed-Writes now = ground arith

  pub abandoned-Writes : (now : ℕ) (kind : Text) → Writes m (some (abandoned now kind m))
  unfolding abandoned fenced_off
  abandoned-Writes now kind = ground arith

  pub deferred-Writes : (now : ℕ) → Writes m (some (deferred now claim m))
  unfolding deferred fenced_off
  deferred-Writes now = ground arith

-- What a reconciliation writes over a row with the values of a valid row that it had selected.
pub overwritten-Writes :
    (now : ℕ) (selected m : WebSession)
    → IsValid selected
    → IsValid m
    → Writes m (some (overwritten now selected m))
unfolding overwritten marked
overwritten-Writes now selected m s v = ground arith
