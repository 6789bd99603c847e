-- ===== src/Session/Revocation.antt =====
-- The transactions of the durable logout in
-- canonical-web-server.rs/crates/canonical-session/src/lib.rs, each as a function of the row that it
-- locks. A transaction that returns an error before it commits writes nothing.
use canonical_cloud.Base.{
  ℕ, ◌+◌, Option, none, some, Text, text, Bool, not, ◌||◌, if◌then◌else◌, Result, ok, err, map_err,
  ◌>>=◌, ltb, is_some, is_none, is_some_and, nat_eq, ◌==◌, unwrap_or,
}
use canonical_cloud.Auth.{Uuid, AuthTokens}
use canonical_cloud.Auth.Token.{TokenLibs, validated_session_id}
use canonical_cloud.Session.Model.{
  WebSession, SessionError, unauthorized, RevocationClaim, Rows, on_row,
}
use canonical_cloud.Session.Policy.{
  revocation_lease, revocation_retry_delay, resolve_rotated_session_id, map_auth_error,
  saturating_suc,
}
use canonical_cloud.Session.Cipher.{CipherLibs, decrypt}
use canonical_cloud.Session.Refresh.{mark_revocation}

pub record Libs : Type 0 where
  pub tokens : TokenLibs
  pub cipher : CipherLibs

abbrev pub Tx : Type 0 → Type 0
Tx A = Rows → Result SessionError A × Rows

-- `queue_revocation`
unfoldable pub queue_revocation : Text → ℕ → ℕ → Tx (Unit {0})
queue_revocation id_hash utc_now now = on_row id_hash (ok tt) (λ m. (ok tt, mark_revocation now m))

unfoldable pub decrypt_pair : CipherLibs → WebSession → Result SessionError (Text × Text)
decrypt_pair libs m = do
  access_token ← decrypt libs m.encrypted_access_token
  refresh_token ← decrypt libs m.encrypted_refresh_token
  ok (access_token, refresh_token)

-- A row that is not to be claimed: not revoked, done, or not yet due.
unfoldable pub not_claimable : ℕ → WebSession → Bool
not_claimable now m =
    is_none m.revoked_at
    || is_some m.upstream_revoked_at
    || is_some m.revocation_abandoned_at
    || is_some_and m.revocation_next_attempt_at (λ next_attempt. ltb now next_attempt)

unfoldable pub undecryptable : ℕ → WebSession → WebSession
undecryptable now m = record m {
  revocation_attempts = saturating_suc m.revocation_attempts;
  revocation_pending_at = none;
  revocation_next_attempt_at = none;
  revocation_abandoned_at = some now;
  revocation_failure_kind = some (text "token_decryption_failed");
  updated_at = now;
}

unfoldable pub claimed_row : ℕ → Option Uuid → WebSession → WebSession
claimed_row now session_id m = record m {
  supabase_session_id = session_id;
  revocation_attempts = saturating_suc m.revocation_attempts;
  revocation_next_attempt_at = some (now + revocation_lease);
  updated_at = now;
}

unfoldable pub claim_of : Text → Text × Text → Option Uuid → WebSession → RevocationClaim
claim_of id_hash (access_token, refresh_token) session_id m = record {
  id_hash = id_hash;
  access_token = access_token;
  refresh_token = refresh_token;
  access_expires_at = m.access_expires_at;
  supabase_session_id = session_id;
  attempts = saturating_suc m.revocation_attempts;
  user_id = m.user_id;
}

-- The session identity of a claimed row: the stored one, or the one that its token names.
unfoldable pub claimed_identity : TokenLibs → Text → WebSession → Result SessionError (Option Uuid)
claimed_identity libs access_token m = do
  observed ← map_err map_auth_error (validated_session_id libs access_token m.user_id)
  map_err map_auth_error (resolve_rotated_session_id m.supabase_session_id observed)

unfoldable pub claim_decrypted :
    TokenLibs
    → Text
    → ℕ
    → WebSession
    → Text × Text
    → Result SessionError (Option RevocationClaim) × Option WebSession
claim_decrypted libs id_hash now m pair = elim (claimed_identity libs pair.0 m) [
  | err error ↦ (err error, none)
  | ok session_id ↦
      (ok (some (claim_of id_hash pair session_id m)), some (claimed_row now session_id m))
]

unfoldable pub claim_revocation_row :
    Libs → Text → ℕ → WebSession → Result SessionError (Option RevocationClaim) × Option WebSession
claim_revocation_row libs id_hash now m =
    if not_claimable now m then (ok none, none) else elim (decrypt_pair libs.cipher m) [
      | err _ ↦ (ok none, some (undecryptable now m))
      | ok pair ↦ claim_decrypted libs.tokens id_hash now m pair
    ]

unfoldable pub claim_revocation : Libs → Text → ℕ → ℕ → Tx (Option RevocationClaim)
claim_revocation libs id_hash utc_now now =
    on_row id_hash (ok none) (claim_revocation_row libs id_hash now)

-- The fence of a claim: the row is in a terminal state, or a later attempt has claimed it.
unfoldable pub fenced_off : RevocationClaim → WebSession → Bool
fenced_off claim m =
    is_some m.upstream_revoked_at
    || is_some m.revocation_abandoned_at
    || not (m.revocation_attempts == claim.attempts)

unfoldable pub rotate_row : ℕ → AuthTokens → Option Uuid → Text → Text → WebSession → WebSession
rotate_row now tokens session_id encrypted_access encrypted_refresh m = record m {
  email = unwrap_or tokens.user.email m.email;
  supabase_session_id = session_id;
  encrypted_access_token = encrypted_access;
  encrypted_refresh_token = encrypted_refresh;
  access_expires_at = tokens.expires_at;
  updated_at = now;
}

unfoldable pub rotated_claim : RevocationClaim → AuthTokens → Option Uuid → RevocationClaim
rotated_claim claim tokens session_id = record claim {
  access_token = tokens.access_token;
  refresh_token = tokens.refresh_token;
  access_expires_at = tokens.expires_at;
  supabase_session_id = session_id;
}

-- The transaction of `persist_revocation_rotation`, behind the encryption of the two tokens.
unfoldable pub persist_rotation :
    RevocationClaim → AuthTokens → Option Uuid → Text → Text → ℕ → ℕ → Tx RevocationClaim
persist_rotation claim tokens session_id encrypted_access encrypted_refresh utc_now now =
    on_row claim.id_hash (err unauthorized) λ m.
      if fenced_off claim m then (err unauthorized, none) else (
        ok (rotated_claim claim tokens session_id),
        some (rotate_row now tokens session_id encrypted_access encrypted_refresh m),
      )

unfoldable pub confirmed : ℕ → WebSession → WebSession
confirmed now m = record m {
  upstream_revoked_at = some now;
  revocation_abandoned_at = none;
  revocation_failure_kind = none;
  revocation_pending_at = none;
  revocation_next_attempt_at = none;
  updated_at = now;
}

unfoldable pub confirm_revocation : RevocationClaim → ℕ → ℕ → Tx (Unit {0})
confirm_revocation claim utc_now now =
    on_row claim.id_hash (ok tt)
      (λ m. (ok tt, if fenced_off claim m then none else some (confirmed now m)))

unfoldable pub abandoned : ℕ → Text → WebSession → WebSession
abandoned now failure_kind m = record m {
  revocation_abandoned_at = some now;
  revocation_failure_kind = some failure_kind;
  revocation_pending_at = none;
  revocation_next_attempt_at = none;
  updated_at = now;
}

unfoldable pub abandon_revocation : RevocationClaim → Text → ℕ → ℕ → Tx (Unit {0})
abandon_revocation claim failure_kind utc_now now =
    on_row claim.id_hash (ok tt)
      (λ m. (ok tt, if fenced_off claim m then none else some (abandoned now failure_kind m)))

unfoldable pub deferred : ℕ → RevocationClaim → WebSession → WebSession
deferred now claim m = record m {
  revocation_pending_at = some (unwrap_or m.revocation_pending_at now);
  revocation_next_attempt_at = some (now + revocation_retry_delay claim.attempts);
  updated_at = now;
}

unfoldable pub defer_revocation : RevocationClaim → ℕ → ℕ → Tx (Unit {0})
defer_revocation claim utc_now now =
    on_row claim.id_hash (ok tt)
      (λ m. (ok tt, if fenced_off claim m then none else some (deferred now claim m)))
