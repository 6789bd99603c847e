-- ===== src/Session/Model.antt =====
-- The rows of `web_session` (canonical-web-server.rs/crates/canonical-store/src/entity/web_session.rs),
-- the errors and claims of canonical-web-server.rs/crates/canonical-session/src/lib.rs, and the table
-- operations that its transactions use.
use canonical_cloud.Base.{
  ℕ, Option, none, some, List, [], ◌∷◌, Text, if◌then◌else◌, text_eq, ◌==◌, ◌^◌, ◌-◌,
}
use canonical_cloud.Auth.{Uuid}

-- A `DateTime<Utc>` is a number of nanoseconds.
pub record WebSession : Type 0 where
  pub id_hash : Text
  pub user_id : Uuid
  pub email : Text
  pub supabase_session_id : Option Uuid
  pub encrypted_access_token : Text
  pub encrypted_refresh_token : Text
  pub access_expires_at : ℕ
  pub refresh_lease_id : Option Uuid
  pub refresh_lease_expires_at : Option ℕ
  pub csrf_token : Text
  pub created_at : ℕ
  pub updated_at : ℕ
  pub expires_at : ℕ
  pub revoked_at : Option ℕ
  pub revocation_pending_at : Option ℕ
  pub revocation_next_attempt_at : Option ℕ
  pub revocation_attempts : ℕ
  pub upstream_revoked_at : Option ℕ
  pub revocation_abandoned_at : Option ℕ
  pub revocation_failure_kind : Option Text

pub data SessionError : Type 0 where
  unauthorized auth_upstream database crypto : SessionError
  bad_request : Text → SessionError

pub record RevocationClaim : Type 0 where
  pub id_hash : Text
  pub access_token : Text
  pub refresh_token : Text
  pub access_expires_at : ℕ
  pub supabase_session_id : Option Uuid
  pub attempts : ℕ
  pub user_id : Uuid

pub record RefreshClaim : Type 0 where
  pub id_hash : Text
  pub lease_id : Uuid
  pub user_id : Uuid
  pub supabase_session_id : Option Uuid
  pub refresh_token : Text

pub data RefreshClaimResult : Type 0 where
  fresh : WebSession → RefreshClaimResult
  claimed : RefreshClaim → RefreshClaimResult
  busy : RefreshClaimResult

abbrev pub i32_max : ℕ
i32_max = 2 ^ 31 - 1

abbrev pub Rows : Type 0
Rows = List WebSession

-- `Entity::find_by_id(…).one(…)`
unfoldable pub find_by_id : Text → Rows → Option WebSession
find_by_id id [] = none
find_by_id id (m ∷ rows) = if m.id_hash == id then some m else find_by_id id rows

-- `ActiveModel::update`: the row with the key of `m` becomes `m`.
unfoldable pub update : WebSession → Rows → Rows
update m [] = []
update m (r ∷ rows) = if r.id_hash == m.id_hash then m ∷ rows else r ∷ update m rows

-- The row that a transaction on one session writes, if it writes one.
abbrev pub written {ℓ} : {A : Type ℓ} → A × Option WebSession → Rows → A × Rows
written (a, none) rows = (a, rows)
written (a, some m) rows = (a, update m rows)

-- A transaction that locks the row of `id`, and ends with `missing` if there is none.
unfoldable pub on_row {ℓ} :
    {A : Type ℓ} → Text → A → (WebSession → A × Option WebSession) → Rows → A × Rows
on_row id missing body rows = elim (find_by_id id rows) [
  | none ↦ (missing, rows)
  | some m ↦ written (body m) rows
]
