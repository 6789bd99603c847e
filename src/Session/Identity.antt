-- ===== src/Session/Identity.antt =====
-- Which session the transactions of a refresh answer for
-- (canonical-web-server.rs/crates/canonical-session/src/lib.rs).
use canonical_cloud.Base.{
  ℕ, ◌≡◌, refl, ap, Option, none, some, Text, Bool, true, false, not, ◌&&◌, Result, ok, err,
  if◌then◌else◌, ltb, is_none, option_beq, nat_eq, Option-cases, Bool-cases, inl, inr, ◌⊎◌, ◌+◌,
}
use canonical_cloud.Auth.{Uuid, AuthContext, AuthTokens, session_cookie, seconds}
use canonical_cloud.Session.Model.{
  WebSession, SessionError, unauthorized, RefreshClaim, RefreshClaimResult, fresh, claimed, busy,
  Rows, find_by_id, on_row,
}
use canonical_cloud.Session.Policy.{validate_model, context_from_model, refresh_lease_is_active}
use canonical_cloud.Session.Cipher.{CipherLibs, decrypt}
use canonical_cloud.Session.Rows.{find_by_id-id, on_row_missing, on_row_fst, on_row_keeps}
use canonical_cloud.Session.Refresh.{
  Stored, stored, lost, claim_refresh, claim_refresh_row, take_lease, store_refresh,
  store_refresh_row, outcome_after_lost_refresh, lost_outcome,
}
use canonical_cloud.Session.Refreshing.{valid_row, read_session}
use canonical_cloud.Session.Guarantee.{Post}

-- The context of the session with this identifier, which came with its cookie.
pub record IsSession (id : Text) (context : AuthContext) : Type 0 where
  pub source : context.source ≡ session_cookie
  pub session_hash : context.session_hash ≡ some id

abbrev pub IsRow : Text → WebSession → Type 0
IsRow id m = m.id_hash ≡ id

abbrev pub ClaimsFor : Text → RefreshClaimResult → Type 0
ClaimsFor id (fresh m) = IsRow id m
ClaimsFor id (claimed claim) = claim.id_hash ≡ id
ClaimsFor id busy = Unit

abbrev pub StoredFor : Text → Stored → Type 0
StoredFor id (stored context) = IsSession id context
StoredFor id lost = Unit

pub context-IsSession :
    (id : Text) (m : WebSession) → IsRow id m → IsSession id (context_from_model m)
unfolding context_from_model
context-IsSession id m e = record { source = refl; session_hash = ap (λ x. some x) e }

module _ {A : Type 0} (Q : A → Type 0) where
  -- What a transaction on a row answers.
  on_row-Post :
      (id : Text) (missing : Result SessionError A)
      (body : WebSession → Result SessionError A × Option WebSession) (rows : Rows)
      → Post Q missing
      → ((m : WebSession) → IsRow id m → Post Q (body m).0)
      → Post Q (on_row id missing body rows).0
  on_row-Post id missing body rows q h = elim (Option-cases (find_by_id id rows)) [
    | inl e ↦ rw (on_row_missing id missing body rows e) q
    | inr (m, e) ↦ rw (on_row_fst id missing body rows m e) (h m (find_by_id-id id rows m e))
  ]

  Post-if :
      {B : Type 0} (b : Bool) (r s : Result SessionError A × B)
      → Post Q r.0
      → Post Q s.0
      → Post Q (if b then r else s).0
  Post-if true r s p q = p
  Post-if false r s p q = q

-- A transaction that only reads leaves the table.
pub on_row-reads :
    {A : Type 0} (id : Text) (missing : A) (f : WebSession → A) (rows : Rows)
    → (on_row id missing (λ m. (f m, none)) rows).1 ≡ rows
on_row-reads id missing f rows = elim (Option-cases (find_by_id id rows)) [
  | inl e ↦ ap (λ r. r.1) (on_row_missing id missing (λ m. (f m, none)) rows e)
  | inr (m, e) ↦ ap (λ r. r.1) (on_row_keeps id missing (λ m. (f m, none)) rows m e refl)
]

Result-cases :
    {A : Type 0} (r : Result SessionError A)
    → ((a : A) × (r ≡ ok a)) ⊎ ((e : SessionError) × (r ≡ err e))
Result-cases (ok a) = inl (a, refl)
Result-cases (err e) = inr (e, refl)

valid-Post : (id : Text) (utc : ℕ) (m : WebSession) → IsRow id m → Post (IsRow id) (valid_row utc m)
unfolding valid_row
valid-Post id utc m h = elim (Result-cases (validate_model utc m)) [
  | inl (u, e) ↦ rw (e, valid_row) h
  | inr (x, e) ↦ rw (e, valid_row) tt
]

pub read_session-Post :
    (id : Text) (utc now : ℕ) (rows : Rows) → Post (IsRow id) (read_session id utc now rows).0
unfolding read_session
read_session-Post id utc now rows =
    on_row-Post (IsRow id) id (err unauthorized) (λ m. (valid_row utc m, none)) rows tt
      (valid-Post id utc)

lost-Post :
    (id : Text) (utc now : ℕ) (m : WebSession)
    → IsRow id m
    → Post (IsSession id) (lost_outcome utc now m)
unfolding lost_outcome
lost-Post id utc now m h = elim (Result-cases (validate_model utc m)) [
  | inr (x, e) ↦ rw e tt
  | inl (u, e) ↦ elim (Bool-cases (is_none m.refresh_lease_id && ltb now m.access_expires_at)) [
    | inl k ↦ rw (e, k) (context-IsSession id m h)
    | inr k ↦ rw (e, k) tt
  ]
]

pub outcome-Post :
    (id : Text) (utc now : ℕ) (rows : Rows)
    → Post (IsSession id) (outcome_after_lost_refresh id utc now rows).0
unfolding outcome_after_lost_refresh
outcome-Post id utc now rows =
    on_row-Post (IsSession id) id (err unauthorized) (λ m. (lost_outcome utc now m, none)) rows tt
      (lost-Post id utc now)

take_lease-Post :
    (libs : CipherLibs) (id : Text) (now : ℕ) (lease_id : Uuid) (m : WebSession)
    → Post (ClaimsFor id) (take_lease libs id now lease_id m).0
unfolding take_lease
take_lease-Post libs id now lease_id m =
    elim (Result-cases (decrypt libs m.encrypted_refresh_token)) [
      | inl (token, e) ↦ rw (e, take_lease) refl
      | inr (x, e) ↦ rw (e, take_lease) tt
    ]

claim_row-Post :
    (libs : CipherLibs) (id : Text) (utc now : ℕ) (lease_id : Uuid) (m : WebSession)
    → IsRow id m
    → Post (ClaimsFor id) (claim_refresh_row libs id utc now lease_id m).0
unfolding claim_refresh_row
claim_row-Post libs id utc now lease_id m h = elim (Result-cases (validate_model utc m)) [
  | inr (x, e) ↦ rw (e, claim_refresh_row) tt
  | inl (u, e) ↦
      rw (e, claim_refresh_row)
        (Post-if (ClaimsFor id) (ltb (now + seconds 60) m.access_expires_at) _ _ h (
          Post-if (ClaimsFor id)
            (refresh_lease_is_active m.refresh_lease_id m.refresh_lease_expires_at now) _ _ tt
            (take_lease-Post libs id now lease_id m)))
]

pub claim_refresh-Post :
    (libs : CipherLibs) (id : Text) (lease_id : Uuid) (utc now : ℕ) (rows : Rows)
    → Post (ClaimsFor id) (claim_refresh libs id lease_id utc now rows).0
unfolding claim_refresh
claim_refresh-Post libs id lease_id utc now rows =
    on_row-Post (ClaimsFor id) id (err unauthorized) (claim_refresh_row libs id utc now lease_id)
      rows tt (claim_row-Post libs id utc now lease_id)

store_row-Post :
    (claim : RefreshClaim) (tokens : AuthTokens) (session_id : Option Uuid) (access refresh : Text)
    (utc now : ℕ) (m : WebSession)
    → IsRow claim.id_hash m
    → Post
        (StoredFor claim.id_hash)
        (store_refresh_row claim tokens session_id access refresh utc now m).0
unfolding store_refresh_row
store_row-Post claim tokens session_id access refresh utc now m h =
    Post-if (StoredFor claim.id_hash) (not (option_beq m.refresh_lease_id (some claim.lease_id))) _
      _ tt
      (elim (Result-cases (validate_model utc m)) [
        | inr (x, e) ↦ rw e tt
        | inl (u, e) ↦ rw e (context-IsSession claim.id_hash _ h)
      ])

pub store_refresh-Post :
    (claim : RefreshClaim) (tokens : AuthTokens) (session_id : Option Uuid) (access refresh : Text)
    (utc now : ℕ) (rows : Rows)
    → Post
        (StoredFor claim.id_hash)
        (store_refresh claim tokens session_id access refresh utc now rows).0
unfolding store_refresh
store_refresh-Post claim tokens session_id access refresh utc now rows =
    on_row-Post (StoredFor claim.id_hash) claim.id_hash (err unauthorized)
      (store_refresh_row claim tokens session_id access refresh utc now) rows tt
      (store_row-Post claim tokens session_id access refresh utc now)
