-- ===== src/Session/Reach.antt =====
-- The transactions of canonical-web-server.rs/crates/canonical-session/src/lib.rs as steps on the
-- table of sessions: any operation, at any time, by any replica. What every run of them keeps.
use canonical_cloud.Base.{
  ℕ, ◌<◌, ◌≡◌, Option, none, some, ◌∷◌, [], Text, Bool, true, false, is_some, arith, inl, inr, ◌⊎◌,
  Bool-cases, if◌then◌else◌, text_eq, text_beq_iff,
}
use canonical_cloud.Auth.{Uuid, AuthTokens}
use canonical_cloud.Session.Model.{WebSession, RefreshClaim, RevocationClaim, Rows, find_by_id}
use canonical_cloud.Session.Evolution.{
  IsValid, Evolves, Writes, mark_revocation-Writes, claim_refresh_row-Writes,
  store_refresh_row-Writes, finish_refresh_row-Writes, claim_revocation_row-Writes,
  rotate_row-Writes, confirmed-Writes, abandoned-Writes, deferred-Writes,
}
use canonical_cloud.Session.Refresh.{claim_refresh, store_refresh, finish_refresh_claim}
use canonical_cloud.Session.Revocation.{
  Libs, queue_revocation, claim_revocation, persist_rotation, confirm_revocation,
  abandon_revocation, defer_revocation, fenced_off,
}
use canonical_cloud.Session.Reconcile.{reconcile, expired_batch}
use canonical_cloud.Session.Create.{new_session}
use canonical_cloud.Session.Steps.{IsTable, Keeps, Evolves-refl, Evolves-trans, on_row-Keeps}
use canonical_cloud.Session.Rows.{find_by_id-All}
use canonical_cloud.Session.Batch.{reconcile-Keeps}

-- One committed transaction. `drawn` has the identifiers of sessions so far: a login draws another.
-- A claim counts its attempt, so its number is positive. A reconciliation writes what it has selected
-- without a lock from `seen`, an earlier table.
pub data Step (libs : Libs) (drawn : Text → Bool) : Rows → Rows → Type 0 where
  creates :
      (id csrf_token access refresh : Text) (tokens : AuthTokens) (session_id : Option Uuid)
      (now expires_at : ℕ) (rows : Rows)
      → find_by_id id rows ≡ none
      → drawn id ≡ false
      → Step libs drawn rows
          (new_session id tokens session_id access refresh csrf_token now expires_at ∷ rows)
  claims :
      (id : Text) (lease_id : Uuid) (utc_now now : ℕ) (rows : Rows)
      → Step libs drawn rows (claim_refresh libs.cipher id lease_id utc_now now rows).1
  stores :
      (claim : RefreshClaim) (tokens : AuthTokens) (session_id : Option Uuid)
      (access refresh : Text) (utc_now now : ℕ) (rows : Rows)
      → Step libs drawn rows
          (store_refresh claim tokens session_id access refresh utc_now now rows).1
  finishes :
      (claim : RefreshClaim) (revoke : Bool) (utc_now now : ℕ) (rows : Rows)
      → Step libs drawn rows (finish_refresh_claim claim revoke utc_now now rows).1
  queues :
      (id : Text) (utc_now now : ℕ) (rows : Rows)
      → Step libs drawn rows (queue_revocation id utc_now now rows).1
  attempts :
      (id : Text) (utc_now now : ℕ) (rows : Rows)
      → Step libs drawn rows (claim_revocation libs id utc_now now rows).1
  persists :
      (claim : RevocationClaim) (tokens : AuthTokens) (session_id : Option Uuid)
      (access refresh : Text) (utc_now now : ℕ) (rows : Rows)
      → 0 < claim.attempts
      → Step libs drawn rows
          (persist_rotation claim tokens session_id access refresh utc_now now rows).1
  confirms :
      (claim : RevocationClaim) (utc_now now : ℕ) (rows : Rows)
      → 0 < claim.attempts
      → Step libs drawn rows (confirm_revocation claim utc_now now rows).1
  abandons :
      (claim : RevocationClaim) (kind : Text) (utc_now now : ℕ) (rows : Rows)
      → 0 < claim.attempts
      → Step libs drawn rows (abandon_revocation claim kind utc_now now rows).1
  defers :
      (claim : RevocationClaim) (utc_now now : ℕ) (rows : Rows)
      → 0 < claim.attempts
      → Step libs drawn rows (defer_revocation claim utc_now now rows).1
  reconciles :
      (started utc_now now : ℕ) (seen rows : Rows)
      → IsTable seen
      → Step libs drawn rows (reconcile started (expired_batch started seen) utc_now now rows).1

-- A write behind the fence of a claim.
fenced-Writes :
    (claim : RevocationClaim) (m m' : WebSession)
    → (fenced_off claim m ≡ false → Writes m (some m'))
    → Writes m (if fenced_off claim m then none else some m')
fenced-Writes claim m m' w = elim (Bool-cases (fenced_off claim m)) [
  | inl e ↦ rw e tt
  | inr e ↦ rw e (w e)
]

persist-Writes :
    {A : Type 0} (claim : RevocationClaim) (m m' : WebSession) (a b : A)
    → (fenced_off claim m ≡ false → Writes m (some m'))
    → Writes m
        (if◌then◌else◌ {A = A × Option WebSession} (fenced_off claim m) (a, none) (b, some m')).1
persist-Writes claim m m' a b w = elim (Bool-cases (fenced_off claim m)) [
  | inl e ↦ rw e tt
  | inr e ↦ rw e (w e)
]

-- A session that has been drawn is still there and evolved, or it is gone and does not come back.
pub record Retains (drawn : Text → Bool) (rows rows' : Rows) : Type 0 where
  pub row :
      (id : Text) (m : WebSession)
      → drawn id ≡ true
      → find_by_id id rows ≡ some m
      → ((m' : WebSession) × (find_by_id id rows' ≡ some m') × Evolves m m')
        ⊎ (find_by_id id rows' ≡ none)
  pub absent :
      (id : Text) → drawn id ≡ true → find_by_id id rows ≡ none → find_by_id id rows' ≡ none

module _ (drawn : Text → Bool) where
  Retains-refl : (rows : Rows) → Retains drawn rows rows
  Retains-refl rows = record { row = λ id m d e. inl (m, e, Evolves-refl m); absent = λ id d e. e }

  Retains-trans : (a b c : Rows) → Retains drawn a b → Retains drawn b c → Retains drawn a c
  Retains-trans a b c h k = record {
    row = λ id m d e. elim (h.row id m d e) [
      | inr gone ↦ inr (k.absent id d gone)
      | inl (m', e', v) ↦ elim (k.row id m' d e') [
        | inr gone ↦ inr gone
        | inl (m'', e'', v') ↦ inl (m'', e'', Evolves-trans m m' m'' v v')
      ]
    ];
    absent = λ id d e. k.absent id d (h.absent id d e);
  }

  Retains-Keeps :
      {rows rows' : Rows}
      → IsTable rows' × Keeps rows rows'
      → IsTable rows' × Retains drawn rows rows'
  Retains-Keeps (t, k) =
      (t, record { row = λ id m d e. k.row id m e; absent = λ id d e. k.absent id e })

  -- A row under an identifier that is not drawn, in front of the table.
  created-Retains :
      (m : WebSession) (rows : Rows) → drawn m.id_hash ≡ false → Retains drawn rows (m ∷ rows)
  unfolding find_by_id
  created-Retains m rows n = record {
    row = λ id k d e. inl (k, ground (arith, text_beq_iff m.id_hash id), Evolves-refl k);
    absent = λ id d e. ground (arith, text_beq_iff m.id_hash id);
  }

created-IsTable :
    (m : WebSession) (rows : Rows)
    → IsValid m
    → find_by_id m.id_hash rows ≡ none
    → IsTable rows
    → IsTable (m ∷ rows)
created-IsTable m rows v fresh t = record { unique = (fresh, t.unique); valid = (v, t.valid) }

new_session-IsValid :
    (id csrf_token access refresh : Text) (tokens : AuthTokens) (session_id : Option Uuid)
    (now expires_at : ℕ)
    → IsValid (new_session id tokens session_id access refresh csrf_token now expires_at)
unfolding new_session
new_session-IsValid id csrf_token access refresh tokens session_id now expires_at = ground arith

pub Step-Retains :
    {libs : Libs} {drawn : Text → Bool} {rows rows' : Rows}
    → Step libs drawn rows rows'
    → IsTable rows
    → IsTable rows' × Retains drawn rows rows'
unfolding claim_refresh store_refresh finish_refresh_claim queue_revocation claim_revocation
    persist_rotation confirm_revocation abandon_revocation defer_revocation
Step-Retains {drawn = drawn}
      (creates id csrf_token access refresh tokens session_id now expires_at rows absent undrawn)
      t =
    let m = new_session id tokens session_id access refresh csrf_token now expires_at in
    (
      created-IsTable m rows
          (new_session-IsValid id csrf_token access refresh tokens session_id now expires_at)
          (unfold new_session in absent) t,
      created-Retains drawn m rows (unfold new_session in undrawn),
    )
Step-Retains {libs} {drawn} (claims id lease_id utc_now now rows) t =
    Retains-Keeps drawn
      (on_row-Keeps id _ _ rows t (claim_refresh_row-Writes libs.cipher id utc_now now lease_id))
Step-Retains {drawn = drawn} (stores claim tokens session_id access refresh utc_now now rows) t =
    Retains-Keeps drawn (
      on_row-Keeps claim.id_hash _ _ rows t
        (store_refresh_row-Writes claim tokens session_id access refresh utc_now now))
Step-Retains {drawn = drawn} (finishes claim revoke utc_now now rows) t =
    Retains-Keeps drawn
      (on_row-Keeps claim.id_hash _ _ rows t (finish_refresh_row-Writes claim revoke now))
Step-Retains {drawn = drawn} (queues id utc_now now rows) t =
    Retains-Keeps drawn (on_row-Keeps id _ _ rows t (mark_revocation-Writes now))
Step-Retains {libs} {drawn} (attempts id utc_now now rows) t =
    Retains-Keeps drawn (on_row-Keeps id _ _ rows t (claim_revocation_row-Writes libs id now))
Step-Retains {drawn = drawn} (persists claim tokens session_id access refresh utc_now now rows g)
      t =
    Retains-Keeps drawn (
      on_row-Keeps claim.id_hash _ _ rows t λ m v.
        persist-Writes claim m _ _ _
          (λ f. rotate_row-Writes claim m v g f now tokens session_id access refresh))
Step-Retains {drawn = drawn} (confirms claim utc_now now rows g) t = Retains-Keeps drawn (
    on_row-Keeps claim.id_hash _ _ rows t
      (λ m v. fenced-Writes claim m _ (λ f. confirmed-Writes claim m v g f now)))
Step-Retains {drawn = drawn} (abandons claim kind utc_now now rows g) t = Retains-Keeps drawn (
    on_row-Keeps claim.id_hash _ _ rows t
      (λ m v. fenced-Writes claim m _ (λ f. abandoned-Writes claim m v g f now kind)))
Step-Retains {drawn = drawn} (defers claim utc_now now rows g) t = Retains-Keeps drawn (
    on_row-Keeps claim.id_hash _ _ rows t
      (λ m v. fenced-Writes claim m _ (λ f. deferred-Writes claim m v g f now)))
Step-Retains {drawn = drawn} (reconciles started utc_now now seen rows s) t =
    Retains-Keeps drawn (reconcile-Keeps started seen utc_now now rows s t)

-- Any number of steps, in any order.
pub data Reach (libs : Libs) (drawn : Text → Bool) (rows : Rows) : Rows → Type 0 where
  here : Reach libs drawn rows rows
  next : {a b : Rows} → Reach libs drawn rows a → Step libs drawn a b → Reach libs drawn rows b

pub Reach-Retains :
    {libs : Libs} {drawn : Text → Bool} {rows rows' : Rows}
    → Reach libs drawn rows rows'
    → IsTable rows
    → IsTable rows' × Retains drawn rows rows'
Reach-Retains {rows = rows} here t = (t, Retains-refl _ rows)
Reach-Retains {rows = rows} (next {a} {b} r s) t =
    let (ta, ka) = Reach-Retains r t in
    let (tb, kb) = Step-Retains s ta in (tb, Retains-trans _ rows a b ka kb)

-- Every table that the service reaches from none, by its logins under new identifiers and by its
-- other transactions, has unique identifiers and valid rows.
pub Reach-IsTable : {libs : Libs} {rows : Rows} → Reach libs (λ _. false) [] rows → IsTable rows
Reach-IsTable r = (Reach-Retains r (record { unique = tt; valid = tt })).0

unleased_of :
    (m m' : WebSession)
    → IsValid m'
    → Evolves m m'
    → is_some m.revoked_at ≡ true
    → m'.refresh_lease_id ≡ none
unleased_of m m' v e h = ground (arith, v.unleased)

-- In a table with unique identifiers and valid rows, a revoked session stays revoked and without a
-- refresh lease, or its row is deleted and does not come back, whatever transactions the tasks and the
-- replicas run, logins included, if no login draws the identifier of this session again.
pub Reach-revoked :
    {libs : Libs} {drawn : Text → Bool} {rows rows' : Rows} (id : Text) (m : WebSession)
    → Reach libs drawn rows rows'
    → IsTable rows
    → drawn id ≡ true
    → find_by_id id rows ≡ some m
    → is_some m.revoked_at ≡ true
    → (find_by_id id rows' ≡ none)
      ⊎ ((m' : WebSession) × (find_by_id id rows' ≡ some m')
          × (is_some m'.revoked_at ≡ true)
          × (m'.refresh_lease_id ≡ none))
Reach-revoked {rows' = rows'} id m r t d e h =
    let (t', k) = Reach-Retains r t in
    elim (k.row id m d e) [
      | inr gone ↦ inl gone
      | inl (m', e', v) ↦ inr (
        m',
        e',
        v.revoked h,
        unleased_of m m' (find_by_id-All IsValid id rows' m' t'.valid e') v h,
      )
    ]
