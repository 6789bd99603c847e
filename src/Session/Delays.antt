-- ===== src/Session/Delays.antt =====
-- Delays, batches and retention of canonical-web-server.rs/crates/canonical-session/src/lib.rs.
use native.Mathlib.Nat.{pow-le-pow_right}
use canonical_cloud.Base.{
  ℕ, zero, suc, ◌*◌, ◌^◌, ◌≤◌, ◌≡◌, min, max, refl, none, some, not, arith, inl, inr, List, [], ◌∷◌,
  map, retain, if◌then◌else◌, length, length-take_le, ap, Text, ◌||◌, Bool-cases, Option, true, ◌⊎◌,
  ◌↔◌, ◌+◌,
}
use canonical_cloud.Auth.{seconds}
use canonical_cloud.Session.Model.{WebSession, Rows, find_by_id}
use canonical_cloud.Session.Policy.{
  revocation_retry_delay, revocation_batch_size, next_refresh_poll_interval, refresh_poll_max,
  refresh_poll_initial,
}
use canonical_cloud.Session.Rows.{Unique, find_by_id-retain, retain-Unique, find_by_id-retain-none}
use canonical_cloud.Session.Reconcile.{
  prune, is_confirmed_prunable, is_abandoned_prunable, past_retention, due_ids,
}

-- The exponent of the delay.
abbrev pub clamped : ℕ → ℕ
clamped attempts = max 1 (min attempts 10)

clamped_pow : (attempts : ℕ) → (2 ≤ 2 ^ clamped attempts) × (2 ^ clamped attempts ≤ 1024)
clamped_pow attempts = (
  pow-le-pow_right {n = 2} (omega arith) {i = 1} {j = clamped attempts} (omega arith),
  pow-le-pow_right {n = 2} (omega arith) {i = clamped attempts} {j = 10} (omega arith),
)

-- The delay before the next attempt is 2 to the number of attempts in seconds, the exponent held
-- between 1 and 10, so from 2 seconds up to 1024; it never falls as the attempts grow.
pub revocation_retry_delay_bounds :
    (attempts more : ℕ)
    → attempts ≤ more
    → (revocation_retry_delay attempts ≡ seconds (2 ^ clamped attempts))
      × (seconds 2 ≤ revocation_retry_delay attempts)
      × (revocation_retry_delay attempts ≤ seconds 1024)
      × (revocation_retry_delay attempts ≤ revocation_retry_delay more)
unfolding revocation_retry_delay
revocation_retry_delay_bounds attempts more h = omega (
  arith,
  clamped_pow attempts,
  clamped_pow more,
  pow-le-pow_right {n = 2} (omega arith) {i = clamped attempts} {j = clamped more} (omega arith),
)

-- A number of polls without an answer.
pub poll_interval : ℕ → ℕ
poll_interval zero = refresh_poll_initial
poll_interval (suc n) = next_refresh_poll_interval (poll_interval n)

-- After `n` polls the interval is 50 milliseconds times `2 ^ n`, but at most one second; so it never
-- falls.
pub poll_interval_bounds :
    (n : ℕ)
    → (poll_interval n ≡ min (refresh_poll_initial * 2 ^ n) refresh_poll_max)
      × (poll_interval n ≤ poll_interval (suc n))
unfolding poll_interval next_refresh_poll_interval
poll_interval_bounds zero = omega arith
poll_interval_bounds (suc n) = omega (arith, poll_interval_bounds n)

length-map {ℓ κ} :
    {A : Type ℓ} {B : Type κ} (f : A → B) (xs : List A) → length (map f xs) ≡ length xs
length-map f [] = refl
length-map f (x ∷ xs) = ap suc (length-map f xs)

-- One reconciliation attempts at most 32 logouts.
pub due_ids_bounded : (now : ℕ) (rows : Rows) → length (due_ids now rows) ≤ revocation_batch_size
unfolding due_ids
due_ids_bounded now rows = rw length-map (length-take_le revocation_batch_size _)

-- The instant is at least seven days ago.
abbrev WeekAgo : ℕ → Option ℕ → Type 0
WeekAgo now instant = (t : ℕ) × (instant ≡ some t) × (t + seconds 604800 ≤ now)

-- A row that the pruning may delete: its logout was confirmed or abandoned at least seven days ago, and
-- its access token has expired.
pub record IsPrunable (now : ℕ) (m : WebSession) : Type 0 where
  pub ended : WeekAgo now m.upstream_revoked_at ⊎ WeekAgo now m.revocation_abandoned_at
  pub expired : m.access_expires_at ≤ now

past_retention_iff :
    (now : ℕ) (instant : Option ℕ) → (past_retention now instant ≡ true ↔ WeekAgo now instant)
unfolding past_retention
past_retention_iff now none = (λ h. cc h, λ h. let (t, e, k) = h in cc e)
past_retention_iff now (some t) =
    (λ h. (t, refl, ground (arith, h)), λ h. let (u, e, k) = h in ground (arith, e, k))

deleted_sound :
    (now : ℕ) (m : WebSession)
    → (is_confirmed_prunable now m || is_abandoned_prunable now m) ≡ true
    → IsPrunable now m
unfolding is_confirmed_prunable is_abandoned_prunable
deleted_sound now m h = elim (Bool-cases (past_retention now m.upstream_revoked_at)) [
  | inl e ↦ record {
    ended = inl ((past_retention_iff now m.upstream_revoked_at).0 e);
    expired = ground (arith, h, e);
  }
  | inr e ↦ record {
    ended = inr ((past_retention_iff now m.revocation_abandoned_at).0 (ground (arith, h, e)));
    expired = ground (arith, h, e);
  }
]

deleted_complete :
    (now : ℕ) (m : WebSession)
    → IsPrunable now m
    → (is_confirmed_prunable now m || is_abandoned_prunable now m) ≡ true
unfolding is_confirmed_prunable is_abandoned_prunable
deleted_complete now m h = elim h.ended [
  | inl w ↦ ground (arith, (past_retention_iff now m.upstream_revoked_at).1 w, h.expired)
  | inr w ↦ ground (arith, (past_retention_iff now m.revocation_abandoned_at).1 w, h.expired)
]

pruned_or_kept :
    (now : ℕ) (rows : Rows) (id : Text) (m : WebSession)
    → Unique rows
    → find_by_id id rows ≡ some m
    → find_by_id id (prune now rows).1
      ≡ (if is_confirmed_prunable now m || is_abandoned_prunable now m then none else some m)
unfolding prune
pruned_or_kept now rows id m u e =
    let p = λ (k : WebSession). not (is_confirmed_prunable now k) in
    let q = λ (k : WebSession). not (is_abandoned_prunable now k) in
    elim (Bool-cases (is_confirmed_prunable now m)) [
      | inl c ↦
          rw c (
            find_by_id-retain-none q id (retain p rows) (rw (find_by_id-retain p id rows m u e, c)))
      | inr c ↦
          rw
            (
              find_by_id-retain q id (retain p rows) m (retain-Unique p rows u)
                  (rw (find_by_id-retain p id rows m u e, c)),
              c,
            )
            (ground arith)
    ]

-- In a table with unique identifiers the pruning deletes a row exactly when its logout was
-- confirmed or abandoned at least seven days ago and its access token has expired; every other row
-- is left as it is.
pub prune_exact :
    (now : ℕ) (rows : Rows) (id : Text) (m : WebSession)
    → Unique rows
    → find_by_id id rows ≡ some m
    → (IsPrunable now m × (find_by_id id (prune now rows).1 ≡ none))
      ⊎ ((¬ IsPrunable now m) × (find_by_id id (prune now rows).1 ≡ some m))
prune_exact now rows id m u e =
    let k = pruned_or_kept now rows id m u e in
    elim (Bool-cases (is_confirmed_prunable now m || is_abandoned_prunable now m)) [
      | inl h ↦ inl (deleted_sound now m h, ground (arith, k, h))
      | inr h ↦ inr (λ q. cc (h, deleted_complete now m q), ground (arith, k, h))
    ]
