-- ===== src/RateLimit/Bounds.antt =====
-- Bounds on what `check` (rate_limit.rs) stores and on the delay that it reports.
use canonical_cloud.Base.{
  ℕ, ◌+◌, ◌-◌, ◌*◌, ◌≤◌, ◌<◌, Text, arith, text_eq, length, length-insert, length-retain_le, lookup,
  max, IsMap, insert-IsMap, retain-IsMap,
}
use canonical_cloud.RateLimit.{
  LoginRateLimiter, State, check_account, check_key, retry_after, is_live, sweep, nanos_per_sec,
  u64_max, account_key, check, count_entry,
}

retry_after_pos : (now opened_at window : ℕ) → 1 ≤ retry_after now opened_at window
unfolding retry_after
retry_after_pos now opened_at window = omega arith

-- For a window that opened no later than now and lasts at most `u64::MAX` seconds, the reported
-- delay is at least one second, it reaches the end of the window, and one second less would not
-- (unless the delay is the minimum of one second).
pub retry_after_tight :
    (now opened_at window : ℕ)
    → opened_at ≤ now
    → window ≤ u64_max * nanos_per_sec
    → (1 ≤ retry_after now opened_at window)
      × (opened_at + window ≤ now + retry_after now opened_at window * nanos_per_sec)
      × (now + (retry_after now opened_at window - 1) * nanos_per_sec
          < max (now + 1) (opened_at + window))
unfolding retry_after
retry_after_tight now opened_at window h w = ground arith

-- The table of accounts is a map, and never outgrows `max_keys`.
pub record IsValid (l : LoginRateLimiter) (s : State) : Type 0 where
  pub distinct : IsMap s.attempts
  pub bounded : length s.attempts ≤ l.max_keys

check_account-IsValid :
    (l : LoginRateLimiter) (key : Text) (now : ℕ) (s : State)
    → IsValid l s
    → IsValid l (check_account l key now s).1
unfolding check_account
check_account-IsValid l key now s h = ground (
  arith,
  length-insert key (count_entry now (lookup key s.attempts)) s.attempts,
  insert-IsMap key (count_entry now (lookup key s.attempts)) s.attempts,
)

pub sweep-IsValid :
    (l : LoginRateLimiter) (now : ℕ) (s : State) → IsValid l s → IsValid l (sweep l now s)
unfolding sweep
sweep-IsValid l now s h = record {
  distinct = retain-IsMap (is_live l now) s.attempts h.distinct;
  bounded = omega (arith, length-retain_le (is_live l now) s.attempts, h.bounded);
}

pub check_key-IsValid :
    (l : LoginRateLimiter) (key : Text) (now : ℕ) (s : State)
    → IsValid l s
    → IsValid l (check_key l key now s).1
unfolding check_key
check_key-IsValid l key now s h =
    ground (arith, check_account-IsValid l key now (sweep l now s) (sweep-IsValid l now s h))

-- If there is one window to an account, and at most `max_keys` of them, every call keeps it so.
pub check-IsValid :
    (l : LoginRateLimiter) (digest : Text → Text) (email : Text) (now : ℕ) (s : State)
    → IsValid l s
    → IsValid l (check l digest email now s).1
unfolding check
check-IsValid l digest email now s h = check_key-IsValid l (account_key digest email) now s h
