-- ===== src/RateLimit/Isolation.antt =====
-- What one call of `check` (rate_limit.rs) does to the windows of the other accounts.
use canonical_cloud.Base.{
  ℕ, ◌≡◌, ◌≢◌, Text, none, some, true, arith, text_eq, text_beq_iff, lookup, lookup-insert,
  lookup-retain-none, lookup-retain-some,
}
use canonical_cloud.RateLimit.{
  LoginRateLimiter, State, AttemptWindow, check_account, check_key, is_live, sweep, count_entry,
}

pub check_account_ne :
    (l : LoginRateLimiter) (key j : Text) (now : ℕ) (s : State)
    → key ≢ j
    → lookup j (check_account l key now s).1.attempts ≡ lookup j s.attempts
unfolding check_account
check_account_ne l key j now s h = ground (
  arith,
  lookup-insert key j (count_entry now (lookup key s.attempts)) s.attempts,
  text_beq_iff key j,
)

pub check_key-ne_none :
    (l : LoginRateLimiter) (key j : Text) (now : ℕ) (s : State)
    → key ≢ j
    → lookup j s.attempts ≡ none
    → lookup j (check_key l key now s).1.attempts ≡ none
unfolding check_key sweep
check_key-ne_none l key j now s h e = ground (
  arith,
  lookup-retain-none j (is_live l now) s.attempts,
  check_account_ne l key j now (sweep l now s),
)

-- An attempt on one account leaves a window of another account that has not run out as it was,
-- whatever the outcome: key churn cannot erase a block.
pub check_key-ne :
    (l : LoginRateLimiter) (key j : Text) (now : ℕ) (s : State) (w : AttemptWindow)
    → key ≢ j
    → lookup j s.attempts ≡ some w
    → is_live l now (j, w) ≡ true
    → lookup j (check_key l key now s).1.attempts ≡ some w
unfolding check_key sweep
check_key-ne l key j now s w h e live = ground (
  arith,
  lookup-retain-some j (is_live l now) s.attempts {v = w} e live,
  check_account_ne l key j now (sweep l now s),
)
