-- ===== src/RateLimit.antt =====
-- canonical-web-server.rs/src/auth/rate_limit.rs: the per-process limiter of password attempts.
-- `check` runs under one mutex, so a call is one step on the state. An `Instant` and a `Duration`
-- are numbers of nanoseconds; `duration_since` and `saturating_sub` stop at 0, as `-` does here.
-- The digest of the account key (SHA-256, then base64) is a parameter.
pub mod Bounds
pub mod Isolation
pub mod Budget
pub mod Tests
use canonical_cloud.Base.{
  ℕ, ◌+◌, ◌-◌, ◌/◌, ◌%◌, ◌^◌, min, max, Bool, true, false, not, ◌&&◌, Option, none, some, List, [],
  ◌∷◌, Text, trim, to_ascii_lowercase, Result, ok, err, ltb, leb, is_some, if◌then◌else◌, length,
  retain, lookup, insert, unwrap_or, text_eq,
}

abbrev pub u32_max : ℕ
u32_max = 2 ^ 32 - 1

abbrev pub u64_max : ℕ
u64_max = 2 ^ 64 - 1

abbrev pub nanos_per_sec : ℕ
nanos_per_sec = 1000000000

pub record AttemptWindow : Type 0 where
  pub opened_at : ℕ
  pub attempts : ℕ

pub record State : Type 0 where
  pub attempts : List (Text × AttemptWindow)
  pub global : AttemptWindow

pub record LoginRateLimiter : Type 0 where
  pub max_attempts : ℕ
  pub global_max_attempts : ℕ
  pub window : ℕ
  pub max_keys : ℕ

-- `LoginRateLimiter::new`: the state that a new limiter starts from.
abbrev pub new : ℕ → State
new now = record { attempts = []; global = record { opened_at = now; attempts = 0 } }

-- `u32::saturating_add(1)`
unfoldable pub saturating_suc : ℕ → ℕ
saturating_suc n = min (n + 1) u32_max

unfoldable pub retry_after : ℕ → ℕ → ℕ → ℕ
retry_after now opened_at window =
    let remaining = window - (now - opened_at) in
    max
      (min (remaining / nanos_per_sec + (if ltb 0 (remaining % nanos_per_sec) then 1 else 0))
        u64_max)
      1

unfoldable pub account_key : (Text → Text) → Text → Text
account_key digest email = digest (to_ascii_lowercase (trim email))

-- The test by which `retain` keeps an entry.
unfoldable pub is_live : LoginRateLimiter → ℕ → Text × AttemptWindow → Bool
is_live l now (key, entry) = ltb (now - entry.opened_at) l.window

-- The least `opened_at`, as `min_by_key` finds it.
unfoldable pub oldest : List (Text × AttemptWindow) → Option ℕ
oldest [] = none
oldest ((key, entry) ∷ rest) =
    some (elim (oldest rest) [ none ↦ entry.opened_at | some t ↦ min entry.opened_at t ])

-- The global window, opened anew when it has run out, with this attempt counted.
unfoldable pub count_global : LoginRateLimiter → ℕ → AttemptWindow → AttemptWindow
count_global l now g =
    if leb l.window (now - g.opened_at)
    then record { opened_at = now; attempts = saturating_suc 0 }
    else record g { attempts = saturating_suc g.attempts }

-- The account's window, or a new one, with this attempt counted.
unfoldable pub count_entry : ℕ → Option AttemptWindow → AttemptWindow
count_entry now none = record { opened_at = now; attempts = saturating_suc 0 }
count_entry now (some entry) = record entry { attempts = saturating_suc entry.attempts }

-- The part of `check` behind the global budget, on the entries that `retain` left.
unfoldable pub check_account : LoginRateLimiter → Text → ℕ → State → Result ℕ (Unit {0}) × State
check_account l key now s =
    let found = lookup key s.attempts in
    if not (is_some found) && leb l.max_keys (length s.attempts)
    then (err (retry_after now (unwrap_or (oldest s.attempts) now) l.window), s)
    else let entry = count_entry now found in
      let s' : State = record s { attempts = insert key entry s.attempts } in
      if ltb l.max_attempts entry.attempts
      then (err (retry_after now entry.opened_at l.window), s')
      else (ok tt, s')

-- The global window counted, and the account windows that have run out dropped.
unfoldable pub sweep : LoginRateLimiter → ℕ → State → State
sweep l now s = record {
  attempts = retain (is_live l now) s.attempts;
  global = count_global l now s.global;
}

-- `check`, for the key that `account_key` computed.
unfoldable pub check_key : LoginRateLimiter → Text → ℕ → State → Result ℕ (Unit {0}) × State
check_key l key now s =
    let global = count_global l now s.global in
    if ltb l.global_max_attempts global.attempts
    then (err (retry_after now global.opened_at l.window), record s { global = global })
    else check_account l key now (sweep l now s)

unfoldable pub check :
    LoginRateLimiter → (Text → Text) → Text → ℕ → State → Result ℕ (Unit {0}) × State
check l digest email now s = check_key l (account_key digest email) now s
