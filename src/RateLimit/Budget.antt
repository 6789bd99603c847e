-- ===== src/RateLimit/Budget.antt =====
-- How many attempts on one account `check` (rate_limit.rs) lets through, and when it does so again.
use canonical_cloud.Base.{
  ℕ, ◌+◌, ◌-◌, ◌*◌, ◌≤◌, ◌<◌, ◌≡◌, ◌⊎◌, inl, inr, Text, none, some, true, false, List, [], ◌∷◌,
  arith, ok, err, text_eq, ◌==◌, text_beq_iff, text_beq_refl, lt→ltb, lookup, Bool-cases, is_ok,
  ◌&&◌, if◌then◌else◌, ltb, All, All-imp, lookup-insert, lookup-retain-none, lookup-retain-some,
  lookup-retain_dead, length-retain_dead, subst, ap,
}
use canonical_cloud.RateLimit.{
  LoginRateLimiter, State, AttemptWindow, check_account, check_key, is_live, count_entry, sweep,
  count_global, u32_max, saturating_suc, nanos_per_sec, u64_max, retry_after,
}
use canonical_cloud.RateLimit.Isolation.{check_key-ne, check_key-ne_none}
use canonical_cloud.RateLimit.Bounds.{IsValid, retry_after_tight, check_key-IsValid}

-- The number of attempts on the account `key` that a run of calls lets through.
pub accepted : LoginRateLimiter → Text → List (Text × ℕ) → State → ℕ
accepted l key [] s = 0
accepted l key ((k, now) ∷ calls) s =
    (if (k == key) && is_ok (check_key l k now s).0 then 1 else 0)
    + accepted l key calls (check_key l k now s).1

-- Every call of the run falls less than one window after `t0`.
abbrev pub Within : LoginRateLimiter → ℕ → List (Text × ℕ) → Type 0
Within l t0 = All (λ (c : Text × ℕ). c.1 - t0 < l.window)

-- The window of an account after a call on it, while that window is live.
counted : LoginRateLimiter → ℕ → State → AttemptWindow → AttemptWindow
counted l now s w =
    if ltb l.global_max_attempts (count_global l now s.global).attempts
    then w
    else count_entry now (some w)

module _ (l : LoginRateLimiter) (key : Text) (now : ℕ) (s : State) where
  lookup-check_key :
      (w : AttemptWindow)
      → lookup key s.attempts ≡ some w
      → is_live l now (key, w) ≡ true
      → lookup key (check_key l key now s).1.attempts ≡ some (counted l now s w)
  unfolding check_key check_account sweep counted
  lookup-check_key w e live = ground (
    arith,
    lookup-retain-some key (is_live l now) s.attempts {v = w} e live,
    lookup-insert key key (count_entry now (some w)) (sweep l now s).attempts,
    text_beq_iff key key,
  )

  opened_at-counted : (w : AttemptWindow) → (counted l now s w).opened_at ≡ w.opened_at
  unfolding counted count_entry
  opened_at-counted w = ground arith

  check_key-counts :
      (w : AttemptWindow)
      → l.max_attempts < u32_max
      → lookup key s.attempts ≡ some w
      → is_live l now (key, w) ≡ true
      → (if is_ok (check_key l key now s).0 then 1 else 0)
          + (l.max_attempts - (counted l now s w).attempts)
        ≤ l.max_attempts - w.attempts
  unfolding check_key check_account sweep counted count_entry saturating_suc
  check_key-counts w m e live =
      ground (arith, lookup-retain-some key (is_live l now) s.attempts {v = w} e live)

accepted-live :
    (l : LoginRateLimiter) (key : Text) (calls : List (Text × ℕ)) (s : State) (w : AttemptWindow)
    → l.max_attempts < u32_max
    → lookup key s.attempts ≡ some w
    → Within l w.opened_at calls
    → accepted l key calls s ≤ l.max_attempts - w.attempts
unfolding accepted is_live
accepted-live l key [] s w m e h = omega arith
accepted-live l key ((k, now) ∷ calls) s w m e h = elim (Bool-cases (k == key)) [
  | inl same ↦
      rw ((text_beq_iff k key).0 same, text_beq_refl key)
        (omega (
          arith,
          check_key-counts l key now s w m e (lt→ltb _ _ h.0),
          accepted-live l key calls (check_key l key now s).1 (counted l now s w) m
              (lookup-check_key l key now s w e (lt→ltb _ _ h.0))
              (rw (opened_at-counted l key now s w) h.1),
        ))
  | inr other ↦ rw other (
      omega (
        arith,
        accepted-live l key calls (check_key l k now s).1 w m
            (check_key-ne l k key now s w (λ p. cc (other, (text_beq_iff k key).1 p)) e
              (lt→ltb _ _ h.0))
            h.1,
      ))
]

abbrev InPeriod : LoginRateLimiter → ℕ → Text × ℕ → Type 0
InPeriod l t0 c = (t0 ≤ c.1) × (c.1 < t0 + l.window)

-- The first call on an account without a window opens one, or is refused with no trace.
check_key-opens :
    (l : LoginRateLimiter) (key : Text) (now : ℕ) (s : State)
    → lookup key s.attempts ≡ none
    → ((lookup key (check_key l key now s).1.attempts ≡ none)
        × (is_ok (check_key l key now s).0 ≡ false))
      ⊎ ((lookup key (check_key l key now s).1.attempts ≡ some (count_entry now none))
          × ((if is_ok (check_key l key now s).0 then 1 else 0) + (l.max_attempts - 1)
              ≤ l.max_attempts))
unfolding check_key check_account sweep count_entry saturating_suc
check_key-opens l key now s e = ground (
  arith,
  lookup-retain-none key (is_live l now) s.attempts,
  lookup-insert key key (count_entry now none) (sweep l now s).attempts,
  text_beq_iff key key,
)

-- If `max_attempts` is below the greatest `u32`, a run of calls that all fall within one window of
-- time lets through at most `max_attempts` attempts on an account that had no window when the run
-- began.
pub accepted_le :
    (l : LoginRateLimiter) (key : Text) (t0 : ℕ) (calls : List (Text × ℕ)) (s : State)
    → l.max_attempts < u32_max
    → lookup key s.attempts ≡ none
    → All (InPeriod l t0) calls
    → accepted l key calls s ≤ l.max_attempts
unfolding accepted count_entry saturating_suc
accepted_le l key t0 [] s m e h = omega arith
accepted_le l key t0 ((k, now) ∷ calls) s m e h = elim (Bool-cases (k == key)) [
  | inl same ↦
      rw ((text_beq_iff k key).0 same, text_beq_refl key)
        (elim (check_key-opens l key now s e) [
          | inl (gone, refused) ↦
              rw refused
                (omega (arith, accepted_le l key t0 calls (check_key l key now s).1 m gone h.1))
          | inr (opened, counts) ↦ omega (
            arith,
            counts,
            accepted-live l key calls (check_key l key now s).1 (count_entry now none) m opened
                (All-imp (InPeriod l t0) _ (λ c p. omega arith) calls h.1),
          )
        ])
  | inr other ↦ rw other (
      omega (
        arith,
        accepted_le l key t0 calls (check_key l k now s).1 m
            (check_key-ne_none l k key now s (λ p. cc (other, (text_beq_iff k key).1 p)) e) h.1,
      ))
]

blocked_delay :
    (l : LoginRateLimiter) (key : Text) (now n : ℕ) (s s' : State) (w : AttemptWindow)
    → lookup key s.attempts ≡ some w
    → is_live l now (key, w) ≡ true
    → (count_global l now s.global).attempts ≤ l.global_max_attempts
    → check_key l key now s ≡ (err n, s')
    → n ≡ retry_after now w.opened_at l.window
unfolding check_key check_account sweep count_entry
blocked_delay l key now n s s' w e live g r =
    ground (arith, lookup-retain-some key (is_live l now) s.attempts {v = w} e live)

-- An account whose window has run out is let through.
dead_accepted :
    (l : LoginRateLimiter) (key : Text) (now : ℕ) (s : State) (w : AttemptWindow)
    → IsValid l s
    → 0 < l.max_attempts
    → lookup key s.attempts ≡ some w
    → is_live l now (key, w) ≡ false
    → (count_global l now s.global).attempts ≤ l.global_max_attempts
    → (check_key l key now s).0 ≡ ok tt
unfolding check_key check_account sweep count_entry saturating_suc
dead_accepted l key now s w v m e dead g = ground (
  arith,
  lookup-retain_dead key (is_live l now) s.attempts {v = w} v.distinct e dead,
  length-retain_dead key (is_live l now) s.attempts {v = w} e dead,
)

-- From a valid state, with a positive `max_attempts` and a window of at most `u64::MAX` seconds,
-- an attempt that is refused on an account with a window of its own, and within the global budget,
-- is let through when it is made again after the reported delay, if nobody else called in between
-- and the global budget has room.
pub retry_accepted :
    (l : LoginRateLimiter) (key : Text) (now later n : ℕ) (s s' : State) (w : AttemptWindow)
    → IsValid l s
    → 0 < l.max_attempts
    → l.window ≤ u64_max * nanos_per_sec
    → lookup key s.attempts ≡ some w
    → is_live l now (key, w) ≡ true
    → w.opened_at ≤ now
    → (count_global l now s.global).attempts ≤ l.global_max_attempts
    → check_key l key now s ≡ (err n, s')
    → now + n * nanos_per_sec ≤ later
    → (count_global l later s'.global).attempts ≤ l.global_max_attempts
    → (check_key l key later s').0 ≡ ok tt
retry_accepted l key now later n s s' w v m u e live o g r d g' =
    dead_accepted l key later s' (counted l now s w)
      (subst (IsValid l) (ap (λ x. x.1) r) (check_key-IsValid l key now s v)) m
      (subst (λ x. lookup key x.attempts ≡ some (counted l now s w)) (ap (λ x. x.1) r)
        (lookup-check_key l key now s w e live))
      (unfold is_live in
        ground (
          arith,
          opened_at-counted l key now s w,
          blocked_delay l key now n s s' w e live g r,
          retry_after_tight now w.opened_at l.window o u,
        ))
      g'
