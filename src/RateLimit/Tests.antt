-- ===== src/RateLimit/Tests.antt =====
-- Runs of the limiter (rate_limit.rs) on the inputs of the source's own tests.
use mathlib.Core.Bool.{false≢true}
use canonical_cloud.Base.{
  ◌≡◌, ◌≤◌, refl, text_beq_iff, ok, err, text, ◌*◌, text_beq, to_ascii_lowercase, trim, lookup,
  insert, retain, [], ◌∷◌, arith, some, text_eq,
}
use canonical_cloud.RateLimit.{
  LoginRateLimiter, nanos_per_sec, new, check, check_key, check_account, sweep, is_live,
  count_global, count_entry, saturating_suc, retry_after, account_key, State, AttemptWindow,
}
use canonical_cloud.RateLimit.Bounds.{IsValid, check-IsValid}
use canonical_cloud.RateLimit.Isolation.{check_key-ne}
use canonical_cloud.RateLimit.Budget.{accepted, accepted_le, retry_accepted}

abbrev limiter : LoginRateLimiter
limiter = record {
  max_attempts = 2;
  global_max_attempts = 100;
  window = 60 * nanos_per_sec;
  max_keys = 4;
}

abbrev after_one : State
after_one = (check limiter (λ t. t) (text "User@Example.com") 0 (new 0)).1

abbrev after_two : State
after_two = (check limiter (λ t. t) (text " user@example.com ") 0 after_one).1

third : (check limiter (λ t. t) (text "USER@example.com") 0 after_two).0 ≡ err 60
unfolding check check_key check_account sweep is_live count_global count_entry saturating_suc
    retry_after account_key lookup insert retain text_beq to_ascii_lowercase trim
third = refl

-- The state after two attempts on the account `a` at time 0.
abbrev spent : AttemptWindow
spent = record { opened_at = 0; attempts = 2 }

abbrev full : State
full = record { attempts = (text "a", spent) ∷ []; global = record { opened_at = 0; attempts = 2 } }

abbrev refused : State
refused = record {
  attempts = (text "a", record { opened_at = 0; attempts = 3 }) ∷ [];
  global = record { opened_at = 0; attempts = 3 };
}

full-IsValid : IsValid limiter full
unfolding lookup
full-IsValid = record { distinct = (refl, tt); bounded = omega arith }

check-IsValid_example : IsValid limiter (check limiter (λ t. t) (text "b") 5 full).1
check-IsValid_example = check-IsValid limiter (λ t. t) (text "b") 5 full full-IsValid

check_key-ne_example :
    lookup (text "a") (check_key limiter (text "b") 5 full).1.attempts ≡ some spent
unfolding lookup text_beq is_live
check_key-ne_example =
    check_key-ne limiter (text "b") (text "a") 5 full spent
      (λ e. false≢true ((text_beq_iff (text "b") (text "a")).1 e)) refl refl

accepted_le_example :
    accepted limiter
      (text "a")
      ((text "a", 3) ∷ (text "b", 4) ∷ (text "a", 5) ∷ (text "a", 6) ∷ [])
      (new 0)
    ≤ 2
unfolding lookup
accepted_le_example =
    accepted_le limiter (text "a") 3
      ((text "a", 3) ∷ (text "b", 4) ∷ (text "a", 5) ∷ (text "a", 6) ∷ []) (new 0) (omega arith)
      refl (omega arith)

retry_accepted_example : (check_key limiter (text "a") (60 * nanos_per_sec) refused).0 ≡ ok tt
unfolding check_key check_account sweep is_live count_global count_entry saturating_suc retry_after
    lookup insert retain text_beq
retry_accepted_example =
    retry_accepted limiter (text "a") 0 (60 * nanos_per_sec) 60 full refused spent full-IsValid
      (omega arith) (omega arith) refl refl (omega arith) (omega arith) refl (omega arith)
      (omega arith)
