-- ===== src/Tests/CircuitBreaker.antt =====
-- Runs of the breaker of aiomisc/circuit_breaker.py, whose exceptions are numbers here.
use aiomisc.Base.{
  ℕ, ◌≤◌, ◌<◌, ◌≡◌, refl, ◌≢◌, ◌↔◌, ◌⊎◌, none, some, List, [], ◌∷◌, arith, nat_beq, nat_eq, list_eq,
  pair_eq, length, ok,
}
use aiomisc.CircuitBreaker.Data.{
  passing, broken, Ratio, CircuitBreaker, no_calls, returned, raised, upper_count,
}
use aiomisc.CircuitBreaker.{
  new_breaker, compute_state, compute_by_state, recovery_ratio, gen_statistic, bucket,
}
use aiomisc.CircuitBreaker.Transitions.{Moved, compute_state-Moved}
use aiomisc.CircuitBreaker.Opening.{AllUpper, compute_state-opens}
use aiomisc.CircuitBreaker.Validity.{IsValid}
use aiomisc.CircuitBreaker.Histories.{
  Event, enters, leaves, run, Tallies, run-new_breaker-IsValid, AllRefused, broken_refuses,
}

abbrev half : Ratio
half = record { num = 1; den = 2 }

-- Response time 20, and 10 for the rest.
abbrev breaker : CircuitBreaker ℕ
breaker = record {
  config = record {
    error_ratio = half;
    response_time = 20;
    passing_time = 20;
    broken_time = 10;
    recovery_time = 10;
    unit = 10;
    exceptions = λ x. nat_beq x 1;
    exception_inspector = none;
  };
  state = passing;
  statistic = [];
  heap = λ _. record { fail = 0; good = 0; total = 0 };
  next_address = 0;
  stuck_until = 0;
  recovery_at = 0;
  last_exception = none;
  counters = no_calls;
}

-- Ten buckets, with a failure in each.
abbrev failing : CircuitBreaker ℕ
failing = record breaker {
  statistic =
      (18, 9)
      ∷ (16, 8)
      ∷ (14, 7)
      ∷ (12, 6)
      ∷ (10, 5)
      ∷ (8, 4)
      ∷ (6, 3)
      ∷ (4, 2)
      ∷ (2, 1)
      ∷ (0, 0)
      ∷ [];
  heap = λ _. record { fail = 1; good = 0; total = 1 };
  next_address = 10;
}

abbrev opened : CircuitBreaker ℕ
opened = record breaker { state = broken; stuck_until = 100 }

compute_state-Moved_example :
    ((120 < opened.stuck_until) × (compute_state opened 120 ≡ opened))
    ⊎ ((opened.stuck_until ≤ 120) × Moved broken opened 120 (compute_state opened 120))
compute_state-Moved_example = compute_state-Moved opened 120

compute_state-opens_example : ((compute_state failing 19).state ≡ broken) ↔ (
    (10 ≤ length failing.statistic)
    × (gen_statistic failing 19 failing.statistic ≢ [])
    × AllUpper half (gen_statistic failing 19 failing.statistic))
compute_state-opens_example = compute_state-opens failing 19 refl (omega arith)

-- It does open.
opens_at_19 : (compute_state failing 19).state ≡ broken
unfolding compute_state compute_by_state recovery_ratio gen_statistic upper_count bucket
opens_at_19 = refl

made_by : new_breaker half 20 (λ x. nat_beq x 1) (some 10) (some 10) none none 10 ≡ ok breaker
unfolding new_breaker
made_by = refl

-- Two calls overlap; the first one fails.
abbrev history : List (Event ℕ ℕ)
history = enters 5 half ∷ enters 6 half ∷ leaves 0 (raised 1) ∷ leaves 0 (returned 3) ∷ []

run-new_breaker-IsValid_example :
    IsValid (run breaker history) × Tallies breaker history no_calls (run breaker history).counters
run-new_breaker-IsValid_example =
    run-new_breaker-IsValid half 20 (λ x. nat_beq x 1) (some 10) (some 10) none none 10 breaker
      history made_by

broken_refuses_example :
    AllRefused opened history
    × ((run opened history).state ≡ broken)
    × ((run opened history).stuck_until ≡ 100)
broken_refuses_example =
    broken_refuses opened 100 history refl refl (omega arith, (omega arith, tt))
