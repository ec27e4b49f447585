-- ===== src/Tests/Backoff.antt =====
-- Runs of aiomisc/backoff.py; the exceptions are numbers here, and 0 is the timeout.
use aiomisc.Base.{
  ℕ, ◌≤◌, ◌<◌, refl, ◌≢◌, Bool, none, some, arith, ltb, nat_beq, if◌then◌else◌, lt→ltb, nat_eq,
  list_eq, pair_eq, ◌+◌,
}
use aiomisc.Backoff.{Backoff, Try, out_of_fuel, returned, raised, zero_statistic}
use aiomisc.Backoff.Loop.{execute}
use aiomisc.Backoff.Limits.{execute-max_tries, execute-deadline}
use aiomisc.Backoff.Outcomes.{Fails}

abbrev is_timeout : ℕ → Bool
is_timeout x = nat_beq x 0

abbrev three_tries : Backoff ℕ
three_tries = record {
  attempt_timeout = none;
  deadline = none;
  pause = 1;
  max_tries = some 3;
  giveup = none;
  caught = λ x. ltb x 5;
}

abbrev by_ten : Backoff ℕ
by_ten = record three_tries { deadline = some 10; max_tries = none }

-- Two tries fail, and the third returns 42.
abbrev behaviour : ℕ → Try ℕ ℕ
behaviour n = record {
  duration = 2;
  cancel_time = 1;
  outcome = if ltb n 2 then raised 1 else returned 42;
}

abbrev always_fails : ℕ → Try ℕ ℕ
always_fails n = record { duration = 2; cancel_time = 1; outcome = raised 1 }

execute-max_tries_example :
    ((execute 0 three_tries 3 always_fails zero_statistic).0 ≢ out_of_fuel)
    × ((execute 0 three_tries 3 always_fails zero_statistic).1.total_tries ≤ 3)
execute-max_tries_example =
    execute-max_tries 0 three_tries 3 3 always_fails zero_statistic refl (omega arith) (omega arith)

execute-deadline_example :
    ((execute 0 by_ten 10 always_fails zero_statistic).0 ≢ out_of_fuel)
    × ((execute 0 by_ten 10 always_fails zero_statistic).1.clock ≤ 10 + 1)
execute-deadline_example =
    execute-deadline 0 by_ten 10 10 1 always_fails zero_statistic refl (omega arith) (omega arith)
      (λ n. omega arith)

behaviour-Fails : (n : ℕ) → n < 2 → Fails three_tries behaviour n
behaviour-Fails n h = record {
  fault = 1;
  raises_it = rw (lt→ltb n 2 h) refl;
  is_caught = refl;
  goes_on = refl;
}
