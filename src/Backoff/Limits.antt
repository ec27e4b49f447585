-- ===== src/Backoff/Limits.antt =====
-- The limits that `execute` of aiomisc/backoff.py keeps: tries, time, and its statistic.
use aiomisc.Base.{
  ℕ, zero, suc, ◌+◌, ◌≤◌, ◌<◌, ◌≡◌, subst, ◌≢◌, inl, inr, false, Option, none, some, arith,
  Bool-cases, nat_eq, list_eq, pair_eq,
}
use aiomisc.Backoff.{
  BackoffStatistic, Backoff, Outcome, returned, raised, cancelled, Try, Final, out_of_fuel,
  Execution, wait_for, is_late, begin, add_error, enough,
}
use aiomisc.Backoff.Loop.{
  Turn, stops, again, after_error, after_try, turn, run, start, resume, execute,
}

-- From `s` to `s'`, by `n` tries: the time and the statistic.
record Counts {E : Type 0} (n : ℕ) (s s' : Execution E) : Type 0 where
  tries : s'.total_tries ≡ s.total_tries + n
  later : s.clock ≤ s'.clock
  attempts : s'.statistic.attempts ≡ s.statistic.attempts + n
  done : s'.statistic.done ≡ s.statistic.done + n
  faults : s'.statistic.errors + s'.statistic.cancels ≤ s.statistic.errors + s.statistic.cancels + n
  time : s'.statistic.sum_time + s.clock ≡ s.statistic.sum_time + s'.clock

-- The time passes the deadline by no more than some time.
abbrev Fits : Option ℕ → ℕ → ℕ → Type 0
Fits none worst clock = Unit
Fits (some limit) worst clock = clock ≤ limit + worst

record Stopped {V E : Type 0} (b : Backoff E) (cancel_time : ℕ) (s : Execution E)
    (final : Final V E) (s' : Execution E) : Type 0 where
  counts : Counts 1 s s'
  fits : Fits b.deadline cancel_time s'.clock
  ended : final ≢ out_of_fuel

record Again {E : Type 0} (b : Backoff E) (s s' : Execution E) : Type 0 where
  counts : Counts 1 s s'
  in_time : is_late b.deadline s'.clock ≡ false
  paused : s.clock + b.pause ≤ s'.clock
  may_try : enough b.max_tries s'.total_tries ≡ false

abbrev After : {V E : Type 0} → Backoff E → ℕ → Execution E → Turn V E → Type 0
After b cancel_time s (stops final s') = Stopped b cancel_time s final s'
After b cancel_time s (again s') = Again b s s'

module _ (V : Type 0) {E : Type 0} (timeout : E) (b : Backoff E) where
  after_error-After :
      (cancel_time : ℕ) (s : Execution E) (x : E) (now : ℕ)
      → is_late b.deadline now ≡ false
      → is_late b.deadline s.clock ≡ false
      → s.clock ≤ now
      → After b cancel_time s (after_error {V = V} timeout b (add_error (begin s) x) x now)
  unfolding after_error
  after_error-After cancel_time s x now h k le = ground arith

-- What a run reaches, with the fuel that it is given.
record Reached {V E : Type 0} (b : Backoff E) (behaviour : ℕ → Try V E) (fuel : ℕ) (s : Execution E)
    (r : Final V E × Execution E) : Type 0 where
  more : ℕ
  counts : Counts more s r.1
  fits :
      (worst : ℕ) → ((n : ℕ) → (behaviour n).cancel_time ≤ worst) → Fits b.deadline worst r.1.clock
  capped : (m : ℕ) → b.max_tries ≡ some m → s.total_tries < m → r.1.total_tries ≤ m
  by_tries :
      (m : ℕ)
      → b.max_tries ≡ some m
      → s.total_tries < m
      → m ≤ fuel + s.total_tries
      → r.0 ≢ out_of_fuel
  by_time : (d : ℕ) → b.deadline ≡ some d → 0 < b.pause → d ≤ fuel + s.clock → r.0 ≢ out_of_fuel

in_time-Fits : (o : Option ℕ) (worst clock : ℕ) → is_late o clock ≡ false → Fits o worst clock
in_time-Fits none worst clock h = tt
in_time-Fits (some limit) worst clock h = ground arith

Fits-le : (o : Option ℕ) (t worst clock : ℕ) → t ≤ worst → Fits o t clock → Fits o worst clock
Fits-le none t worst clock le h = tt
Fits-le (some limit) t worst clock le h = omega arith

in_time-lt : (o : Option ℕ) (clock d : ℕ) → is_late o clock ≡ false → o ≡ some d → clock < d
in_time-lt none clock d h e = cc e
in_time-lt (some limit) clock d h e = ground arith

enough-lt : (o : Option ℕ) (tries m : ℕ) → enough o tries ≡ false → o ≡ some m → tries < m
enough-lt none tries m h e = cc e
enough-lt (some n) tries m h e = ground arith

Counts-trans :
    {E : Type 0} {n m : ℕ} {s t u : Execution E} → Counts n s t → Counts m t u → Counts (n + m) s u
Counts-trans h k = omega arith

resume-Reached :
    {V E : Type 0} (b : Backoff E) (behaviour : ℕ → Try V E) (fuel : ℕ) (s : Execution E)
    (t : Turn V E) (loop : Execution E → Final V E × Execution E)
    → After b (behaviour s.total_tries).cancel_time s t
    → is_late b.deadline s.clock ≡ false
    → ((s' : Execution E)
        → is_late b.deadline s'.clock ≡ false
        → Reached b behaviour fuel s' (loop s'))
    → Reached b behaviour (suc fuel) s (resume t loop)
resume-Reached b behaviour fuel s (stops final s') loop after h rec = record {
  more = 1;
  counts = after.counts;
  fits = λ worst le. Fits-le b.deadline _ worst s'.clock (le s.total_tries) after.fits;
  capped = λ m e lt. omega (arith, after.counts.tries);
  by_tries = λ m e lt le. after.ended;
  by_time = λ d e up le. after.ended;
}
resume-Reached b behaviour fuel s (again s') loop after h rec =
    let rest = rec s' after.in_time in
    record {
      more = 1 + rest.more;
      counts = Counts-trans after.counts rest.counts;
      fits = rest.fits;
      capped = λ m e lt. rest.capped m e (enough-lt b.max_tries s'.total_tries m after.may_try e);
      by_tries = λ m e lt le.
          rest.by_tries m e (enough-lt b.max_tries s'.total_tries m after.may_try e)
            (omega (arith, after.counts.tries));
      by_time = λ d e up le. rest.by_time d e up (omega (arith, after.paused));
    }

module _ {V E : Type 0} (timeout : E) (b : Backoff E) where
  after_try-After :
      (cancel_time : ℕ) (s : Execution E) (outcome : Outcome V E) (now : ℕ)
      → is_late b.deadline now ≡ false
      → is_late b.deadline s.clock ≡ false
      → s.clock ≤ now
      → After b cancel_time s (after_try timeout b (begin s) outcome now)
  unfolding after_try
  after_try-After cancel_time s (returned v) now h k le = ground arith
  after_try-After cancel_time s cancelled now h k le = ground arith
  after_try-After cancel_time s (raised x) now h k le = elim (Bool-cases (b.caught x)) [
    | inl e ↦ rw e (after_error-After V timeout b cancel_time s x now h k le)
    | inr e ↦ rw e (ground arith)
  ]

  turn-After :
      (s : Execution E) (t : Try V E)
      → is_late b.deadline s.clock ≡ false
      → After b t.cancel_time s (turn timeout b s t)
  unfolding turn
  turn-After s t h =
      elim (Bool-cases
        (is_late b.deadline (s.clock + (wait_for timeout b.attempt_timeout t).duration))) [
          | inl late ↦ rw late (ground arith)
          | inr early ↦ rw early (
              after_try-After t.cancel_time s (wait_for timeout b.attempt_timeout t).outcome _ early
                h (omega arith))
        ]

  run-Reached :
      (fuel : ℕ) (behaviour : ℕ → Try V E) (s : Execution E)
      → is_late b.deadline s.clock ≡ false
      → Reached b behaviour fuel s (run timeout b fuel behaviour s)
  unfolding run
  run-Reached zero behaviour s h = record {
    more = 0;
    counts = omega arith;
    fits = λ worst le. in_time-Fits b.deadline worst s.clock h;
    capped = λ m e lt. omega arith;
    by_tries = λ m e lt le. absurd (omega arith);
    by_time = λ d e up le. absurd (omega (arith, in_time-lt b.deadline s.clock d h e));
  }
  run-Reached (suc fuel) behaviour s h =
      resume-Reached b behaviour fuel s (turn timeout b s (behaviour s.total_tries))
        (run timeout b fuel behaviour) (turn-After s (behaviour s.total_tries) h) h
        (run-Reached fuel behaviour)

  -- `execute` returns or raises: with a positive limit on the tries and fuel for that many, it
  -- never runs on, and the tries are no more than `max_tries` allows.
  pub execute-max_tries :
      (fuel m : ℕ) (behaviour : ℕ → Try V E) (statistic : BackoffStatistic)
      → b.max_tries ≡ some m
      → 0 < m
      → m ≤ fuel
      → ((execute timeout b fuel behaviour statistic).0 ≢ out_of_fuel)
        × ((execute timeout b fuel behaviour statistic).1.total_tries ≤ m)
  unfolding execute
  execute-max_tries fuel m behaviour statistic e up le = elim (Bool-cases (is_late b.deadline 0)) [
    | inl late ↦ rw late (ground arith)
    | inr early ↦
        let r = run-Reached fuel behaviour (start statistic) early in
        rw early (r.by_tries m e up (omega arith), r.capped m e up)
  ]

  -- With a deadline and a pause, `execute` returns or raises, however many tries are allowed: at the
  -- latest by the deadline and the time that the coroutine takes at most to end once it is cancelled.
  -- Fuel for as many tries as the deadline has ticks is enough.
  pub execute-deadline :
      (fuel d worst : ℕ) (behaviour : ℕ → Try V E) (statistic : BackoffStatistic)
      → b.deadline ≡ some d
      → 0 < b.pause
      → d ≤ fuel
      → ((n : ℕ) → (behaviour n).cancel_time ≤ worst)
      → ((execute timeout b fuel behaviour statistic).0 ≢ out_of_fuel)
        × ((execute timeout b fuel behaviour statistic).1.clock ≤ d + worst)
  unfolding execute
  execute-deadline fuel d worst behaviour statistic e up le slow =
      elim (Bool-cases (is_late b.deadline 0)) [
        | inl late ↦ rw late (ground arith)
        | inr early ↦
            let r = run-Reached fuel behaviour (start statistic) early in
            rw early (
              r.by_time d e up (omega arith),
              subst (λ o. Fits o worst (run timeout b fuel behaviour (start statistic)).1.clock) e
                  (r.fits worst slow),
            )
      ]

  -- The statistic of an execution: it counts every try as an attempt that is done, no more errors
  -- and cancels than tries, and all of the time that the execution takes.
  pub execute-statistic :
      (fuel : ℕ) (behaviour : ℕ → Try V E) (statistic : BackoffStatistic)
      → (let s = (execute timeout b fuel behaviour statistic).1 in
          (s.statistic.attempts ≡ statistic.attempts + s.total_tries)
          × (s.statistic.done ≡ statistic.done + s.total_tries)
          × (s.statistic.errors + s.statistic.cancels
              ≤ statistic.errors + statistic.cancels + s.total_tries)
          × (s.statistic.sum_time ≡ statistic.sum_time + s.clock))
  unfolding execute
  execute-statistic fuel behaviour statistic = elim (Bool-cases (is_late b.deadline 0)) [
    | inl late ↦ rw late (ground arith)
    | inr early ↦
        let c = (run-Reached fuel behaviour (start statistic) early).counts in
        rw early (
          omega (arith, c.tries, c.attempts),
          omega (arith, c.tries, c.done),
          omega (arith, c.tries, c.faults),
          omega (arith, c.time),
        )
  ]
