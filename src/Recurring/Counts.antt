-- ===== src/Recurring/Counts.antt =====
-- Which calls the loop of aiomisc/recurring.py makes, and what its statistic counts.
use aiomisc.Base.{
  ℕ, ◌+◌, ◌≡◌, refl, inl, inr, Bool, true, false, List, [], ◌∷◌, arith, if◌then◌else◌, Bool-cases,
  nat_eq, list_eq, pair_eq, length, length-append,
}
use aiomisc.Recurring.{
  Outcome, returned, raised, cancelled, Strategy, gives, wrong, skips, stops, Tick, State, returns,
  sleep, exec, by_strategy, turn, next, start,
}

-- The ticks at which the callback is to run: those with a delay, up to the first that ends the loop.
abbrev by_delay : {E : Type 0} → Strategy → Tick E → List (Tick E) → List (Tick E)
by_delay (gives delay) t rest = t ∷ rest
by_delay wrong t rest = []
by_delay (skips delay) t rest = rest
by_delay stops t rest = []

unfoldable pub calls : {E : Type 0} → List (Tick E) → List (Tick E)
calls [] = []
calls (t ∷ ts) = let rest = calls ts in if t.is_closed then [] else by_delay t.strategy t rest

abbrev pub ends_well : {E : Type 0} → Outcome E → ℕ
ends_well returned = 1
ends_well _ = 0

abbrev pub ends_badly : {E : Type 0} → Outcome E → ℕ
ends_badly (raised x) = 1
ends_badly _ = 0

unfoldable pub total : {E : Type 0} → (Tick E → ℕ) → List (Tick E) → ℕ
total f [] = 0
total f (t ∷ ts) = f t + total f ts

-- The statistic after the calls `ts`.
pub record Counted {E : Type 0} (ts : List (Tick E)) (s s' : State) : Type 0 where
  pub called : s'.statistic.call_count ≡ s.statistic.call_count + length ts
  pub done : s'.statistic.done ≡ s.statistic.done + total (λ t. ends_well t.outcome) ts
  pub failed : s'.statistic.fail ≡ s.statistic.fail + total (λ t. ends_badly t.outcome) ts
  pub time : s'.statistic.sum_time ≡ s.statistic.sum_time + total (λ t. t.duration) ts
  pub started : length s'.starts ≡ length s.starts + length ts

module _ {E : Type 0} (suppress_exceptions : E → Bool) where
  exec-by :
      (s : State) (t : Tick E) (o : Outcome E)
      → t.outcome ≡ o
      → Counted (t ∷ []) s (exec suppress_exceptions s o t.duration)
  unfolding exec total
  exec-by s t returned e = record {
    called = refl;
    done = rw e (omega arith);
    failed = rw e (omega arith);
    time = omega arith;
    started = omega (arith, length-append s.starts (s.clock ∷ []));
  }
  exec-by s t cancelled e = record {
    called = refl;
    done = rw e (omega arith);
    failed = rw e (omega arith);
    time = omega arith;
    started = omega (arith, length-append s.starts (s.clock ∷ []));
  }
  exec-by s t (raised x) e = elim (Bool-cases (suppress_exceptions x)) [
    | inl c ↦
        rw (c, e)
          (record {
            called = refl;
            done = omega arith;
            failed = omega arith;
            time = omega arith;
            started = omega (arith, length-append s.starts (s.clock ∷ []));
          })
    | inr c ↦
        rw (c, e)
          (record {
            called = refl;
            done = omega arith;
            failed = omega arith;
            time = omega arith;
            started = omega (arith, length-append s.starts (s.clock ∷ []));
          })
  ]

  Counted-none : (s : State) → Counted {E = E} [] s s
  unfolding total
  Counted-none s = record {
    called = omega arith;
    done = omega arith;
    failed = omega arith;
    time = omega arith;
    started = omega arith;
  }

  Counted-cons :
      {s u v : State} {t : Tick E} {ts : List (Tick E)}
      → Counted (t ∷ []) s u
      → Counted ts u v
      → Counted (t ∷ ts) s v
  unfolding total
  Counted-cons h k = record {
    called = omega (arith, h.called, k.called);
    done = omega (arith, h.done, k.done);
    failed = omega (arith, h.failed, k.failed);
    time = omega (arith, h.time, k.time);
    started = omega (arith, h.started, k.started);
  }

  by_strategy-Counted :
      (ts : List (Tick E)) (s : State) (t : Tick E) (strategy : Strategy)
      → ((u : State) → Counted (calls ts) u (start suppress_exceptions ts u).1)
      → Counted
          (by_delay strategy t (calls ts))
          s
          (next suppress_exceptions s
            (by_strategy suppress_exceptions s strategy t.outcome t.duration)
            (start suppress_exceptions ts)).1
  by_strategy-Counted ts s t (gives delay) rec =
      let x = exec-by (sleep s delay) t t.outcome refl in
      let x' : Counted (t ∷ []) s (exec suppress_exceptions (sleep s delay) t.outcome t.duration) =
        record {
          called = x.called;
          done = x.done;
          failed = x.failed;
          time = x.time;
          started = x.started;
        } in
      Counted-cons x' (rec _)
  by_strategy-Counted ts s t wrong rec = Counted-none s
  by_strategy-Counted ts s t (skips delay) rec =
      let x = rec (sleep s delay) in
      record {
        called = x.called;
        done = x.done;
        failed = x.failed;
        time = x.time;
        started = x.started;
      }
  by_strategy-Counted ts s t stops rec = Counted-none s

  closed-Counted :
      (ts : List (Tick E)) (s : State) (t : Tick E) (is_closed : Bool)
      → ((u : State) → Counted (calls ts) u (start suppress_exceptions ts u).1)
      → Counted
          (if is_closed then [] else by_delay t.strategy t (calls ts))
          s
          (next suppress_exceptions s
            (if is_closed
              then returns
              else by_strategy suppress_exceptions s t.strategy t.outcome t.duration)
            (start suppress_exceptions ts)).1
  closed-Counted ts s t true rec = Counted-none s
  closed-Counted ts s t false rec = by_strategy-Counted ts s t t.strategy rec

  -- The loop runs the callback at exactly the ticks whose strategy gives a delay, up to the first
  -- one that ends the loop, and the statistic counts those calls: each once as a call, by how it
  -- ended, and with its time, whether or not the exception is suppressed.
  pub start-Counted :
      (ts : List (Tick E)) (s : State) → Counted (calls ts) s (start suppress_exceptions ts s).1
  unfolding start turn calls
  start-Counted [] s = Counted-none s
  start-Counted (t ∷ ts) s = closed-Counted ts s t t.is_closed (start-Counted ts)
