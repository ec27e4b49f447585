-- ===== src/CircuitBreaker/Histories.antt =====
-- Histories of the breaker of aiomisc/circuit_breaker.py: calls enter the context and leave it in
-- any order, since `call_async` awaits between the two.
use aiomisc.Base.{
  ok, true, false, ◌&&◌, Option, Result, Exn, Bool, List, ℕ, ◌+◌, ◌<◌, ◌≡◌, refl, ap, subst, ◌∙◌,
  [], ◌∷◌, arith, if◌then◌else◌, lt→ltb, nat_eq, list_eq, pair_eq,
}
use aiomisc.CircuitBreaker.Data.{
  Ratio, CircuitBreaker, CircuitBreakerState, passing, broken, recovering, CircuitBreakerStatistic,
  Outcome, returned, raised, Entry, admitted, circuit_broken, no_calls,
}
use aiomisc.CircuitBreaker.{
  new_breaker, CircuitBreaker, counter, compute_by_state, compute_state, enter_by_state, enter,
  leave,
}
use aiomisc.CircuitBreaker.Validity.{IsValid, new_breaker-IsValid, enter-IsValid, leave-IsValid}
use aiomisc.CircuitBreaker.Counts.{
  is_passing, is_broken, is_recovering, one_if, same_bool, is_admitted, met, Untouched,
  counter-Untouched, enter-Counted, new_breaker-counters,
}

pub data Event (E V : Type 0) : Type 0 where
  enters : ℕ → Ratio → Event E V
  leaves : ℕ → Outcome E V → Event E V

module _ {E : Type 0} where
  -- Held in the broken state until `until`.
  abbrev pub Held : ℕ → CircuitBreaker E → Type 0
  Held until b = (b.state ≡ broken) × (b.stuck_until ≡ until)

  abbrev pub IsRefused : Entry E → Type 0
  IsRefused (admitted address) = ⊥
  IsRefused (circuit_broken x) = Unit

  compute_state-Held :
      (b : CircuitBreaker E) (now until : ℕ) → Held until b → now < until → compute_state b now ≡ b
  unfolding compute_state
  compute_state-Held b now until held early =
      ap (λ t. if t then b else compute_by_state b.state b now)
        (lt→ltb now b.stuck_until (omega arith))

  enter_broken :
      (s : CircuitBreakerState) (b : CircuitBreaker E) (address now until : ℕ) (draw : Ratio)
      → s ≡ broken
      → Held until b
      → IsRefused (enter_by_state s b address now draw).0
        × Held until (enter_by_state s b address now draw).1
  unfolding enter_by_state
  enter_broken passing b address now until draw e held = cc e
  enter_broken broken b address now until draw e held = (tt, held)
  enter_broken recovering b address now until draw e held = cc e

  enter-Held :
      (b : CircuitBreaker E) (now until : ℕ) (draw : Ratio)
      → Held until b
      → now < until
      → IsRefused (enter b now draw).0 × Held until (enter b now draw).1
  unfolding enter
  enter-Held b now until draw held early =
      let (_, state_same, until_same) = counter-Untouched b now in
      let b₁ = (counter b now).1 in
      let held₁ : Held until b₁ = (state_same ∙ held.0, until_same ∙ held.1) in
      let still : (compute_state b₁ now).state ≡ broken =
        ap (λ (x : CircuitBreaker E). x.state) (compute_state-Held b₁ now until held₁ early)
        ∙ held₁.0 in
      let still_until : (compute_state b₁ now).stuck_until ≡ until =
        ap (λ (x : CircuitBreaker E). x.stuck_until) (compute_state-Held b₁ now until held₁ early)
        ∙ held₁.1 in
      enter_broken (compute_state b₁ now).state _ _ now until draw still (still, still_until)

module _ {E V : Type 0} where
  abbrev pub step : CircuitBreaker E → Event E V → CircuitBreaker E
  step b (enters now draw) = (enter b now draw).1
  step b (leaves address outcome) = leave b address outcome

  unfoldable pub run : CircuitBreaker E → List (Event E V) → CircuitBreaker E
  run b [] = b
  run b (event ∷ events) = run (step b event) events

  leave_keeps :
      (b : CircuitBreaker E) (address : ℕ) (outcome : Outcome E V)
      → Untouched b (leave b address outcome)
  unfolding leave
  leave_keeps b address (returned v) = (refl, refl, refl)
  leave_keeps b address (raised x) = ground arith

  -- The entries of a history that meet a state that passes the test.
  unfoldable pub entries_in : (CircuitBreakerState → Bool) → CircuitBreaker E → List (Event E V) → ℕ
  entries_in test b [] = 0
  entries_in test b (enters now draw ∷ events) =
      one_if (test (met b now)) + entries_in test (enter b now draw).1 events
  entries_in test b (leaves address outcome ∷ events) =
      entries_in test (leave b address outcome) events

  -- Of those in the recovering state, the ones that are let through, or not, as the test says.
  unfoldable pub recoveries : Bool → CircuitBreaker E → List (Event E V) → ℕ
  recoveries let_through b [] = 0
  recoveries let_through b (enters now draw ∷ events) =
      one_if (is_recovering (met b now) && same_bool let_through (is_admitted (enter b now draw).0))
      + recoveries let_through (enter b now draw).1 events
  recoveries let_through b (leaves address outcome ∷ events) =
      recoveries let_through (leave b address outcome) events

  -- What the counters have grown by: one for each entry, and one under the state that it met.
  pub record Tallies (b : CircuitBreaker E) (events : List (Event E V))
      (c c' : CircuitBreakerStatistic) : Type 0 where
    pub all_calls : c'.call_count ≡ c.call_count + entries_in (λ s. true) b events
    pub in_passing : c'.call_passing ≡ c.call_passing + entries_in is_passing b events
    pub in_broken : c'.call_broken ≡ c.call_broken + entries_in is_broken b events
    pub in_recovering : c'.call_recovering ≡ c.call_recovering + entries_in is_recovering b events
    pub let_through : c'.call_recovering_ok ≡ c.call_recovering_ok + recoveries true b events
    pub turned_away :
        c'.call_recovering_failed ≡ c.call_recovering_failed + recoveries false b events

  run-Tallies :
      (b : CircuitBreaker E) (events : List (Event E V))
      → Tallies b events b.counters (run b events).counters
  unfolding run entries_in recoveries
  run-Tallies b [] = record {
    all_calls = omega arith;
    in_passing = omega arith;
    in_broken = omega arith;
    in_recovering = omega arith;
    let_through = omega arith;
    turned_away = omega arith;
  }
  run-Tallies b (enters now draw ∷ events) =
      let t = run-Tallies (enter b now draw).1 events in
      let e = enter-Counted b now draw in
      record {
        all_calls = omega (arith, t.all_calls, e.all_calls);
        in_passing = omega (arith, t.in_passing, e.in_passing);
        in_broken = omega (arith, t.in_broken, e.in_broken);
        in_recovering = omega (arith, t.in_recovering, e.in_recovering);
        let_through = omega (arith, t.let_through, e.let_through);
        turned_away = omega (arith, t.turned_away, e.turned_away);
      }
  run-Tallies b (leaves address outcome ∷ events) =
      subst
        (λ (c : CircuitBreakerStatistic).
          Tallies b (leaves address outcome ∷ events) c
            (run (leave b address outcome) events).counters)
        (leave_keeps b address outcome).0
        (let t = run-Tallies (leave b address outcome) events in
          record {
            all_calls = t.all_calls;
            in_passing = t.in_passing;
            in_broken = t.in_broken;
            in_recovering = t.in_recovering;
            let_through = t.let_through;
            turned_away = t.turned_away;
          })

  -- From a breaker that satisfies the invariant, any history, in which calls enter and leave in any
  -- order, leads to one that does.
  run-IsValid :
      (b : CircuitBreaker E) (events : List (Event E V)) → IsValid b → IsValid (run b events)
  unfolding run
  run-IsValid b [] v = v
  run-IsValid b (enters now draw ∷ events) v =
      run-IsValid (enter b now draw).1 events (enter-IsValid b now draw v)
  run-IsValid b (leaves address outcome ∷ events) v =
      run-IsValid (leave b address outcome) events (leave-IsValid b address outcome v)

  -- Any history of a breaker that the constructor has made, in which calls enter and leave in any
  -- order, leaves it with at most `BUCKET_COUNT` buckets, no counter with more failures and successes
  -- than calls, and a statistic that counts every call that entered, once in all and once under the
  -- state that it met; in the recovering state also once by whether it was let through.
  pub run-new_breaker-IsValid :
      (ratio : Ratio) (response_time : ℕ) (exceptions : E → Bool)
      (recovery_time broken_time passing_time : Option ℕ) (inspector : Option (E → Result Exn Bool))
      (unit : ℕ) (b : CircuitBreaker E) (events : List (Event E V))
      → new_breaker ratio response_time exceptions recovery_time broken_time passing_time inspector
          unit
        ≡ ok b
      → IsValid (run b events) × Tallies b events no_calls (run b events).counters
  run-new_breaker-IsValid ratio response_time exceptions recovery_time broken_time passing_time
        inspector unit b events made =
      (
        run-IsValid b events (
            new_breaker-IsValid ratio response_time exceptions recovery_time broken_time
              passing_time inspector unit b made),
        subst (λ (c : CircuitBreakerStatistic). Tallies b events c (run b events).counters)
            (new_breaker-counters ratio response_time exceptions recovery_time broken_time
              passing_time inspector unit b made)
            (run-Tallies b events),
      )

  -- Whether every entry of a history is refused.
  abbrev pub AllRefused : CircuitBreaker E → List (Event E V) → Type 0
  AllRefused b [] = Unit
  AllRefused b (enters now draw ∷ events) =
      IsRefused (enter b now draw).0 × AllRefused (enter b now draw).1 events
  AllRefused b (leaves address outcome ∷ events) = AllRefused (leave b address outcome) events

  abbrev pub AllBefore : ℕ → List (Event E V) → Type 0
  AllBefore until [] = Unit
  AllBefore until (enters now draw ∷ events) = (now < until) × AllBefore until events
  AllBefore until (leaves address outcome ∷ events) = AllBefore until events

  -- A broken breaker that is held until some time refuses every call that enters before it, and
  -- stays broken, whatever calls that were under way leave meanwhile.
  pub broken_refuses :
      (b : CircuitBreaker E) (until : ℕ) (events : List (Event E V))
      → b.state ≡ broken
      → b.stuck_until ≡ until
      → AllBefore until events
      → AllRefused b events × ((run b events).state ≡ broken) × ((run b events).stuck_until ≡ until)
  unfolding run
  broken_refuses b until [] e s early = (tt, e, s)
  broken_refuses b until (enters now draw ∷ events) e s early =
      let (refused_, (e', s')) = enter-Held b now until draw (e, s) early.0 in
      let (all_, e'', s'') = broken_refuses (enter b now draw).1 until events e' s' early.1 in
      ((refused_, all_), e'', s'')
  broken_refuses b until (leaves address outcome ∷ events) e s early =
      let (_, state_same, until_same) = leave_keeps b address outcome in
      broken_refuses (leave b address outcome) until events (state_same ∙ e) (until_same ∙ s) early
