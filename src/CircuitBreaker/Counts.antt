-- ===== src/CircuitBreaker/Counts.antt =====
-- What an entry does to the counters of the breaker of aiomisc/circuit_breaker.py.
use aiomisc.Base.{
  ok, ok-injective, true, false, not, ◌&&◌, leb, Bool-cases, inl, inr, Option, Result, Exn, Bool, ℕ,
  ◌+◌, ◌-◌, ◌≡◌, refl, ap, subst, ◌∙◌, none, some, arith, ltb, if_cases, nat_eq, list_eq, pair_eq,
}
use aiomisc.CircuitBreaker.Data.{
  Ratio, CircuitBreaker, CircuitBreakerState, passing, broken, recovering, CircuitBreakerStatistic,
  Entry, admitted, circuit_broken, newest, draw_admits, no_calls,
}
use aiomisc.CircuitBreaker.{
  new_breaker, bad_ratio, CircuitBreaker, append_counter, or_append, bucket, counter,
  compute_by_state, compute_state, enter_by_state, enter,
}

abbrev pub is_passing : CircuitBreakerState → Bool
is_passing passing = true
is_passing _ = false

abbrev pub is_broken : CircuitBreakerState → Bool
is_broken broken = true
is_broken _ = false

abbrev pub is_recovering : CircuitBreakerState → Bool
is_recovering recovering = true
is_recovering _ = false

abbrev pub one_if : Bool → ℕ
one_if true = 1
one_if false = 0

abbrev pub same_bool : Bool → Bool → Bool
same_bool true b = b
same_bool false b = not b

abbrev pub is_admitted : {E : Type 0} → Entry E → Bool
is_admitted (admitted address) = true
is_admitted (circuit_broken x) = false

-- What an entry that met a state does to the counters, by whether it was admitted.
pub record Counted (s : CircuitBreakerState) (is_in : Bool) (c c' : CircuitBreakerStatistic)
    : Type 0 where
  pub all_calls : c'.call_count ≡ c.call_count + 1
  pub in_passing : c'.call_passing ≡ c.call_passing + one_if (is_passing s)
  pub in_broken : c'.call_broken ≡ c.call_broken + one_if (is_broken s)
  pub in_recovering : c'.call_recovering ≡ c.call_recovering + one_if (is_recovering s)
  pub let_through :
      c'.call_recovering_ok
      ≡ c.call_recovering_ok + one_if (is_recovering s && same_bool true is_in)
  pub turned_away :
      c'.call_recovering_failed
      ≡ c.call_recovering_failed + one_if (is_recovering s && same_bool false is_in)

module _ {E : Type 0} where
  -- The state that a call meets.
  unfoldable pub met : CircuitBreaker E → ℕ → CircuitBreakerState
  met b now = (compute_state (counter b now).1 now).state

  by_state-counters :
      (s : CircuitBreakerState) (b : CircuitBreaker E) (now : ℕ)
      → (compute_by_state s b now).counters ≡ b.counters
  unfolding compute_by_state
  by_state-counters passing b now = ground arith
  by_state-counters broken b now = refl
  by_state-counters recovering b now = ground arith

  compute_state-counters :
      (b : CircuitBreaker E) (now : ℕ) → (compute_state b now).counters ≡ b.counters
  unfolding compute_state
  compute_state-counters b now =
      if_cases (λ (x : CircuitBreaker E). x.counters ≡ b.counters) (ltb now b.stuck_until)
        (λ _. refl) (λ _. by_state-counters b.state b now)

  -- Taking a counter leaves all but the buckets as it is.
  abbrev pub Untouched : CircuitBreaker E → CircuitBreaker E → Type 0
  Untouched b b' =
      (b'.counters ≡ b.counters) × (b'.state ≡ b.state) × (b'.stuck_until ≡ b.stuck_until)

  or_append-Untouched :
      (b : CircuitBreaker E) (current : ℕ) (o : Option ℕ) → Untouched b (or_append b current o).1
  unfolding append_counter
  or_append-Untouched b current none = (refl, refl, refl)
  or_append-Untouched b current (some address) = (refl, refl, refl)

  pub counter-Untouched : (b : CircuitBreaker E) (now : ℕ) → Untouched b (counter b now).1
  unfolding counter
  counter-Untouched b now = or_append-Untouched b (bucket b now) (newest b.statistic (bucket b now))

  -- The call is in `call_count` already.
  enter_by_state-Counted :
      (s : CircuitBreakerState) (b : CircuitBreaker E) (address now : ℕ) (draw : Ratio)
      (c : CircuitBreakerStatistic)
      → b.counters ≡ record c { call_count = c.call_count + 1 }
      → Counted s
          (is_admitted (enter_by_state s b address now draw).0)
          c
          (enter_by_state s b address now draw).1.counters
  unfolding enter_by_state
  enter_by_state-Counted passing b address now draw c h = rw h (record {
    all_calls = refl;
    in_passing = refl;
    in_broken = omega arith;
    in_recovering = omega arith;
    let_through = omega arith;
    turned_away = omega arith;
  })
  enter_by_state-Counted broken b address now draw c h = rw h (record {
    all_calls = refl;
    in_passing = omega arith;
    in_broken = refl;
    in_recovering = omega arith;
    let_through = omega arith;
    turned_away = omega arith;
  })
  enter_by_state-Counted recovering b address now draw c h =
      elim (Bool-cases (draw_admits draw (now - b.recovery_at) b.recovery_time)) [
        | inl e ↦
            rw (e, h)
              (record {
                all_calls = refl;
                in_passing = omega arith;
                in_broken = omega arith;
                in_recovering = refl;
                let_through = refl;
                turned_away = omega arith;
              })
        | inr e ↦
            rw (e, h)
              (record {
                all_calls = refl;
                in_passing = omega arith;
                in_broken = omega arith;
                in_recovering = refl;
                let_through = omega arith;
                turned_away = refl;
              })
      ]

  pub enter-Counted :
      (b : CircuitBreaker E) (now : ℕ) (draw : Ratio)
      → Counted
          (met b now)
          (is_admitted (enter b now draw).0)
          b.counters
          (enter b now draw).1.counters
  unfolding enter met
  enter-Counted b now draw =
      let b₁ = (counter b now).1 in
      let same : (compute_state b₁ now).counters ≡ b.counters =
        compute_state-counters b₁ now ∙ (counter-Untouched b now).0 in
      enter_by_state-Counted (compute_state b₁ now).state _ _ now draw b.counters
        (ap (λ (c : CircuitBreakerStatistic). record c { call_count = c.call_count + 1 }) same)

pub new_breaker-counters :
    {E : Type 0} (ratio : Ratio) (response_time : ℕ) (exceptions : E → Bool)
    (recovery_time broken_time passing_time : Option ℕ) (inspector : Option (E → Result Exn Bool))
    (unit : ℕ) (b : CircuitBreaker E)
    → new_breaker ratio response_time exceptions recovery_time broken_time passing_time inspector
        unit
      ≡ ok b
    → b.counters ≡ no_calls
unfolding new_breaker
new_breaker-counters {E = E} ratio response_time exceptions recovery_time broken_time passing_time
      inspector unit b h =
    elim (Bool-cases (leb response_time 0)) [
      | inl e ↦ cc (rw e at h)
      | inr e ↦ elim (Bool-cases (bad_ratio ratio)) [
        | inl bad ↦ cc (rw (e, bad) at h)
        | inr fits ↦
            subst (λ (c : CircuitBreaker E). c.counters ≡ no_calls)
              (ok-injective (rw (e, fits) at h)) refl
      ]
    ]
