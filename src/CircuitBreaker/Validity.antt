-- ===== src/CircuitBreaker/Validity.antt =====
-- The invariant of the breaker of aiomisc/circuit_breaker.py: at most `BUCKET_COUNT` buckets, each
-- with a counter that exists, and no counter with more failures and successes than calls.
use aiomisc.Base.{
  length-take-le, ℕ, ◌+◌, ◌-◌, ◌≤◌, ◌<◌, ◌≡◌, subst, inl, inr, Bool, Option, none, some, ◌∷◌, arith,
  ltb, leb, nat_beq, Bool-cases, if_cases, nat_eq, list_eq, pair_eq, All, All-take, All-map, length,
  Exn, Result, ok, ok-injective,
}
use aiomisc.CircuitBreaker.Data.{
  CircuitBreakerState, passing, broken, recovering, Counter, Ratio, bucket_count, Outcome, returned,
  raised, newest, bad_ratio, ratio_ge, passing_broken_threshold, recover_threshold, draw_admits,
}
use aiomisc.CircuitBreaker.{
  CircuitBreaker, break_at, recovery_ratio, append_counter, or_append, bucket, counter,
  compute_by_state, compute_state, enter_by_state, enter, write, inspect_exception, leave,
  new_breaker,
}

abbrev pub Adds : Counter → Type 0
Adds c = c.fail + c.good ≤ c.total

module _ {E : Type 0} where
  pub record IsValid (b : CircuitBreaker E) : Type 0 where
    pub few_buckets : length b.statistic ≤ bucket_count
    pub addressed : All (λ (e : ℕ × ℕ). e.1 < b.next_address) b.statistic
    pub adds : (a : ℕ) → Adds (b.heap a)

  append_counter-IsValid :
      (b : CircuitBreaker E) (current : ℕ) → IsValid b → IsValid (append_counter b current).1
  unfolding append_counter
  append_counter-IsValid b current v = record {
    few_buckets = length-take-le bucket_count ((current, b.next_address) ∷ b.statistic);
    addressed =
        All-take _ bucket_count ((current, b.next_address) ∷ b.statistic)
          (omega arith, All-map _ _ b.statistic (λ e h. omega (arith, h)) v.addressed);
    adds = λ a. if_cases Adds (nat_beq a b.next_address) (λ _. omega arith) (λ _. v.adds a);
  }

  or_append-IsValid :
      (b : CircuitBreaker E) (current : ℕ) (o : Option ℕ)
      → IsValid b
      → IsValid (or_append b current o).1
  or_append-IsValid b current none v = append_counter-IsValid b current v
  or_append-IsValid b current (some address) v = v

  broken-IsValid : (b : CircuitBreaker E) (now : ℕ) → IsValid b → IsValid (break_at b now)
  broken-IsValid b now v = record { few_buckets = omega arith; addressed = tt; adds = v.adds }

  by_state-IsValid :
      (s : CircuitBreakerState) (b : CircuitBreaker E) (now : ℕ)
      → IsValid b
      → IsValid (compute_by_state s b now)
  unfolding compute_by_state
  by_state-IsValid passing b now v =
      if_cases IsValid (ltb (length b.statistic) bucket_count) (λ _. v)
        (λ _.
          if_cases IsValid (ratio_ge (recovery_ratio b now) passing_broken_threshold)
            (λ _. broken-IsValid b now v) (λ _. v))
  by_state-IsValid broken b now v = record {
    few_buckets = v.few_buckets;
    addressed = v.addressed;
    adds = v.adds;
  }
  by_state-IsValid recovering b now v =
      if_cases IsValid (ratio_ge (recovery_ratio b now) (recover_threshold b.error_ratio))
        (λ _. broken-IsValid b now v)
        (λ _.
          if_cases IsValid (leb b.recovery_time (now - b.recovery_at))
            (λ _. record { few_buckets = v.few_buckets; addressed = v.addressed; adds = v.adds })
            (λ _. v))

  compute_state-IsValid :
      (b : CircuitBreaker E) (now : ℕ) → IsValid b → IsValid (compute_state b now)
  unfolding compute_state
  compute_state-IsValid b now v =
      if_cases IsValid (ltb now b.stuck_until) (λ _. v) (λ _. by_state-IsValid b.state b now v)

  enter_by_state-IsValid :
      (s : CircuitBreakerState) (b : CircuitBreaker E) (address now : ℕ) (draw : Ratio)
      → IsValid b
      → IsValid (enter_by_state s b address now draw).1
  unfolding enter_by_state
  enter_by_state-IsValid passing b address now draw v = record {
    few_buckets = v.few_buckets;
    addressed = v.addressed;
    adds = v.adds;
  }
  enter_by_state-IsValid broken b address now draw v = record {
    few_buckets = v.few_buckets;
    addressed = v.addressed;
    adds = v.adds;
  }
  enter_by_state-IsValid recovering b address now draw v =
      elim (Bool-cases (draw_admits draw (now - b.recovery_at) b.recovery_time)) [
        | inl e ↦
            rw e (record { few_buckets = v.few_buckets; addressed = v.addressed; adds = v.adds })
        | inr e ↦
            rw e (record { few_buckets = v.few_buckets; addressed = v.addressed; adds = v.adds })
      ]

  -- Entering the context keeps the invariant, whether the call is admitted or refused.
  pub enter-IsValid :
      (b : CircuitBreaker E) (now : ℕ) (draw : Ratio) → IsValid b → IsValid (enter b now draw).1
  unfolding enter counter
  enter-IsValid b now draw v =
      let v₁ = or_append-IsValid b (bucket b now) (newest b.statistic (bucket b now)) v in
      let v₂ = compute_state-IsValid _ now v₁ in
      enter_by_state-IsValid _ _ _ now draw
        (record { few_buckets = v₂.few_buckets; addressed = v₂.addressed; adds = v₂.adds })

  inspect_exception-le :
      (inspector : Option (E → Result Exn Bool)) (x : E) → inspect_exception inspector x ≤ 1
  unfolding inspect_exception
  inspect_exception-le none x = omega arith
  inspect_exception-le (some inspector) x = ground arith

  write-IsValid :
      (b : CircuitBreaker E) (address : ℕ) (c : Counter)
      → Adds c
      → IsValid b
      → IsValid (write b address c)
  write-IsValid b address c h v = record {
    few_buckets = v.few_buckets;
    addressed = v.addressed;
    adds = λ a. if_cases Adds (nat_beq a address) (λ _. h) (λ _. v.adds a);
  }

  -- Leaving it does too, whatever the call's outcome, also when the deque has dropped its bucket.
  pub leave-IsValid :
      {V : Type 0} (b : CircuitBreaker E) (address : ℕ) (outcome : Outcome E V)
      → IsValid b
      → IsValid (leave b address outcome)
  unfolding leave
  leave-IsValid b address (returned x) v =
      write-IsValid _ address _ (omega (arith, v.adds address))
        (record { few_buckets = v.few_buckets; addressed = v.addressed; adds = v.adds })
  leave-IsValid b address (raised x) v =
      if_cases IsValid (b.exceptions x)
        (λ _.
          write-IsValid _ address _
            (omega (arith, v.adds address, inspect_exception-le b.exception_inspector x))
            (record { few_buckets = v.few_buckets; addressed = v.addressed; adds = v.adds }))
        (λ _. write-IsValid b address _ (omega (arith, v.adds address)) v)

  -- A breaker that the constructor makes satisfies the invariant: few enough buckets, whose
  -- counters exist, and counters that add up.
  pub new_breaker-IsValid :
      (ratio : Ratio) (response_time : ℕ) (exceptions : E → Bool)
      (recovery_time broken_time passing_time : Option ℕ) (inspector : Option (E → Result Exn Bool))
      (unit : ℕ) (b : CircuitBreaker E)
      → new_breaker ratio response_time exceptions recovery_time broken_time passing_time inspector
          unit
        ≡ ok b
      → IsValid b
  unfolding new_breaker
  new_breaker-IsValid ratio response_time exceptions recovery_time broken_time passing_time
        inspector unit b h =
      elim (Bool-cases (leb response_time 0)) [
        | inl e ↦ cc (rw e at h)
        | inr e ↦ elim (Bool-cases (bad_ratio ratio)) [
          | inl bad ↦ cc (rw (e, bad) at h)
          | inr good ↦
              subst IsValid (ok-injective (rw (e, good) at h))
                (record { few_buckets = omega arith; addressed = tt; adds = λ a. omega arith })
        ]
      ]
