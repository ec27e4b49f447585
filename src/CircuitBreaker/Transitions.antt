-- ===== src/CircuitBreaker/Transitions.antt =====
-- The state machine of aiomisc/circuit_breaker.py: what `_compute_state` may do.
use aiomisc.Base.{
  ℕ, ◌+◌, ◌≤◌, ◌<◌, ◌≡◌, refl, ◌⊎◌, inl, inr, [], arith, ltb, Bool-cases, nat_eq, list_eq, pair_eq,
  ◌-◌, ◌≢◌, leb, ltb→lt, if_cases, length,
}
use aiomisc.CircuitBreaker.Data.{CircuitBreakerState, passing, broken, recovering}
use aiomisc.CircuitBreaker.{
  bucket_count, passing_broken_threshold, recover_threshold, ratio_ge, recovery_ratio,
  CircuitBreaker, compute_by_state, compute_state,
}

-- The arrows of the diagram.
pub data ◌⟶◌ : CircuitBreakerState → CircuitBreakerState → Type 0 where
  opens : ◌⟶◌ passing broken
  tries : ◌⟶◌ broken recovering
  relapses : ◌⟶◌ recovering broken
  heals : ◌⟶◌ recovering passing

-- What comes with a change of state.
abbrev pub Entered :
    {E : Type 0} → CircuitBreaker E → ℕ → CircuitBreakerState → CircuitBreaker E → Type 0
Entered b now passing b' = (b'.stuck_until ≡ now + b.passing_time) × (b'.statistic ≡ b.statistic)
Entered b now broken b' = (b'.stuck_until ≡ now + b.broken_time) × (b'.statistic ≡ [])
Entered b now recovering b' = (b'.recovery_at ≡ now) × (b'.statistic ≡ b.statistic)

module _ {E : Type 0} where
  -- The state is left alone, unless it is `broken`, or changes along an arrow with what belongs to the new state.
  abbrev pub Moved : CircuitBreakerState → CircuitBreaker E → ℕ → CircuitBreaker E → Type 0
  Moved s b now b' = ((b' ≡ b) × (s ≢ broken)) ⊎ (◌⟶◌ s b'.state × Entered b now b'.state b')

  by_state-Moved :
      (s : CircuitBreakerState) (b : CircuitBreaker E) (now : ℕ)
      → Moved s b now (compute_by_state s b now)
  unfolding compute_by_state
  by_state-Moved passing b now =
      if_cases (Moved passing b now) (ltb (length b.statistic) bucket_count)
        (λ _. inl (refl, λ e. cc e))
        (λ _.
          if_cases (Moved passing b now) (ratio_ge (recovery_ratio b now) passing_broken_threshold)
            (λ _. inr (opens, (refl, refl))) (λ _. inl (refl, λ e. cc e)))
  by_state-Moved broken b now = inr (tries, (refl, refl))
  by_state-Moved recovering b now =
      if_cases (Moved recovering b now)
        (ratio_ge (recovery_ratio b now) (recover_threshold b.error_ratio))
        (λ _. inr (relapses, (refl, refl)))
        (λ _.
          if_cases (Moved recovering b now) (leb b.recovery_time (now - b.recovery_at))
            (λ _. inr (heals, (refl, refl))) (λ _. inl (refl, λ e. cc e)))

  -- Until `stuck_until` nothing changes. After it a broken breaker always starts to recover, and
  -- any other stays as it is or moves along an arrow of the diagram: with the time that it will be
  -- held there, and the statistic dropped on the way to `broken` only.
  pub compute_state-Moved :
      (b : CircuitBreaker E) (now : ℕ)
      → ((now < b.stuck_until) × (compute_state b now ≡ b))
        ⊎ ((b.stuck_until ≤ now) × Moved b.state b now (compute_state b now))
  unfolding compute_state
  compute_state-Moved b now = elim (Bool-cases (ltb now b.stuck_until)) [
    | inl early ↦ rw early (inl (ltb→lt _ _ early, refl))
    | inr late ↦ rw late (inr (ground arith, by_state-Moved b.state b now))
  ]
