-- ===== src/CircuitBreaker/Opening.antt =====
-- When the passing breaker of aiomisc/circuit_breaker.py opens.
use aiomisc.Base.{
  ℕ, ◌≤◌, ◌≡◌, refl, ap, ◌∙◌, ◌≢◌, ◌↔◌, inl, inr, true, List, [], ◌∷◌, arith, ltb, nat_beq,
  if◌then◌else◌, ltb→lt, Bool-cases, nat_eq, list_eq, pair_eq, All, length, leb_not_ltb,
}
use aiomisc.CircuitBreaker.Data.{
  passing, broken, Counter, Ratio, bucket_count, is_upper, upper_count, ratio_ge,
  passing_broken_threshold,
}
use aiomisc.CircuitBreaker.{
  CircuitBreaker, gen_statistic, recovery_ratio, compute_by_state, compute_state,
}

abbrev pub AllUpper : Ratio → List Counter → Type 0
AllUpper ratio = All (λ c. is_upper ratio c ≡ true)

upper_count-le : (ratio : Ratio) (cs : List Counter) → upper_count ratio cs ≤ length cs
unfolding upper_count
upper_count-le ratio [] = omega arith
upper_count-le ratio (c ∷ cs) = elim (Bool-cases (is_upper ratio c)) [
  | inl e ↦ rw e (omega (arith, upper_count-le ratio cs))
  | inr e ↦ rw e (omega (arith, upper_count-le ratio cs))
]

upper_count-all :
    (ratio : Ratio) (cs : List Counter) → AllUpper ratio cs → upper_count ratio cs ≡ length cs
unfolding upper_count
upper_count-all ratio [] h = refl
upper_count-all ratio (c ∷ cs) h = rw h.0 (omega (arith, upper_count-all ratio cs h.1))

all-upper_count :
    (ratio : Ratio) (cs : List Counter) → length cs ≤ upper_count ratio cs → AllUpper ratio cs
unfolding upper_count
all-upper_count ratio [] h = tt
all-upper_count ratio (c ∷ cs) h = elim (Bool-cases (is_upper ratio c)) [
  | inl e ↦ (e, all-upper_count ratio cs (omega (arith, (rw e at h))))
  | inr e ↦ absurd (omega (arith, upper_count-le ratio cs, (rw e at h)))
]

-- The ratio of the buckets at or above the error ratio, of those that are counted.
abbrev ratio_of : Ratio → List Counter → Ratio
ratio_of ratio cs =
    if nat_beq (length cs) 0
    then record { num = 0; den = 1 }
    else record { num = upper_count ratio cs; den = length cs }

ratio_of_one :
    (ratio : Ratio) (cs : List Counter)
    → (ratio_ge (ratio_of ratio cs) passing_broken_threshold ≡ true)
      ↔ ((cs ≢ []) × AllUpper ratio cs)
ratio_of_one ratio [] = (λ h. cc h, λ h. absurd (h.0 refl))
ratio_of_one ratio (c ∷ cs) = (
  λ h. (λ e. cc e, all-upper_count ratio (c ∷ cs) (ground arith)),
  λ h. ground (arith, upper_count-all ratio (c ∷ cs) h.1),
)

module _ {E : Type 0} where
  compute-free :
      (b : CircuitBreaker E) (now : ℕ)
      → b.state ≡ passing
      → b.stuck_until ≤ now
      → compute_state b now ≡ compute_by_state passing b now
  unfolding compute_state
  compute-free b now e free =
      ap (λ t. if t then b else compute_by_state b.state b now) (leb_not_ltb now b.stuck_until free)
      ∙ ap (λ s. compute_by_state s b now) e

  recovery_ratio-of :
      (b : CircuitBreaker E) (now : ℕ)
      → recovery_ratio b now ≡ ratio_of b.error_ratio (gen_statistic b now b.statistic)
  unfolding recovery_ratio
  recovery_ratio-of b now = refl

  opens_iff :
      (b : CircuitBreaker E) (now : ℕ)
      → b.state ≡ passing
      → ((compute_by_state passing b now).state ≡ broken) ↔ (
          (bucket_count ≤ length b.statistic)
          × (gen_statistic b now b.statistic ≢ [])
          × AllUpper b.error_ratio (gen_statistic b now b.statistic))
  unfolding compute_by_state
  opens_iff b now e =
      let seen = gen_statistic b now b.statistic in
      let one : (ratio_ge (recovery_ratio b now) passing_broken_threshold ≡ true)
          ↔ ((seen ≢ []) × AllUpper b.error_ratio seen) =
        rw recovery_ratio-of (ratio_of_one b.error_ratio seen) in
      elim (Bool-cases (ltb (length b.statistic) bucket_count)) [
        | inl few ↦ rw few (λ h. cc h, λ h. absurd (omega (arith, h.0, ltb→lt _ _ few)))
        | inr full ↦ elim (Bool-cases (ratio_ge (recovery_ratio b now) passing_broken_threshold)) [
          | inl high ↦
              rw (full, high) (λ h. (ground arith, (one.0 high).0, (one.0 high).1), λ h. refl)
          | inr low ↦ rw (full, low) (λ h. cc h, λ h. cc (low, one.1 (h.1, h.2)))
        ]
      ]

  -- A passing breaker that is not held in its state opens exactly when its deque is full and it
  -- counts some bucket, and in each bucket that it counts the failures reach the error ratio: a ratio
  -- that equals `error_ratio` opens it, and a single good bucket keeps it passing.
  pub compute_state-opens :
      (b : CircuitBreaker E) (now : ℕ)
      → b.state ≡ passing
      → b.stuck_until ≤ now
      → ((compute_state b now).state ≡ broken) ↔ (
          (bucket_count ≤ length b.statistic)
          × (gen_statistic b now b.statistic ≢ [])
          × AllUpper b.error_ratio (gen_statistic b now b.statistic))
  compute_state-opens b now e free = rw (compute-free b now e free) (opens_iff b now e)
