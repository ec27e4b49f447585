-- ===== src/CircuitBreaker/Recovery.antt =====
-- How many calls the recovering breaker of aiomisc/circuit_breaker.py lets through: `_on_recover`.
use native.Mathlib.Nat.{pow-zero, pow-suc}
use aiomisc.Base.{
  ℕ, zero, suc, ◌+◌, ◌*◌, ◌^◌, ◌≤◌, ◌<◌, ◌≡◌, ap, true, false, arith, ltb→lt, lt→ltb, nat_eq,
  list_eq, pair_eq, inl, inr, not, ◌&&◌, ltb, Bool-cases,
}
use aiomisc.CircuitBreaker.Data.{Ratio, draw_admits}

pow_pos : (a n : ℕ) → 0 < a → 0 < a ^ n
pow_pos a zero h = rw pow-zero (omega arith)
pow_pos a (suc n) h = rw (pow-suc a n) (grind (arith, pow_pos a n h))

pow_mono : (a b n : ℕ) → a ≤ b → a ^ n ≤ b ^ n
pow_mono a b zero h = rw (pow-zero a, pow-zero b) (omega arith)
pow_mono a b (suc n) h = rw (pow-suc a n, pow-suc b n) (grind (arith, pow_mono a b n h))

-- 2 ^ e is at least 2 ^ n from e = n on
two_pow_mono : (n e : ℕ) → n ≤ e → 2 ^ n ≤ 2 ^ e
two_pow_mono zero e h = pow_pos 2 e (omega arith)
two_pow_mono (suc n) zero h = absurd (omega arith)
two_pow_mono (suc n) (suc e) h =
    omega (arith, pow-suc 2 n, pow-suc 2 e, two_pow_mono n e (omega arith))

-- `2 ^ n * d ^ n` is `(2 * d) ^ n`, and passes `(d + k) ^ n` where `k < d`.
two_pow-mul : (d n : ℕ) → 2 ^ n * d ^ n ≡ (2 * d) ^ n
two_pow-mul d zero = rw (pow-zero d, pow-zero (2 * d)) (omega arith)
two_pow-mul d (suc n) =
    rw (pow-suc 2 n, pow-suc d n, pow-suc (2 * d) n)
      (omega (arith, ap (λ (t : ℕ). t * (2 * d)) (two_pow-mul d n)))

pow_lt : (a b n : ℕ) → a < b → a ^ suc n < b ^ suc n
pow_lt a b n h =
    rw (pow-suc a n, pow-suc b n)
      (grind (arith, pow_mono a b n (omega arith), pow_pos b n (omega arith)))

late : (k d t e : ℕ) → k < d → 0 < t → t ≤ e → (d + k) ^ t < 2 ^ e * d ^ t
late k d zero e h up le = absurd (omega arith)
late k d (suc n) e h up le = grind (
  arith,
  pow_lt (d + k) (2 * d) n (omega arith),
  two_pow-mul d (suc n),
  two_pow_mono (suc n) e le,
)

-- Of the calls in the recovering state, with a recovery time that is not zero and a draw below one:
-- one that comes when recovery begins is refused; one that comes when the recovery time is over is
-- admitted; and a draw that is admitted at some time is admitted at any later time.
pub draw_admits_lem :
    (draw : Ratio) (elapsed more recovery_time : ℕ)
    → draw.num < draw.den
    → 0 < recovery_time
    → (draw_admits draw 0 recovery_time ≡ false)
      × (draw_admits draw (recovery_time + more) recovery_time ≡ true)
      × ((draw_admits draw elapsed recovery_time
            && not (draw_admits draw (elapsed + more) recovery_time))
          ≡ false)
unfolding draw_admits
draw_admits_lem draw elapsed more recovery_time h up = (
  ground (arith, pow_mono draw.den (draw.den + draw.num) recovery_time (omega arith)),
  lt→ltb _ _ (late draw.num draw.den recovery_time (recovery_time + more) h up (omega arith)),
  elim (Bool-cases
      (ltb ((draw.den + draw.num) ^ recovery_time) (2 ^ elapsed * draw.den ^ recovery_time))) [
        | inl e ↦
            let still : ltb ((draw.den + draw.num) ^ recovery_time)
                  (2 ^ (elapsed + more) * draw.den ^ recovery_time)
                ≡ true =
              lt→ltb _ _ (
                grind (arith, ltb→lt _ _ e, two_pow_mono elapsed (elapsed + more) (omega arith))) in
            rw (e, still)
        | inr e ↦ rw e
      ],
)
