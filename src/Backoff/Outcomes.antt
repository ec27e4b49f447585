-- ===== src/Backoff/Outcomes.antt =====
-- What `execute` of aiomisc/backoff.py gives when every try ends within its limits.
use aiomisc.Base.{
  ℕ, zero, suc, ◌+◌, ◌≤◌, ◌<◌, ◌≡◌, refl, ap, subst, true, false, none, arith, nat_eq, list_eq,
  pair_eq,
}
use aiomisc.Backoff.{
  BackoffStatistic, Backoff, returned, raised, Try, value, Execution, wait_for, is_late, enough,
  gives_up,
}
use aiomisc.Backoff.Loop.{again, after_error, after_try, turn, run, start, execute}

-- The try `n` raises an exception that is retried.
pub record Fails {V E : Type 0} (b : Backoff E) (behaviour : ℕ → Try V E) (n : ℕ) : Type 0 where
  pub fault : E
  pub raises_it : (behaviour n).outcome ≡ raised fault
  pub is_caught : b.caught fault ≡ true
  pub goes_on : gives_up b.giveup fault ≡ false

module _ {V E : Type 0} (timeout : E) (b : Backoff E) (no_limit : b.attempt_timeout ≡ none)
    (no_deadline : b.deadline ≡ none) where
  turn-Fails :
      (behaviour : ℕ → Try V E) (s : Execution E)
      → Fails b behaviour s.total_tries
      → enough b.max_tries (s.total_tries + 1) ≡ false
      → (s' : Execution E) × (turn timeout b s (behaviour s.total_tries) ≡ again s')
        × (s'.total_tries ≡ s.total_tries + 1)
        × (s'.statistic.errors ≡ s.statistic.errors + 1)
  unfolding turn after_try after_error wait_for
  turn-Fails behaviour s f h =
      rw (no_limit, no_deadline, f.raises_it, f.is_caught, h, f.goes_on) (_, refl, refl, refl)

  run-succeeds :
      (k fuel : ℕ) (behaviour : ℕ → Try V E) (v : V) (s : Execution E)
      → ((n : ℕ) → s.total_tries ≤ n → n < s.total_tries + k → Fails b behaviour n)
      → ((n : ℕ) → n ≤ s.total_tries + k → enough b.max_tries n ≡ false)
      → (behaviour (s.total_tries + k)).outcome ≡ returned v
      → k < fuel
      → ((run timeout b fuel behaviour s).0 ≡ value v)
        × ((run timeout b fuel behaviour s).1.total_tries ≡ s.total_tries + k + 1)
        × ((run timeout b fuel behaviour s).1.statistic.errors ≡ s.statistic.errors + k)
  unfolding run turn after_try wait_for
  run-succeeds k zero behaviour v s fails open_ e le = absurd (omega arith)
  run-succeeds zero (suc fuel) behaviour v s fails open_ e le =
      let e' : (behaviour s.total_tries).outcome ≡ returned v =
        subst (λ n. (behaviour n).outcome ≡ returned v) (omega arith) e in
      rw (no_limit, no_deadline, e') (refl, omega arith, omega arith)
  run-succeeds (suc k) (suc fuel) behaviour v s fails open_ e le =
      let (s', t, tries, errors) =
        turn-Fails behaviour s (fails s.total_tries (omega arith) (omega arith))
          (open_ (s.total_tries + 1) (omega arith)) in
      let (r, n, m) =
        run-succeeds k fuel behaviour v s'
          (λ i lo hi. fails i (omega (arith, tries)) (omega (arith, tries)))
          (λ i hi. open_ i (omega (arith, tries)))
          (subst (λ i. (behaviour i).outcome ≡ returned v) (omega (arith, tries)) e)
          (omega arith) in
      rw t (r, omega (arith, n, tries), omega (arith, m, errors))

  -- Without limits of time: when `k` tries raise exceptions that are retried, `max_tries` allows more
  -- than `k`, and the next try returns `v`, then `execute` returns `v`, by exactly `k + 1` tries, and
  -- counts `k` errors.
  pub execute-succeeds :
      (k fuel : ℕ) (behaviour : ℕ → Try V E) (v : V) (statistic : BackoffStatistic)
      → ((n : ℕ) → n < k → Fails b behaviour n)
      → ((n : ℕ) → n ≤ k → enough b.max_tries n ≡ false)
      → (behaviour k).outcome ≡ returned v
      → k < fuel
      → (let r = execute timeout b fuel behaviour statistic in
          (r.0 ≡ value v)
          × (r.1.total_tries ≡ k + 1)
          × (r.1.statistic.errors ≡ statistic.errors + k))
  unfolding execute
  execute-succeeds k fuel behaviour v statistic fails open_ e le =
      let in_time : is_late b.deadline 0 ≡ false = ap (λ o. is_late o 0) no_deadline in
      let (r, n, m) =
        run-succeeds k fuel behaviour v (start statistic) (λ n lo hi. fails n (omega arith))
          (λ n hi. open_ n (omega arith))
          (subst (λ n. (behaviour n).outcome ≡ returned v) (omega arith) e) le in
      rw in_time (r, omega (arith, n), m)
