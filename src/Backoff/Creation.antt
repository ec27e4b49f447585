-- ===== src/Backoff/Creation.antt =====
-- Backoffs that are made by `asyncretry` of aiomisc/backoff.py.
use aiomisc.Base.{
  ℕ, ◌+◌, ◌≤◌, ◌<◌, ◌≡◌, refl, ◌≢◌, Bool, false, ◌||◌, Option, none, some, arith, ltb, nat_eq,
  list_eq, pair_eq, pos, ok,
}
use aiomisc.Backoff.{
  Backoff, new_backoff, asyncbackoff, asyncretry, BackoffStatistic, Try, out_of_fuel,
}
use aiomisc.Backoff.Loop.{execute}
use aiomisc.Backoff.Limits.{execute-max_tries}

module _ {E : Type 0} (is_timeout : E → Bool) where
  abbrev retries : ℕ → (E → Bool) → Option (E → Bool) → Backoff E
  retries n exceptions giveup = record {
    attempt_timeout = none;
    deadline = none;
    pause = 0;
    max_tries = some (n + 1);
    giveup = giveup;
    caught = λ x. exceptions x || is_timeout x;
  }

  positive_suc : (n : ℕ) → ltb (n + 1) 1 ≡ false
  positive_suc n = ground arith

  -- `asyncretry` takes every number of tries from one on, and the function that it wraps then returns
  -- or raises after at most that many tries, whatever the coroutine does.
  pub asyncretry-ends :
      {V : Type 0} (timeout : E) (n fuel : ℕ) (exceptions : Option (E → Bool))
      (giveup : Option (E → Bool)) (behaviour : ℕ → Try V E) (statistic : BackoffStatistic)
      → n < fuel
      → (b : Backoff E) × (asyncretry is_timeout (some (pos (n + 1))) exceptions (pos 0) giveup
          ≡ ok b)
        × ((execute timeout b fuel behaviour statistic).0 ≢ out_of_fuel)
        × ((execute timeout b fuel behaviour statistic).1.total_tries ≤ n + 1)
  unfolding new_backoff asyncbackoff asyncretry
  asyncretry-ends timeout n fuel none giveup behaviour statistic le =
      let (ends, tries) =
        execute-max_tries timeout (retries n (λ x. false) giveup) fuel (n + 1) behaviour statistic
          refl (omega arith) (omega arith) in
      (retries n (λ x. false) giveup, rw (positive_suc n) refl, ends, tries)
  asyncretry-ends timeout n fuel (some exceptions) giveup behaviour statistic le =
      let (ends, tries) =
        execute-max_tries timeout (retries n exceptions giveup) fuel (n + 1) behaviour statistic
          refl (omega arith) (omega arith) in
      (retries n exceptions giveup, rw (positive_suc n) refl, ends, tries)
