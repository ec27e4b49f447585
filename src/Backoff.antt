-- ===== src/Backoff.antt =====
-- aiomisc/backoff.py. A time is a number of ticks since the start of `execute`. The wrapped
-- coroutine is its behaviour at each try: how long the try takes and how it ends.
-- `asyncio.wait_for(c, timeout)` gives what `c` gives, if that takes less than the timeout; at the
-- timeout it cancels `c`, waits until `c` has ended, and raises TimeoutError. With a timeout of 0 `c`
-- does not start. A try that is cancelled is taken to end by CancelledError, `cancel_time` after its
-- last cancellation.
-- `E` is the type of the exceptions below `Exception`.
pub mod Loop
pub mod Limits
pub mod Outcomes
pub mod Creation
use aiomisc.Base.{
  ℕ, ◌+◌, ◌-◌, ◌/◌, ◌<◌, Bool, false, not, ◌||◌, Option, none, some, ltb, leb, nat_beq,
  if◌then◌else◌, nat_eq, list_eq, pair_eq, Exn, value_error, Result, ℤ, is_negative, below_one,
  magnitude, ok, err, nat_beq,
}

pub record BackoffStatistic : Type 0 where
  pub done : ℕ
  pub attempts : ℕ
  pub cancels : ℕ
  pub errors : ℕ
  pub sum_time : ℕ

abbrev pub zero_statistic : BackoffStatistic
zero_statistic = record { done = 0; attempts = 0; cancels = 0; errors = 0; sum_time = 0 }

pub record Backoff (E : Type 0) : Type 0 where
  pub attempt_timeout : Option ℕ
  pub deadline : Option ℕ
  pub pause : ℕ
  pub max_tries : Option ℕ
  pub giveup : Option (E → Bool)
  -- whether `except self.exceptions` catches an exception
  pub caught : E → Bool

-- How a try ends: `asyncio.CancelledError` is no `Exception`.
pub data Outcome (V E : Type 0) : Type 0 where
  returned : V → Outcome V E
  raised : E → Outcome V E
  cancelled : Outcome V E

pub record Try (V E : Type 0) : Type 0 where
  pub duration : ℕ
  pub cancel_time : ℕ
  pub outcome : Outcome V E

-- How `execute` ends; `out_of_fuel` is a run that the model cuts off.
pub data Final (V E : Type 0) : Type 0 where
  value : V → Final V E
  raises : E → Final V E
  cancels_out : Final V E
  out_of_fuel : Final V E

-- `self` of `BackoffExecution` with the time.
pub record Execution (E : Type 0) : Type 0 where
  pub last_exception : Option E
  pub total_tries : ℕ
  pub statistic : BackoffStatistic
  pub clock : ℕ

-- x < 0 for an optional number
abbrev pub negative : Option ℤ → Bool
negative none = false
negative (some x) = is_negative x

abbrev pub too_few : Option ℤ → Bool
too_few none = false
too_few (some x) = below_one x

abbrev pub natural : Option ℤ → Option ℕ
natural none = none
natural (some x) = some (magnitude x)

-- Whether the deadline comes before a time is over.
abbrev pub is_late : Option ℕ → ℕ → Bool
is_late none clock = false
is_late (some limit) clock = leb limit clock

abbrev pub limit_of : Option ℕ → ℕ
limit_of none = 0
limit_of (some limit) = limit

abbrev pub enough : Option ℕ → ℕ → Bool
enough none tries = false
enough (some n) tries = leb n tries

module _ {E : Type 0} (is_timeout : E → Bool) where
  -- The constructor; TimeoutError is added to the exceptions.
  unfoldable pub new_backoff :
      Option ℤ → Option ℤ → ℤ → (E → Bool) → Option ℤ → Option (E → Bool) → Result Exn (Backoff E)
  new_backoff attempt_timeout deadline pause exceptions max_tries giveup =
      if is_negative pause
      then err value_error
      else if negative attempt_timeout
      then err value_error
      else if negative deadline
      then err value_error
      else if too_few max_tries
      then err value_error
      else ok (record {
        attempt_timeout = natural attempt_timeout;
        deadline = natural deadline;
        pause = magnitude pause;
        max_tries = natural max_tries;
        giveup = giveup;
        caught = λ x. exceptions x || is_timeout x;
      })

  -- `exceptions or exc`, each with whether it is empty.
  unfoldable pub asyncbackoff :
      Option ℤ
      → Option ℤ
      → ℤ
      → (E → Bool)
      → Option (E → Bool)
      → Option ℤ
      → Option (E → Bool)
      → Result Exn (Backoff E)
  asyncbackoff attempt_timeout deadline pause exc none max_tries giveup =
      new_backoff attempt_timeout deadline pause exc max_tries giveup
  asyncbackoff attempt_timeout deadline pause exc (some exceptions) max_tries giveup =
      new_backoff attempt_timeout deadline pause exceptions max_tries giveup

  unfoldable pub asyncretry :
      Option ℤ → Option (E → Bool) → ℤ → Option (E → Bool) → Result Exn (Backoff E)
  asyncretry max_tries exceptions pause giveup =
      asyncbackoff none none pause (λ x. false) exceptions max_tries giveup

module _ {V E : Type 0} (timeout : E) where
  -- `asyncio.wait_for` of one try.
  unfoldable pub wait_for : Option ℕ → Try V E → Try V E
  wait_for none t = t
  wait_for (some limit) t =
      let ended = if nat_beq limit 0 then 0 else limit + t.cancel_time in
      if ltb t.duration limit then t else record t { duration = ended; outcome = raised timeout }

  -- `except Exception` around `run()`.
  abbrev pub reraise : Option E → Final V E
  reraise none = raises timeout
  reraise (some x) = raises x

module _ {E : Type 0} where
  -- `statistic.attempts += 1; total_tries += 1`
  abbrev pub begin : Execution E → Execution E
  begin s = record s {
    total_tries = s.total_tries + 1;
    statistic = record s.statistic { attempts = s.statistic.attempts + 1 };
  }

  -- The `finally` clause, at a time `now`.
  abbrev pub finish : Execution E → ℕ → Execution E
  finish s now = record s {
    statistic = record s.statistic {
      sum_time = s.statistic.sum_time + (now - s.clock);
      done = s.statistic.done + 1;
    };
    clock = now;
  }

  abbrev pub add_cancel : Execution E → Execution E
  add_cancel s = record s { statistic = record s.statistic { cancels = s.statistic.cancels + 1 } }

  abbrev pub add_error : Execution E → E → Execution E
  add_error s x = record s {
    last_exception = some x;
    statistic = record s.statistic { errors = s.statistic.errors + 1 };
  }

  abbrev pub gives_up : Option (E → Bool) → E → Bool
  gives_up none x = false
  gives_up (some giveup) x = giveup x
