-- ===== src/Backoff/Loop.antt =====
-- `BackoffExecution.execute` of aiomisc/backoff.py.
use aiomisc.Base.{ℕ, zero, suc, ◌+◌, none, some, if◌then◌else◌, nat_eq, list_eq, pair_eq}
use aiomisc.Backoff.{
  BackoffStatistic, Backoff, Outcome, returned, raised, cancelled, Try, Final, value, raises,
  cancels_out, out_of_fuel, Execution, wait_for, is_late, limit_of, reraise, begin, finish,
  add_cancel, add_error, enough, gives_up,
}

-- A turn of the loop returns or raises, or goes on.
pub data Turn (V E : Type 0) : Type 0 where
  stops : Final V E → Execution E → Turn V E
  again : Execution E → Turn V E

abbrev pub start : {E : Type 0} → BackoffStatistic → Execution E
start statistic = record {
  last_exception = none;
  total_tries = 0;
  statistic = statistic;
  clock = 0;
}

abbrev pub resume :
    {V E : Type 0} → Turn V E → (Execution E → Final V E × Execution E) → Final V E × Execution E
resume (stops final s) loop = (final, s)
resume (again s) loop = loop s

module _ {V E : Type 0} (timeout : E) (b : Backoff E) where
  -- The `except self.exceptions` clause: the pause may meet the deadline too.
  unfoldable pub after_error : Execution E → E → ℕ → Turn V E
  after_error s x now =
      if enough b.max_tries s.total_tries
      then stops (raises x) (finish s now)
      else if gives_up b.giveup x
      then stops (raises x) (finish s now)
      else if is_late b.deadline (now + b.pause)
      then stops (reraise timeout s.last_exception) (finish s (limit_of b.deadline))
      else again (finish s (now + b.pause))

  unfoldable pub after_try : Execution E → Outcome V E → ℕ → Turn V E
  after_try s (returned v) now = stops (value v) (finish s now)
  after_try s cancelled now = stops cancels_out (finish (add_cancel s) now)
  after_try s (raised x) now =
      if b.caught x
      then after_error (add_error s x) x now
      else stops (raises x) (finish (record s { last_exception = some x }) now)

  -- The deadline cancels a try that is under way, and waits for its end.
  unfoldable pub turn : Execution E → Try V E → Turn V E
  turn s attempt =
      let t = wait_for timeout b.attempt_timeout attempt in
      if is_late b.deadline (s.clock + t.duration)
      then stops (reraise timeout s.last_exception)
          (finish (add_cancel (begin s)) (limit_of b.deadline + attempt.cancel_time))
      else after_try (begin s) t.outcome (s.clock + t.duration)

  -- `while True` on fuel; the try's number is the number of tries before it.
  unfoldable pub run : ℕ → (ℕ → Try V E) → Execution E → Final V E × Execution E
  run zero behaviour s = (out_of_fuel, s)
  run (suc fuel) behaviour s = resume (turn s (behaviour s.total_tries)) (run fuel behaviour)

  unfoldable pub execute : ℕ → (ℕ → Try V E) → BackoffStatistic → Final V E × Execution E
  execute fuel behaviour statistic =
      if is_late b.deadline 0
      then (raises timeout, start statistic)
      else run fuel behaviour (start statistic)
