-- ===== src/Recurring.antt =====
-- aiomisc/recurring.py and aiomisc/periodic.py: the loop that asks a strategy for a delay, sleeps,
-- and runs the callback. What a turn of the loop meets, whether the event loop is closed, what the
-- strategy does, how long the callback runs and how it ends, is a `Tick`. `E` is the type of the
-- exceptions below `Exception`; a callback that is cancelled from within counts as neither done nor
-- failed. `logged` counts the exceptions that are logged, `starts` lists when the callback starts.
pub mod Counts
pub mod Starts
pub mod Lifecycle
use aiomisc.Base.{
  ℕ, ◌+◌, ◌-◌, ◌/◌, Bool, true, false, List, [], ◌∷◌, ◌++◌, if◌then◌else◌, nat_eq, list_eq, pair_eq,
  ℤ, pos, magnitude,
}

pub data Outcome (E : Type 0) : Type 0 where
  returned : Outcome E
  raised : E → Outcome E
  cancelled : Outcome E

-- What the strategy does: `wrong` is a result that is no number, `stops` another StrategyException.
pub data Strategy : Type 0 where
  gives : ℤ → Strategy
  wrong : Strategy
  skips : ℤ → Strategy
  stops : Strategy

pub record Tick (E : Type 0) : Type 0 where
  pub is_closed : Bool
  pub strategy : Strategy
  pub duration : ℕ
  pub outcome : Outcome E

pub record RecurringCallbackStatistic : Type 0 where
  pub call_count : ℕ
  pub done : ℕ
  pub fail : ℕ
  pub sum_time : ℕ

pub record State : Type 0 where
  pub clock : ℕ
  pub statistic : RecurringCallbackStatistic
  pub logged : ℕ
  pub starts : List ℕ

pub data Turn : Type 0 where
  returns : Turn
  goes_on : State → Turn

-- `asyncio.sleep`, which takes no time for a negative delay.
abbrev pub sleep : State → ℤ → State
sleep s delay = record s { clock = s.clock + magnitude delay }

module _ {E : Type 0} (suppress_exceptions : E → Bool) where
  abbrev pub add_fail : State → State
  add_fail s = record s { statistic = record s.statistic { fail = s.statistic.fail + 1 } }

  abbrev pub settle : State → Outcome E → State
  settle s returned = record s { statistic = record s.statistic { done = s.statistic.done + 1 } }
  settle s (raised x) =
      let t = record s { statistic = record s.statistic { fail = s.statistic.fail + 1 } } in
      if suppress_exceptions x then t else record t { logged = t.logged + 1 }
  settle s cancelled = s

  -- `_exec`
  unfoldable pub exec : State → Outcome E → ℕ → State
  exec s outcome duration =
      let t =
        settle
          (record s {
            statistic = record s.statistic { call_count = s.statistic.call_count + 1 };
            starts = s.starts ++ s.clock ∷ [];
          })
          outcome in
      record t {
        clock = t.clock + duration;
        statistic = record t.statistic { sum_time = t.statistic.sum_time + duration };
      }

  abbrev pub by_strategy : State → Strategy → Outcome E → ℕ → Turn
  by_strategy s (gives delay) outcome duration = goes_on (exec (sleep s delay) outcome duration)
  by_strategy s wrong outcome duration = returns
  by_strategy s (skips delay) outcome duration = goes_on (sleep s delay)
  by_strategy s stops outcome duration = returns

  unfoldable pub turn : State → Tick E → Turn
  turn s t = if t.is_closed then returns else by_strategy s t.strategy t.outcome t.duration

  abbrev pub next : State → Turn → (State → Bool × State) → Bool × State
  next s returns loop = (true, s)
  next s (goes_on s') loop = loop s'

  -- `_start`, while there are ticks: whether it returned, and the state.
  unfoldable pub start : List (Tick E) → State → Bool × State
  start [] s = (false, s)
  start (t ∷ ts) s = next s (turn s t) (start ts)

-- The strategy of a periodic callback, with its flag `delayed`.
unfoldable pub periodic_strategy : ℕ → ℕ → Bool → ℕ × Bool
periodic_strategy delay interval delayed = if delayed then (interval, delayed) else (delay, true)

-- How long the callback of a periodic runs, and how it ends.
pub record Run (E : Type 0) : Type 0 where
  pub duration : ℕ
  pub outcome : Outcome E

-- The ticks of a periodic callback.
unfoldable pub periodic_ticks : {E : Type 0} → ℕ → ℕ → Bool → List (Run E) → List (Tick E)
periodic_ticks delay interval delayed [] = []
periodic_ticks delay interval delayed (r ∷ rs) =
    let (wait, delayed') = periodic_strategy delay interval delayed in
    record {
      is_closed = false;
      strategy = gives (pos wait);
      duration = r.duration;
      outcome = r.outcome;
    }
    ∷ periodic_ticks delay interval delayed' rs
