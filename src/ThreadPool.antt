-- ===== src/ThreadPool.antt =====
-- aiomisc/thread_pool.py: the futures, the channel of tasks, the threads and the executor. A future
-- is its number, and `states` what the event loop knows of it. What happens outside the pool, a
-- function's result, its duration and whether the loop is closed, comes with the event.
-- `call_soon_threadsafe` leaves a result in `scheduled`, until the loop takes it.
pub mod Histories
pub mod Kept
pub mod Futures
pub mod Alike
pub mod Bounds
use aiomisc.Base.{
  ℕ, ◌+◌, ◌-◌, ◌*◌, ◌/◌, Bool, true, false, not, ◌&&◌, Option, none, some, List, [], ◌∷◌, ◌++◌, ltb,
  leb, nat_beq, if◌then◌else◌, nat_eq, list_eq, pair_eq, length, keep, Exn, runtime_error, Result,
  ok, err,
}

pub data Outcome (V E : Type 0) : Type 0 where
  returned : V → Outcome V E
  raised : E → Outcome V E

pub data Fault (E : Type 0) : Type 0 where
  by_function : E → Fault E
  pool_closed : Fault E
  loop_closed : Fault E

pub data FutureState (V E : Type 0) : Type 0 where
  pending : FutureState V E
  resolved : V → FutureState V E
  failed : Fault E → FutureState V E
  cancelled : FutureState V E

pub record ThreadPoolStatistic : Type 0 where
  pub threads : ℕ
  pub done : ℕ
  pub error : ℕ
  pub success : ℕ
  pub submitted : ℕ
  pub sum_time : ℕ

-- The queue of a `TaskChannel`: `none` is the mark of its end.
pub record TaskChannel : Type 0 where
  pub queue : List (Option ℕ)
  pub closed_event : Bool

pub record Executor (V E : Type 0) : Type 0 where
  pub max_workers : ℕ
  pub futures : List ℕ
  pub tasks : TaskChannel
  pub pool : ℕ
  pub shutdown_event : Bool
  pub statistic : ThreadPoolStatistic
  pub states : ℕ → FutureState V E
  pub next_future : ℕ
  pub running : List ℕ
  pub scheduled : List (ℕ × Outcome V E)

abbrev pub is_done : {V E : Type 0} → FutureState V E → Bool
is_done pending = false
is_done _ = true

abbrev pub settle : {V E : Type 0} → Outcome V E → FutureState V E
settle (returned v) = resolved v
settle (raised x) = failed (by_function x)

-- What a thread gets from the channel.
pub data Got : Type 0 where
  waits : Got
  channel_closed : TaskChannel → Got
  work_item : ℕ → TaskChannel → Got

abbrev pub take_item : TaskChannel → List (Option ℕ) → Got
take_item c [] = waits
take_item c (none ∷ q) = channel_closed (record c { queue = q ++ none ∷ [] })
take_item c (some i ∷ q) = work_item i (record c { queue = q })

unfoldable pub get : TaskChannel → Got
get c = if c.closed_event then channel_closed c else take_item c c.queue

unfoldable pub close : TaskChannel → TaskChannel
close c = record { queue = c.queue ++ none ∷ []; closed_event = true }

-- `min(pool_size * 2, max_workers) - pool_size`
abbrev pub new_threads_count : ℕ → ℕ → ℕ
new_threads_count pool_size max_workers =
    (if ltb (pool_size * 2) max_workers then pool_size * 2 else max_workers) - pool_size

module _ {V E : Type 0} where
  abbrev pub put_state : (ℕ → FutureState V E) → ℕ → FutureState V E → ℕ → FutureState V E
  put_state states i s j = if nat_beq i j then s else states j

  -- `set_exception` or `set_result`, unless the future is done.
  abbrev pub set_if_pending : Executor V E → ℕ → FutureState V E → Executor V E
  set_if_pending x i s =
      if is_done (x.states i) then x else record x { states = put_state x.states i s }

  unfoldable pub set_workitem_result : Executor V E → ℕ → Outcome V E → Executor V E
  set_workitem_result x i o = set_if_pending x i (settle o)

  abbrev pub end_thread : Executor V E → Executor V E
  end_thread x = record x { statistic = record x.statistic { threads = x.statistic.threads - 1 } }

  -- `WorkItem.__call__` up to the function.
  unfoldable pub begin_item : Executor V E → ℕ → Bool → Executor V E
  begin_item x i is_closed =
      if is_done (x.states i)
      then x
      else if is_closed
      then end_thread (set_if_pending x i (failed loop_closed))
      else record x { running = i ∷ x.running }

  abbrev pub record_outcome : ThreadPoolStatistic → Outcome V E → ℕ → ThreadPoolStatistic
  record_outcome s (returned v) delta = record s {
    success = s.success + 1;
    sum_time = s.sum_time + delta;
    done = s.done + 1;
  }
  record_outcome s (raised e) delta = record s {
    error = s.error + 1;
    sum_time = s.sum_time + delta;
    done = s.done + 1;
  }

  -- And from the function on.
  unfoldable pub finish_item : Executor V E → ℕ → Outcome V E → ℕ → Bool → Executor V E
  finish_item x i o delta is_closed =
      let x₁ = record x {
        running = keep (λ j. not (nat_beq i j)) x.running;
        statistic = record_outcome x.statistic o delta;
      } in
      if is_closed
      then end_thread (set_if_pending x₁ i (failed loop_closed))
      else record x₁ { scheduled = x₁.scheduled ++ (i, o) ∷ [] }

  abbrev pub got_item : Executor V E → Bool → Got → Executor V E
  got_item x is_closed waits = x
  got_item x is_closed (channel_closed c) = end_thread (record x { tasks = c })
  got_item x is_closed (work_item i c) = begin_item (record x { tasks = c }) i is_closed

  -- A turn of `thread_pool_thread_loop`, up to the function of the task.
  unfoldable pub thread_turn : Executor V E → Bool → Executor V E
  thread_turn x is_closed =
      if x.shutdown_event then end_thread x else got_item x is_closed (get x.tasks)

  unfoldable pub start_threads : Executor V E → ℕ → Executor V E
  start_threads x n = record x {
    pool = x.pool + n;
    statistic = record x.statistic { threads = x.statistic.threads + n };
  }

  unfoldable pub new_executor : ℕ → Executor V E
  new_executor max_workers =
      start_threads
        (record {
          max_workers = max_workers;
          futures = [];
          tasks = record { queue = []; closed_event = false };
          pool = 0;
          shutdown_event = false;
          statistic = record {
            threads = 0;
            done = 0;
            error = 0;
            success = 0;
            submitted = 0;
            sum_time = 0;
          };
          states = λ _. pending;
          next_future = 0;
          running = [];
          scheduled = [];
        })
        (if ltb 1 max_workers then 2 else 1)

  unfoldable pub adjust_thread_count : Executor V E → Executor V E
  adjust_thread_count x = start_threads x (new_threads_count x.pool x.max_workers)

  abbrev pub enqueue : Executor V E → Executor V E
  enqueue x = record x {
    futures = x.next_future ∷ x.futures;
    tasks = record x.tasks { queue = x.tasks.queue ++ some x.next_future ∷ [] };
    statistic = record x.statistic { submitted = x.statistic.submitted + 1 };
    next_future = x.next_future + 1;
  }

  unfoldable pub submit : Executor V E → Result Exn ℕ × Executor V E
  submit x = if x.shutdown_event then (err runtime_error, x) else (
    ok x.next_future,
    enqueue (
        if ltb x.pool x.max_workers && leb x.pool (length x.futures)
        then adjust_thread_count x
        else x),
  )

  -- The loop over the futures that are not done. A future takes the exception and then schedules its
  -- callback `futures.discard`, which raises RuntimeError when its loop is closed, and ends this loop.
  unfoldable pub close_futures : Bool → List ℕ → Executor V E → Executor V E
  close_futures is_closed [] x = x
  close_futures is_closed (i ∷ is) x =
      let settled = set_if_pending x i (failed pool_closed) in
      let all_settled = close_futures is_closed is settled in
      if is_closed && not (is_done (x.states i)) then settled else all_settled

  -- `del self.__pool`, `del self.__futures`, and `self.__tasks.close()`
  abbrev pub delete_pool : Executor V E → Executor V E
  delete_pool x = record x { shutdown_event = true; pool = 0; tasks = close x.tasks; futures = [] }

  -- `shutdown`, without its wait for the threads, and whether the loop of its futures is closed.
  unfoldable pub shutdown : Executor V E → Bool → Executor V E
  shutdown x is_closed =
      if x.shutdown_event then x else close_futures is_closed x.futures (delete_pool x)
