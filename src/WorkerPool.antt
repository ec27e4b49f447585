-- ===== src/WorkerPool.antt =====
-- aiomisc/worker_pool.py: the futures, the queue of tasks, and the handlers of the connections of the
-- workers, in steps from one await to the next. A future is its number, and `states` what the event
-- loop knows of it; a handler is the number of its connection. What a worker sends comes with the
-- step, and so does whether its stream is at its end when the handler looks. `putting` are the calls
-- that wait for room in the queue, `calls` those that have not ended, by the result's future, and
-- `signals` the processes that got a signal, the last one first.
pub mod Tasks
pub mod Histories
pub mod Kept
pub mod Aside
pub mod Futures
pub mod Closing
pub mod Consistent
pub mod Authentication
pub mod Remote
pub mod Calls
use aiomisc.Base.{
  ℕ, ◌+◌, ◌-◌, ◌/◌, Bool, true, false, not, ◌||◌, List, [], ◌∷◌, nat_beq, if◌then◌else◌, ◌==◌,
  nat_eq, list_eq, pair_eq, All,
}
use aiomisc.Base.Dict.{Dict, lookup, put, take_out}
use aiomisc.Base.Sets.{contains, add, discard}
use aiomisc.Worker.Process.{
  PacketType, request, exception, result, cancelled, auth, auth_fail, auth_ok, bad_initializer,
  bad_packet,
}

-- Why a future has an exception: the one that was received, that of the handler, that of the
-- initializer, ProcessError, or CancelledError.
pub data Fault (E : Type 0) : Type 0 where
  by_function by_handler by_initializer : E → Fault E
  process_exited : ℕ → Fault E
  cancelled_error : Fault E

pub data FutureState (V E : Type 0) : Type 0 where
  pending : FutureState V E
  has_result : V → FutureState V E
  has_process : ℕ → FutureState V E
  failed : Fault E → FutureState V E
  was_cancelled : FutureState V E

abbrev pub is_done : {V E : Type 0} → FutureState V E → Bool
is_done pending = false
is_done _ = true

-- What the queue holds; `func` is the function with its arguments.
pub record Task (C : Type 0) : Type 0 where
  pub func : C
  pub result_future : ℕ
  pub process_future : ℕ

-- A handler awaits the queue, or the answer to a task.
pub data Waiting (C : Type 0) : Type 0 where
  for_task : Waiting C
  for_answer : Task C → Waiting C

pub record Handler (C : Type 0) : Type 0 where
  pub pid : ℕ
  pub waiting : Waiting C

pub record WorkerPoolStatistic : Type 0 where
  pub processes : ℕ
  pub spawning : ℕ
  pub task_added : ℕ

pub record WorkerPool (V E C : Type 0) : Type 0 where
  pub workers : List (List ℕ)
  pub cookie : List ℕ
  pub max_overflow : ℕ
  pub tasks : List (Task C)
  pub putting : List (Task C)
  pub futures : List ℕ
  pub states : ℕ → FutureState V E
  pub next_future : ℕ
  pub handlers : Dict ℕ (Handler C)
  pub next_handler : ℕ
  pub pids : List ℕ
  pub statistic : WorkerPoolStatistic
  pub closing : Bool
  pub closing_lock : Bool
  pub interrupted : Bool
  pub calls : List ℕ
  pub signals : List ℕ

-- The first packet of a connection; after BAD_INITIALIZER there is a second one.
pub record Greeting (E : Type 0) : Type 0 where
  pub packet_type : PacketType
  pub worker_id : List ℕ
  pub digest : List ℕ
  pub pid : ℕ
  pub second_type : PacketType
  pub second_exc : E

-- How sending a request ends.
pub data Sending (E : Type 0) : Type 0 where
  sent : Sending E
  send_disconnected : Sending E
  send_raises : E → Sending E

-- What the handler receives for a request; `answer_refused` is an exception that `set_exception` of
-- asyncio refuses, as it does StopIteration, with what it raises instead.
pub data Answer (V E : Type 0) : Type 0 where
  answer_result : V → Answer V E
  answer_exception : E → Answer V E
  answer_cancelled : Answer V E
  answer_other : Answer V E
  answer_disconnected : Answer V E
  answer_raises answer_refused : E → Answer V E

abbrev pub ident : ℕ → ℕ
ident i = i

unfoldable pub is_bad_initializer : PacketType → Bool
is_bad_initializer bad_initializer = true
is_bad_initializer _ = false

unfoldable pub is_auth : PacketType → Bool
is_auth auth = true
is_auth _ = false

unfoldable pub is_exception : PacketType → Bool
is_exception exception = true
is_exception _ = false

-- `worker_id not in self.worker_ids`
unfoldable pub has_id : List (List ℕ) → List ℕ → Bool
has_id [] i = false
has_id (j ∷ ids) i = i == j || has_id ids i

module _ {V E C : Type 0} where
  abbrev pub set_state : WorkerPool V E C → ℕ → FutureState V E → WorkerPool V E C
  set_state p i s = record p { states = λ j. if nat_beq i j then s else p.states j }

  -- `if not future.done(): future.set_exception(exc)`
  abbrev pub fail_pending : WorkerPool V E C → ℕ → Fault E → WorkerPool V E C
  fail_pending p i x = if is_done (p.states i) then p else set_state p i (failed x)

  -- `set_exception` of aiomisc/utils.py, on futures that are no tasks.
  unfoldable pub set_exception : List ℕ → Fault E → WorkerPool V E C → WorkerPool V E C
  set_exception [] x p = p
  set_exception (i ∷ is) x p = set_exception is x (fail_pending p i x)

  unfoldable pub new_worker_pool : List (List ℕ) → List ℕ → ℕ → WorkerPool V E C
  new_worker_pool worker_ids cookie max_overflow = record {
    workers = worker_ids;
    cookie = cookie;
    max_overflow = max_overflow;
    tasks = [];
    putting = [];
    futures = [];
    states = λ _. pending;
    next_future = 0;
    handlers = [];
    next_handler = 0;
    pids = [];
    statistic = record { processes = 0; spawning = 0; task_added = 0 };
    closing = false;
    closing_lock = false;
    interrupted = false;
    calls = [];
    signals = [];
  }

  -- The `finally` of a handler.
  unfoldable pub end_handler : WorkerPool V E C → ℕ → ℕ → WorkerPool V E C
  end_handler p h pid = record p {
    handlers = take_out h p.handlers;
    pids = discard ident pid p.pids;
    statistic = record p.statistic { processes = p.statistic.processes - 1 };
  }

  -- The head of the handler's loop.
  unfoldable pub loop_head : WorkerPool V E C → ℕ → ℕ → Bool → WorkerPool V E C
  loop_head p h pid at_eof =
      if at_eof
      then end_handler p h pid
      else record p { handlers = put h (record { pid = pid; waiting = for_task }) p.handlers }

  -- `close`, up to its wait for the server; it holds the lock until its end.
  unfoldable pub begin_close : WorkerPool V E C → WorkerPool V E C
  begin_close p =
      if p.closing || p.closing_lock
      then p
      else record p { closing = true; closing_lock = true; interrupted = true }

  -- All handlers are cancelled, and run their `finally`.
  unfoldable pub cancel_handlers : Dict ℕ (Handler C) → WorkerPool V E C → WorkerPool V E C
  cancel_handlers [] p = p
  cancel_handlers ((h, w) ∷ hs) p = cancel_handlers hs (end_handler p h w.pid)

  -- And the rest of it, when a close is on its way.
  unfoldable pub end_close : WorkerPool V E C → WorkerPool V E C
  end_close p =
      let p₁ = cancel_handlers p.handlers p in
      if p.closing_lock
      then record (set_exception p₁.futures cancelled_error p₁) { closing_lock = false }
      else p

  -- After AUTH_OK.
  unfoldable pub accept : WorkerPool V E C → ℕ → Bool → WorkerPool V E C
  accept p pid at_eof =
      loop_head
        (record p {
          statistic = record p.statistic {
            processes = p.statistic.processes + 1;
            spawning = p.statistic.spawning + 1;
          };
          pids = add ident pid p.pids;
          handlers = (p.next_handler, record { pid = pid; waiting = for_task }) ∷ p.handlers;
          next_handler = p.next_handler + 1;
        })
        p.next_handler pid at_eof

  abbrev pub task_add : WorkerPool V E C → WorkerPool V E C
  task_add p = record p {
    statistic = record p.statistic { task_added = p.statistic.task_added + 1 };
  }

  abbrev pub obey_bad_initializer : WorkerPool V E C → Greeting E → WorkerPool V E C
  obey_bad_initializer p g =
      if is_exception g.second_type
      then set_exception p.futures (by_initializer g.second_exc) p
      else p

  -- `__handle_client` up to its loop, with HMAC as a parameter: the packets that it sends, and the pool.
  unfoldable pub handle_client :
      (List ℕ → List ℕ → List ℕ)
      → WorkerPool V E C
      → Greeting E
      → Bool
      → List PacketType × WorkerPool V E C
  handle_client hmac p₀ g at_eof =
      let p = task_add p₀ in
      if is_bad_initializer g.packet_type
      then (
        if is_exception g.second_type then [] else bad_packet ∷ [],
        begin_close (obey_bad_initializer p g),
      )
      else if not (is_auth g.packet_type)
      then (bad_packet ∷ [], p)
      else if not (has_id p.workers g.worker_id)
      then ([], p)
      else if not (hmac p.cookie g.worker_id == g.digest)
      then (auth_fail ∷ [], p)
      else (auth_ok ∷ [], accept p g.pid at_eof)
