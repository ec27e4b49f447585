-- ===== src/Tests/WorkerPool.antt =====
-- Runs of the pool of aiomisc/worker_pool.py: functions, values and exceptions are numbers here, and
-- HMAC puts the id after the cookie.
use aiomisc.Base.{
  ◌+◌, ℕ, ◌<◌, ◌≡◌, refl, true, false, Option, none, some, List, [], ◌∷◌, ◌++◌, arith, nat_beq,
  if◌then◌else◌, nat_eq, list_eq, pair_eq, nat_beq, if◌then◌else◌,
}
use aiomisc.Base.Dict.{lookup, put, total}
use aiomisc.Worker.Process.{
  connection_raised, auth, exception, Raised, exception_raised, Ending, raises, Packet,
}
use aiomisc.WorkerPool.{
  for_task, has_process, failed, by_function, is_done, Task, Handler, for_answer, WorkerPool,
  Greeting, sent, answer_result, new_worker_pool, handle_client, is_bad_initializer, is_auth,
  has_id, accept, loop_head, begin_close,
}
use aiomisc.WorkerPool.Tasks.{create_task, begin_task}
use aiomisc.WorkerPool.Histories.{
  Event, connects, calls_task, takes, answers, begins_close, ends_close, cancels, run,
}
use aiomisc.WorkerPool.Futures.{run-settled_once}
use aiomisc.WorkerPool.Closing.{ends_close-AllDone}
use aiomisc.WorkerPool.Consistent.{one}
use aiomisc.WorkerPool.Consistent.Workers.{run-one_handler, run-HasProcess}
use aiomisc.WorkerPool.Authentication.{run-no_handlers, is_authentic}
use aiomisc.WorkerPool.Calls.{run-called}
use aiomisc.WorkerPool.Remote.{answers_of, read_answer, as_sent}

abbrev hmac : List ℕ → List ℕ → List ℕ
hmac cookie i = cookie ++ i

abbrev ids : List (List ℕ)
ids = (1 ∷ []) ∷ (2 ∷ []) ∷ []

abbrev cookie : List ℕ
cookie = 9 ∷ []

abbrev fresh_pool : WorkerPool ℕ ℕ ℕ
fresh_pool = new_worker_pool ids cookie 0

-- The first worker, as process 100; and one that does not know the cookie.
abbrev worker_greeting : Greeting ℕ
worker_greeting = record {
  packet_type = auth;
  worker_id = 1 ∷ [];
  digest = 9 ∷ 1 ∷ [];
  pid = 100;
  second_type = exception;
  second_exc = 0;
}

abbrev stranger_greeting : Greeting ℕ
stranger_greeting = record {
  packet_type = auth;
  worker_id = 1 ∷ [];
  digest = 8 ∷ 1 ∷ [];
  pid = 666;
  second_type = exception;
  second_exc = 0;
}

abbrev first_task : Task ℕ
first_task = record { func = 5; result_future = 0; process_future = 1 }

-- The worker connects and gets the first of two tasks.
abbrev begun : List (Event ℕ ℕ ℕ)
begun = connects worker_greeting false ∷ calls_task 5 ∷ calls_task 6 ∷ takes 0 sent false ∷ []

abbrev busy : Handler ℕ
busy = record { pid = 100; waiting = for_answer first_task }

is_busy : lookup 0 (run hmac fresh_pool begun).handlers ≡ some busy
unfolding run new_worker_pool handle_client is_bad_initializer is_auth has_id accept loop_head
    create_task begin_task lookup put
is_busy = refl

run-one_handler_example : ◌≡◌ {A = ℕ} 0 0
run-one_handler_example =
    run-one_handler hmac ids cookie 0 begun 0 0 busy busy first_task first_task is_busy is_busy refl
      refl refl

run-HasProcess_example :
    ((run hmac fresh_pool begun).states 1 ≡ has_process 100)
    × (total one (run hmac fresh_pool begun).handlers
        ≡ (run hmac fresh_pool begun).statistic.processes)
run-HasProcess_example = run-HasProcess hmac ids cookie 0 begun 0 busy first_task is_busy refl

process_is_known : is_done ((run hmac fresh_pool begun).states 1) ≡ true
unfolding run new_worker_pool handle_client is_bad_initializer is_auth has_id accept loop_head
    create_task begin_task lookup put
process_is_known = refl

run-settled_once_example :
    (run hmac
        (run hmac fresh_pool begun)
        (answers 0 (answer_result 7) false ∷ cancels 0 true ∷ [])).states
      1
    ≡ (run hmac fresh_pool begun).states 1
run-settled_once_example =
    run-settled_once hmac (run hmac fresh_pool begun)
      (answers 0 (answer_result 7) false ∷ cancels 0 true ∷ []) 1 process_is_known

-- The same, and the pool is being closed: the second task is still in the queue.
abbrev closing_history : List (Event ℕ ℕ ℕ)
closing_history =
    connects worker_greeting false
    ∷ calls_task 5
    ∷ calls_task 6
    ∷ takes 0 sent false
    ∷ begins_close
    ∷ []

lock_is_held : (run hmac fresh_pool closing_history).closing_lock ≡ true
unfolding run new_worker_pool handle_client is_bad_initializer is_auth has_id accept loop_head
    create_task begin_task lookup put begin_close
lock_is_held = refl

four_futures : 3 < (run hmac fresh_pool closing_history).next_future
unfolding run new_worker_pool handle_client is_bad_initializer is_auth has_id accept loop_head
    create_task begin_task lookup put begin_close
four_futures = omega arith

ends_close-AllDone_example :
    is_done ((run hmac (run hmac fresh_pool closing_history) (ends_close ∷ [])).states 3) ≡ true
ends_close-AllDone_example =
    ends_close-AllDone hmac ids cookie 0 closing_history [] 3 lock_is_held four_futures

is_stranger : is_authentic hmac ids cookie stranger_greeting ≡ false
unfolding is_auth has_id is_bad_initializer
is_stranger = refl

run-no_handlers_example :
    (run hmac fresh_pool
      (connects stranger_greeting false ∷ calls_task 5 ∷ takes 0 sent false ∷ [])).handlers
    ≡ []
run-no_handlers_example =
    run-no_handlers hmac ids cookie 0
      (connects stranger_greeting false ∷ calls_task 5 ∷ takes 0 sent false ∷ [])
      (is_stranger, (tt, (tt, tt)))

-- Function 5 raises 11.
abbrev raising : ℕ → Ending ℕ ℕ
raising c = raises (exception_raised 11)

abbrev sends_all : Packet ℕ ℕ → Option (Raised ℕ)
sends_all p = none

abbrev remote_greeting : Greeting (Raised ℕ)
remote_greeting = record {
  packet_type = auth;
  worker_id = 1 ∷ [];
  digest = 9 ∷ 1 ∷ [];
  pid = 100;
  second_type = exception;
  second_exc = connection_raised;
}

-- A pool with one idle worker.
abbrev idle_pool : WorkerPool ℕ (Raised ℕ) ℕ
idle_pool = run hmac (new_worker_pool ids cookie 0) (connects remote_greeting false ∷ [])

abbrev idle : Handler ℕ
idle = record { pid = 100; waiting = for_task }

is_idle : lookup 0 idle_pool.handlers ≡ some idle
unfolding run new_worker_pool handle_client is_bad_initializer is_auth has_id accept loop_head
    lookup put
is_idle = refl

nothing_queued : idle_pool.tasks ≡ []
unfolding run new_worker_pool handle_client is_bad_initializer is_auth has_id accept loop_head
nothing_queued = refl

are_pending :
    (is_done (idle_pool.states idle_pool.next_future) ≡ false)
    × (is_done (idle_pool.states (idle_pool.next_future + 1)) ≡ false)
unfolding run new_worker_pool handle_client is_bad_initializer is_auth has_id accept loop_head
are_pending = (refl, refl)

-- 13 is StopIteration here, and 14 the TypeError of the future that is given it.
abbrev refuse : Raised ℕ → Option (Raised ℕ)
refuse (exception_raised n) = if nat_beq n 13 then some (exception_raised 14) else none
refuse x = none

run-called_example :
    (run hmac idle_pool (
        calls_task 5
        ∷ takes 0 sent false
        ∷ answers 0 (read_answer (as_sent refuse) (answers_of raising sends_all 5)) false
        ∷ [])).states
      idle_pool.next_future
    ≡ failed (by_function (exception_raised 11))
run-called_example =
    run-called idle_pool 5 hmac raising sends_all (as_sent refuse) refuse 0 idle false
      nothing_queued is_idle refl are_pending.0 are_pending.1 (λ p. refl) (λ p. refl)
