-- ===== src/Tests/ThreadPool.antt =====
-- Runs of the pool of aiomisc/thread_pool.py; values and exceptions are numbers here.
use aiomisc.Base.{
  ℕ, ◌<◌, ◌≡◌, refl, ap, true, false, List, [], ◌∷◌, arith, nat_eq, list_eq, pair_eq,
}
use aiomisc.ThreadPool.{
  returned, resolved, failed, Executor, is_done, new_executor, start_threads, submit, shutdown,
  close_futures, thread_turn, get, begin_item, finish_item, set_workitem_result, close, pool_closed,
  FutureState, pending, adjust_thread_count,
}
use aiomisc.ThreadPool.Histories.{
  Event, submits, turns, finishes, delivers, shuts_down, run, member,
}
use aiomisc.ThreadPool.Futures.{run-futures_done, run-settled}

-- Two functions are submitted, a thread takes the first, and the pool is shut down meanwhile.
abbrev history : List (Event ℕ ℕ)
history =
    submits
    ∷ submits
    ∷ turns false
    ∷ finishes 0 (returned 42) 5 false
    ∷ delivers
    ∷ shuts_down false
    ∷ []

abbrev ended : Executor ℕ ℕ
ended = run (new_executor 4) history

-- The first future has its value, the second the exception of the shutdown.
ended_states : (ended.states 0 ≡ resolved 42) × (ended.states 1 ≡ failed pool_closed)
unfolding run new_executor start_threads submit thread_turn get begin_item member finish_item
    set_workitem_result shutdown close_futures close
ended_states = (refl, refl)

is_shut_down : ended.shutdown_event ≡ true
unfolding run new_executor start_threads submit thread_turn get begin_item member finish_item
    set_workitem_result shutdown close_futures close
is_shut_down = refl

two_futures : 1 < ended.next_future
unfolding run new_executor start_threads submit thread_turn get begin_item member finish_item
    set_workitem_result shutdown close_futures close
two_futures = omega arith

run-futures_done_example : is_done (ended.states 1) ≡ true
run-futures_done_example = run-futures_done 4 history 1 tt is_shut_down two_futures

first_done : is_done (ended.states 0) ≡ true
first_done = ap is_done ended_states.0

run-settled_example : (run ended history).states 0 ≡ ended.states 0
run-settled_example = run-settled ended history 0 first_done

abbrev resting : FutureState ℕ ℕ
resting = pending

-- On a closed loop the first pending future ends the shutdown, and the others stay pending.
left_pending : (run (new_executor 4) (submits ∷ submits ∷ shuts_down true ∷ [])).states 0 ≡ resting
unfolding run new_executor start_threads submit adjust_thread_count shutdown close_futures close
left_pending = refl
