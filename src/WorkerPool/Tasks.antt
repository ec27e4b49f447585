-- ===== src/WorkerPool/Tasks.antt =====
-- The tasks of aiomisc/worker_pool.py: how a call of `create_task` gets into the queue, a handler takes
-- it from there, and the call ends.
use aiomisc.Base.{
  ℕ, ◌+◌, Bool, false, not, ◌&&◌, ◌||◌, Option, none, some, List, [], ◌∷◌, ◌++◌, ltb, leb,
  if◌then◌else◌, ◌==◌, nat_eq, list_eq, pair_eq, length, keep, true,
}
use aiomisc.Base.Dict.{put}
use aiomisc.Base.Sets.{contains, discard}
use aiomisc.WorkerPool.{
  cancelled_error, by_function, by_handler, process_exited, FutureState, pending, has_result,
  has_process, failed, was_cancelled, is_done, Task, Waiting, for_task, for_answer, Handler,
  WorkerPool, Sending, sent, send_disconnected, send_raises, Answer, answer_result,
  answer_exception, answer_cancelled, answer_disconnected, answer_raises, answer_refused, ident,
  set_state, fail_pending, end_handler, loop_head,
}

abbrev pub is_putting : {C : Type 0} → List (Task C) → ℕ → Bool
is_putting [] i = false
is_putting (t ∷ ts) i = t.result_future == i || is_putting ts i

module _ {V E C : Type 0} where
  -- `self.tasks.full()`; no room is limited when `max_overflow` is zero.
  abbrev pub is_full : WorkerPool V E C → Bool
  is_full p = ltb 0 p.max_overflow && leb p.max_overflow (length p.tasks)

  -- `create_task` up to its wait for the process: two futures, and the task.
  unfoldable pub create_task : WorkerPool V E C → C → WorkerPool V E C
  create_task p c =
      let t : Task C = record {
        func = c;
        result_future = p.next_future;
        process_future = p.next_future + 1;
      } in
      let p₁ = record p {
        futures = p.next_future ∷ (p.next_future + 1) ∷ p.futures;
        calls = p.next_future ∷ p.calls;
        next_future = p.next_future + 2;
      } in
      if is_full p
      then record p₁ { putting = p.putting ++ t ∷ [] }
      else record p₁ { tasks = p.tasks ++ t ∷ [] }

  abbrev pub put_first : WorkerPool V E C → List (Task C) → WorkerPool V E C
  put_first p [] = p
  put_first p (t ∷ ts) = record p { putting = ts; tasks = p.tasks ++ t ∷ [] }

  -- A call that waits for room has it now.
  unfoldable pub put_waiting : WorkerPool V E C → WorkerPool V E C
  put_waiting p = if is_full p then p else put_first p p.putting

  -- The handler awaits the answer to a task that it has sent.
  abbrev pub await_answer : WorkerPool V E C → ℕ → ℕ → Task C → WorkerPool V E C
  await_answer p h pid t = record p {
    handlers = put h (record { pid = pid; waiting = for_answer t }) p.handlers;
  }

  abbrev pub after_send : WorkerPool V E C → ℕ → ℕ → Task C → Sending E → WorkerPool V E C
  after_send p h pid t sent = await_answer p h pid t
  after_send p h pid t send_disconnected =
      end_handler (fail_pending p t.result_future (process_exited pid)) h pid
  after_send p h pid t (send_raises e) =
      end_handler (fail_pending p t.result_future (by_handler e)) h pid

  -- The handler with a task that it has taken from the queue: one that is settled is skipped.
  unfoldable pub begin_task :
      WorkerPool V E C → ℕ → ℕ → Task C → Sending E → Bool → WorkerPool V E C
  begin_task p h pid t sending at_eof =
      if is_done (p.states t.process_future) || is_done (p.states t.result_future)
      then loop_head p h pid at_eof
      else after_send (set_state p t.process_future (has_process pid)) h pid t sending

  abbrev pub take_task :
      WorkerPool V E C → ℕ → ℕ → List (Task C) → Sending E → Bool → WorkerPool V E C
  take_task p h pid [] sending at_eof = p
  take_task p h pid (t ∷ ts) sending at_eof =
      begin_task (record p { tasks = ts }) h pid t sending at_eof

  -- What an answer makes of the result's future; an answer of another type sets nothing. The end of the
  -- handler by an exception that the future refuses is in `end_task`.
  abbrev pub set_answer : WorkerPool V E C → ℕ → Answer V E → WorkerPool V E C
  set_answer p i (answer_result v) = set_state p i (has_result v)
  set_answer p i (answer_exception e) = set_state p i (failed (by_function e))
  set_answer p i answer_cancelled = set_state p i (failed cancelled_error)
  set_answer p i _ = p

  abbrev pub settle_answer : WorkerPool V E C → ℕ → Answer V E → WorkerPool V E C
  settle_answer p i a = if is_done (p.states i) then p else set_answer p i a

  -- The handler from the answer on.
  unfoldable pub end_task : WorkerPool V E C → ℕ → ℕ → Task C → Answer V E → Bool → WorkerPool V E C
  end_task p h pid t answer_disconnected at_eof =
      end_handler (fail_pending p t.result_future (process_exited pid)) h pid
  end_task p h pid t (answer_raises e) at_eof =
      end_handler (fail_pending p t.result_future (by_handler e)) h pid
  end_task p h pid t (answer_refused e) at_eof =
      if is_done (p.states t.result_future)
      then loop_head p h pid at_eof
      else end_handler (fail_pending p t.result_future (by_handler e)) h pid
  end_task p h pid t a at_eof = loop_head (settle_answer p t.result_future a) h pid at_eof

  -- The two turns of a handler; it takes a task, or an answer, only when it waits for one.
  abbrev pub take_when : WorkerPool V E C → ℕ → ℕ → Waiting C → Sending E → Bool → WorkerPool V E C
  take_when p h pid for_task sending at_eof = take_task p h pid p.tasks sending at_eof
  take_when p h pid (for_answer t) sending at_eof = p

  abbrev pub take_turn :
      WorkerPool V E C → ℕ → Option (Handler C) → Sending E → Bool → WorkerPool V E C
  take_turn p h none sending at_eof = p
  take_turn p h (some w) sending at_eof = take_when p h w.pid w.waiting sending at_eof

  abbrev pub answer_when :
      WorkerPool V E C → ℕ → ℕ → Waiting C → Answer V E → Bool → WorkerPool V E C
  answer_when p h pid for_task a at_eof = p
  answer_when p h pid (for_answer t) a at_eof = end_task p h pid t a at_eof

  abbrev pub answer_turn :
      WorkerPool V E C → ℕ → Option (Handler C) → Answer V E → Bool → WorkerPool V E C
  answer_turn p h none a at_eof = p
  answer_turn p h (some w) a at_eof = answer_when p h w.pid w.waiting a at_eof

  abbrev pub signal_worker : WorkerPool V E C → FutureState V E → WorkerPool V E C
  signal_worker p (has_process pid) = record p { signals = pid ∷ p.signals }
  signal_worker p _ = p

  abbrev pub cancel_pending : WorkerPool V E C → ℕ → WorkerPool V E C
  cancel_pending p i = if is_done (p.states i) then p else set_state p i was_cancelled

  -- CancelledError in a call that waits for the process, or for the result. One that has the process
  -- and has not gone on from `await process_future` yet raises there, and sends no signal.
  abbrev pub cancel_waiting : WorkerPool V E C → ℕ → Bool → FutureState V E → WorkerPool V E C
  cancel_waiting p result_future has_resumed pending = cancel_pending p (result_future + 1)
  cancel_waiting p result_future true (has_process pid) =
      signal_worker (cancel_pending p result_future) (has_process pid)
  cancel_waiting p result_future false (has_process pid) = p
  cancel_waiting p result_future has_resumed _ = p

  abbrev pub end_call : WorkerPool V E C → ℕ → WorkerPool V E C
  end_call p i = record p { calls = discard ident i p.calls }

  -- The call whose result has this future is cancelled, after it has gone on to await the result or
  -- before.
  unfoldable pub cancel_call : WorkerPool V E C → ℕ → Bool → WorkerPool V E C
  cancel_call p i has_resumed =
      if not (contains ident p.calls i)
      then p
      else if is_putting p.putting i
      then end_call (record p { putting = keep (λ t. not (t.result_future == i)) p.putting }) i
      else end_call (cancel_waiting p i has_resumed (p.states (i + 1))) i

  -- What the future of a result makes of the call that awaits it: CancelledError is sent on to the
  -- worker.
  abbrev pub resume_with : WorkerPool V E C → ℕ → FutureState V E → WorkerPool V E C
  resume_with p i pending = p
  resume_with p i (failed cancelled_error) = end_call (signal_worker p (p.states (i + 1))) i
  resume_with p i _ = end_call p i

  -- The call goes on after its result is there; one that waits for room in the queue does not.
  unfoldable pub resume_call : WorkerPool V E C → ℕ → WorkerPool V E C
  resume_call p i =
      if contains ident p.calls i && not (is_putting p.putting i)
      then resume_with p i (p.states i)
      else p
