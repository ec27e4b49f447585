-- ===== src/WorkerPool/Kept/Turns.antt =====
-- And what a handler's turns and the ends of calls keep of the futures of aiomisc/worker_pool.py.
use aiomisc.Base.{
  ℕ, ◌+◌, ◌≡◌, refl, Bool, false, not, ◌||◌, Option, none, some, List, [], ◌∷◌, if_cases, nat_eq,
  list_eq, pair_eq, ◌&&◌, true,
}
use aiomisc.Base.Sets.{contains}
use aiomisc.WorkerPool.{
  FutureState, pending, has_result, has_process, failed, was_cancelled, cancelled_error,
  by_function, by_handler, by_initializer, process_exited, is_done, Task, Waiting, for_task,
  for_answer, Handler, WorkerPool, Sending, sent, send_disconnected, send_raises, Answer,
  answer_result, answer_exception, answer_cancelled, answer_other, answer_disconnected,
  answer_raises, answer_refused, ident,
}
use aiomisc.WorkerPool.Tasks.{
  after_send, begin_task, take_task, set_answer, settle_answer, end_task, take_when, take_turn,
  answer_when, answer_turn, signal_worker, cancel_pending, cancel_waiting, is_putting, end_call,
  cancel_call, resume_with, resume_call,
}
use aiomisc.WorkerPool.Kept.{
  Kept, Kept-refl, Kept-trans, or_false, set_state-Kept, fail_pending-Kept, end_handler-Kept,
  loop_head-Kept,
}

module _ {V E C : Type 0} where
  -- The turns of a handler.
  after_send-Kept :
      (p : WorkerPool V E C) (h pid : ℕ) (t : Task C) (sending : Sending E)
      → Kept p (after_send p h pid t sending)
  after_send-Kept p h pid t sent = record {
    same_next = refl;
    same_futures = refl;
    same_workers = refl;
    same_cookie = refl;
    stays = λ i d. refl;
  }
  after_send-Kept p h pid t send_disconnected =
      Kept-trans (fail_pending-Kept p t.result_future (process_exited pid))
        (end_handler-Kept _ h pid)
  after_send-Kept p h pid t (send_raises e) =
      Kept-trans (fail_pending-Kept p t.result_future (by_handler e)) (end_handler-Kept _ h pid)

  begin_task-Kept :
      (p : WorkerPool V E C) (h pid : ℕ) (t : Task C) (sending : Sending E) (at_eof : Bool)
      → Kept p (begin_task p h pid t sending at_eof)
  unfolding begin_task
  begin_task-Kept p h pid t sending at_eof =
      if_cases (Kept p) (is_done (p.states t.process_future) || is_done (p.states t.result_future))
        (λ _. loop_head-Kept p h pid at_eof)
        (λ n.
          Kept-trans (set_state-Kept p t.process_future (has_process pid) (or_false _ _ n))
            (after_send-Kept _ h pid t sending))

  take_task-Kept :
      (p : WorkerPool V E C) (h pid : ℕ) (ts : List (Task C)) (sending : Sending E) (at_eof : Bool)
      → Kept p (take_task p h pid ts sending at_eof)
  take_task-Kept p h pid [] sending at_eof = Kept-refl p
  take_task-Kept p h pid (t ∷ ts) sending at_eof =
      let k = begin_task-Kept (record p { tasks = ts }) h pid t sending at_eof in
      record {
        same_next = k.same_next;
        same_futures = k.same_futures;
        same_workers = k.same_workers;
        same_cookie = k.same_cookie;
        stays = k.stays;
      }

  take_when-Kept :
      (p : WorkerPool V E C) (h pid : ℕ) (w : Waiting C) (sending : Sending E) (at_eof : Bool)
      → Kept p (take_when p h pid w sending at_eof)
  take_when-Kept p h pid for_task sending at_eof = take_task-Kept p h pid p.tasks sending at_eof
  take_when-Kept p h pid (for_answer t) sending at_eof = Kept-refl p

  pub take_turn-Kept :
      (p : WorkerPool V E C) (h : ℕ) (w : Option (Handler C)) (sending : Sending E) (at_eof : Bool)
      → Kept p (take_turn p h w sending at_eof)
  take_turn-Kept p h none sending at_eof = Kept-refl p
  take_turn-Kept p h (some w) sending at_eof = take_when-Kept p h w.pid w.waiting sending at_eof

  set_answer-Kept :
      (p : WorkerPool V E C) (i : ℕ) (a : Answer V E)
      → is_done (p.states i) ≡ false
      → Kept p (set_answer p i a)
  set_answer-Kept p i (answer_result v) n = set_state-Kept p i (has_result v) n
  set_answer-Kept p i (answer_exception e) n = set_state-Kept p i (failed (by_function e)) n
  set_answer-Kept p i answer_cancelled n = set_state-Kept p i (failed cancelled_error) n
  set_answer-Kept p i answer_other n = Kept-refl p
  set_answer-Kept p i answer_disconnected n = Kept-refl p
  set_answer-Kept p i (answer_raises e) n = Kept-refl p
  set_answer-Kept p i (answer_refused e) n = Kept-refl p

  pub settle_answer-Kept :
      (p : WorkerPool V E C) (i : ℕ) (a : Answer V E) → Kept p (settle_answer p i a)
  settle_answer-Kept p i a =
      if_cases (Kept p) (is_done (p.states i)) (λ _. Kept-refl p) (λ n. set_answer-Kept p i a n)

  end_task-Kept :
      (p : WorkerPool V E C) (h pid : ℕ) (t : Task C) (a : Answer V E) (at_eof : Bool)
      → Kept p (end_task p h pid t a at_eof)
  unfolding end_task
  end_task-Kept p h pid t answer_disconnected at_eof =
      Kept-trans (fail_pending-Kept p t.result_future (process_exited pid))
        (end_handler-Kept _ h pid)
  end_task-Kept p h pid t (answer_raises e) at_eof =
      Kept-trans (fail_pending-Kept p t.result_future (by_handler e)) (end_handler-Kept _ h pid)
  end_task-Kept p h pid t (answer_refused e) at_eof =
      if_cases (Kept p) (is_done (p.states t.result_future)) (λ _. loop_head-Kept p h pid at_eof)
        (λ _.
          Kept-trans (fail_pending-Kept p t.result_future (by_handler e))
            (end_handler-Kept _ h pid))
  end_task-Kept p h pid t (answer_result v) at_eof =
      Kept-trans (settle_answer-Kept p t.result_future (answer_result v))
        (loop_head-Kept _ h pid at_eof)
  end_task-Kept p h pid t (answer_exception e) at_eof =
      Kept-trans (settle_answer-Kept p t.result_future (answer_exception e))
        (loop_head-Kept _ h pid at_eof)
  end_task-Kept p h pid t answer_cancelled at_eof =
      Kept-trans (settle_answer-Kept p t.result_future answer_cancelled)
        (loop_head-Kept _ h pid at_eof)
  end_task-Kept p h pid t answer_other at_eof =
      Kept-trans (settle_answer-Kept p t.result_future answer_other) (loop_head-Kept _ h pid at_eof)

  answer_when-Kept :
      (p : WorkerPool V E C) (h pid : ℕ) (w : Waiting C) (a : Answer V E) (at_eof : Bool)
      → Kept p (answer_when p h pid w a at_eof)
  answer_when-Kept p h pid for_task a at_eof = Kept-refl p
  answer_when-Kept p h pid (for_answer t) a at_eof = end_task-Kept p h pid t a at_eof

  pub answer_turn-Kept :
      (p : WorkerPool V E C) (h : ℕ) (w : Option (Handler C)) (a : Answer V E) (at_eof : Bool)
      → Kept p (answer_turn p h w a at_eof)
  answer_turn-Kept p h none a at_eof = Kept-refl p
  answer_turn-Kept p h (some w) a at_eof = answer_when-Kept p h w.pid w.waiting a at_eof

  -- The end of a call.
  cancel_pending-Kept : (p : WorkerPool V E C) (i : ℕ) → Kept p (cancel_pending p i)
  cancel_pending-Kept p i =
      if_cases (Kept p) (is_done (p.states i)) (λ _. Kept-refl p)
        (λ n. set_state-Kept p i was_cancelled n)

  cancel_waiting-Kept :
      (p : WorkerPool V E C) (i : ℕ) (has_resumed : Bool) (s : FutureState V E)
      → Kept p (cancel_waiting p i has_resumed s)
  cancel_waiting-Kept p i has_resumed pending = cancel_pending-Kept p (i + 1)
  cancel_waiting-Kept p i false (has_process pid) = Kept-refl p
  cancel_waiting-Kept p i true (has_process pid) =
      let k = cancel_pending-Kept p i in
      record {
        same_next = k.same_next;
        same_futures = k.same_futures;
        same_workers = k.same_workers;
        same_cookie = k.same_cookie;
        stays = k.stays;
      }
  cancel_waiting-Kept p i has_resumed (has_result v) = Kept-refl p
  cancel_waiting-Kept p i has_resumed (failed x) = Kept-refl p
  cancel_waiting-Kept p i has_resumed was_cancelled = Kept-refl p

  end_call-Kept : (p q : WorkerPool V E C) (i : ℕ) → Kept p q → Kept p (end_call q i)
  end_call-Kept p q i k = record {
    same_next = k.same_next;
    same_futures = k.same_futures;
    same_workers = k.same_workers;
    same_cookie = k.same_cookie;
    stays = k.stays;
  }

  pub cancel_call-Kept :
      (p : WorkerPool V E C) (i : ℕ) (has_resumed : Bool) → Kept p (cancel_call p i has_resumed)
  unfolding cancel_call
  cancel_call-Kept p i has_resumed =
      if_cases (Kept p) (not (contains ident p.calls i)) (λ _. Kept-refl p)
        (λ _.
          if_cases (Kept p) (is_putting p.putting i)
            (λ _. record {
              same_next = refl;
              same_futures = refl;
              same_workers = refl;
              same_cookie = refl;
              stays = λ j d. refl;
            })
            (λ _. end_call-Kept p _ i (cancel_waiting-Kept p i has_resumed (p.states (i + 1)))))

  signal_worker-Kept : (p : WorkerPool V E C) (s : FutureState V E) → Kept p (signal_worker p s)
  signal_worker-Kept p (has_process pid) = record {
    same_next = refl;
    same_futures = refl;
    same_workers = refl;
    same_cookie = refl;
    stays = λ i d. refl;
  }
  signal_worker-Kept p pending = Kept-refl p
  signal_worker-Kept p (has_result v) = Kept-refl p
  signal_worker-Kept p (failed x) = Kept-refl p
  signal_worker-Kept p was_cancelled = Kept-refl p

  resume_with-Kept :
      (p : WorkerPool V E C) (i : ℕ) (s : FutureState V E) → Kept p (resume_with p i s)
  resume_with-Kept p i pending = Kept-refl p
  resume_with-Kept p i (has_result v) = end_call-Kept p p i (Kept-refl p)
  resume_with-Kept p i (has_process pid) = end_call-Kept p p i (Kept-refl p)
  resume_with-Kept p i was_cancelled = end_call-Kept p p i (Kept-refl p)
  resume_with-Kept p i (failed cancelled_error) =
      end_call-Kept p _ i (signal_worker-Kept p (p.states (i + 1)))
  resume_with-Kept p i (failed (by_function e)) = end_call-Kept p p i (Kept-refl p)
  resume_with-Kept p i (failed (by_handler e)) = end_call-Kept p p i (Kept-refl p)
  resume_with-Kept p i (failed (by_initializer e)) = end_call-Kept p p i (Kept-refl p)
  resume_with-Kept p i (failed (process_exited pid)) = end_call-Kept p p i (Kept-refl p)

  pub resume_call-Kept : (p : WorkerPool V E C) (i : ℕ) → Kept p (resume_call p i)
  unfolding resume_call
  resume_call-Kept p i =
      if_cases (Kept p) (contains ident p.calls i && not (is_putting p.putting i))
        (λ _. resume_with-Kept p i (p.states i)) (λ _. Kept-refl p)
