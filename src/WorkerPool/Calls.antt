-- ===== src/WorkerPool/Calls.antt =====
-- A call of `create_task` of aiomisc/worker_pool.py from its beginning to its result, with the worker
-- of aiomisc_worker/worker.py that runs it.
use aiomisc.Base.{
  Option, beq_self, nat_beq, ℕ, ◌+◌, ◌≡◌, refl, ap, ◌∙◌, false, ◌&&◌, ◌||◌, some, [], ◌∷◌, ◌++◌,
  arith, ltb, leb, if_cases, nat_eq, list_eq, pair_eq, Bool, List, if◌then◌else◌,
}
use aiomisc.Base.Dict.{lookup, lookup-put_eq}
use aiomisc.Worker.Process.{Ending, Raised, Packet}
use aiomisc.WorkerPool.Tasks.{
  answer_turn, is_full, create_task, await_answer, begin_task, take_task, take_when, take_turn,
}
use aiomisc.WorkerPool.Histories.{calls_task, takes, answers, run}
use aiomisc.WorkerPool.Remote.{read_answer, called, answers_of, CanSend, Receives, end_task-serve}
use aiomisc.WorkerPool.{
  has_process, is_done, Task, Handler, for_task, WorkerPool, sent, set_state, Answer,
}

module _ {V E C : Type 0} (p : WorkerPool V (Raised E) C) (c : C) where
  abbrev new_task : Task C
  new_task = record { func = c; result_future = p.next_future; process_future = p.next_future + 1 }

  -- The pool with the task in its queue, and then with the task at a worker.
  abbrev queued_task : WorkerPool V (Raised E) C
  queued_task = record p {
    futures = p.next_future ∷ (p.next_future + 1) ∷ p.futures;
    calls = p.next_future ∷ p.calls;
    next_future = p.next_future + 2;
    tasks = p.tasks ++ new_task ∷ [];
  }

  abbrev given_task : ℕ → ℕ → WorkerPool V (Raised E) C
  given_task h pid =
      await_answer
        (set_state (record queued_task { tasks = [] }) (p.next_future + 1) (has_process pid)) h pid
        new_task

  has_room : p.tasks ≡ [] → is_full p ≡ false
  has_room e = rw e (no_limit p.max_overflow)
    where
      no_limit : (m : ℕ) → (ltb 0 m && leb m 0) ≡ false
      no_limit m = ground arith

  create_task-queued : p.tasks ≡ [] → create_task p c ≡ queued_task
  unfolding create_task
  create_task-queued e =
      if_cases (λ q. q ≡ queued_task) (is_full p) (λ f. cc (f, has_room e)) (λ _. refl)

  take_turn-given :
      (h : ℕ) (w : Handler C)
      → p.tasks ≡ []
      → lookup h p.handlers ≡ some w
      → w.waiting ≡ for_task
      → is_done (p.states p.next_future) ≡ false
      → is_done (p.states (p.next_future + 1)) ≡ false
      → take_turn queued_task h (lookup h p.handlers) sent false ≡ given_task h w.pid
  unfolding begin_task
  take_turn-given h w empty found idle result_pending process_pending =
      ap (λ o. take_turn queued_task h o sent false) found
      ∙ ap (λ x. take_when queued_task h w.pid x sent false) idle
      ∙ ap (λ ts. take_task queued_task h w.pid (ts ++ new_task ∷ []) sent false) empty
      ∙ if_cases (λ q. q ≡ given_task h w.pid)
          (is_done (p.states (p.next_future + 1)) || is_done (p.states p.next_future))
          (λ d. absurd (ground (arith, d, result_pending, process_pending))) (λ _. refl)

  -- A call of a pool that has an idle worker and nothing in its queue gets what the function itself
  -- returns or raises: the task goes to the queue, the handler takes and sends it, the loop of the
  -- worker answers, and the result's future becomes what the function ends in. ProcessError stands for
  -- a function that takes its worker down, and what `set_exception` raises for an exception that it
  -- refuses, as StopIteration. The call's two futures are new, so not done, every packet can be sent,
  -- and is received as it was sent.
  pub run-called :
      (hmac : List ℕ → List ℕ → List ℕ) (call : C → Ending V E)
      (send_fails : Packet V E → Option (Raised E)) (receives : Packet V E → Answer V (Raised E))
      (refuse : Raised E → Option (Raised E)) (h : ℕ) (w : Handler C) (at_eof : Bool)
      → p.tasks ≡ []
      → lookup h p.handlers ≡ some w
      → w.waiting ≡ for_task
      → is_done (p.states p.next_future) ≡ false
      → is_done (p.states (p.next_future + 1)) ≡ false
      → CanSend send_fails
      → Receives receives refuse
      → (run hmac p (
            calls_task c
            ∷ takes h sent false
            ∷ answers h (read_answer receives (answers_of call send_fails c)) at_eof
            ∷ [])).states
          p.next_future
        ≡ called refuse w.pid (call c)
  unfolding run
  run-called hmac call send_fails receives refuse h w at_eof empty found idle result_pending
        process_pending can received =
      let a = read_answer receives (answers_of call send_fails c) in
      let taken = take_turn-given h w empty found idle result_pending process_pending in
      let q = given_task h w.pid in
      let still : is_done (q.states p.next_future) ≡ false = other_future result_pending in
      ap
        (λ (x : WorkerPool V (Raised E) C).
          (run hmac x (takes h sent false ∷ answers h a at_eof ∷ [])).states p.next_future)
        (create_task-queued empty)
      ∙ ap
          (λ (x : WorkerPool V (Raised E) C).
            (run hmac x (answers h a at_eof ∷ [])).states p.next_future)
          taken
      ∙ ap (λ o. (answer_turn q h o a at_eof).states p.next_future)
          (lookup-put_eq h h _ p.handlers (beq_self h))
      ∙ end_task-serve call send_fails receives refuse q h w.pid new_task at_eof can received still
    where
      other_future :
          is_done (p.states p.next_future) ≡ false
          → is_done (
              if nat_beq (p.next_future + 1) p.next_future
              then has_process w.pid
              else p.states p.next_future)
            ≡ false
      other_future n = ground (arith, n)
