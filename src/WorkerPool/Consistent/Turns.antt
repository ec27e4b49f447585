-- ===== src/WorkerPool/Consistent/Turns.antt =====
-- The turns of the handlers of aiomisc/worker_pool.py, and with them every history of a pool, keep it
-- consistent.
use aiomisc.Base.{
  ℕ, ◌≡◌, refl, ap, ◌∙◌, Bool, true, false, ◌||◌, Option, none, some, List, [], ◌∷◌, arith,
  nat_beq_iff, if_cases, nat_eq, list_eq, pair_eq,
}
use aiomisc.Base.Dict.{lookup}
use aiomisc.WorkerPool.{
  Fault, has_process, is_done, Task, Handler, Waiting, for_task, for_answer, WorkerPool, Sending,
  sent, send_disconnected, send_raises, Answer, answer_result, answer_exception, answer_cancelled,
  answer_other, answer_disconnected, answer_raises, answer_refused, by_handler, process_exited,
  set_state, fail_pending, end_handler, loop_head,
}
use aiomisc.WorkerPool.Tasks.{
  after_send, begin_task, take_task, take_when, take_turn, settle_answer, end_task, answer_when,
  answer_turn,
}
use aiomisc.WorkerPool.Kept.{
  Kept-refl, Kept, Kept-trans, or_false, set_state-Kept, fail_pending-Kept,
}
use aiomisc.WorkerPool.Kept.Turns.{settle_answer-Kept}
use aiomisc.WorkerPool.Aside.{
  Aside, Aside-refl, Aside-trans, other-Aside, fail_pending-Aside, settle_answer-Aside, refs,
}
use aiomisc.WorkerPool.Consistent.{
  IsConsistent, Aside-IsConsistent, replace-IsConsistent, end_handler-IsConsistent,
}

module _ {V E C : Type 0} where
  -- What a handler does before it ends, or goes back to its loop.
  then_ends :
      (p q : WorkerPool V E C) (h pid : ℕ) (w : Handler C)
      → lookup h p.handlers ≡ some w
      → Kept p q
      → Aside p q
      → IsConsistent p
      → IsConsistent (end_handler q h pid)
  then_ends p q h pid w found k a c =
      end_handler-IsConsistent q h pid w (ap (lookup h) a.same_handlers ∙ found)
        (Aside-IsConsistent p q k a c)

  pub then_loops :
      (p q : WorkerPool V E C) (h pid : ℕ) (at_eof : Bool) (w : Handler C)
      → lookup h p.handlers ≡ some w
      → Kept p q
      → Aside p q
      → IsConsistent p
      → IsConsistent (loop_head q h pid at_eof)
  unfolding loop_head
  then_loops p q h pid true w found k a c = then_ends p q h pid w found k a c
  then_loops p q h pid false w found k a c =
      replace-IsConsistent q _ h w (record { pid = pid; waiting = for_task })
        (ap (lookup h) a.same_handlers ∙ found) refl refl refl (λ r. omega arith) (λ i d. refl) tt
        (Aside-IsConsistent p q k a c)

  -- A task that is taken from the queue.
  taken-Kept : (p : WorkerPool V E C) (ts : List (Task C)) → Kept p (record p { tasks = ts })
  taken-Kept p ts = record {
    same_next = refl;
    same_futures = refl;
    same_workers = refl;
    same_cookie = refl;
    stays = λ i d. refl;
  }

  taken-Aside :
      (p : WorkerPool V E C) (t : Task C) (ts : List (Task C))
      → p.tasks ≡ t ∷ ts
      → Aside p (record p { tasks = ts })
  taken-Aside p t ts queue = record {
    same_handlers = refl;
    same_processes = refl;
    fewer = λ r. omega (arith, ap (refs r) queue);
  }

  failed_send-IsConsistent :
      (p : WorkerPool V E C) (h : ℕ) (w : Handler C) (t : Task C) (ts : List (Task C)) (x : Fault E)
      → lookup h p.handlers ≡ some w
      → p.tasks ≡ t ∷ ts
      → is_done (p.states t.process_future) ≡ false
      → IsConsistent p
      → IsConsistent (
          end_handler
            (fail_pending
              (set_state (record p { tasks = ts }) t.process_future (has_process w.pid))
              t.result_future
              x)
            h
            w.pid)
  failed_send-IsConsistent p h w t ts x found queue n c =
      let p₁ = record p { tasks = ts } in
      let p₂ = set_state p₁ t.process_future (has_process w.pid) in
      then_ends p _ h w.pid w found
        (Kept-trans (taken-Kept p ts) (
          Kept-trans (set_state-Kept p₁ t.process_future (has_process w.pid) n)
            (fail_pending-Kept p₂ t.result_future x)))
        (Aside-trans (taken-Aside p t ts queue) (
          Aside-trans (other-Aside p₁ p₂ refl refl refl refl)
            (fail_pending-Aside p₂ t.result_future x)))
        c

  after_send-IsConsistent :
      (p : WorkerPool V E C) (h : ℕ) (w : Handler C) (t : Task C) (ts : List (Task C))
      (sending : Sending E)
      → lookup h p.handlers ≡ some w
      → p.tasks ≡ t ∷ ts
      → is_done (p.states t.process_future) ≡ false
      → IsConsistent p
      → IsConsistent (
          after_send
            (set_state (record p { tasks = ts }) t.process_future (has_process w.pid))
            h
            w.pid
            t
            sending)
  after_send-IsConsistent p h w t ts sent found queue n c =
      replace-IsConsistent p _ h w (record { pid = w.pid; waiting = for_answer t }) found refl refl
        refl (λ r. omega (arith, ap (refs r) queue))
        (set_state-Kept p t.process_future (has_process w.pid) n).stays
        (rw ((nat_beq_iff t.process_future t.process_future).1 refl) refl) c
  after_send-IsConsistent p h w t ts send_disconnected found queue n c =
      failed_send-IsConsistent p h w t ts (process_exited w.pid) found queue n c
  after_send-IsConsistent p h w t ts (send_raises e) found queue n c =
      failed_send-IsConsistent p h w t ts (by_handler e) found queue n c

  take_task-IsConsistent :
      (p : WorkerPool V E C) (h : ℕ) (w : Handler C) (ts : List (Task C)) (sending : Sending E)
      (at_eof : Bool)
      → lookup h p.handlers ≡ some w
      → p.tasks ≡ ts
      → IsConsistent p
      → IsConsistent (take_task p h w.pid ts sending at_eof)
  unfolding begin_task
  take_task-IsConsistent p h w [] sending at_eof found queue c = c
  take_task-IsConsistent p h w (t ∷ ts) sending at_eof found queue c =
      if_cases IsConsistent
        (is_done (p.states t.process_future) || is_done (p.states t.result_future))
        (λ _.
          then_loops p (record p { tasks = ts }) h w.pid at_eof w found (taken-Kept p ts)
            (taken-Aside p t ts queue) c)
        (λ n. after_send-IsConsistent p h w t ts sending found queue (or_false _ _ n) c)

  take_when-IsConsistent :
      (p : WorkerPool V E C) (h : ℕ) (w : Handler C) (wait : Waiting C) (sending : Sending E)
      (at_eof : Bool)
      → lookup h p.handlers ≡ some w
      → IsConsistent p
      → IsConsistent (take_when p h w.pid wait sending at_eof)
  take_when-IsConsistent p h w for_task sending at_eof found c =
      take_task-IsConsistent p h w p.tasks sending at_eof found refl c
  take_when-IsConsistent p h w (for_answer t) sending at_eof found c = c

  pub take_turn-IsConsistent :
      (p : WorkerPool V E C) (h : ℕ) (o : Option (Handler C)) (sending : Sending E) (at_eof : Bool)
      → lookup h p.handlers ≡ o
      → IsConsistent p
      → IsConsistent (take_turn p h o sending at_eof)
  take_turn-IsConsistent p h none sending at_eof found c = c
  take_turn-IsConsistent p h (some w) sending at_eof found c =
      take_when-IsConsistent p h w w.waiting sending at_eof found c

  -- An answer.
  settled_then_loops :
      (p : WorkerPool V E C) (h : ℕ) (w : Handler C) (i : ℕ) (a : Answer V E) (at_eof : Bool)
      → lookup h p.handlers ≡ some w
      → IsConsistent p
      → IsConsistent (loop_head (settle_answer p i a) h w.pid at_eof)
  settled_then_loops p h w i a at_eof found c =
      then_loops p _ h w.pid at_eof w found (settle_answer-Kept p i a) (settle_answer-Aside p i a) c

  end_task-IsConsistent :
      (p : WorkerPool V E C) (h : ℕ) (w : Handler C) (t : Task C) (a : Answer V E) (at_eof : Bool)
      → lookup h p.handlers ≡ some w
      → IsConsistent p
      → IsConsistent (end_task p h w.pid t a at_eof)
  unfolding end_task
  end_task-IsConsistent p h w t answer_disconnected at_eof found c =
      then_ends p _ h w.pid w found (fail_pending-Kept p t.result_future _)
        (fail_pending-Aside p t.result_future _) c
  end_task-IsConsistent p h w t (answer_raises e) at_eof found c =
      then_ends p _ h w.pid w found (fail_pending-Kept p t.result_future _)
        (fail_pending-Aside p t.result_future _) c
  end_task-IsConsistent p h w t (answer_refused e) at_eof found c =
      if_cases IsConsistent (is_done (p.states t.result_future))
        (λ _. then_loops p p h w.pid at_eof w found (Kept-refl p) (Aside-refl p) c)
        (λ _.
          then_ends p _ h w.pid w found (fail_pending-Kept p t.result_future _)
            (fail_pending-Aside p t.result_future _) c)
  end_task-IsConsistent p h w t (answer_result v) at_eof found c =
      settled_then_loops p h w t.result_future (answer_result v) at_eof found c
  end_task-IsConsistent p h w t (answer_exception e) at_eof found c =
      settled_then_loops p h w t.result_future (answer_exception e) at_eof found c
  end_task-IsConsistent p h w t answer_cancelled at_eof found c =
      settled_then_loops p h w t.result_future answer_cancelled at_eof found c
  end_task-IsConsistent p h w t answer_other at_eof found c =
      settled_then_loops p h w t.result_future answer_other at_eof found c

  answer_when-IsConsistent :
      (p : WorkerPool V E C) (h : ℕ) (w : Handler C) (wait : Waiting C) (a : Answer V E)
      (at_eof : Bool)
      → lookup h p.handlers ≡ some w
      → IsConsistent p
      → IsConsistent (answer_when p h w.pid wait a at_eof)
  answer_when-IsConsistent p h w for_task a at_eof found c = c
  answer_when-IsConsistent p h w (for_answer t) a at_eof found c =
      end_task-IsConsistent p h w t a at_eof found c

  pub answer_turn-IsConsistent :
      (p : WorkerPool V E C) (h : ℕ) (o : Option (Handler C)) (a : Answer V E) (at_eof : Bool)
      → lookup h p.handlers ≡ o
      → IsConsistent p
      → IsConsistent (answer_turn p h o a at_eof)
  answer_turn-IsConsistent p h none a at_eof found c = c
  answer_turn-IsConsistent p h (some w) a at_eof found c =
      answer_when-IsConsistent p h w w.waiting a at_eof found c
