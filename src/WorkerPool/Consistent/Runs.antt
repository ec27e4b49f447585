-- ===== src/WorkerPool/Consistent/Runs.antt =====
-- Every history of the pool of aiomisc/worker_pool.py keeps it consistent.
use aiomisc.Base.{
  ℕ, ◌+◌, ◌≡◌, refl, Bool, not, List, [], ◌∷◌, arith, if_cases, ◌==◌, beq_self, nat_eq, list_eq,
  pair_eq,
}
use aiomisc.Base.Dict.{Dict, lookup, take_out}
use aiomisc.Worker.Process.{PacketType}
use aiomisc.Base.Sets.{add}
use aiomisc.WorkerPool.{
  ident, is_done, Handler, for_task, WorkerPool, Greeting, by_initializer, cancelled_error, has_id,
  is_auth, is_bad_initializer, is_exception, end_handler, cancel_handlers, end_close, accept,
  task_add, obey_bad_initializer, handle_client,
}
use aiomisc.WorkerPool.Histories.{
  Event, connects, calls_task, puts, takes, answers, cancels, resumes, forgets, begins_close,
  ends_close, forget, step, run,
}
use aiomisc.WorkerPool.Kept.{
  Kept-refl, Kept-trans, task_add-Kept, set_exception-Kept, begin_close-Kept, put_waiting-Kept,
  obey_bad_initializer-Kept,
}
use aiomisc.WorkerPool.Kept.Turns.{cancel_call-Kept, resume_call-Kept}
use aiomisc.WorkerPool.Aside.{
  Aside, Aside-refl, Aside-trans, other-Aside, set_exception-Aside, begin_close-Aside,
  put_waiting-Aside, cancel_call-Aside, resume_call-Aside,
}
use aiomisc.WorkerPool.Consistent.{
  IsConsistent, Aside-IsConsistent, end_handler-IsConsistent, create_task-IsConsistent,
}
use aiomisc.WorkerPool.Consistent.Turns.{
  then_loops, take_turn-IsConsistent, answer_turn-IsConsistent,
}

module _ {V E C : Type 0} where
  accept-IsConsistent :
      (p : WorkerPool V E C) (pid : ℕ) (at_eof : Bool)
      → IsConsistent p
      → IsConsistent (accept p pid at_eof)
  unfolding accept lookup
  accept-IsConsistent p pid at_eof c =
      let q = record p {
        statistic = record p.statistic {
          processes = p.statistic.processes + 1;
          spawning = p.statistic.spawning + 1;
        };
        pids = add ident pid p.pids;
        handlers = (p.next_handler, record { pid = pid; waiting = for_task }) ∷ p.handlers;
        next_handler = p.next_handler + 1;
      } in
      then_loops q q p.next_handler pid at_eof (record { pid = pid; waiting = for_task })
        (rw (beq_self p.next_handler) refl) (Kept-refl q) (Aside-refl q)
        (record {
          counted = omega (arith, c.counted);
          served = (tt, c.served);
          exclusive = λ r. omega (arith, c.exclusive r);
          new_ones = λ r le. omega (arith, c.new_ones r le);
        })

  task_add-IsConsistent : (p : WorkerPool V E C) → IsConsistent p → IsConsistent (task_add p)
  task_add-IsConsistent p c =
      Aside-IsConsistent p _ (task_add-Kept (Kept-refl (task_add p)))
        (other-Aside p _ refl refl refl refl) c

  obey_bad_initializer-Aside :
      (p : WorkerPool V E C) (g : Greeting E) → Aside p (obey_bad_initializer p g)
  obey_bad_initializer-Aside p g =
      if_cases (Aside p) (is_exception g.second_type)
        (λ _. set_exception-Aside p.futures (by_initializer g.second_exc) p) (λ _. Aside-refl p)

  handle_client-IsConsistent :
      (hmac : List ℕ → List ℕ → List ℕ) (p : WorkerPool V E C) (g : Greeting E) (at_eof : Bool)
      → IsConsistent p
      → IsConsistent (handle_client hmac p g at_eof).1
  unfolding handle_client
  handle_client-IsConsistent hmac p₀ g at_eof c₀ =
      let p = task_add p₀ in
      let c = task_add-IsConsistent p₀ c₀ in
      if_cases (λ (r : List PacketType × WorkerPool V E C). IsConsistent r.1)
        (is_bad_initializer g.packet_type)
        (λ _.
          Aside-IsConsistent p _
            (Kept-trans (obey_bad_initializer-Kept p g)
              (begin_close-Kept (obey_bad_initializer p g)))
            (Aside-trans (obey_bad_initializer-Aside p g)
              (begin_close-Aside (obey_bad_initializer p g)))
            c)
        (λ _.
          if_cases (λ (r : List PacketType × WorkerPool V E C). IsConsistent r.1)
            (not (is_auth g.packet_type)) (λ _. c)
            (λ _.
              if_cases (λ (r : List PacketType × WorkerPool V E C). IsConsistent r.1)
                (not (has_id p.workers g.worker_id)) (λ _. c)
                (λ _.
                  if_cases (λ (r : List PacketType × WorkerPool V E C). IsConsistent r.1)
                    (not (hmac p.cookie g.worker_id == g.digest)) (λ _. c)
                    (λ _. accept-IsConsistent p g.pid at_eof c))))

  -- The handlers are cancelled one after the other, until there is none.
  ended_head :
      (p : WorkerPool V E C) (h : ℕ) (w : Handler C) (hs : Dict ℕ (Handler C))
      → p.handlers ≡ (h, w) ∷ hs
      → (end_handler p h w.pid).handlers ≡ hs
  unfolding end_handler take_out
  ended_head p h w hs e = rw (e, beq_self h) refl

  cancel_handlers-IsConsistent :
      (hs : Dict ℕ (Handler C)) (p : WorkerPool V E C)
      → p.handlers ≡ hs
      → IsConsistent p
      → IsConsistent (cancel_handlers hs p)
  unfolding cancel_handlers lookup
  cancel_handlers-IsConsistent [] p e c = c
  cancel_handlers-IsConsistent ((h, w) ∷ hs) p e c =
      cancel_handlers-IsConsistent hs (end_handler p h w.pid) (ended_head p h w hs e)
        (end_handler-IsConsistent p h w.pid w (rw (e, beq_self h) refl) c)

  end_close-IsConsistent : (p : WorkerPool V E C) → IsConsistent p → IsConsistent (end_close p)
  unfolding end_close
  end_close-IsConsistent p c =
      let p₁ = cancel_handlers p.handlers p in
      let k = set_exception-Kept p₁.futures cancelled_error p₁ in
      let a = set_exception-Aside p₁.futures cancelled_error p₁ in
      if_cases IsConsistent p.closing_lock
        (λ _.
          Aside-IsConsistent p₁ _
            (record {
              same_next = k.same_next;
              same_futures = k.same_futures;
              same_workers = k.same_workers;
              same_cookie = k.same_cookie;
              stays = k.stays;
            })
            (Aside-trans a (other-Aside _ _ refl refl refl refl))
            (cancel_handlers-IsConsistent p.handlers p refl c))
        (λ _. c)

  forget-IsConsistent : (p : WorkerPool V E C) (i : ℕ) → IsConsistent p → IsConsistent (forget p i)
  unfolding forget
  forget-IsConsistent p i c =
      if_cases IsConsistent (is_done (p.states i))
        (λ _. record {
          counted = c.counted;
          served = c.served;
          exclusive = c.exclusive;
          new_ones = c.new_ones;
        })
        (λ _. c)

  module _ (hmac : List ℕ → List ℕ → List ℕ) where
    step-IsConsistent :
        (p : WorkerPool V E C) (event : Event V E C)
        → IsConsistent p
        → IsConsistent (step hmac p event)
    step-IsConsistent p (connects g at_eof) c =
        if_cases IsConsistent p.closing_lock (λ _. c)
          (λ _. handle_client-IsConsistent hmac p g at_eof c)
    step-IsConsistent p (calls_task x) c = create_task-IsConsistent p x c
    step-IsConsistent p puts c = Aside-IsConsistent p _ (put_waiting-Kept p) (put_waiting-Aside p) c
    step-IsConsistent p (takes h sending at_eof) c =
        take_turn-IsConsistent p h (lookup h p.handlers) sending at_eof refl c
    step-IsConsistent p (answers h a at_eof) c =
        answer_turn-IsConsistent p h (lookup h p.handlers) a at_eof refl c
    step-IsConsistent p (cancels i has_resumed) c =
        Aside-IsConsistent p _ (cancel_call-Kept p i has_resumed)
          (cancel_call-Aside p i has_resumed) c
    step-IsConsistent p (resumes i) c =
        Aside-IsConsistent p _ (resume_call-Kept p i) (resume_call-Aside p i) c
    step-IsConsistent p (forgets i) c = forget-IsConsistent p i c
    step-IsConsistent p begins_close c =
        Aside-IsConsistent p _ (begin_close-Kept p) (begin_close-Aside p) c
    step-IsConsistent p ends_close c = end_close-IsConsistent p c

    pub run-IsConsistent :
        (p : WorkerPool V E C) (events : List (Event V E C))
        → IsConsistent p
        → IsConsistent (run hmac p events)
    unfolding run
    run-IsConsistent p [] c = c
    run-IsConsistent p (event ∷ events) c =
        run-IsConsistent (step hmac p event) events (step-IsConsistent p event c)
