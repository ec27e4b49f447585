-- ===== src/WorkerPool/Kept.antt =====
-- What the operations of aiomisc/worker_pool.py keep of its futures.
pub mod Turns
use aiomisc.Base.{
  ℕ, ℕ, ◌≡◌, refl, ap, ◌∙◌, inl, inr, Bool, true, false, not, ◌||◌, List, [], ◌∷◌, arith, nat_beq,
  nat_beq_iff, Bool-cases, if_cases, ◌==◌, nat_eq, list_eq, pair_eq, ◌-◌, ◌/◌, keep,
}
use aiomisc.Base.Dict.{Dict}
use aiomisc.Base.Sets.{contains}
use aiomisc.Worker.Process.{PacketType}
use aiomisc.WorkerPool.{
  Fault, FutureState, pending, has_result, has_process, failed, was_cancelled, cancelled_error,
  by_function, by_handler, by_initializer, process_exited, is_done, Task, Waiting, for_task,
  for_answer, Handler, WorkerPool, Greeting, Sending, sent, send_disconnected, send_raises, Answer,
  answer_result, answer_exception, answer_cancelled, answer_other, answer_disconnected,
  answer_raises, ident, is_exception, is_bad_initializer, is_auth, has_id, set_state, fail_pending,
  set_exception, end_handler, loop_head, begin_close, cancel_handlers, accept, task_add,
  obey_bad_initializer, handle_client,
}
use aiomisc.WorkerPool.Tasks.{
  is_full, put_first, put_waiting, after_send, begin_task, take_task, set_answer, settle_answer,
  end_task, take_when, take_turn, answer_when, answer_turn, signal_worker, cancel_pending,
  cancel_waiting, is_putting, end_call, cancel_call, resume_with, resume_call,
}

-- Futures that are done keep their state, and no future is made, or taken out of the set; and who may
-- connect stays.
pub record Kept {V E C : Type 0} (p q : WorkerPool V E C) : Type 0 where
  pub same_next : q.next_future ≡ p.next_future
  pub same_futures : q.futures ≡ p.futures
  pub same_workers : q.workers ≡ p.workers
  pub same_cookie : q.cookie ≡ p.cookie
  pub stays : (i : ℕ) → is_done (p.states i) ≡ true → q.states i ≡ p.states i

pub or_false : (a b : Bool) → (a || b) ≡ false → a ≡ false
or_false a b h = ground arith

module _ {V E C : Type 0} where
  pub Kept-refl : (p : WorkerPool V E C) → Kept p p
  Kept-refl p = record {
    same_next = refl;
    same_futures = refl;
    same_workers = refl;
    same_cookie = refl;
    stays = λ i d. refl;
  }

  pub Kept-trans : {p q r : WorkerPool V E C} → Kept p q → Kept q r → Kept p r
  Kept-trans h k = record {
    same_next = k.same_next ∙ h.same_next;
    same_futures = k.same_futures ∙ h.same_futures;
    same_workers = k.same_workers ∙ h.same_workers;
    same_cookie = k.same_cookie ∙ h.same_cookie;
    stays = λ i d. k.stays i (ap is_done (h.stays i d) ∙ d) ∙ h.stays i d;
  }

  -- To set a future that is not done.
  pub set_state-Kept :
      (p : WorkerPool V E C) (i : ℕ) (s : FutureState V E)
      → is_done (p.states i) ≡ false
      → Kept p (set_state p i s)
  set_state-Kept p i s n = record {
    same_next = refl;
    same_futures = refl;
    same_workers = refl;
    same_cookie = refl;
    stays = λ j d. elim (Bool-cases (nat_beq i j)) [
      | inl e ↦ cc (n, d, (nat_beq_iff i j).0 e)
      | inr o ↦ rw o
    ];
  }

  pub fail_pending-Kept : (p : WorkerPool V E C) (i : ℕ) (x : Fault E) → Kept p (fail_pending p i x)
  fail_pending-Kept p i x =
      if_cases (Kept p) (is_done (p.states i)) (λ _. Kept-refl p)
        (λ n. set_state-Kept p i (failed x) n)

  pub set_exception-Kept :
      (is : List ℕ) (x : Fault E) (p : WorkerPool V E C) → Kept p (set_exception is x p)
  unfolding set_exception
  set_exception-Kept [] x p = Kept-refl p
  set_exception-Kept (i ∷ is) x p =
      Kept-trans (fail_pending-Kept p i x) (set_exception-Kept is x (fail_pending p i x))

  pub end_handler-Kept : (p : WorkerPool V E C) (h pid : ℕ) → Kept p (end_handler p h pid)
  unfolding end_handler
  end_handler-Kept p h pid = record {
    same_next = refl;
    same_futures = refl;
    same_workers = refl;
    same_cookie = refl;
    stays = λ i d. refl;
  }

  pub loop_head-Kept :
      (p : WorkerPool V E C) (h pid : ℕ) (at_eof : Bool) → Kept p (loop_head p h pid at_eof)
  unfolding loop_head
  loop_head-Kept p h pid true = end_handler-Kept p h pid
  loop_head-Kept p h pid false = record {
    same_next = refl;
    same_futures = refl;
    same_workers = refl;
    same_cookie = refl;
    stays = λ i d. refl;
  }

  pub begin_close-Kept : (p : WorkerPool V E C) → Kept p (begin_close p)
  unfolding begin_close
  begin_close-Kept p =
      if_cases (Kept p) (p.closing || p.closing_lock) (λ _. Kept-refl p)
        (λ _. record {
          same_next = refl;
          same_futures = refl;
          same_workers = refl;
          same_cookie = refl;
          stays = λ i d. refl;
        })

  pub cancel_handlers-Kept :
      (hs : Dict ℕ (Handler C)) (p : WorkerPool V E C) → Kept p (cancel_handlers hs p)
  unfolding cancel_handlers
  cancel_handlers-Kept [] p = Kept-refl p
  cancel_handlers-Kept ((h, w) ∷ hs) p =
      Kept-trans (end_handler-Kept p h w.pid) (cancel_handlers-Kept hs (end_handler p h w.pid))

  accept-Kept : (p : WorkerPool V E C) (pid : ℕ) (at_eof : Bool) → Kept p (accept p pid at_eof)
  unfolding accept
  accept-Kept p pid at_eof =
      let k = loop_head-Kept _ p.next_handler pid at_eof in
      record {
        same_next = k.same_next;
        same_futures = k.same_futures;
        same_workers = k.same_workers;
        same_cookie = k.same_cookie;
        stays = k.stays;
      }

  pub task_add-Kept : {p q : WorkerPool V E C} → Kept (task_add p) q → Kept p q
  task_add-Kept k = record {
    same_next = k.same_next;
    same_futures = k.same_futures;
    same_workers = k.same_workers;
    same_cookie = k.same_cookie;
    stays = k.stays;
  }

  pub obey_bad_initializer-Kept :
      (p : WorkerPool V E C) (g : Greeting E) → Kept p (obey_bad_initializer p g)
  obey_bad_initializer-Kept p g =
      if_cases (Kept p) (is_exception g.second_type)
        (λ _. set_exception-Kept p.futures (by_initializer g.second_exc) p) (λ _. Kept-refl p)

  pub handle_client-Kept :
      (hmac : List ℕ → List ℕ → List ℕ) (p : WorkerPool V E C) (g : Greeting E) (at_eof : Bool)
      → Kept p (handle_client hmac p g at_eof).1
  unfolding handle_client
  handle_client-Kept hmac p₀ g at_eof =
      let p = task_add p₀ in
      if_cases (λ (r : List PacketType × WorkerPool V E C). Kept p₀ r.1)
        (is_bad_initializer g.packet_type)
        (λ _. task_add-Kept (
          Kept-trans (obey_bad_initializer-Kept p g) (begin_close-Kept (obey_bad_initializer p g))))
        (λ _.
          if_cases (λ (r : List PacketType × WorkerPool V E C). Kept p₀ r.1)
            (not (is_auth g.packet_type)) (λ _. task_add-Kept (Kept-refl p))
            (λ _.
              if_cases (λ (r : List PacketType × WorkerPool V E C). Kept p₀ r.1)
                (not (has_id p.workers g.worker_id)) (λ _. task_add-Kept (Kept-refl p))
                (λ _.
                  if_cases (λ (r : List PacketType × WorkerPool V E C). Kept p₀ r.1)
                    (not (hmac p.cookie g.worker_id == g.digest)) (λ _. task_add-Kept (Kept-refl p))
                    (λ _. task_add-Kept (accept-Kept p g.pid at_eof)))))

  pub put_waiting-Kept : (p : WorkerPool V E C) → Kept p (put_waiting p)
  unfolding put_waiting
  put_waiting-Kept p =
      if_cases (Kept p) (is_full p) (λ _. Kept-refl p) (λ _. put_first-Kept p.putting)
    where
      put_first-Kept : (ts : List (Task C)) → Kept p (put_first p ts)
      put_first-Kept [] = Kept-refl p
      put_first-Kept (t ∷ ts) = record {
        same_next = refl;
        same_futures = refl;
        same_workers = refl;
        same_cookie = refl;
        stays = λ i d. refl;
      }
