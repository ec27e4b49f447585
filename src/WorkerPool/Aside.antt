-- ===== src/WorkerPool/Aside.antt =====
-- What the operations of aiomisc/worker_pool.py that are no turn of a handler leave to the handlers.
use aiomisc.Base.{
  ℕ, ◌+◌, ◌≤◌, ◌≡◌, refl, ap, ◌∙◌, Bool, not, ◌||◌, List, [], ◌∷◌, ◌++◌, arith, nat_beq,
  if◌then◌else◌, if_cases, ◌==◌, nat_eq, list_eq, pair_eq, keep, ◌&&◌, true, false,
}
use aiomisc.Base.Sets.{contains}
use aiomisc.WorkerPool.{
  Fault, FutureState, pending, has_result, has_process, failed, was_cancelled, cancelled_error,
  by_function, by_handler, by_initializer, process_exited, is_done, Task, Handler, Waiting,
  for_task, for_answer, WorkerPool, Answer, answer_result, answer_exception, answer_cancelled,
  answer_other, answer_disconnected, answer_raises, answer_refused, ident, fail_pending,
  set_exception, begin_close,
}
use aiomisc.WorkerPool.Tasks.{
  is_full, put_first, put_waiting, set_answer, settle_answer, signal_worker, cancel_pending,
  cancel_waiting, is_putting, cancel_call, resume_with, resume_call,
}
use aiomisc.WorkerPool.Histories.{forget}

-- How often a result's future is in a list of tasks, or served.
abbrev pub refs : {C : Type 0} → ℕ → List (Task C) → ℕ
refs r [] = 0
refs r (t ∷ ts) = (if nat_beq t.result_future r then 1 else 0) + refs r ts

abbrev pub refs_waiting : {C : Type 0} → ℕ → Waiting C → ℕ
refs_waiting r for_task = 0
refs_waiting r (for_answer t) = if nat_beq t.result_future r then 1 else 0

abbrev pub serves : {C : Type 0} → ℕ → Handler C → ℕ
serves r w = refs_waiting r w.waiting

-- The places of a task in the queue and before it.
abbrev pub queued : {V E C : Type 0} → ℕ → WorkerPool V E C → ℕ
queued r p = refs r p.tasks + refs r p.putting

-- The handlers and their number stay, and no task gets into the queue that did not wait for it.
pub record Aside {V E C : Type 0} (p q : WorkerPool V E C) : Type 0 where
  pub same_handlers : q.handlers ≡ p.handlers
  pub same_processes : q.statistic.processes ≡ p.statistic.processes
  pub fewer : (r : ℕ) → queued r q ≤ queued r p

pub refs-append :
    {C : Type 0} (r : ℕ) (ts us : List (Task C)) → refs r (ts ++ us) ≡ refs r ts + refs r us
refs-append r [] us = omega arith
refs-append r (t ∷ ts) us = omega (arith, refs-append r ts us)

refs-keep :
    {C : Type 0} (r : ℕ) (f : Task C → Bool) (ts : List (Task C)) → refs r (keep f ts) ≤ refs r ts
refs-keep r f [] = omega arith
refs-keep r f (t ∷ ts) =
    if_cases (λ us. refs r us ≤ refs r (t ∷ ts)) (f t) (λ _. omega (arith, refs-keep r f ts))
      (λ _. omega (arith, refs-keep r f ts))

module _ {V E C : Type 0} where
  pub Aside-refl : (p : WorkerPool V E C) → Aside p p
  Aside-refl p = record { same_handlers = refl; same_processes = refl; fewer = λ r. omega arith }

  pub Aside-trans : {p q s : WorkerPool V E C} → Aside p q → Aside q s → Aside p s
  Aside-trans h k = record {
    same_handlers = k.same_handlers ∙ h.same_handlers;
    same_processes = k.same_processes ∙ h.same_processes;
    fewer = λ r. omega (arith, h.fewer r, k.fewer r);
  }

  -- What changes none of these.
  pub other-Aside :
      (p q : WorkerPool V E C)
      → q.handlers ≡ p.handlers
      → q.statistic.processes ≡ p.statistic.processes
      → q.tasks ≡ p.tasks
      → q.putting ≡ p.putting
      → Aside p q
  other-Aside p q h s t u = record {
    same_handlers = h;
    same_processes = s;
    fewer = λ r. omega (arith, ap (refs r) t, ap (refs r) u);
  }

  pub fail_pending-Aside :
      (p : WorkerPool V E C) (i : ℕ) (x : Fault E) → Aside p (fail_pending p i x)
  fail_pending-Aside p i x =
      if_cases (Aside p) (is_done (p.states i)) (λ _. Aside-refl p)
        (λ _. other-Aside p _ refl refl refl refl)

  pub set_exception-Aside :
      (is : List ℕ) (x : Fault E) (p : WorkerPool V E C) → Aside p (set_exception is x p)
  unfolding set_exception
  set_exception-Aside [] x p = Aside-refl p
  set_exception-Aside (i ∷ is) x p =
      Aside-trans (fail_pending-Aside p i x) (set_exception-Aside is x (fail_pending p i x))

  pub begin_close-Aside : (p : WorkerPool V E C) → Aside p (begin_close p)
  unfolding begin_close
  begin_close-Aside p =
      if_cases (Aside p) (p.closing || p.closing_lock) (λ _. Aside-refl p)
        (λ _. other-Aside p _ refl refl refl refl)

  set_answer-Aside : (p : WorkerPool V E C) (i : ℕ) (a : Answer V E) → Aside p (set_answer p i a)
  set_answer-Aside p i (answer_result v) = other-Aside p _ refl refl refl refl
  set_answer-Aside p i (answer_exception e) = other-Aside p _ refl refl refl refl
  set_answer-Aside p i answer_cancelled = other-Aside p _ refl refl refl refl
  set_answer-Aside p i answer_other = Aside-refl p
  set_answer-Aside p i answer_disconnected = Aside-refl p
  set_answer-Aside p i (answer_raises e) = Aside-refl p
  set_answer-Aside p i (answer_refused e) = Aside-refl p

  pub settle_answer-Aside :
      (p : WorkerPool V E C) (i : ℕ) (a : Answer V E) → Aside p (settle_answer p i a)
  settle_answer-Aside p i a =
      if_cases (Aside p) (is_done (p.states i)) (λ _. Aside-refl p) (λ _. set_answer-Aside p i a)

  put_first-Aside :
      (p : WorkerPool V E C) (ts : List (Task C)) → p.putting ≡ ts → Aside p (put_first p ts)
  put_first-Aside p [] h = Aside-refl p
  put_first-Aside p (t ∷ ts) h = record {
    same_handlers = refl;
    same_processes = refl;
    fewer = λ r. omega (arith, refs-append r p.tasks (t ∷ []), ap (refs r) h);
  }

  pub put_waiting-Aside : (p : WorkerPool V E C) → Aside p (put_waiting p)
  unfolding put_waiting
  put_waiting-Aside p =
      if_cases (Aside p) (is_full p) (λ _. Aside-refl p) (λ _. put_first-Aside p p.putting refl)

  cancel_pending-Aside : (p : WorkerPool V E C) (i : ℕ) → Aside p (cancel_pending p i)
  cancel_pending-Aside p i =
      if_cases (Aside p) (is_done (p.states i)) (λ _. Aside-refl p)
        (λ _. other-Aside p _ refl refl refl refl)

  changes-Aside :
      (p q s : WorkerPool V E C)
      → Aside p q
      → s.handlers ≡ q.handlers
      → s.statistic.processes ≡ q.statistic.processes
      → s.tasks ≡ q.tasks
      → s.putting ≡ q.putting
      → Aside p s
  changes-Aside p q s k h n t u = Aside-trans k (other-Aside q s h n t u)

  cancel_waiting-Aside :
      (p : WorkerPool V E C) (i : ℕ) (has_resumed : Bool) (s : FutureState V E)
      → Aside p (cancel_waiting p i has_resumed s)
  cancel_waiting-Aside p i has_resumed pending = cancel_pending-Aside p (i + 1)
  cancel_waiting-Aside p i false (has_process pid) = Aside-refl p
  cancel_waiting-Aside p i true (has_process pid) =
      changes-Aside p (cancel_pending p i) _ (cancel_pending-Aside p i) refl refl refl refl
  cancel_waiting-Aside p i has_resumed (has_result v) = Aside-refl p
  cancel_waiting-Aside p i has_resumed (failed x) = Aside-refl p
  cancel_waiting-Aside p i has_resumed was_cancelled = Aside-refl p

  pub cancel_call-Aside :
      (p : WorkerPool V E C) (i : ℕ) (has_resumed : Bool) → Aside p (cancel_call p i has_resumed)
  unfolding cancel_call
  cancel_call-Aside p i has_resumed =
      if_cases (Aside p) (not (contains ident p.calls i)) (λ _. Aside-refl p)
        (λ _.
          if_cases (Aside p) (is_putting p.putting i)
            (λ _. record {
              same_handlers = refl;
              same_processes = refl;
              fewer = λ r. omega (arith, refs-keep r (λ t. not (t.result_future == i)) p.putting);
            })
            (λ _.
              changes-Aside p (cancel_waiting p i has_resumed (p.states (i + 1))) _
                (cancel_waiting-Aside p i has_resumed (p.states (i + 1))) refl refl refl refl))

  signal_worker-Aside : (p : WorkerPool V E C) (s : FutureState V E) → Aside p (signal_worker p s)
  signal_worker-Aside p (has_process pid) = other-Aside p _ refl refl refl refl
  signal_worker-Aside p pending = Aside-refl p
  signal_worker-Aside p (has_result v) = Aside-refl p
  signal_worker-Aside p (failed x) = Aside-refl p
  signal_worker-Aside p was_cancelled = Aside-refl p

  resume_with-Aside :
      (p : WorkerPool V E C) (i : ℕ) (s : FutureState V E) → Aside p (resume_with p i s)
  resume_with-Aside p i pending = Aside-refl p
  resume_with-Aside p i (has_result v) = other-Aside p _ refl refl refl refl
  resume_with-Aside p i (has_process pid) = other-Aside p _ refl refl refl refl
  resume_with-Aside p i was_cancelled = other-Aside p _ refl refl refl refl
  resume_with-Aside p i (failed cancelled_error) =
      changes-Aside p (signal_worker p (p.states (i + 1))) _
        (signal_worker-Aside p (p.states (i + 1))) refl refl refl refl
  resume_with-Aside p i (failed (by_function e)) = other-Aside p _ refl refl refl refl
  resume_with-Aside p i (failed (by_handler e)) = other-Aside p _ refl refl refl refl
  resume_with-Aside p i (failed (by_initializer e)) = other-Aside p _ refl refl refl refl
  resume_with-Aside p i (failed (process_exited pid)) = other-Aside p _ refl refl refl refl

  pub resume_call-Aside : (p : WorkerPool V E C) (i : ℕ) → Aside p (resume_call p i)
  unfolding resume_call
  resume_call-Aside p i =
      if_cases (Aside p) (contains ident p.calls i && not (is_putting p.putting i))
        (λ _. resume_with-Aside p i (p.states i)) (λ _. Aside-refl p)

  pub forget-Aside : (p : WorkerPool V E C) (i : ℕ) → Aside p (forget p i)
  unfolding forget
  forget-Aside p i =
      if_cases (Aside p) (is_done (p.states i)) (λ _. other-Aside p _ refl refl refl refl)
        (λ _. Aside-refl p)
