-- ===== src/WorkerPool/Consistent.antt =====
-- What holds of every pool of aiomisc/worker_pool.py between two steps, and the ways in which a step
-- keeps it.
pub mod Turns
pub mod Runs
pub mod Workers
use aiomisc.Base.{
  ℕ, ◌+◌, ◌-◌, ◌/◌, ◌≤◌, ◌≡◌, refl, sym, ap, subst, ◌∙◌, true, some, List, [], ◌∷◌, arith, if_cases,
  nat_eq, list_eq, pair_eq, All, All-map,
}
use aiomisc.Base.Dict.{
  Dict, lookup, put, take_out, All-put, All-take_out, All-lookup, total, total-put, total-take_out,
}
use aiomisc.WorkerPool.{
  FutureState, has_process, is_done, Task, Handler, Waiting, for_task, for_answer, WorkerPool,
  new_worker_pool, end_handler,
}
use aiomisc.WorkerPool.Tasks.{is_full, create_task}
use aiomisc.WorkerPool.Kept.{Kept}
use aiomisc.WorkerPool.Aside.{Aside, refs, refs-append, refs_waiting, serves, queued}

-- A task that is served: its process future tells which worker has it.
abbrev pub HasProcess : {V E C : Type 0} → (ℕ → FutureState V E) → ℕ → Waiting C → Type 0
HasProcess states pid for_task = Unit
HasProcess states pid (for_answer t) = states t.process_future ≡ has_process pid

abbrev pub AllServed : {V E C : Type 0} → (ℕ → FutureState V E) → Dict ℕ (Handler C) → Type 0
AllServed states hs = All (λ (h : ℕ × Handler _). HasProcess states h.1.pid h.1.waiting) hs

abbrev pub one : {C : Type 0} → Handler C → ℕ
one w = 1

-- The places of a task: in the queue, before it, and with the handlers.
abbrev pub held : {V E C : Type 0} → ℕ → WorkerPool V E C → ℕ
held r p = queued r p + total (serves r) p.handlers

pub record IsConsistent {V E C : Type 0} (p : WorkerPool V E C) : Type 0 where
  pub counted : total one p.handlers ≡ p.statistic.processes
  pub served : AllServed p.states p.handlers
  pub exclusive : (r : ℕ) → held r p ≤ 1
  pub new_ones : (r : ℕ) → p.next_future ≤ r → held r p ≡ 0

abbrev pub Stays : {V E : Type 0} → (ℕ → FutureState V E) → (ℕ → FutureState V E) → Type 0
Stays before after = (i : ℕ) → is_done (before i) ≡ true → after i ≡ before i

HasProcess-Stays :
    {V E C : Type 0} (before after : ℕ → FutureState V E) (pid : ℕ) (w : Waiting C)
    → Stays before after
    → HasProcess before pid w
    → HasProcess after pid w
HasProcess-Stays before after pid for_task s h = tt
HasProcess-Stays before after pid (for_answer t) s h = s t.process_future (ap is_done h) ∙ h

pub AllServed-Stays :
    {V E C : Type 0} (before after : ℕ → FutureState V E) (hs : Dict ℕ (Handler C))
    → Stays before after
    → AllServed before hs
    → AllServed after hs
AllServed-Stays before after hs s =
    All-map _ _ hs (λ h. HasProcess-Stays before after h.1.pid h.1.waiting s)

pub new_worker_pool-IsConsistent :
    (V E C : Type 0) (ids : List (List ℕ)) (cookie : List ℕ) (n : ℕ)
    → IsConsistent (new_worker_pool {V = V} {E = E} {C = C} ids cookie n)
unfolding new_worker_pool
new_worker_pool-IsConsistent V E C ids cookie n = record {
  counted = refl;
  served = tt;
  exclusive = λ r. omega arith;
  new_ones = λ r h. refl;
}

module _ {V E C : Type 0} where
  pub Aside-IsConsistent :
      (p q : WorkerPool V E C) → Kept p q → Aside p q → IsConsistent p → IsConsistent q
  Aside-IsConsistent p q k a c = record {
    counted = ap (total one) a.same_handlers ∙ c.counted ∙ sym a.same_processes;
    served =
        subst (AllServed q.states) (sym a.same_handlers)
          (AllServed-Stays p.states q.states p.handlers k.stays c.served);
    exclusive = λ r. omega (arith, a.fewer r, ap (total (serves r)) a.same_handlers, c.exclusive r);
    new_ones = λ r h. omega (
      arith,
      a.fewer r,
      ap (total (serves r)) a.same_handlers,
      c.new_ones r (subst (λ n. n ≤ r) k.same_next h),
    );
  }

  -- A handler changes what it waits for; no place of a task is new.
  pub replace-IsConsistent :
      (p q : WorkerPool V E C) (h : ℕ) (w w' : Handler C)
      → lookup h p.handlers ≡ some w
      → q.handlers ≡ put h w' p.handlers
      → q.statistic.processes ≡ p.statistic.processes
      → q.next_future ≡ p.next_future
      → ((r : ℕ) → queued r q + serves r w' ≤ queued r p + serves r w)
      → Stays p.states q.states
      → HasProcess q.states w'.pid w'.waiting
      → IsConsistent p
      → IsConsistent q
  replace-IsConsistent p q h w w' found hs n next_ fewer s new c = record {
    counted = omega (arith, ap (total one) hs, total-put one h w' w p.handlers found, c.counted, n);
    served = subst (AllServed q.states) (sym hs) (
        All-put _ h w' p.handlers (λ j. new)
          (AllServed-Stays p.states q.states p.handlers s c.served));
    exclusive = λ r. omega (
      arith,
      fewer r,
      ap (total (serves r)) hs,
      total-put (serves r) h w' w p.handlers found,
      c.exclusive r,
    );
    new_ones = λ r le. omega (
      arith,
      fewer r,
      ap (total (serves r)) hs,
      total-put (serves r) h w' w p.handlers found,
      c.new_ones r (subst (λ m. m ≤ r) next_ le),
    );
  }

  -- A handler ends.
  pub end_handler-IsConsistent :
      (p : WorkerPool V E C) (h pid : ℕ) (w : Handler C)
      → lookup h p.handlers ≡ some w
      → IsConsistent p
      → IsConsistent (end_handler p h pid)
  unfolding end_handler
  end_handler-IsConsistent p h pid w found c = record {
    counted = omega (arith, total-take_out one h w p.handlers found, c.counted);
    served = All-take_out _ h p.handlers c.served;
    exclusive = λ r. omega (arith, total-take_out (serves r) h w p.handlers found, c.exclusive r);
    new_ones =
        λ r le. omega (arith, total-take_out (serves r) h w p.handlers found, c.new_ones r le);
  }

  pub create_task-IsConsistent :
      (p : WorkerPool V E C) (c : C) → IsConsistent p → IsConsistent (create_task p c)
  unfolding create_task
  create_task-IsConsistent p c k =
      if_cases IsConsistent (is_full p)
        (λ _. record {
          counted = k.counted;
          served = k.served;
          exclusive =
              λ r. ground (arith, refs-append r p.putting (t ∷ []), k.exclusive r, k.new_ones r);
          new_ones = λ r le. ground (arith, refs-append r p.putting (t ∷ []), k.new_ones r);
        })
        (λ _. record {
          counted = k.counted;
          served = k.served;
          exclusive =
              λ r. ground (arith, refs-append r p.tasks (t ∷ []), k.exclusive r, k.new_ones r);
          new_ones = λ r le. ground (arith, refs-append r p.tasks (t ∷ []), k.new_ones r);
        })
    where
      t : Task C
      t = record { func = c; result_future = p.next_future; process_future = p.next_future + 1 }
