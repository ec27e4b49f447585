-- ===== src/ThreadPool/Alike.antt =====
-- What the operations of the pool of aiomisc/thread_pool.py change of its counts: threads only end.
use aiomisc.Base.{
  ℕ, ◌+◌, ◌≤◌, ◌≡◌, refl, sym, ap, subst, ◌∙◌, Bool, not, ◌&&◌, List, [], ◌∷◌, arith, nat_beq,
  if_cases, nat_eq, list_eq, pair_eq, keep,
}
use aiomisc.ThreadPool.{
  Outcome, returned, raised, pool_closed, loop_closed, FutureState, failed, ThreadPoolStatistic,
  Executor, is_done, settle, Got, waits, channel_closed, work_item, get, set_if_pending,
  set_workitem_result, end_thread, begin_item, record_outcome, finish_item, got_item, thread_turn,
  close_futures,
}
use aiomisc.ThreadPool.Histories.{deliver}

-- What the bounds speak of is the same, but for threads that end.
pub record Alike {V E : Type 0} (x y : Executor V E) : Type 0 where
  pub same_pool : y.pool ≡ x.pool
  pub same_shutdown : y.shutdown_event ≡ x.shutdown_event
  pub same_workers : y.max_workers ≡ x.max_workers
  pub fewer : y.statistic.threads ≤ x.statistic.threads
  pub more_ended :
      y.statistic.done + (x.statistic.success + x.statistic.error)
      ≡ x.statistic.done + (y.statistic.success + y.statistic.error)
  pub same_submitted : y.statistic.submitted ≡ x.statistic.submitted
  pub same_next : y.next_future ≡ x.next_future

module _ {V E : Type 0} where
  Alike-trans : {x y z : Executor V E} → Alike x y → Alike y z → Alike x z
  Alike-trans h k = record {
    same_pool = omega (arith, h.same_pool, k.same_pool);
    same_shutdown = k.same_shutdown ∙ h.same_shutdown;
    same_workers = omega (arith, h.same_workers, k.same_workers);
    fewer = omega (arith, h.fewer, k.fewer);
    more_ended = omega (arith, h.more_ended, k.more_ended);
    same_submitted = omega (arith, h.same_submitted, k.same_submitted);
    same_next = omega (arith, h.same_next, k.same_next);
  }

  pub Alike-refl : (x : Executor V E) → Alike x x
  Alike-refl x = record {
    same_pool = refl;
    same_shutdown = refl;
    same_workers = refl;
    fewer = omega arith;
    more_ended = refl;
    same_submitted = refl;
    same_next = refl;
  }

  end_thread-Alike : (x : Executor V E) → Alike x (end_thread x)
  end_thread-Alike x = record {
    same_pool = refl;
    same_shutdown = refl;
    same_workers = refl;
    fewer = omega arith;
    more_ended = refl;
    same_submitted = refl;
    same_next = refl;
  }

  -- The same counts and numbers with anything else changed.
  pub rest-Alike :
      (x y : Executor V E)
      → y.pool ≡ x.pool
      → y.shutdown_event ≡ x.shutdown_event
      → y.max_workers ≡ x.max_workers
      → y.statistic ≡ x.statistic
      → y.next_future ≡ x.next_future
      → Alike x y
  rest-Alike x y p d m s n = record {
    same_pool = p;
    same_shutdown = d;
    same_workers = m;
    fewer =
        subst (λ (t : ThreadPoolStatistic). t.threads ≤ x.statistic.threads) (sym s) (omega arith);
    more_ended = rw s refl;
    same_submitted = ap (λ (t : ThreadPoolStatistic). t.submitted) s;
    same_next = n;
  }

  pub set_if_pending-Alike :
      (x : Executor V E) (i : ℕ) (s : FutureState V E) → Alike x (set_if_pending x i s)
  set_if_pending-Alike x i s =
      if_cases (Alike x) (is_done (x.states i)) (λ _. Alike-refl x)
        (λ _. rest-Alike x _ refl refl refl refl refl)

  pub close_futures-Alike :
      (is_closed : Bool) (is : List ℕ) (x : Executor V E) → Alike x (close_futures is_closed is x)
  unfolding close_futures
  close_futures-Alike is_closed [] x = Alike-refl x
  close_futures-Alike is_closed (i ∷ is) x =
      let settled = set_if_pending-Alike x i (failed pool_closed) in
      if_cases (Alike x) (is_closed && not (is_done (x.states i))) (λ _. settled)
        (λ _. Alike-trans settled (close_futures-Alike is_closed is _))

  begin_item-Alike :
      (x : Executor V E) (i : ℕ) (is_closed : Bool) → Alike x (begin_item x i is_closed)
  unfolding begin_item
  begin_item-Alike x i is_closed =
      if_cases (Alike x) (is_done (x.states i)) (λ _. Alike-refl x)
        (λ _.
          if_cases (Alike x) is_closed
            (λ _. Alike-trans (set_if_pending-Alike x i (failed loop_closed)) (end_thread-Alike _))
            (λ _. rest-Alike x _ refl refl refl refl refl))

  record_outcome-Alike :
      (x : Executor V E) (o : Outcome V E) (delta : ℕ) (js : List ℕ)
      → Alike x (record x { running = js; statistic = record_outcome x.statistic o delta })
  record_outcome-Alike x (returned v) delta js = record {
    same_pool = refl;
    same_shutdown = refl;
    same_workers = refl;
    fewer = omega arith;
    more_ended = omega arith;
    same_submitted = refl;
    same_next = refl;
  }
  record_outcome-Alike x (raised e) delta js = record {
    same_pool = refl;
    same_shutdown = refl;
    same_workers = refl;
    fewer = omega arith;
    more_ended = omega arith;
    same_submitted = refl;
    same_next = refl;
  }

  pub finish_item-Alike :
      (x : Executor V E) (i : ℕ) (o : Outcome V E) (delta : ℕ) (is_closed : Bool)
      → Alike x (finish_item x i o delta is_closed)
  unfolding finish_item
  finish_item-Alike x i o delta is_closed =
      let counted = record_outcome-Alike x o delta (keep (λ j. not (nat_beq i j)) x.running) in
      if_cases (Alike x) is_closed
        (λ _.
          Alike-trans counted
            (Alike-trans (set_if_pending-Alike _ i (failed loop_closed)) (end_thread-Alike _)))
        (λ _. Alike-trans counted (rest-Alike _ _ refl refl refl refl refl))

  got_item-Alike :
      (x : Executor V E) (is_closed : Bool) (g : Got) → Alike x (got_item x is_closed g)
  got_item-Alike x is_closed waits = Alike-refl x
  got_item-Alike x is_closed (channel_closed c) =
      Alike-trans (rest-Alike x (record x { tasks = c }) refl refl refl refl refl)
        (end_thread-Alike _)
  got_item-Alike x is_closed (work_item i c) =
      Alike-trans (rest-Alike x (record x { tasks = c }) refl refl refl refl refl)
        (begin_item-Alike (record x { tasks = c }) i is_closed)

  pub thread_turn-Alike : (x : Executor V E) (is_closed : Bool) → Alike x (thread_turn x is_closed)
  unfolding thread_turn
  thread_turn-Alike x is_closed =
      if_cases (Alike x) x.shutdown_event (λ _. end_thread-Alike x)
        (λ _. got_item-Alike x is_closed (get x.tasks))

  pub deliver-Alike : (x : Executor V E) (l : List (ℕ × Outcome V E)) → Alike x (deliver x l)
  unfolding set_workitem_result
  deliver-Alike x [] = Alike-refl x
  deliver-Alike x ((i, o) ∷ rest) =
      Alike-trans (rest-Alike x (record x { scheduled = rest }) refl refl refl refl refl)
        (set_if_pending-Alike (record x { scheduled = rest }) i (settle o))
