-- ===== src/WorkerPool/Futures.antt =====
-- The futures of aiomisc/worker_pool.py: which are in its set, and that none is settled twice.
use aiomisc.Base.{
  refl, nat_beq_iff, Bool-cases, if_cases, Bool, nat_beq, ◌==◌, ℕ, ◌+◌, ◌<◌, ◌≡◌, ap, subst, ◌∙◌,
  inl, inr, true, false, not, ◌&&◌, List, ◌∷◌, arith, nat_eq, list_eq, pair_eq, [],
}
use aiomisc.Base.Dict.{lookup}
use aiomisc.Base.Sets.{contains, contains-discard, contains-cons}
use aiomisc.WorkerPool.{
  new_worker_pool, cancel_handlers, cancelled_error, is_done, WorkerPool, ident, end_close,
}
use aiomisc.WorkerPool.Tasks.{is_full, create_task}
use aiomisc.WorkerPool.Histories.{
  run, Event, connects, calls_task, puts, takes, answers, cancels, resumes, forgets, begins_close,
  ends_close, forget, step,
}
use aiomisc.WorkerPool.Kept.{
  Kept, Kept-refl, Kept-trans, set_exception-Kept, begin_close-Kept, cancel_handlers-Kept,
  handle_client-Kept, put_waiting-Kept,
}
use aiomisc.WorkerPool.Kept.Turns.{
  take_turn-Kept, answer_turn-Kept, cancel_call-Kept, resume_call-Kept,
}

-- Every future that is pending is in the set.
abbrev pub IsTracked : {V E C : Type 0} → WorkerPool V E C → Type 0
IsTracked p =
    (i : ℕ) → i < p.next_future → is_done (p.states i) ≡ false → contains ident p.futures i ≡ true

pub not_both : {A : Type 0} (b : Bool) → b ≡ true → b ≡ false → A
not_both b h k = cc (h, k)

pub new_worker_pool-IsTracked :
    (V E C : Type 0) (ids : List (List ℕ)) (cookie : List ℕ) (n : ℕ)
    → IsTracked (new_worker_pool {V = V} {E = E} {C = C} ids cookie n)
unfolding new_worker_pool
new_worker_pool-IsTracked V E C ids cookie n i lt d = absurd (omega arith)

module _ {V E C : Type 0} where
  pub Kept-IsTracked : (p q : WorkerPool V E C) → Kept p q → IsTracked p → IsTracked q
  Kept-IsTracked p q k t i lt n = elim (Bool-cases (is_done (p.states i))) [
    | inl d ↦ not_both (is_done (q.states i)) (ap is_done (k.stays i d) ∙ d) n
    | inr m ↦
        ap (λ (s : List ℕ). contains ident s i) k.same_futures
        ∙ t i (subst (λ (n : ℕ). i < n) k.same_next lt) m
  ]

  pub end_close-Kept : (p : WorkerPool V E C) → Kept p (end_close p)
  unfolding end_close
  end_close-Kept p =
      let p₁ = cancel_handlers p.handlers p in
      if_cases (Kept p) p.closing_lock
        (λ _.
          let k =
            Kept-trans (cancel_handlers-Kept p.handlers p)
              (set_exception-Kept p₁.futures cancelled_error p₁) in
          record {
            same_next = k.same_next;
            same_futures = k.same_futures;
            same_workers = k.same_workers;
            same_cookie = k.same_cookie;
            stays = k.stays;
          })
        (λ _. Kept-refl p)

  create_task-IsTracked : (p : WorkerPool V E C) (c : C) → IsTracked p → IsTracked (create_task p c)
  unfolding create_task
  create_task-IsTracked p c t = if_cases IsTracked (is_full p) (λ _. tracked) (λ _. tracked)
    where
      tracked :
          (i : ℕ)
          → i < p.next_future + 2
          → is_done (p.states i) ≡ false
          → contains ident (p.next_future ∷ (p.next_future + 1) ∷ p.futures) i ≡ true
      tracked i lt n = ground (
        arith,
        contains-cons ident p.next_future i ((p.next_future + 1) ∷ p.futures),
        contains-cons ident (p.next_future + 1) i p.futures,
        t i,
      )

  forget-IsTracked : (p : WorkerPool V E C) (i : ℕ) → IsTracked p → IsTracked (forget p i)
  unfolding forget
  forget-IsTracked p i t =
      if_cases IsTracked (is_done (p.states i))
        (λ d j lt n. contains-discard ident i j p.futures ∙ other d j n (t j lt n)) (λ _. t)
    where
      other :
          is_done (p.states i) ≡ true
          → (j : ℕ) → is_done (p.states j) ≡ false
          → contains ident p.futures j ≡ true
          → (not (i == j) && contains ident p.futures j) ≡ true
      other d j n c = elim (Bool-cases (nat_beq i j)) [
        | inl e ↦ cc (d, n, (nat_beq_iff i j).0 e)
        | inr o ↦ rw (o, c) refl
      ]

  module _ (hmac : List ℕ → List ℕ → List ℕ) where
    step-IsTracked :
        (p : WorkerPool V E C) (event : Event V E C) → IsTracked p → IsTracked (step hmac p event)
    step-IsTracked p (connects g at_eof) t =
        if_cases IsTracked p.closing_lock (λ _. t)
          (λ _. Kept-IsTracked p _ (handle_client-Kept hmac p g at_eof) t)
    step-IsTracked p (calls_task c) t = create_task-IsTracked p c t
    step-IsTracked p puts t = Kept-IsTracked p _ (put_waiting-Kept p) t
    step-IsTracked p (takes h sending at_eof) t =
        Kept-IsTracked p _ (take_turn-Kept p h (lookup h p.handlers) sending at_eof) t
    step-IsTracked p (answers h a at_eof) t =
        Kept-IsTracked p _ (answer_turn-Kept p h (lookup h p.handlers) a at_eof) t
    step-IsTracked p (cancels i has_resumed) t =
        Kept-IsTracked p _ (cancel_call-Kept p i has_resumed) t
    step-IsTracked p (resumes i) t = Kept-IsTracked p _ (resume_call-Kept p i) t
    step-IsTracked p (forgets i) t = forget-IsTracked p i t
    step-IsTracked p begins_close t = Kept-IsTracked p _ (begin_close-Kept p) t
    step-IsTracked p ends_close t = Kept-IsTracked p _ (end_close-Kept p) t

    pub run-IsTracked :
        (p : WorkerPool V E C) (events : List (Event V E C))
        → IsTracked p
        → IsTracked (run hmac p events)
    unfolding run
    run-IsTracked p [] t = t
    run-IsTracked p (event ∷ events) t =
        run-IsTracked (step hmac p event) events (step-IsTracked p event t)

    step-stays :
        (p : WorkerPool V E C) (event : Event V E C) (i : ℕ)
        → is_done (p.states i) ≡ true
        → (step hmac p event).states i ≡ p.states i
    unfolding create_task forget
    step-stays p (connects g at_eof) i d =
        if_cases (λ (q : WorkerPool V E C). q.states i ≡ p.states i) p.closing_lock (λ _. refl)
          (λ _. (handle_client-Kept hmac p g at_eof).stays i d)
    step-stays p (calls_task c) i d =
        if_cases (λ (q : WorkerPool V E C). q.states i ≡ p.states i) (is_full p) (λ _. refl)
          (λ _. refl)
    step-stays p puts i d = (put_waiting-Kept p).stays i d
    step-stays p (takes h sending at_eof) i d =
        (take_turn-Kept p h (lookup h p.handlers) sending at_eof).stays i d
    step-stays p (answers h a at_eof) i d =
        (answer_turn-Kept p h (lookup h p.handlers) a at_eof).stays i d
    step-stays p (cancels j has_resumed) i d = (cancel_call-Kept p j has_resumed).stays i d
    step-stays p (resumes j) i d = (resume_call-Kept p j).stays i d
    step-stays p (forgets j) i d =
        if_cases (λ (q : WorkerPool V E C). q.states i ≡ p.states i) (is_done (p.states j))
          (λ _. refl) (λ _. refl)
    step-stays p begins_close i d = (begin_close-Kept p).stays i d
    step-stays p ends_close i d = (end_close-Kept p).stays i d

    -- A future of the pool is settled at most once: whatever callers, workers, the handlers and `close`
    -- do later, one that is done keeps its result, its exception or its cancellation.
    pub run-settled_once :
        (p : WorkerPool V E C) (events : List (Event V E C)) (i : ℕ)
        → is_done (p.states i) ≡ true
        → (run hmac p events).states i ≡ p.states i
    unfolding run
    run-settled_once p [] i d = refl
    run-settled_once p (event ∷ events) i d =
        let e = step-stays p event i d in
        run-settled_once (step hmac p event) events i (ap is_done e ∙ d) ∙ e
