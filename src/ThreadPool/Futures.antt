-- ===== src/ThreadPool/Futures.antt =====
-- The futures of the pool of aiomisc/thread_pool.py: none is settled twice, none is left pending.
use aiomisc.Base.{
  ℕ, ◌<◌, ◌≡◌, refl, ap, subst, ◌∙◌, inl, inr, Bool, true, false, ◌&&◌, List, [], ◌∷◌, arith, ltb,
  leb, nat_beq, if◌then◌else◌, nat_beq_iff, Bool-cases, if_cases, nat_eq, list_eq, pair_eq, length,
  Exn, Result,
}
use aiomisc.ThreadPool.{
  cancelled, Executor, is_done, start_threads, new_executor, adjust_thread_count, enqueue, submit,
  close_futures, delete_pool, shutdown,
}
use aiomisc.ThreadPool.Histories.{
  Event, submits, turns, finishes, delivers, forgets, cancels, shuts_down, ShutsOpen, member,
  forget, step, run,
}
use aiomisc.ThreadPool.Kept.{
  Kept, not_done, member-keep, set_if_pending-Kept, finish_item-Kept, thread_turn-Kept,
  deliver-Kept, close_futures-stays, close_futures-done, grown-Kept,
}

-- Before the shutdown every pending future is in the set; after it there is none.
abbrev pub Tracked : {V E : Type 0} → Executor V E → Type 0
Tracked x =
    (i : ℕ)
    → i < x.next_future
    → is_done (x.states i) ≡ false
    → (x.shutdown_event ≡ false) × (member i x.futures ≡ true)

new_executor-Tracked :
    (V E : Type 0) (max_workers : ℕ) → Tracked (new_executor {V = V} {E = E} max_workers)
unfolding new_executor start_threads
new_executor-Tracked V E max_workers i lt p = absurd (omega arith)

module _ {V E : Type 0} where
  Kept-Tracked : (x y : Executor V E) → Kept x y → Tracked x → Tracked y
  Kept-Tracked x y k t i lt p = elim (Bool-cases (is_done (x.states i))) [
    | inl d ↦ not_done (is_done (y.states i)) (ap is_done (k.stays i d) ∙ d) p
    | inr q ↦
        let (open_, in_set) = t i (subst (λ (n : ℕ). i < n) k.same_next lt) q in
        (k.same_shutdown ∙ open_, ap (λ (s : List ℕ). member i s) k.same_futures ∙ in_set)
  ]

  shutdown-Tracked : (x : Executor V E) → Tracked x → Tracked (shutdown x false)
  unfolding shutdown
  shutdown-Tracked x t = if_cases Tracked x.shutdown_event (λ _. t) (λ _. closed)
    where
      x₁ : Executor V E
      x₁ = delete_pool x

      k : Kept x₁ (close_futures false x.futures x₁)
      k = close_futures-stays false x.futures x₁

      settled :
          (i : ℕ) → i < x.next_future → is_done ((close_futures false x.futures x₁).states i) ≡ true
      settled i lt = elim (Bool-cases (is_done (x.states i))) [
        | inl d ↦ ap is_done (k.stays i d) ∙ d
        | inr q ↦ close_futures-done x.futures x₁ i (t i lt q).1
      ]

      closed : Tracked (close_futures false x.futures x₁)
      closed i lt p = not_done _ (settled i (subst (λ (n : ℕ). i < n) k.same_next lt)) p

  enqueue-Tracked : (x : Executor V E) → x.shutdown_event ≡ false → Tracked x → Tracked (enqueue x)
  unfolding member
  enqueue-Tracked x open_ t i lt p = elim (Bool-cases (nat_beq i x.next_future)) [
    | inl new ↦ (open_, rw new)
    | inr old ↦
        let earlier : i < x.next_future = ground (arith, nat_beq_iff i x.next_future) in
        (open_, rw old (t i earlier p).1)
  ]

  submit-Tracked : (x : Executor V E) → Tracked x → Tracked (submit x).1
  unfolding submit
  submit-Tracked x t =
      if_cases (λ (r : Result Exn ℕ × Executor V E). Tracked r.1) x.shutdown_event (λ _. t)
        (λ e.
          let grows = ltb x.pool x.max_workers && leb x.pool (length x.futures) in
          let k = grown-Kept grows x in
          enqueue-Tracked (if grows then adjust_thread_count x else x) (k.same_shutdown ∙ e)
            (Kept-Tracked x _ k t))

  forget-Tracked : (x : Executor V E) (i : ℕ) → Tracked x → Tracked (forget x i)
  forget-Tracked x i t = elim (Bool-cases (is_done (x.states i))) [
    | inr p ↦ rw p t
    | inl d ↦ rw d (λ j lt p.
        let (open_, there) = t j lt p in
        (
          open_,
          member-keep i j x.futures
              (elim (Bool-cases (nat_beq i j)) [
                | inr n ↦ n
                | inl same ↦ cc (d, p, (nat_beq_iff i j).0 same)
              ])
              there,
        ))
  ]

  if-Tracked : (x y : Executor V E) (b : Bool) → Kept x y → Tracked x → Tracked (if b then y else x)
  if-Tracked x y true k t = Kept-Tracked x y k t
  if-Tracked x y false k t = t

  step-Tracked :
      (x : Executor V E) (event : Event V E)
      → ShutsOpen (event ∷ [])
      → Tracked x
      → Tracked (step x event)
  step-Tracked x submits o_ t = submit-Tracked x t
  step-Tracked x (turns is_closed) o_ t = Kept-Tracked x _ (thread_turn-Kept x is_closed) t
  step-Tracked x (finishes i o delta is_closed) o_ t =
      if-Tracked x _ (member i x.running) (finish_item-Kept x i o delta is_closed) t
  step-Tracked x delivers o_ t = Kept-Tracked x _ (deliver-Kept x x.scheduled) t
  step-Tracked x (forgets i) o_ t = forget-Tracked x i t
  step-Tracked x (cancels i) o_ t =
      if-Tracked x _ (ltb i x.next_future) (set_if_pending-Kept x i cancelled) t
  step-Tracked x (shuts_down false) o t = shutdown-Tracked x t
  step-Tracked x (shuts_down true) o t = absurd o

  split_event :
      (event : Event V E) (events : List (Event V E))
      → ShutsOpen (event ∷ events)
      → ShutsOpen (event ∷ []) × ShutsOpen events
  split_event submits events h = (tt, h)
  split_event (turns _) events h = (tt, h)
  split_event (finishes _ _ _ _) events h = (tt, h)
  split_event delivers events h = (tt, h)
  split_event (forgets _) events h = (tt, h)
  split_event (cancels _) events h = (tt, h)
  split_event (shuts_down false) events h = (tt, h)
  split_event (shuts_down true) events h = absurd h

  run-Tracked :
      (x : Executor V E) (events : List (Event V E))
      → ShutsOpen events
      → Tracked x
      → Tracked (run x events)
  unfolding run
  run-Tracked x [] o t = t
  run-Tracked x (event ∷ events) o t =
      let (now_, later) = split_event event events o in
      run-Tracked (step x event) events later (step-Tracked x event now_ t)

  -- Whatever has happened to a pool since it was made: once it is shut down, and if the loop of its
  -- futures was open at that time, every future that it ever gave to a caller is done, so that no
  -- caller waits for ever.
  pub run-futures_done :
      (max_workers : ℕ) (events : List (Event V E)) (i : ℕ)
      → ShutsOpen events
      → (run (new_executor max_workers) events).shutdown_event ≡ true
      → i < (run (new_executor max_workers) events).next_future
      → is_done ((run (new_executor max_workers) events).states i) ≡ true
  run-futures_done max_workers events i o h lt =
      let x = run (new_executor max_workers) events in
      elim (Bool-cases (is_done (x.states i))) [
        | inl d ↦ d
        | inr p ↦ cc (
          h,
          (run-Tracked (new_executor max_workers) events o (new_executor-Tracked V E max_workers) i
              lt p).0,
        )
      ]

  if-Stays :
      (x y : Executor V E) (b : Bool)
      → Kept x y
      → (i : ℕ) → is_done (x.states i) ≡ true
      → (if b then y else x).states i ≡ x.states i
  if-Stays x y true k i d = k.stays i d
  if-Stays x y false k i d = refl

  step-stays :
      (x : Executor V E) (event : Event V E) (i : ℕ)
      → is_done (x.states i) ≡ true
      → (step x event).states i ≡ x.states i
  unfolding submit shutdown
  step-stays x submits i d =
      if_cases (λ (r : Result Exn ℕ × Executor V E). r.1.states i ≡ x.states i) x.shutdown_event
        (λ _. refl)
        (λ _. (grown-Kept (ltb x.pool x.max_workers && leb x.pool (length x.futures)) x).stays i d)
  step-stays x (turns is_closed) i d = (thread_turn-Kept x is_closed).stays i d
  step-stays x (finishes j o delta is_closed) i d =
      if-Stays x _ (member j x.running) (finish_item-Kept x j o delta is_closed) i d
  step-stays x delivers i d = (deliver-Kept x x.scheduled).stays i d
  step-stays x (forgets j) i d =
      if_cases (λ (y : Executor V E). y.states i ≡ x.states i) (is_done (x.states j)) (λ _. refl)
        (λ _. refl)
  step-stays x (cancels j) i d =
      if-Stays x _ (ltb j x.next_future) (set_if_pending-Kept x j cancelled) i d
  step-stays x (shuts_down is_closed) i d =
      if_cases (λ (y : Executor V E). y.states i ≡ x.states i) x.shutdown_event (λ _. refl)
        (λ _. (close_futures-stays is_closed x.futures _).stays i d)

  -- A future is settled at most once: whatever happens to the pool, one that is done keeps its value,
  -- its exception or its cancellation.
  pub run-settled :
      (x : Executor V E) (events : List (Event V E)) (i : ℕ)
      → is_done (x.states i) ≡ true
      → (run x events).states i ≡ x.states i
  unfolding run
  run-settled x [] i d = refl
  run-settled x (event ∷ events) i d =
      let e = step-stays x event i d in run-settled (step x event) events i (ap is_done e ∙ d) ∙ e
