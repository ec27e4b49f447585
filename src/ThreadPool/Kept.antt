-- ===== src/ThreadPool/Kept.antt =====
-- What the operations of the pool of aiomisc/thread_pool.py keep of its futures.
use aiomisc.Base.{
  ℕ, ◌≡◌, refl, sym, ap, subst, ◌∙◌, inl, inr, Bool, true, false, not, ◌&&◌, List, [], ◌∷◌, arith,
  nat_beq, if◌then◌else◌, nat_beq_iff, Bool-cases, if_cases, nat_eq, list_eq, pair_eq, keep,
}
use aiomisc.ThreadPool.{
  Outcome, pool_closed, loop_closed, FutureState, failed, Executor, is_done, settle, Got, waits,
  channel_closed, work_item, get, set_if_pending, set_workitem_result, begin_item, finish_item,
  got_item, thread_turn, start_threads, adjust_thread_count, close_futures,
}
use aiomisc.ThreadPool.Histories.{member, deliver}

-- What an operation does to the futures: those that are done keep their state, and no future is
-- taken out of the set or left behind by the shutdown.
pub record Kept {V E : Type 0} (x y : Executor V E) : Type 0 where
  pub same_next : y.next_future ≡ x.next_future
  pub same_shutdown : y.shutdown_event ≡ x.shutdown_event
  pub same_futures : y.futures ≡ x.futures
  pub stays : (i : ℕ) → is_done (x.states i) ≡ true → y.states i ≡ x.states i

pub not_done : {A : Type 0} (b : Bool) → b ≡ true → b ≡ false → A
not_done b h k = cc (h, k)

pub member-keep :
    (i j : ℕ) (js : List ℕ)
    → nat_beq i j ≡ false
    → member j js ≡ true
    → member j (keep (λ k. not (nat_beq i k)) js) ≡ true
unfolding member
member-keep i j [] n h = h
member-keep i j (k ∷ js) n h = elim (Bool-cases (nat_beq i k)) [
  | inl same ↦
      rw same
        (member-keep i j js n (ground (arith, nat_beq_iff i k, nat_beq_iff j k, nat_beq_iff i j)))
  | inr other ↦ rw other (ground (arith, member-keep i j js n))
]

module _ {V E : Type 0} where
  pub Kept-refl : (x : Executor V E) → Kept x x
  Kept-refl x = record {
    same_next = refl;
    same_shutdown = refl;
    same_futures = refl;
    stays = λ i h. refl;
  }

  pub Kept-trans : {x y z : Executor V E} → Kept x y → Kept y z → Kept x z
  Kept-trans h k = record {
    same_next = k.same_next ∙ h.same_next;
    same_shutdown = k.same_shutdown ∙ h.same_shutdown;
    same_futures = k.same_futures ∙ h.same_futures;
    stays = λ i d. k.stays i (ap is_done (h.stays i d) ∙ d) ∙ h.stays i d;
  }

  pub set_if_pending-Kept :
      (x : Executor V E) (i : ℕ) (s : FutureState V E) → Kept x (set_if_pending x i s)
  set_if_pending-Kept x i s = elim (Bool-cases (is_done (x.states i))) [
    | inl d ↦ rw d (Kept-refl x)
    | inr p ↦ rw p (record {
      same_next = refl;
      same_shutdown = refl;
      same_futures = refl;
      stays = λ j d. elim (Bool-cases (nat_beq i j)) [
        | inl e ↦ cc (p, d, (nat_beq_iff i j).0 e)
        | inr n ↦ rw n
      ];
    })
  ]

  -- What changes neither the set, nor the states, nor the shutdown.
  pub others-Kept :
      (x y : Executor V E)
      → y.next_future ≡ x.next_future
      → y.shutdown_event ≡ x.shutdown_event
      → y.futures ≡ x.futures
      → y.states ≡ x.states
      → Kept x y
  others-Kept x y n d f s = record {
    same_next = n;
    same_shutdown = d;
    same_futures = f;
    stays = λ i h. ap (λ (g : ℕ → FutureState V E). g i) s;
  }

  pub begin_item-Kept :
      (x : Executor V E) (i : ℕ) (is_closed : Bool) → Kept x (begin_item x i is_closed)
  unfolding begin_item
  begin_item-Kept x i is_closed =
      if_cases (Kept x) (is_done (x.states i)) (λ _. Kept-refl x)
        (λ _.
          if_cases (Kept x) is_closed
            (λ _.
              Kept-trans (set_if_pending-Kept x i (failed loop_closed))
                (others-Kept _ _ refl refl refl refl))
            (λ _. others-Kept x _ refl refl refl refl))

  pub finish_item-Kept :
      (x : Executor V E) (i : ℕ) (o : Outcome V E) (delta : ℕ) (is_closed : Bool)
      → Kept x (finish_item x i o delta is_closed)
  unfolding finish_item
  finish_item-Kept x i o delta is_closed =
      if_cases (Kept x) is_closed
        (λ _. Kept-trans (others-Kept x _ refl refl refl refl) (
          Kept-trans (set_if_pending-Kept _ i (failed loop_closed))
            (others-Kept _ _ refl refl refl refl)))
        (λ _. others-Kept x _ refl refl refl refl)

  pub got_item-Kept :
      (x : Executor V E) (is_closed : Bool) (g : Got) → Kept x (got_item x is_closed g)
  got_item-Kept x is_closed waits = Kept-refl x
  got_item-Kept x is_closed (channel_closed c) = others-Kept x _ refl refl refl refl
  got_item-Kept x is_closed (work_item i c) =
      Kept-trans (others-Kept x _ refl refl refl refl) (begin_item-Kept _ i is_closed)

  pub thread_turn-Kept : (x : Executor V E) (is_closed : Bool) → Kept x (thread_turn x is_closed)
  unfolding thread_turn
  thread_turn-Kept x is_closed =
      if_cases (Kept x) x.shutdown_event (λ _. others-Kept x _ refl refl refl refl)
        (λ _. got_item-Kept x is_closed (get x.tasks))

  pub deliver-Kept : (x : Executor V E) (l : List (ℕ × Outcome V E)) → Kept x (deliver x l)
  unfolding set_workitem_result
  deliver-Kept x [] = Kept-refl x
  deliver-Kept x ((i, o) ∷ rest) =
      Kept-trans (others-Kept x _ refl refl refl refl) (set_if_pending-Kept _ i (settle o))

  -- Closing the futures keeps those that are done, and leaves none of the set pending on an open loop.
  pub close_futures-stays :
      (is_closed : Bool) (is : List ℕ) (x : Executor V E) → Kept x (close_futures is_closed is x)
  unfolding close_futures
  close_futures-stays is_closed [] x = Kept-refl x
  close_futures-stays is_closed (i ∷ is) x =
      let settled = set_if_pending-Kept x i (failed pool_closed) in
      if_cases (Kept x) (is_closed && not (is_done (x.states i))) (λ _. settled)
        (λ _. Kept-trans settled (close_futures-stays is_closed is _))

  set_if_pending-done :
      (x : Executor V E) (i : ℕ)
      → is_done ((set_if_pending x i (failed pool_closed)).states i) ≡ true
  set_if_pending-done x i = elim (Bool-cases (is_done (x.states i))) [
    | inl d ↦ rw d d
    | inr p ↦ rw (p, (nat_beq_iff i i).1 refl) refl
  ]

  pub close_futures-done :
      (is : List ℕ) (x : Executor V E) (j : ℕ)
      → member j is ≡ true
      → is_done ((close_futures false is x).states j) ≡ true
  unfolding close_futures member
  close_futures-done [] x j h = cc h
  close_futures-done (i ∷ is) x j h = elim (Bool-cases (nat_beq j i)) [
    | inl same ↦
        let y = set_if_pending x i (failed pool_closed) in
        let d : is_done (y.states j) ≡ true =
          subst (λ (k : ℕ). is_done (y.states k) ≡ true) (sym ((nat_beq_iff j i).0 same))
            (set_if_pending-done x i) in
        ap is_done ((close_futures-stays false is y).stays j d) ∙ d
    | inr other ↦ close_futures-done is _ j (rw other at h)
  ]

  pub grown-Kept : (b : Bool) (x : Executor V E) → Kept x (if b then adjust_thread_count x else x)
  unfolding adjust_thread_count start_threads
  grown-Kept true x = others-Kept x _ refl refl refl refl
  grown-Kept false x = Kept-refl x
