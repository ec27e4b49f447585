-- ===== src/WorkerPool/Closing.antt =====
-- What `close` of aiomisc/worker_pool.py leaves of its futures.
use aiomisc.Base.{
  refl, nat_beq_iff, Bool-cases, if_cases, nat_beq, ℕ, ◌<◌, ◌≡◌, ap, subst, ◌∙◌, inl, inr, true,
  List, ◌∷◌, arith, nat_eq, list_eq, pair_eq, sym, [],
}
use aiomisc.Base.Sets.{contains}
use aiomisc.WorkerPool.{
  fail_pending, Fault, set_exception, new_worker_pool, cancel_handlers, cancelled_error, is_done,
  WorkerPool, ident, end_close,
}
use aiomisc.WorkerPool.Histories.{run, Event, ends_close}
use aiomisc.WorkerPool.Kept.{set_exception-Kept, cancel_handlers-Kept}
use aiomisc.WorkerPool.Futures.{
  IsTracked, not_both, new_worker_pool-IsTracked, Kept-IsTracked, run-IsTracked, run-settled_once,
}

module _ {V E C : Type 0} where
  fail_pending-done :
      (p : WorkerPool V E C) (i j : ℕ) (x : Fault E)
      → nat_beq i j ≡ true
      → is_done ((fail_pending p i x).states j) ≡ true
  fail_pending-done p i j x e =
      if_cases (λ (q : WorkerPool V E C). is_done (q.states j) ≡ true) (is_done (p.states i))
        (λ d. subst (λ k. is_done (p.states k) ≡ true) ((nat_beq_iff i j).0 e) d) (λ _. rw e refl)

  set_exception-done :
      (is : List ℕ) (x : Fault E) (p : WorkerPool V E C) (i : ℕ)
      → contains ident is i ≡ true
      → is_done ((set_exception is x p).states i) ≡ true
  unfolding set_exception contains
  set_exception-done [] x p i c = absurd (ground arith)
  set_exception-done (j ∷ is) x p i c = elim (Bool-cases (nat_beq j i)) [
    | inl e ↦
        let d = fail_pending-done p j i x e in
        ap is_done ((set_exception-Kept is x (fail_pending p j x)).stays i d) ∙ d
    | inr o ↦ set_exception-done is x (fail_pending p j x) i (ground (arith, c, o))
  ]

  end_close-done :
      (p : WorkerPool V E C) (i : ℕ)
      → IsTracked p
      → p.closing_lock ≡ true
      → i < p.next_future
      → is_done ((end_close p).states i) ≡ true
  unfolding end_close
  end_close-done p i t l lt =
      let p₁ = cancel_handlers p.handlers p in
      let k = cancel_handlers-Kept p.handlers p in
      let s = set_exception-Kept p₁.futures cancelled_error p₁ in
      if_cases (λ (q : WorkerPool V E C). is_done (q.states i) ≡ true) p.closing_lock
        (λ _. elim (Bool-cases (is_done (p₁.states i))) [
          | inl d ↦ ap is_done (s.stays i d) ∙ d
          | inr n ↦
              set_exception-done p₁.futures cancelled_error p₁ i
                (Kept-IsTracked p p₁ k t i (subst (λ (m : ℕ). i < m) (sym k.same_next) lt) n)
        ])
        (λ u. not_both p.closing_lock l u)

  -- `close` leaves no future pending: whatever has happened to the pool since it was made, when `close`
  -- comes to its end every future that the pool has made is done, and stays so whatever comes later.
  pub ends_close-AllDone :
      (hmac : List ℕ → List ℕ → List ℕ) (ids : List (List ℕ)) (cookie : List ℕ) (max_overflow : ℕ)
      (before after : List (Event V E C)) (i : ℕ)
      → (run hmac
          (new_worker_pool {V = V} {E = E} {C = C} ids cookie max_overflow)
          before).closing_lock
        ≡ true
      → i
        < (run hmac
            (new_worker_pool {V = V} {E = E} {C = C} ids cookie max_overflow)
            before).next_future
      → is_done (
          (run hmac
              (run hmac (new_worker_pool ids cookie max_overflow) before)
              (ends_close ∷ after)).states
            i)
        ≡ true
  unfolding run
  ends_close-AllDone hmac ids cookie m before after i l lt =
      let p = run hmac (new_worker_pool ids cookie m) before in
      let d =
        end_close-done p i
          (run-IsTracked hmac (new_worker_pool ids cookie m) before
            (new_worker_pool-IsTracked V E C ids cookie m))
          l lt in
      ap is_done (run-settled_once hmac (end_close p) after i d) ∙ d
