-- ===== src/Aggregate/Results.antt =====
-- What the callers of aiomisc/aggregate.py get, when the function has ended for their batch.
use aiomisc.Base.{
  ℕ, ◌≡◌, refl, sym, ap, subst, ◌∙◌, ◌≢◌, inl, inr, true, false, List, [], ◌∷◌, arith, nat_beq,
  nat_beq_iff, Bool-cases, nat_eq, list_eq, pair_eq, All, length,
}
use aiomisc.Aggregate.{
  Aggregator, Batch, FutureState, pending, resolved, failed, Fault, by_function, result_not_set,
  is_done, Ending, returns, raises, is_cancelled, set_if_pending, fail_rest, execute, set_results,
  by_reply, execute_simple, Reply, results,
}

abbrev Done : {R E : Type 0} → (ℕ → FutureState R E) → ℕ → Type 0
Done states i = is_done (states i) ≡ true

-- Every state that is done is kept.
abbrev Keeps : {R E : Type 0} → (ℕ → FutureState R E) → (ℕ → FutureState R E) → Type 0
Keeps before after = (i : ℕ) → is_done (before i) ≡ true → after i ≡ before i

module _ {R E : Type 0} where
  set_if_pending-Keeps :
      (states : ℕ → FutureState R E) (i : ℕ) (s : FutureState R E)
      → Keeps states (set_if_pending states i s)
  set_if_pending-Keeps states i s j d = elim (Bool-cases (is_done (states i))) [
    | inl e ↦ rw e
    | inr p ↦ elim (Bool-cases (nat_beq i j)) [
      | inl same ↦ cc (p, d, (nat_beq_iff i j).0 same)
      | inr other ↦ rw (p, other)
    ]
  ]

  set_if_pending-Done :
      (states : ℕ → FutureState R E) (i : ℕ) (x : Fault E)
      → Done (set_if_pending states i (failed x)) i
  set_if_pending-Done states i x = elim (Bool-cases (is_done (states i))) [
    | inl e ↦ rw e e
    | inr p ↦ rw (p, (nat_beq_iff i i).1 refl) refl
  ]

  fail_rest-Keeps :
      (states : ℕ → FutureState R E) (is : List ℕ) (x : Fault E)
      → Keeps states (fail_rest states is x)
  unfolding fail_rest
  fail_rest-Keeps states [] x i d = refl
  fail_rest-Keeps states (j ∷ is) x i d =
      let e = set_if_pending-Keeps states j (failed x) i d in
      fail_rest-Keeps (set_if_pending states j (failed x)) is x i (ap is_done e ∙ d) ∙ e

  fail_rest-Done :
      (states : ℕ → FutureState R E) (is : List ℕ) (x : Fault E)
      → All (Done (fail_rest states is x)) is
  unfolding fail_rest
  fail_rest-Done states [] x = tt
  fail_rest-Done states (i ∷ is) x =
      let t = set_if_pending states i (failed x) in
      let d = set_if_pending-Done states i x in
      (ap is_done (fail_rest-Keeps t is x i d) ∙ d, fail_rest-Done t is x)

abbrev pub AllDone : {V R E : Type 0} → Batch V → Aggregator V R E → Type 0
AllDone b a = All (λ i. is_done (a.states i) ≡ true) b.futures

module _ {R E : Type 0} where
  -- Futures that are pending, each listed once.
  abbrev pub Waiting : (ℕ → FutureState R E) → List ℕ → Type 0
  Waiting states [] = Unit
  Waiting states (i ∷ is) =
      (states i ≡ pending) × All (λ j. nat_beq i j ≡ false) is × Waiting states is

  -- The futures have the results, in order.
  abbrev pub Answered : (ℕ → FutureState R E) → List R → List ℕ → Type 0
  Answered states [] [] = Unit
  Answered states (r ∷ rs) (i ∷ is) = (states i ≡ resolved r) × Answered states rs is
  Answered states _ _ = ⊥

  set_results-Keeps :
      (states : ℕ → FutureState R E) (rs : List R) (is : List ℕ)
      → Keeps states (set_results states rs is)
  unfolding set_results
  set_results-Keeps states [] is i d = refl
  set_results-Keeps states (r ∷ rs) [] i d = refl
  set_results-Keeps states (r ∷ rs) (j ∷ is) i d =
      let e = set_if_pending-Keeps states j (resolved r) i d in
      set_results-Keeps (set_if_pending states j (resolved r)) rs is i (ap is_done e ∙ d) ∙ e

  set_other :
      (states : ℕ → FutureState R E) (i j : ℕ) (s : FutureState R E)
      → states i ≡ pending
      → nat_beq i j ≡ false
      → set_if_pending states i s j ≡ states j
  set_other states i j s p n = rw (p, n)

  Waiting-set_if_pending :
      (states : ℕ → FutureState R E) (i : ℕ) (s : FutureState R E) (is : List ℕ)
      → states i ≡ pending
      → All (λ j. nat_beq i j ≡ false) is
      → Waiting states is
      → Waiting (set_if_pending states i s) is
  Waiting-set_if_pending states i s [] p apart w = tt
  Waiting-set_if_pending states i s (j ∷ is) p apart w = (
    set_other states i j s p apart.0 ∙ w.0,
    w.1,
    Waiting-set_if_pending states i s is p apart.1 w.2,
  )

  Answered-Keeps :
      (before after : ℕ → FutureState R E) (rs : List R) (is : List ℕ)
      → Keeps before after
      → Answered before rs is
      → Answered after rs is
  Answered-Keeps before after [] [] k h = tt
  Answered-Keeps before after [] (i ∷ is) k h = absurd h
  Answered-Keeps before after (r ∷ rs) [] k h = absurd h
  Answered-Keeps before after (r ∷ rs) (i ∷ is) k h =
      (k i (ap is_done h.0) ∙ h.0, Answered-Keeps before after rs is k h.1)

  set_results-Answered :
      (states : ℕ → FutureState R E) (rs : List R) (is : List ℕ)
      → length rs ≡ length is
      → Waiting states is
      → Answered (set_results states rs is) rs is
  unfolding set_results
  set_results-Answered states [] [] e w = tt
  set_results-Answered states [] (i ∷ is) e w = absurd (omega (arith, e))
  set_results-Answered states (r ∷ rs) [] e w = absurd (omega (arith, e))
  set_results-Answered states (r ∷ rs) (i ∷ is) e w =
      let t = set_if_pending states i (resolved r) in
      let now_ : t i ≡ resolved r = rw (w.0, (nat_beq_iff i i).1 refl) in
      (
        set_results-Keeps t rs is i (ap is_done now_) ∙ now_,
        set_results-Answered t rs is (omega (arith, e))
            (Waiting-set_if_pending states i (resolved r) is w.0 w.1 w.2),
      )

module _ {V R E : Type 0} where
  -- When the function has ended for a batch, unless by cancellation, every call of the batch has its
  -- answer, also those that the function forgot.
  pub execute-AllDone :
      (a : Aggregator V R E) (b : Batch V) (states : ℕ → FutureState R E) (ending : Ending E)
      → ending ≢ is_cancelled
      → AllDone b (execute a b states ending)
  unfolding execute
  execute-AllDone a b states returns h = fail_rest-Done states b.futures result_not_set
  execute-AllDone a b states (raises x) h = fail_rest-Done states b.futures (by_function x)
  execute-AllDone a b states is_cancelled h = absurd (h refl)

  -- A simple function that gives a result for each argument of a batch, whose futures are distinct
  -- and pending, answers each call of the batch with the result at the place of its argument.
  pub execute_simple-Answered :
      (a : Aggregator V R E) (b : Batch V) (func : List V → Reply R E) (rs : List R)
      → func b.args ≡ results rs
      → length rs ≡ length b.futures
      → Waiting a.states b.futures
      → Answered (execute_simple a b func).states rs b.futures
  unfolding execute_simple execute
  execute_simple-Answered a b func rs e le w =
      let answered : Answered (execute a b (set_results a.states rs b.futures) returns).states rs
          b.futures =
        Answered-Keeps (set_results a.states rs b.futures) _ rs b.futures
          (fail_rest-Keeps (set_results a.states rs b.futures) b.futures result_not_set)
          (set_results-Answered a.states rs b.futures le w) in
      subst (λ (r : Reply R E). Answered (by_reply a b r).states rs b.futures) (sym e) answered
