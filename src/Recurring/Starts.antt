-- ===== src/Recurring/Starts.antt =====
-- When the callback of aiomisc/periodic.py starts.
use aiomisc.Base.{
  ℕ, ◌+◌, ◌≡◌, refl, sym, ◌∙◌, Bool, true, false, List, [], ◌∷◌, ◌++◌, if_cases, nat_eq, list_eq,
  pair_eq,
}
use mathlib.Core.List.{append-nil, append_assoc}
use mathlib.Core.Path.{ap₂}
use aiomisc.Recurring.{
  Outcome, returned, raised, cancelled, State, exec, start, turn, Run, periodic_ticks,
  periodic_strategy,
}

-- One start an interval after the end of the one before.
unfoldable pub starts_from : {E : Type 0} → ℕ → ℕ → List (Run E) → List ℕ
starts_from time interval [] = []
starts_from time interval (r ∷ rs) = time ∷ starts_from (time + r.duration + interval) interval rs

module _ {E : Type 0} (suppress_exceptions : E → Bool) where
  exec-starts :
      (s : State) (o : Outcome E) (duration : ℕ)
      → ((exec suppress_exceptions s o duration).starts ≡ s.starts ++ s.clock ∷ [])
        × ((exec suppress_exceptions s o duration).clock ≡ s.clock + duration)
  unfolding exec
  exec-starts s returned duration = (refl, refl)
  exec-starts s cancelled duration = (refl, refl)
  exec-starts s (raised x) duration =
      if_cases
        (λ (t : State).
          (t.starts ≡ s.starts ++ s.clock ∷ []) × (t.clock + duration ≡ s.clock + duration))
        (suppress_exceptions x) (λ _. (refl, refl)) (λ _. (refl, refl))

  later-starts :
      (delay interval : ℕ) (rs : List (Run E)) (s : State)
      → (start suppress_exceptions (periodic_ticks delay interval true rs) s).1.starts
        ≡ s.starts ++ starts_from (s.clock + interval) interval rs
  unfolding start turn periodic_ticks periodic_strategy starts_from
  later-starts delay interval [] s = sym (append-nil s.starts)
  later-starts delay interval (r ∷ rs) s =
      let s₁ = record s { clock = s.clock + interval } in
      let (listed, time) = exec-starts s₁ r.outcome r.duration in
      later-starts delay interval rs (exec suppress_exceptions s₁ r.outcome r.duration)
      ∙ ap₂ (λ (xs : List ℕ) (t : ℕ). xs ++ starts_from (t + interval) interval rs) listed time
      ∙ append_assoc s.starts ((s.clock + interval) ∷ []) _

  -- A periodic callback first starts after the delay, and each later time an interval after the call
  -- before it has ended, however long the calls take and however they end: a call that runs longer than
  -- the interval delays the next one, which is not skipped, contrary to the docstring of the class.
  pub periodic-starts :
      (delay interval : ℕ) (rs : List (Run E)) (s : State)
      → (start suppress_exceptions (periodic_ticks delay interval false rs) s).1.starts
        ≡ s.starts ++ starts_from (s.clock + delay) interval rs
  unfolding start turn periodic_ticks periodic_strategy starts_from
  periodic-starts delay interval [] s = sym (append-nil s.starts)
  periodic-starts delay interval (r ∷ rs) s =
      let s₁ = record s { clock = s.clock + delay } in
      let (listed, time) = exec-starts s₁ r.outcome r.duration in
      later-starts delay interval rs (exec suppress_exceptions s₁ r.outcome r.duration)
      ∙ ap₂ (λ (xs : List ℕ) (t : ℕ). xs ++ starts_from (t + interval) interval rs) listed time
      ∙ append_assoc s.starts ((s.clock + delay) ∷ []) _
