-- ===== src/ThreadPool/Histories.antt =====
-- Histories of the pool of aiomisc/thread_pool.py: calls of its methods, turns of its threads, and
-- what the event loop does with its futures, in any order.
use aiomisc.Base.{
  ℕ, Bool, false, not, ◌||◌, List, [], ◌∷◌, ltb, nat_beq, if◌then◌else◌, nat_eq, list_eq, pair_eq,
  keep, true,
}
use aiomisc.ThreadPool.{
  Outcome, cancelled, Executor, is_done, set_if_pending, set_workitem_result, finish_item,
  thread_turn, submit, shutdown,
}

pub data Event (V E : Type 0) : Type 0 where
  submits : Event V E
  turns : Bool → Event V E
  finishes : ℕ → Outcome V E → ℕ → Bool → Event V E
  delivers : Event V E
  forgets : ℕ → Event V E
  cancels : ℕ → Event V E
  shuts_down : Bool → Event V E

unfoldable pub member : ℕ → List ℕ → Bool
member i [] = false
member i (j ∷ js) = nat_beq i j || member i js

module _ {V E : Type 0} where
  -- The event loop runs the first callback that is scheduled.
  abbrev pub deliver : Executor V E → List (ℕ × Outcome V E) → Executor V E
  deliver x [] = x
  deliver x ((i, o) ∷ rest) = set_workitem_result (record x { scheduled = rest }) i o

  -- The callback `futures.discard` of a future that is done.
  abbrev pub forget : Executor V E → ℕ → Executor V E
  forget x i =
      if is_done (x.states i)
      then record x { futures = keep (λ j. not (nat_beq i j)) x.futures }
      else x

  abbrev pub step : Executor V E → Event V E → Executor V E
  step x submits = (submit x).1
  step x (turns is_closed) = thread_turn x is_closed
  step x (finishes i o delta is_closed) =
      if member i x.running then finish_item x i o delta is_closed else x
  step x delivers = deliver x x.scheduled
  step x (forgets i) = forget x i
  step x (cancels i) = if ltb i x.next_future then set_if_pending x i cancelled else x
  step x (shuts_down is_closed) = shutdown x is_closed

  unfoldable pub run : Executor V E → List (Event V E) → Executor V E
  run x [] = x
  run x (event ∷ events) = run (step x event) events

-- The pool is never shut down when the loop of its futures is closed.
abbrev pub ShutsOpen : {V E : Type 0} → List (Event V E) → Type 0
ShutsOpen [] = Unit
ShutsOpen (shuts_down true ∷ events) = ⊥
ShutsOpen (event ∷ events) = ShutsOpen events
