-- ===== src/Tests/Signal.antt =====
-- Runs of aiomisc/signal.py; receiver 9 is no coroutine function.
use aiomisc.Base.{
  ℕ, ◌≡◌, refl, Bool, true, not, none, some, List, [], ◌∷◌, nat_beq, if◌then◌else◌, nat_eq, list_eq,
  pair_eq,
}
use aiomisc.Base.Sets.{contains, add, discard}
use aiomisc.Signal.{
  ident, new_signal, connect, disconnect, freeze, call, call_each, Event, connects, disconnects,
  freezes, run, connected, results, due, run-connected,
}

abbrev is_coroutine : ℕ → Bool
is_coroutine r = not (nat_beq r 9)

abbrev history : List Event
history =
    connects 1 ∷ connects 2 ∷ connects 9 ∷ disconnects 1 ∷ freezes ∷ connects 3 ∷ disconnects 2 ∷ []

left : (run is_coroutine new_signal history).receivers ≡ 2 ∷ []
unfolding run new_signal connect disconnect freeze contains add discard
left = refl

-- The second receiver raises, so the third is not called.
stopped :
    call {E = ℕ}
      (λ r. if nat_beq r 2 then some 7 else none)
      (record { receivers = 1 ∷ 2 ∷ 3 ∷ []; is_frozen = true })
    ≡ ((1 ∷ 2 ∷ []), some 7)
unfolding call call_each
stopped = refl

run-connected_example :
    (contains ident (run is_coroutine new_signal history).receivers 2
      ≡ connected is_coroutine
          (contains ident new_signal.receivers 2)
          new_signal.is_frozen
          2
          history)
    × (results is_coroutine new_signal history ≡ due is_coroutine new_signal.is_frozen history)
run-connected_example = run-connected is_coroutine new_signal history 2
