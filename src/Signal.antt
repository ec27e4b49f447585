-- ===== src/Signal.antt =====
-- aiomisc/signal.py: receivers are numbers, and a test says which of them are coroutine functions. The
-- receivers that `call` awaits, and how they end, are given with the call.
use aiomisc.Base.{
  ℕ, ◌≡◌, refl, ap, ◌∙◌, Bool, true, false, not, ◌&&◌, ◌||◌, Option, none, List, [], ◌∷◌, arith,
  nat_beq, if◌then◌else◌, is_some, if_cases, Bool-cases, inl, inr, nat_eq, list_eq, pair_eq, Exn,
  runtime_error, Result, ok, err,
}
use mathlib.Core.Path.{ap₂}
use aiomisc.Base.Sets.{contains, add, discard, contains-add, contains-discard}

pub record Signal : Type 0 where
  pub receivers : List ℕ
  pub is_frozen : Bool

abbrev pub ident : ℕ → ℕ
ident i = i

unfoldable pub new_signal : Signal
new_signal = record { receivers = []; is_frozen = false }

unfoldable pub connect : (ℕ → Bool) → Signal → ℕ → Result Exn Unit × Signal
connect is_coroutine s r =
    if s.is_frozen
    then (err runtime_error, s)
    else if not (is_coroutine r)
    then (err runtime_error, s)
    else (ok tt, record s { receivers = add ident r s.receivers })

unfoldable pub disconnect : Signal → ℕ → Result Exn Unit × Signal
disconnect s r =
    if s.is_frozen
    then (err runtime_error, s)
    else (ok tt, record s { receivers = discard ident r s.receivers })

unfoldable pub copy : Signal → Signal
copy s = record { receivers = s.receivers; is_frozen = false }

unfoldable pub freeze : Signal → Signal
freeze s = record s { is_frozen = true }

-- The loop of `call`: the receivers that were awaited, up to the first that raises, and what it raised.
unfoldable pub call_each : {E : Type 0} → (ℕ → Option E) → List ℕ → List ℕ × Option E
call_each raises [] = ([], none)
call_each raises (r ∷ rs) =
    let later = call_each raises rs in
    if is_some (raises r) then (r ∷ [], raises r) else (r ∷ later.0, later.1)

-- `call`
unfoldable pub call : {E : Type 0} → (ℕ → Option E) → Signal → List ℕ × Option E
call raises s = call_each raises s.receivers

pub data Event : Type 0 where
  connects : ℕ → Event
  disconnects : ℕ → Event
  freezes : Event

abbrev pub step : (ℕ → Bool) → Signal → Event → Signal
step is_coroutine s (connects r) = (connect is_coroutine s r).1
step is_coroutine s (disconnects r) = (disconnect s r).1
step is_coroutine s freezes = freeze s

unfoldable pub run : (ℕ → Bool) → Signal → List Event → Signal
run is_coroutine s [] = s
run is_coroutine s (event ∷ events) = run is_coroutine (step is_coroutine s event) events

-- Who is connected after a history: the last event on a receiver before the freeze counts.
abbrev pub connected : (ℕ → Bool) → Bool → Bool → ℕ → List Event → Bool
connected is_coroutine now_ frozen r [] = now_
connected is_coroutine now_ frozen r (freezes ∷ events) = connected is_coroutine now_ true r events
connected is_coroutine now_ frozen r (connects q ∷ events) =
    connected is_coroutine (now_ || (not frozen && (is_coroutine q && nat_beq q r))) frozen r events
connected is_coroutine now_ frozen r (disconnects q ∷ events) =
    connected is_coroutine (now_ && (frozen || not (nat_beq q r))) frozen r events

-- What the calls of a history return or raise, in order.
unfoldable pub results : (ℕ → Bool) → Signal → List Event → List (Result Exn Unit)
results is_coroutine s [] = []
results is_coroutine s (freezes ∷ events) = results is_coroutine (freeze s) events
results is_coroutine s (connects q ∷ events) =
    (connect is_coroutine s q).0 ∷ results is_coroutine (connect is_coroutine s q).1 events
results is_coroutine s (disconnects q ∷ events) =
    (disconnect s q).0 ∷ results is_coroutine (disconnect s q).1 events

abbrev refused_if : Bool → Result Exn Unit
refused_if true = err runtime_error
refused_if false = ok tt

-- What they are to be: a RuntimeError after the freeze, and for no coroutine function.
abbrev pub due : (ℕ → Bool) → Bool → List Event → List (Result Exn Unit)
due is_coroutine frozen [] = []
due is_coroutine frozen (freezes ∷ events) = due is_coroutine true events
due is_coroutine frozen (connects q ∷ events) =
    refused_if (frozen || not (is_coroutine q)) ∷ due is_coroutine frozen events
due is_coroutine frozen (disconnects q ∷ events) =
    refused_if frozen ∷ due is_coroutine frozen events

module _ (is_coroutine : ℕ → Bool) where
  connect-result :
      (s : Signal) (q : ℕ)
      → (connect is_coroutine s q).0 ≡ refused_if (s.is_frozen || not (is_coroutine q))
  unfolding connect
  connect-result s q = elim (Bool-cases s.is_frozen) [
    | inl h ↦ rw h refl
    | inr h ↦ elim (Bool-cases (is_coroutine q)) [ inl y ↦ rw (h, y) refl | inr n ↦ rw (h, n) refl ]
  ]

  disconnect-result : (s : Signal) (q : ℕ) → (disconnect s q).0 ≡ refused_if s.is_frozen
  unfolding disconnect
  disconnect-result s q = elim (Bool-cases s.is_frozen) [ inl h ↦ rw h refl | inr h ↦ rw h refl ]

  connect-contains :
      (s : Signal) (q r : ℕ)
      → (contains ident (connect is_coroutine s q).1.receivers r
          ≡ (contains ident s.receivers r || (not s.is_frozen && (is_coroutine q && nat_beq q r))))
        × ((connect is_coroutine s q).1.is_frozen ≡ s.is_frozen)
  unfolding connect
  connect-contains s q r =
      if_cases
        (λ (x : Result Exn Unit × Signal).
          (contains ident x.1.receivers r ≡ (
            contains ident s.receivers r || (not s.is_frozen && (is_coroutine q && nat_beq q r))))
          × (x.1.is_frozen ≡ s.is_frozen))
        s.is_frozen (λ h. (ground (arith, h), refl))
        (λ h.
          if_cases
            (λ (x : Result Exn Unit × Signal).
              (contains ident x.1.receivers r ≡ (
                contains ident s.receivers r
                || (not s.is_frozen && (is_coroutine q && nat_beq q r))))
              × (x.1.is_frozen ≡ s.is_frozen))
            (not (is_coroutine q)) (λ n. (ground (arith, n), refl))
            (λ y. (ground (arith, h, y, contains-add ident q r s.receivers), refl)))

  disconnect-contains :
      (s : Signal) (q r : ℕ)
      → (contains ident (disconnect s q).1.receivers r
          ≡ (contains ident s.receivers r && (s.is_frozen || not (nat_beq q r))))
        × ((disconnect s q).1.is_frozen ≡ s.is_frozen)
  unfolding disconnect
  disconnect-contains s q r =
      if_cases
        (λ (x : Result Exn Unit × Signal).
          (contains ident x.1.receivers r
            ≡ (contains ident s.receivers r && (s.is_frozen || not (nat_beq q r))))
          × (x.1.is_frozen ≡ s.is_frozen))
        s.is_frozen (λ h. (ground (arith, h), refl))
        (λ h. (ground (arith, h, contains-discard ident q r s.receivers), refl))

  run-contains :
      (s : Signal) (events : List Event) (r : ℕ)
      → contains ident (run is_coroutine s events).receivers r
        ≡ connected is_coroutine (contains ident s.receivers r) s.is_frozen r events
  unfolding run freeze
  run-contains s [] r = refl
  run-contains s (freezes ∷ events) r = run-contains (freeze s) events r
  run-contains s (connects q ∷ events) r =
      let h = connect-contains s q r in
      run-contains (connect is_coroutine s q).1 events r
      ∙ ap (λ b. connected is_coroutine b (connect is_coroutine s q).1.is_frozen r events) h.0
      ∙ ap
          (λ b.
            connected is_coroutine
              (contains ident s.receivers r || (not s.is_frozen && (is_coroutine q && nat_beq q r)))
              b r events)
          h.1
  run-contains s (disconnects q ∷ events) r =
      let h = disconnect-contains s q r in
      run-contains (disconnect s q).1 events r
      ∙ ap (λ b. connected is_coroutine b (disconnect s q).1.is_frozen r events) h.0
      ∙ ap
          (λ b.
            connected is_coroutine
              (contains ident s.receivers r && (s.is_frozen || not (nat_beq q r))) b r events)
          h.1

  results-due :
      (s : Signal) (events : List Event)
      → results is_coroutine s events ≡ due is_coroutine s.is_frozen events
  unfolding results freeze
  results-due s [] = refl
  results-due s (freezes ∷ events) = results-due (freeze s) events
  results-due s (connects q ∷ events) =
      ap₂ (λ (r : Result Exn Unit) (rs : List (Result Exn Unit)). r ∷ rs) (connect-result s q)
        (results-due (connect is_coroutine s q).1 events
          ∙ ap (λ b. due is_coroutine b events) (connect-contains s q q).1)
  results-due s (disconnects q ∷ events) =
      ap₂ (λ (r : Result Exn Unit) (rs : List (Result Exn Unit)). r ∷ rs) (disconnect-result s q)
        (results-due (disconnect s q).1 events
          ∙ ap (λ b. due is_coroutine b events) (disconnect-contains s q q).1)

  -- A receiver is connected to a signal if, and only if, it was at the start or is a coroutine function
  -- that was connected, and has not been disconnected since, both before the signal was frozen. A call
  -- of `connect` or `disconnect` raises RuntimeError exactly when it comes after the freeze, or connects
  -- what is no coroutine function.
  pub run-connected :
      (s : Signal) (events : List Event) (r : ℕ)
      → (contains ident (run is_coroutine s events).receivers r
          ≡ connected is_coroutine (contains ident s.receivers r) s.is_frozen r events)
        × (results is_coroutine s events ≡ due is_coroutine s.is_frozen events)
  run-connected s events r = (run-contains s events r, results-due s events)
