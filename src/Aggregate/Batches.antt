-- ===== src/Aggregate/Batches.antt =====
-- Which calls of aiomisc/aggregate.py go together.
use aiomisc.Base.{
  ℕ, ◌+◌, ◌≤◌, ◌<◌, ◌≡◌, refl, sym, ap, subst, ◌∙◌, Bool, true, false, Option, none, some, List, [],
  ◌∷◌, ◌++◌, arith, if◌then◌else◌, nat_beq_iff, if_cases, nat_eq, list_eq, pair_eq, All, All-append,
  length, length-append,
}
use mathlib.Core.List.{append-nil, append_assoc}
use aiomisc.Aggregate.{
  Aggregator, Batch, FutureState, Ending, returns, raises, is_cancelled, is_full, clear, aggregate,
  execute,
}

-- A call comes, the time of the batch that gathers is over, or the function ends for some batch.
pub data Event (V R E : Type 0) : Type 0 where
  calls : V → Event V R E
  times_out : Event V R E
  executes : Batch V → (ℕ → FutureState R E) → Ending E → Event V R E

abbrev pub nobody : {A : Type 0} → List A → Bool
nobody [] = true
nobody (x ∷ xs) = false

module _ {V R E : Type 0} where
  -- The time-out is met by a call of the batch, so there is none for an empty one.
  abbrev pub step : Aggregator V R E → Event V R E → Aggregator V R E
  step a (calls v) = aggregate a v
  step a times_out = if nobody a.gathering.args then a else clear a
  step a (executes b states ending) = execute a b states ending

  unfoldable pub run : Aggregator V R E → List (Event V R E) → Aggregator V R E
  run a [] = a
  run a (event ∷ events) = run (step a event) events

-- The arguments of the calls, in their order.
unfoldable pub called : {V R E : Type 0} → List (Event V R E) → List V
called [] = []
called (calls v ∷ events) = v ∷ called events
called (times_out ∷ events) = called events
called (executes b states ending ∷ events) = called events

unfoldable pub all_args : {V : Type 0} → List (Batch V) → List V
all_args [] = []
all_args (b ∷ bs) = b.args ++ all_args bs

-- Every argument has its future; a batch that was put aside is neither empty nor too large.
abbrev pub Fits : {V : Type 0} → Option ℕ → Batch V → Type 0
Fits none b = (length b.args ≡ length b.futures) × (1 ≤ length b.args)
Fits (some m) b = (length b.args ≡ length b.futures) × (1 ≤ length b.args) × (length b.args ≤ m)

abbrev pub Room : Option ℕ → ℕ → Type 0
Room none n = Unit
Room (some m) n = n < m

-- The batches, and the one that gathers, hold the arguments so far.
pub record Grouped {V R E : Type 0} (args : List V) (a : Aggregator V R E) : Type 0 where
  pub in_order : all_args a.batches ++ a.gathering.args ≡ args
  pub fit : All (Fits a.max_count) a.batches
  pub paired : length a.gathering.args ≡ length a.gathering.futures
  pub room : Room a.max_count (length a.gathering.args)

module _ {V : Type 0} where
  all_args-append :
      (bs : List (Batch V)) (b : Batch V) → all_args (bs ++ b ∷ []) ≡ all_args bs ++ b.args
  unfolding all_args
  all_args-append [] b = append-nil b.args
  all_args-append (c ∷ bs) b =
      ap (λ xs. c.args ++ xs) (all_args-append bs b)
      ∙ sym (append_assoc c.args (all_args bs) b.args)

  nonempty_append : (xs : List V) (v : V) → 1 ≤ length (xs ++ v ∷ [])
  nonempty_append xs v = omega (arith, length-append xs (v ∷ []))

  full-Fits :
      (o : Option ℕ) (b : Batch V)
      → length b.args ≡ length b.futures
      → 1 ≤ length b.args
      → is_full o (length b.args) ≡ true
      → Fits o b
  full-Fits none b e h f = cc f
  full-Fits (some m) b e h f = (e, h, omega (arith, (nat_beq_iff (length b.args) m).0 f))

  over-Fits :
      (o : Option ℕ) (b : Batch V)
      → length b.args ≡ length b.futures
      → 1 ≤ length b.args
      → Room o (length b.args)
      → Fits o b
  over-Fits none b e h r = (e, h)
  over-Fits (some m) b e h r = (e, h, omega arith)

more-Room : (o : Option ℕ) (n k : ℕ) → k ≡ n + 1 → Room o n → is_full o k ≡ false → Room o k
more-Room none n k e r f = tt
more-Room (some m) n k e r f = ground (arith, nat_beq_iff k m)

same-Room : {o p : Option ℕ} → p ≡ o → Room o 0 → Room p 0
same-Room e r = subst (λ q. Room q 0) (sym e) r

module _ {V R E : Type 0} where
  clear-Grouped :
      (args : List V) (a : Aggregator V R E)
      → all_args a.batches ++ a.gathering.args ≡ args
      → All (Fits a.max_count) a.batches
      → Fits a.max_count a.gathering
      → Room a.max_count 0
      → Grouped args (clear a)
  unfolding clear
  clear-Grouped args a e fit last room = record {
    in_order = append-nil _ ∙ all_args-append a.batches a.gathering ∙ e;
    fit = All-append (Fits a.max_count) a.batches (a.gathering ∷ []) fit (last, tt);
    paired = refl;
    room = room;
  }

  aggregate-Grouped :
      (args : List V) (a : Aggregator V R E) (v : V)
      → Room a.max_count 0
      → Grouped args a
      → Grouped (args ++ v ∷ []) (aggregate a v)
  unfolding aggregate
  aggregate-Grouped args a v room g =
      let arrived : List V = a.gathering.args ++ v ∷ [] in
      let e : all_args a.batches ++ arrived ≡ args ++ v ∷ [] =
        sym (append_assoc (all_args a.batches) a.gathering.args (v ∷ []))
        ∙ ap (λ xs. xs ++ v ∷ []) g.in_order in
      let paired : length arrived ≡ length (a.gathering.futures ++ a.next_future ∷ []) = omega (
        arith,
        g.paired,
        length-append a.gathering.args (v ∷ []),
        length-append a.gathering.futures (a.next_future ∷ []),
      ) in
      if_cases (Grouped (args ++ v ∷ [])) (is_full a.max_count (length arrived))
        (λ f.
          clear-Grouped (args ++ v ∷ []) _ e g.fit
            (full-Fits a.max_count _ paired (nonempty_append a.gathering.args v) f) room)
        (λ f. record {
          in_order = e;
          fit = g.fit;
          paired = paired;
          room =
              more-Room a.max_count (length a.gathering.args) (length arrived)
                (length-append a.gathering.args (v ∷ [])) g.room f;
        })

  times_out-Grouped :
      (args : List V) (a : Aggregator V R E)
      → Room a.max_count 0
      → Grouped args a
      → Grouped args (step a times_out)
  times_out-Grouped args a room g =
      if_cases (Grouped args) (nobody a.gathering.args) (λ _. g)
        (λ some_.
          clear-Grouped args a g.in_order g.fit
            (over-Fits a.max_count a.gathering g.paired (someone a.gathering.args some_) g.room)
            room)
    where
      someone : (xs : List V) → nobody xs ≡ false → 1 ≤ length xs
      someone [] h = cc h
      someone (x ∷ xs) h = omega arith

  execute-Grouped :
      (args : List V) (a : Aggregator V R E) (b : Batch V) (states : ℕ → FutureState R E)
      (ending : Ending E)
      → Grouped args a
      → Grouped args (execute a b states ending)
        × ((execute a b states ending).max_count ≡ a.max_count)
  unfolding execute
  execute-Grouped args a b states returns g =
      (record { in_order = g.in_order; fit = g.fit; paired = g.paired; room = g.room }, refl)
  execute-Grouped args a b states (raises x) g =
      (record { in_order = g.in_order; fit = g.fit; paired = g.paired; room = g.room }, refl)
  execute-Grouped args a b states is_cancelled g =
      (record { in_order = g.in_order; fit = g.fit; paired = g.paired; room = g.room }, refl)

  aggregate-max : (a : Aggregator V R E) (v : V) → (aggregate a v).max_count ≡ a.max_count
  unfolding aggregate clear
  aggregate-max a v =
      if_cases (λ (x : Aggregator V R E). x.max_count ≡ a.max_count)
        (is_full a.max_count (length (a.gathering.args ++ v ∷ []))) (λ _. refl) (λ _. refl)

  times_out-max : (a : Aggregator V R E) → (step a times_out).max_count ≡ a.max_count
  unfolding clear
  times_out-max a =
      if_cases (λ (x : Aggregator V R E). x.max_count ≡ a.max_count) (nobody a.gathering.args)
        (λ _. refl) (λ _. refl)

  -- Whatever happens to an aggregator whose limit, if any, is positive and that has grouped the
  -- arguments so far: the batches, and then the one that gathers, hold the arguments of all calls
  -- in the order of the calls, none lost and none twice; every batch that was put aside has at
  -- least one call and at most `max_count`, and a future for each argument.
  pub run-Grouped :
      (args : List V) (a : Aggregator V R E) (events : List (Event V R E))
      → Room a.max_count 0
      → Grouped args a
      → Grouped (args ++ called events) (run a events)
  unfolding run called
  run-Grouped args a [] room g = subst (λ xs. Grouped xs a) (sym (append-nil args)) g
  run-Grouped args a (calls v ∷ events) room g =
      subst (λ xs. Grouped xs (run (aggregate a v) events))
        (append_assoc args (v ∷ []) (called events))
        (run-Grouped (args ++ v ∷ []) (aggregate a v) events (same-Room (aggregate-max a v) room)
          (aggregate-Grouped args a v room g))
  run-Grouped args a (times_out ∷ events) room g =
      run-Grouped args (step a times_out) events (same-Room (times_out-max a) room)
        (times_out-Grouped args a room g)
  run-Grouped args a (executes b states ending ∷ events) room g =
      let (g', e) = execute-Grouped args a b states ending g in
      run-Grouped args (execute a b states ending) events (same-Room e room) g'
