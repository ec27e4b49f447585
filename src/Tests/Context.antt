-- ===== src/Tests/Context.antt =====
-- Runs of aiomisc/context.py; keys and values are numbers here.
use aiomisc.Base.{
  ℕ, ◌≡◌, refl, none, some, [], ◌∷◌, arith, nat_beq, if◌then◌else◌, nat_beq_iff, nat_eq, list_eq,
  pair_eq,
}
use aiomisc.Context.{Context, get_item, setter, future_at}
use aiomisc.Context.Setter.{IsValid, Settled, setter-Settled}
use aiomisc.Base.Dict.{lookup}

abbrev context : Context ℕ ℕ
context = record {
  storage = (7, 0) ∷ [];
  states = λ i. if nat_beq i 0 then some 5 else none;
  next_future = 1;
  scheduled = [];
  get_count = 1;
  set_count = 1;
}

context-IsValid : IsValid context
unfolding lookup
context-IsValid = record {
  given = λ item i h. ground arith;
  fresh = λ i h. ground (arith, nat_beq_iff i 0);
}

-- A key that has a value is set again.
setter-Settled_example : Settled context 7 6 (setter context 7 6)
setter-Settled_example = setter-Settled context 7 6 context-IsValid

-- The key 8 is waited for.
eight_pending : (get_item context 8).1.states (get_item context 8).0 ≡ none
unfolding get_item future_at lookup
eight_pending = refl
