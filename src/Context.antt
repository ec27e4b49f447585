-- ===== src/Context.antt =====
-- aiomisc/context.py: the storage of a context gives each key a future. A future is its number, and
-- `states` its value once it has one. `__setitem__` leaves its key and value in `scheduled`, until
-- the event loop calls the setter.
pub mod Setter
use aiomisc.Base.{
  ℕ, ◌+◌, ◌-◌, ◌/◌, Option, none, some, List, [], ◌∷◌, ◌++◌, nat_beq, if◌then◌else◌, is_some, Eq,
  nat_eq, list_eq, pair_eq,
}
use aiomisc.Base.Dict.{Dict, lookup, put, delete}

pub record Context (K V : Type 0) : Type 0 where
  pub storage : Dict K ℕ
  pub states : ℕ → Option V
  pub next_future : ℕ
  pub scheduled : List (K × V)
  pub get_count : ℕ
  pub set_count : ℕ

unfoldable pub new_context : {K V : Type 0} → Context K V
new_context = record {
  storage = [];
  states = λ _. none;
  next_future = 0;
  scheduled = [];
  get_count = 0;
  set_count = 0;
}

module _ {K V : Type 0} ⦃e : Eq K⦄ where
  -- `defaultdict(loop.create_future)`
  abbrev pub or_future : Context K V → K → Option ℕ → ℕ × Context K V
  or_future c item (some i) = (i, c)
  or_future c item none = (
    c.next_future,
    record c { storage = put item c.next_future c.storage; next_future = c.next_future + 1 },
  )

  unfoldable pub future_at : Context K V → K → ℕ × Context K V
  future_at c item = or_future c item (lookup item c.storage)

  unfoldable pub get_item : Context K V → K → ℕ × Context K V
  get_item c item = future_at (record c { get_count = c.get_count + 1 }) item

  unfoldable pub set_item : Context K V → K → V → Context K V
  set_item c item v = record c {
    set_count = c.set_count + 1;
    scheduled = c.scheduled ++ (item, v) ∷ [];
  }

  abbrev pub set_result : ℕ × Context K V → V → Context K V
  set_result (i, c) v = record c { states = λ j. if nat_beq i j then some v else c.states j }

  abbrev pub drop_done : ℕ × Context K V → K → Context K V
  drop_done (i, c) item =
      if is_some (c.states i) then record c { storage = delete item c.storage } else c

  -- The setter: a future that is done makes room for a new one.
  unfoldable pub setter : Context K V → K → V → Context K V
  setter c item v = set_result (future_at (drop_done (future_at c item) item) item) v

  unfoldable pub close : Context K V → Context K V
  close c = record c { storage = [] }
