-- ===== src/Context/Setter.antt =====
-- What the setter of aiomisc/context.py does to the futures that were given out.
use aiomisc.Base.{
  ℕ, ◌+◌, ◌≤◌, ◌<◌, ◌≡◌, refl, sym, ap, subst, ◌∙◌, inl, inr, Option, none, some, arith, nat_beq,
  if◌then◌else◌, nat_beq_iff, Option-cases, is_some, Eq, beq_self, nat_eq, list_eq, pair_eq,
}
use aiomisc.Base.Dict.{lookup, put, delete, lookup-put_eq, lookup-delete_eq}
use aiomisc.Context.{Context, or_future, future_at, set_result, drop_done, setter, get_item}

module _ {K V : Type 0} ⦃e : Eq K⦄ where
  -- The number of a future that is stored has been given, and one that is yet to be given has no
  -- value.
  pub record IsValid (c : Context K V) : Type 0 where
    pub given : (item : K) (i : ℕ) → lookup item c.storage ≡ some i → i < c.next_future
    pub fresh : (i : ℕ) → c.next_future ≤ i → c.states i ≡ none

  future_at-found :
      (c : Context K V) (item : K) (i : ℕ)
      → lookup item c.storage ≡ some i
      → future_at c item ≡ (i, c)
  unfolding future_at
  future_at-found c item i h = ap (or_future c item) h

  abbrev with_new : Context K V → K → Context K V
  with_new c item = record c {
    storage = put item c.next_future c.storage;
    next_future = c.next_future + 1;
  }

  future_at-missing :
      (c : Context K V) (item : K)
      → lookup item c.storage ≡ none
      → future_at c item ≡ (c.next_future, with_new c item)
  unfolding future_at
  future_at-missing c item h = ap (or_future c item) h

  drop_done-pending :
      (c : Context K V) (item : K) (i : ℕ) → c.states i ≡ none → drop_done (i, c) item ≡ c
  drop_done-pending c item i h =
      ap (λ (o : Option V). if is_some o then record c { storage = delete item c.storage } else c) h

  drop_done-done :
      (c : Context K V) (item : K) (i : ℕ) (w : V)
      → c.states i ≡ some w
      → drop_done (i, c) item ≡ record c { storage = delete item c.storage }
  drop_done-done c item i w h =
      ap (λ (o : Option V). if is_some o then record c { storage = delete item c.storage } else c) h

  setter-pending :
      (c : Context K V) (item : K) (v : V) (i : ℕ)
      → lookup item c.storage ≡ some i
      → c.states i ≡ none
      → setter c item v ≡ set_result (i, c) v
  unfolding setter
  setter-pending c item v i h p =
      ap (λ r. set_result (future_at (drop_done r item) item) v) (future_at-found c item i h)
      ∙ ap (λ (x : Context K V). set_result (future_at x item) v) (drop_done-pending c item i p)
      ∙ ap (λ r. set_result r v) (future_at-found c item i h)

  setter-done :
      (c : Context K V) (item : K) (v w : V) (i : ℕ)
      → lookup item c.storage ≡ some i
      → c.states i ≡ some w
      → setter c item v
        ≡ set_result (c.next_future, with_new (record c { storage = delete item c.storage }) item) v
  unfolding setter
  setter-done c item v w i h d =
      ap (λ r. set_result (future_at (drop_done r item) item) v) (future_at-found c item i h)
      ∙ ap (λ (x : Context K V). set_result (future_at x item) v) (drop_done-done c item i w d)
      ∙ ap (λ r. set_result r v)
          (future_at-missing (record c { storage = delete item c.storage }) item
            (lookup-delete_eq item item c.storage (beq_self item)))

  setter-missing :
      (c : Context K V) (item : K) (v : V)
      → IsValid c
      → lookup item c.storage ≡ none
      → setter c item v ≡ set_result (c.next_future, with_new c item) v
  unfolding setter
  setter-missing c item v valid h =
      ap (λ r. set_result (future_at (drop_done r item) item) v) (future_at-missing c item h)
      ∙ ap (λ (x : Context K V). set_result (future_at x item) v)
          (drop_done-pending (with_new c item) item c.next_future
            (valid.fresh c.next_future (omega arith)))
      ∙ ap (λ r. set_result r v)
          (future_at-found (with_new c item) item c.next_future
            (lookup-put_eq item item c.next_future c.storage (beq_self item)))

  -- The key's future has the value, it had none before, and every other future is as it was.
  pub record Settled (before : Context K V) (item : K) (v : V) (after : Context K V) : Type 0 where
    pub future : ℕ
    pub stored : lookup item after.storage ≡ some future
    pub was_pending : before.states future ≡ none
    pub states : (j : ℕ) → after.states j ≡ (if nat_beq future j then some v else before.states j)

  -- In a valid context, setting a key gives the value to exactly one future, which the key then
  -- has: no other future changes, and none that has a value gets another one, whether the key is
  -- new, is waited for or has a value.
  pub setter-Settled :
      (c : Context K V) (item : K) (v : V) → IsValid c → Settled c item v (setter c item v)
  setter-Settled c item v valid = elim (Option-cases (lookup item c.storage)) [
    | inl h ↦ subst (Settled c item v) (sym (setter-missing c item v valid h)) (record {
      future = c.next_future;
      stored = lookup-put_eq item item c.next_future c.storage (beq_self item);
      was_pending = valid.fresh c.next_future (omega arith);
      states = λ j. refl;
    })
    | inr (i, h) ↦ elim (Option-cases (c.states i)) [
      | inl p ↦
          subst (Settled c item v) (sym (setter-pending c item v i h p))
            (record { future = i; stored = h; was_pending = p; states = λ j. refl })
      | inr (w, d) ↦ subst (Settled c item v) (sym (setter-done c item v w i h d)) (record {
        future = c.next_future;
        stored = lookup-put_eq item item c.next_future (delete item c.storage) (beq_self item);
        was_pending = valid.fresh c.next_future (omega arith);
        states = λ j. refl;
      })
    ]
  ]

  or_future-stored :
      (c : Context K V) (item : K) (o : Option ℕ)
      → lookup item c.storage ≡ o
      → lookup item (or_future c item o).1.storage ≡ some (or_future c item o).0
  or_future-stored c item (some i) h = h
  or_future-stored c item none h = lookup-put_eq item item c.next_future c.storage (beq_self item)

  -- A caller that took a key's future before the key was set, while it was pending, gets the value
  -- through that very future.
  pub setter-waiting :
      (c : Context K V) (item : K) (v : V)
      → (get_item c item).1.states (get_item c item).0 ≡ none
      → (setter (get_item c item).1 item v).states (get_item c item).0 ≡ some v
  unfolding get_item future_at
  setter-waiting c item v p =
      let (i, taken) = get_item c item in
      let stored : lookup item taken.storage ≡ some i =
        or_future-stored (record c { get_count = c.get_count + 1 }) item (lookup item c.storage)
          refl in
      ap (λ (x : Context K V). x.states i) (setter-pending taken item v i stored p)
      ∙ ap (λ b. if b then some v else taken.states i) ((nat_beq_iff i i).1 refl)
