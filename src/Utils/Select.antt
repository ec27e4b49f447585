-- ===== src/Utils/Select.antt =====
-- `select` of aiomisc/utils.py: SelectResult, and SelectAwaitable up to its result. The awaitables that
-- have ended when `asyncio.wait` comes back are a list in the order in which they ended.
use aiomisc.Base.{
  ℕ, zero, suc, ◌+◌, ◌<◌, ◌≡◌, refl, ap, ◌∙◌, Bool, false, Option, none, some, List, [], ◌∷◌, arith,
  nat_beq, if◌then◌else◌, is_some, nat_eq, list_eq, pair_eq, Result, ok, err,
}

-- How an awaitable ends; it stands for the value of a result with its `is_exception`.
pub data Ended (V E : Type 0) : Type 0 where
  returned : V → Ended V E
  raised : E → Ended V E
  was_cancelled : Ended V E

pub record SelectResult (V E : Type 0) : Type 0 where
  pub length_ : ℕ
  pub result_idx : Option ℕ
  pub value : Option (Ended V E)

abbrev pub is_index : Option ℕ → ℕ → Bool
is_index none i = false
is_index (some j) i = nat_beq i j

module _ {V E : Type 0} where
  unfoldable pub new_result : ℕ → SelectResult V E
  new_result n = record { length_ = n; result_idx = none; value = none }

  -- Only the first result is kept.
  unfoldable pub set_result : SelectResult V E → ℕ → Ended V E → SelectResult V E
  set_result r idx v =
      if is_some r.result_idx then r else record r { result_idx = some idx; value = some v }

  -- `__waiter`: a cancelled one sets nothing.
  abbrev pub waiter : SelectResult V E → ℕ → Ended V E → SelectResult V E
  waiter r idx was_cancelled = r
  waiter r idx v = set_result r idx v

  unfoldable pub wait_all : SelectResult V E → List (ℕ × Ended V E) → SelectResult V E
  wait_all r [] = r
  wait_all r ((idx, v) ∷ ended) = wait_all (waiter r idx v) ended

  -- The end of `__run`, with what it raises as an error.
  abbrev pub raise_first :
      Bool → SelectResult V E → Option (Ended V E) → Result E (SelectResult V E)
  raise_first return_exceptions r (some (raised e)) = if return_exceptions then ok r else err e
  raise_first return_exceptions r _ = ok r

  unfoldable pub select : Bool → ℕ → List (ℕ × Ended V E) → Result E (SelectResult V E)
  select return_exceptions n ended =
      let r = wait_all (new_result n) ended in raise_first return_exceptions r r.value

  -- `__iter__` from the index `i` on.
  unfoldable pub items_from : SelectResult V E → ℕ → ℕ → List (Option (Ended V E))
  items_from r i zero = []
  items_from r i (suc n) =
      (if is_index r.result_idx i then r.value else none) ∷ items_from r (i + 1) n

  unfoldable pub items : SelectResult V E → List (Option (Ended V E))
  items r = items_from r 0 r.length_

  -- The one that ended first, of those that were not cancelled.
  abbrev pub first : List (ℕ × Ended V E) → Option (ℕ × Ended V E)
  first [] = none
  first ((idx, was_cancelled) ∷ ended) = first ended
  first ((idx, returned v) ∷ ended) = some (idx, returned v)
  first ((idx, raised e) ∷ ended) = some (idx, raised e)

  -- A result of `length_` places with one of them set, or none.
  abbrev pub result_of : ℕ → Option (ℕ × Ended V E) → SelectResult V E
  result_of n none = record { length_ = n; result_idx = none; value = none }
  result_of n (some (idx, v)) = record { length_ = n; result_idx = some idx; value = some v }

  set_result-set :
      (n idx i : ℕ) (v w : Ended V E)
      → set_result (record { length_ = n; result_idx = some idx; value = some v }) i w
        ≡ record { length_ = n; result_idx = some idx; value = some v }
  unfolding set_result
  set_result-set n idx i v w = refl

  wait_all-set :
      (n idx : ℕ) (v : Ended V E) (ended : List (ℕ × Ended V E))
      → wait_all (result_of n (some (idx, v))) ended ≡ result_of n (some (idx, v))
  unfolding wait_all set_result
  wait_all-set n idx v [] = refl
  wait_all-set n idx v ((i, was_cancelled) ∷ ended) = wait_all-set n idx v ended
  wait_all-set n idx v ((i, returned w) ∷ ended) = wait_all-set n idx v ended
  wait_all-set n idx v ((i, raised e) ∷ ended) = wait_all-set n idx v ended

  wait_all-first :
      (n : ℕ) (ended : List (ℕ × Ended V E))
      → wait_all (new_result n) ended ≡ result_of n (first ended)
  unfolding wait_all new_result set_result
  wait_all-first n [] = refl
  wait_all-first n ((i, was_cancelled) ∷ ended) = wait_all-first n ended
  wait_all-first n ((i, returned v) ∷ ended) = wait_all-set n i (returned v) ended
  wait_all-first n ((i, raised e) ∷ ended) = wait_all-set n i (raised e) ended

  -- The item at a place.
  abbrev pub item : ℕ → List (Option (Ended V E)) → Option (Ended V E)
  item i [] = none
  item zero (o ∷ os) = o
  item (suc i) (o ∷ os) = item i os

  item-items_from :
      (r : SelectResult V E) (s n i : ℕ)
      → i < n
      → item i (items_from r s n) ≡ (if is_index r.result_idx (s + i) then r.value else none)
  unfolding items_from
  item-items_from r s zero i h = absurd (omega arith)
  item-items_from r s (suc n) zero h =
      let e : s ≡ s + 0 = omega arith in
      ap (λ k. if is_index r.result_idx k then r.value else none) e
  item-items_from r s (suc n) (suc i) h =
      let e : s + 1 + i ≡ s + suc i = omega arith in
      item-items_from r (s + 1) n i (omega arith)
      ∙ ap (λ k. if is_index r.result_idx k then r.value else none) e

  -- What `select` is to give: an error if the first one to end raised and exceptions are not to be
  -- returned, else the result with its place and value.
  abbrev pub due : Bool → ℕ → Option (ℕ × Ended V E) → Result E (SelectResult V E)
  due return_exceptions n (some (idx, raised e)) =
      if return_exceptions then ok (result_of n (some (idx, raised e))) else err e
  due return_exceptions n o = ok (result_of n o)

  raise_first-due :
      (return_exceptions : Bool) (n : ℕ) (o : Option (ℕ × Ended V E))
      → raise_first return_exceptions (result_of n o) (result_of n o).value
        ≡ due return_exceptions n o
  raise_first-due b n none = refl
  raise_first-due b n (some (idx, returned v)) = refl
  raise_first-due b n (some (idx, raised e)) = refl
  raise_first-due b n (some (idx, was_cancelled)) = refl

  -- However many awaitables have ended, `select` gives the one that ended first of those that were not
  -- cancelled: its value, or its exception, which is raised unless exceptions are to be returned; and
  -- the items of that result are all None but the one at the place of this awaitable.
  pub select-first :
      (return_exceptions : Bool) (n : ℕ) (ended : List (ℕ × Ended V E)) (i : ℕ)
      → i < n
      → (select return_exceptions n ended ≡ due return_exceptions n (first ended))
        × (item i (items (wait_all (new_result n) ended)) ≡ (
            if is_index (result_of n (first ended)).result_idx i
            then (result_of n (first ended)).value
            else none))
  unfolding select items
  select-first return_exceptions n ended i h = (
    ap (λ (r : SelectResult V E). raise_first return_exceptions r r.value) (wait_all-first n ended)
        ∙ raise_first-due return_exceptions n (first ended),
    ap (λ (r : SelectResult V E). item i (items_from r 0 r.length_)) (wait_all-first n ended)
        ∙ at_index (first ended),
  )
    where
      at_index :
          (o : Option (ℕ × Ended V E))
          → item i (items_from (result_of n o) 0 (result_of n o).length_)
            ≡ (if is_index (result_of n o).result_idx i then (result_of n o).value else none)
      at_index none = item-items_from (result_of n none) 0 n i h
      at_index (some (idx, v)) =
          let e : 0 + i ≡ i = omega arith in
          item-items_from (result_of n (some (idx, v))) 0 n i h
          ∙ ap (λ k. if is_index (some idx) k then some v else none) e
