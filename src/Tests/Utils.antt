-- ===== src/Tests/Utils.antt =====
-- Runs of aiomisc/utils.py.
use aiomisc.Base.{
  ℕ, ◌≡◌, refl, false, none, some, List, [], ◌∷◌, arith, if◌then◌else◌, nat_eq, list_eq, pair_eq,
}
use aiomisc.Utils.Chunks.{chunk_list, chunk_loop}
use aiomisc.Utils.Select.{
  Ended, returned, raised, was_cancelled, new_result, select, wait_all, set_result, items,
  items_from, item, is_index, first, result_of, due, select-first,
}

abbrev five : List ℕ
five = 1 ∷ 2 ∷ 3 ∷ 4 ∷ 5 ∷ []

five_in_twos : chunk_list five 2 ≡ (1 ∷ 2 ∷ []) ∷ (3 ∷ 4 ∷ []) ∷ (5 ∷ []) ∷ []
unfolding chunk_list chunk_loop
five_in_twos = refl

-- Of three, the third was cancelled, then the second raised, and the first returned.
abbrev ended : List (ℕ × Ended ℕ ℕ)
ended = (2, was_cancelled) ∷ (1, raised 7) ∷ (0, returned 5) ∷ []

selected : items (wait_all (new_result 3) ended) ≡ none ∷ some (raised 7) ∷ none ∷ []
unfolding items wait_all new_result set_result items_from
selected = refl

select-first_example :
    (select false 3 ended ≡ due false 3 (first ended))
    × (item 1 (items (wait_all (new_result 3) ended)) ≡ (
        if is_index (result_of 3 (first ended)).result_idx 1
        then (result_of 3 (first ended)).value
        else none))
select-first_example = select-first false 3 ended 1 (omega arith)
