-- ===== src/Utils/Chunks.antt =====
-- `chunk_list` of aiomisc/utils.py. The loop runs on fuel, and takes at least one item in each round, so
-- that as many rounds as there are items, and one more, are enough.
use aiomisc.Base.{
  length-drop-le, take-append-drop, length-take-le, ℕ, zero, suc, ◌+◌, ◌≤◌, ◌<◌, ◌≡◌, refl, sym, ap,
  ◌∙◌, ◌⊎◌, inl, inr, List, [], ◌∷◌, ◌++◌, arith, nat_eq, list_eq, pair_eq, length, take, drop,
}

abbrev pub next_chunks : {A : Type 0} → List A → List (List A) → List (List A)
next_chunks [] later = []
next_chunks (x ∷ item) later = (x ∷ item) ∷ later

unfoldable pub chunk_loop : {A : Type 0} → ℕ → List A → ℕ → List (List A)
chunk_loop zero iterable size = []
chunk_loop (suc fuel) iterable size =
    let later = chunk_loop fuel (drop size iterable) size in next_chunks (take size iterable) later

unfoldable pub chunk_list : {A : Type 0} → List A → ℕ → List (List A)
chunk_list iterable size = chunk_loop (length iterable + 1) iterable size

abbrev pub joined : {A : Type 0} → List (List A) → List A
joined [] = []
joined (item ∷ items) = item ++ joined items

-- All chunks but the last are full; the last has an item at least.
abbrev pub AllFull : {A : Type 0} → ℕ → List (List A) → Type 0
AllFull size [] = Unit
AllFull size (item ∷ []) = (0 < length item) × (length item ≤ size)
AllFull size (item ∷ next_ ∷ items) = (length item ≡ size) × AllFull size (next_ ∷ items)

module _ {A : Type 0} where
  next_chunks-joined :
      (item : List A) (rest : List A) (later : List (List A))
      → ((length item ≡ 0) → rest ≡ [])
      → joined later ≡ rest
      → joined (next_chunks item later) ≡ item ++ rest
  next_chunks-joined [] rest later h e = sym (h refl)
  next_chunks-joined (x ∷ item) rest later h e = ap (λ r. x ∷ (item ++ r)) e

  taken_none : (size : ℕ) (xs : List A) → 0 < size → length (take size xs) ≡ 0 → drop size xs ≡ []
  taken_none zero xs p h = absurd (omega arith)
  taken_none (suc size) [] p h = refl
  taken_none (suc size) (x ∷ xs) p h = absurd (omega arith)

  length-drop-less :
      (size : ℕ) (x : A) (xs : List A) → 0 < size → length (drop size (x ∷ xs)) ≤ length xs
  length-drop-less zero x xs p = absurd (omega arith)
  length-drop-less (suc size) x xs p = length-drop-le size xs

  chunk_loop-joined :
      (fuel : ℕ) (xs : List A) (size : ℕ)
      → 0 < size
      → length xs < fuel
      → joined (chunk_loop fuel xs size) ≡ xs
  unfolding chunk_loop
  chunk_loop-joined zero xs size p h = absurd (omega arith)
  chunk_loop-joined (suc fuel) [] (suc size) p h = refl
  chunk_loop-joined (suc fuel) [] zero p h = absurd (omega arith)
  chunk_loop-joined (suc fuel) (x ∷ xs) size p h =
      next_chunks-joined (take size (x ∷ xs)) (drop size (x ∷ xs)) _ (taken_none size (x ∷ xs) p) (
        chunk_loop-joined fuel (drop size (x ∷ xs)) size p
          (omega (arith, length-drop-less size x xs p)))
      ∙ take-append-drop size (x ∷ xs)

  next_chunks-AllFull :
      (size : ℕ) (item : List A) (later : List (List A))
      → length item ≤ size
      → (later ≡ []) ⊎ (length item ≡ size)
      → AllFull size later
      → AllFull size (next_chunks item later)
  next_chunks-AllFull size [] later h full a = tt
  next_chunks-AllFull size (x ∷ item) [] h full a = (omega arith, h)
  next_chunks-AllFull size (x ∷ item) (l ∷ later) h (inr e) a = (e, a)
  next_chunks-AllFull size (x ∷ item) (l ∷ later) h (inl e) a = cc e

  full_or_last : (size : ℕ) (xs : List A) → (drop size xs ≡ []) ⊎ (length (take size xs) ≡ size)
  full_or_last zero xs = inr refl
  full_or_last (suc size) [] = inl refl
  full_or_last (suc size) (x ∷ xs) = elim (full_or_last size xs) [
    | inl e ↦ inl e
    | inr e ↦ inr (omega (arith, e))
  ]

  chunk_loop-nil : (fuel size : ℕ) → chunk_loop {A = A} fuel [] size ≡ []
  unfolding chunk_loop
  chunk_loop-nil zero size = refl
  chunk_loop-nil (suc fuel) zero = refl
  chunk_loop-nil (suc fuel) (suc size) = refl

  chunk_loop-AllFull : (fuel : ℕ) (xs : List A) (size : ℕ) → AllFull size (chunk_loop fuel xs size)
  unfolding chunk_loop
  chunk_loop-AllFull zero xs size = tt
  chunk_loop-AllFull (suc fuel) xs size =
      next_chunks-AllFull size (take size xs) (chunk_loop fuel (drop size xs) size)
        (length-take-le size xs)
        (elim (full_or_last size xs) [
          | inl e ↦ inl (ap (λ (ys : List A). chunk_loop fuel ys size) e ∙ chunk_loop-nil fuel size)
          | inr e ↦ inr e
        ])
        (chunk_loop-AllFull fuel (drop size xs) size)

  -- The chunks of any list, by any size but zero, make up the list, every one of them but the last has
  -- the size, and the last has at least one item and no more than the size.
  pub chunk_list-joined :
      (xs : List A) (size : ℕ)
      → 0 < size
      → (joined (chunk_list xs size) ≡ xs) × AllFull size (chunk_list xs size)
  unfolding chunk_list
  chunk_list-joined xs size p = (
    chunk_loop-joined (length xs + 1) xs size p (omega arith),
    chunk_loop-AllFull (length xs + 1) xs size,
  )
