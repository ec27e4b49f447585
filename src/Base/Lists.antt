-- ===== src/Base/Lists.antt =====
-- Lists with lengths in the native numbers.
use Prim.Native.Nat.{ℕ, zero, suc, ◌+◌, ◌-◌, ◌≤◌, ◌<◌}
use mathlib.Core.Path.{◌≡◌, refl, ap, ◌∙◌}
use mathlib.Core.List.{List, [], ◌∷◌, ◌++◌}
use mathlib.Core.Bool.{Bool, true, false}
use native.Mathlib.Omega.{arith}
use aiomisc.Base.Tests.{if◌then◌else◌}

module _ {ℓ} {A : Type ℓ} where
  abbrev pub length : List A → ℕ
  length [] = 0
  length (x ∷ xs) = suc (length xs)

  pub length-append : (xs ys : List A) → length (xs ++ ys) ≡ length xs + length ys
  length-append [] ys = omega arith
  length-append (x ∷ xs) ys = omega (arith, length-append xs ys)

  abbrev pub take : ℕ → List A → List A
  take zero xs = []
  take (suc n) [] = []
  take (suc n) (x ∷ xs) = x ∷ take n xs

  abbrev pub drop : ℕ → List A → List A
  drop zero xs = xs
  drop (suc n) [] = []
  drop (suc n) (x ∷ xs) = drop n xs

  pub take-append-drop : (n : ℕ) (xs : List A) → take n xs ++ drop n xs ≡ xs
  take-append-drop zero xs = refl
  take-append-drop (suc n) [] = refl
  take-append-drop (suc n) (x ∷ xs) = ap (λ r. x ∷ r) (take-append-drop n xs)

  pub length-take-le : (n : ℕ) (xs : List A) → length (take n xs) ≤ n
  length-take-le zero xs = omega arith
  length-take-le (suc n) [] = omega arith
  length-take-le (suc n) (x ∷ xs) = omega (arith, length-take-le n xs)

  pub length-drop-le : (n : ℕ) (xs : List A) → length (drop n xs) ≤ length xs
  length-drop-le zero xs = omega arith
  length-drop-le (suc n) [] = omega arith
  length-drop-le (suc n) (x ∷ xs) = omega (arith, length-drop-le n xs)

  -- The members that pass a Boolean test, in order.
  abbrev pub keep : (A → Bool) → List A → List A
  keep p [] = []
  keep p (x ∷ xs) = let rest = keep p xs in if p x then x ∷ rest else rest

-- A predicate of every member.
abbrev pub All {ℓ κ} : {A : Type ℓ} → (A → Type κ) → List A → Type κ
All P [] = Unit
All P (x ∷ xs) = P x × All P xs

pub All-append {ℓ κ} :
    {A : Type ℓ} (P : A → Type κ) (xs ys : List A) → All P xs → All P ys → All P (xs ++ ys)
All-append P [] ys hx hy = hy
All-append P (x ∷ xs) ys hx hy = (hx.0, All-append P xs ys hx.1 hy)

pub All-keep {ℓ κ} :
    {A : Type ℓ} (P : A → Type κ) (p : A → Bool) (xs : List A) → All P xs → All P (keep p xs)
All-keep P p [] h = tt
All-keep P p (x ∷ xs) h = All_if (p x) h.0 (All-keep P p xs h.1)
  where
    All_if : (b : Bool) → P x → All P (keep p xs) → All P (if b then x ∷ keep p xs else keep p xs)
    All_if true hx hs = (hx, hs)
    All_if false hx hs = hs

pub All-take {ℓ κ} :
    {A : Type ℓ} (P : A → Type κ) (n : ℕ) (xs : List A) → All P xs → All P (take n xs)
All-take P zero xs h = tt
All-take P (suc n) [] h = tt
All-take P (suc n) (x ∷ xs) h = (h.0, All-take P n xs h.1)

pub All-map {ℓ κ} :
    {A : Type ℓ} (P Q : A → Type κ) (xs : List A) → ((x : A) → P x → Q x) → All P xs → All Q xs
All-map P Q [] f h = tt
All-map P Q (x ∷ xs) f h = (f x h.0, All-map P Q xs f h.1)

-- A list that is read in two steps.
minus_zero : (n : ℕ) → suc n - 0 ≡ suc n
minus_zero n = omega arith

suc_minus : (n m : ℕ) → suc n - suc m ≡ n - m
suc_minus n m = omega arith

module _ {ℓ} {A : Type ℓ} where
  pub take_positive : (n : ℕ) (xs : List A) → 0 < n → 0 < length xs → 0 < length (take n xs)
  take_positive zero xs h p = absurd (omega arith)
  take_positive (suc n) [] h p = absurd (omega arith)
  take_positive (suc n) (x ∷ xs) h p = omega arith

  -- To read what can be read of `xs`, and then what is missing of the rest, is to read all.
  pub take-append_rest :
      (n : ℕ) (xs ys : List A)
      → take n xs ++ take (n - length (take n xs)) (drop n xs ++ ys) ≡ take n (xs ++ ys)
  take-append_rest zero xs ys = refl
  take-append_rest (suc n) [] ys = ap (λ k. take k ys) (minus_zero n)
  take-append_rest (suc n) (x ∷ xs) ys =
      ap (λ zs. x ∷ zs)
        (ap (λ k. take n xs ++ take k (drop n xs ++ ys)) (suc_minus n (length (take n xs)))
          ∙ take-append_rest n xs ys)

  pub drop-append_rest :
      (n : ℕ) (xs ys : List A) → drop (n - length (take n xs)) (drop n xs ++ ys) ≡ drop n (xs ++ ys)
  drop-append_rest zero xs ys = refl
  drop-append_rest (suc n) [] ys = ap (λ k. drop k ys) (minus_zero n)
  drop-append_rest (suc n) (x ∷ xs) ys =
      ap (λ k. drop k (drop n xs ++ ys)) (suc_minus n (length (take n xs)))
      ∙ drop-append_rest n xs ys

  pub length-drop_rest :
      (n : ℕ) (xs ys : List A) → length (drop n xs ++ ys) + length (take n xs) ≡ length (xs ++ ys)
  length-drop_rest zero xs ys = omega arith
  length-drop_rest (suc n) [] ys = omega arith
  length-drop_rest (suc n) (x ∷ xs) ys = omega (arith, length-drop_rest n xs ys)
