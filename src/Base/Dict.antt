-- ===== src/Base/Dict.antt =====
-- Python's `dict` as an association list in insertion order, with its laws in `if` form.
use Prim.Native.Nat.{ℕ, ◌+◌, ◌≤◌}
use mathlib.Core.Path.{◌≡◌, refl, sym, ap, subst, ◌∙◌}
use mathlib.Core.Logic.{inl, inr}
use mathlib.Core.Bool.{true, false}
use mathlib.Core.Option.{Option, none, some, some-injective}
use mathlib.Core.List.{List, [], ◌∷◌}
use native.Mathlib.Omega.{arith}
use aiomisc.Base.Tests.{if◌then◌else◌, if_cases, Bool-cases}
use aiomisc.Base.Lists.{All}
use aiomisc.Base.Classes.{Eq, ◌==◌}

abbrev pub Dict {ℓ} : Type ℓ → Type ℓ → Type ℓ
Dict K V = List (K × V)

module _ {ℓ} {K V : Type ℓ} ⦃e : Eq K⦄ where
  -- d.get(k)
  unfoldable pub lookup : K → Dict K V → Option V
  lookup k [] = none
  lookup k ((j, v) ∷ d) = if j == k then some v else lookup k d

  -- d[k] = v
  unfoldable pub put : K → V → Dict K V → Dict K V
  put k v [] = (k, v) ∷ []
  put k v ((j, w) ∷ d) = if j == k then (j, v) ∷ d else (j, w) ∷ put k v d

  -- d.pop(k, None)
  unfoldable pub delete : K → Dict K V → Dict K V
  delete k [] = []
  delete k ((j, w) ∷ d) = let rest = delete k d in if j == k then rest else (j, w) ∷ rest

  -- Without the first entry of a key.
  unfoldable pub take_out : K → Dict K V → Dict K V
  take_out k [] = []
  take_out k ((j, w) ∷ d) = let rest = take_out k d in if j == k then d else (j, w) ∷ rest

  pub lookup-put :
      (k j : K) (v : V) (d : Dict K V)
      → lookup j (put k v d) ≡ (if k == j then some v else lookup j d)
  unfolding lookup put
  lookup-put k j v [] = refl
  lookup-put k j v ((i, w) ∷ d) =
      ground (arith, e.beq_iff k j, e.beq_iff i k, e.beq_iff i j, lookup-put k j v d)

  pub lookup-delete :
      (k j : K) (d : Dict K V) → lookup j (delete k d) ≡ (if k == j then none else lookup j d)
  unfolding lookup delete
  lookup-delete k j [] = ground arith
  lookup-delete k j ((i, w) ∷ d) =
      ground (arith, e.beq_iff k j, e.beq_iff i k, e.beq_iff i j, lookup-delete k j d)

  -- The laws at a key that is known to be the same, or another.
  pub lookup-put_eq :
      (k j : K) (v : V) (d : Dict K V) → (k == j) ≡ true → lookup j (put k v d) ≡ some v
  lookup-put_eq k j v d h = lookup-put k j v d ∙ ap (λ b. if b then some v else lookup j d) h

  pub lookup-put_ne :
      (k j : K) (v : V) (d : Dict K V) → (k == j) ≡ false → lookup j (put k v d) ≡ lookup j d
  lookup-put_ne k j v d h = lookup-put k j v d ∙ ap (λ b. if b then some v else lookup j d) h

  pub lookup-delete_eq : (k j : K) (d : Dict K V) → (k == j) ≡ true → lookup j (delete k d) ≡ none
  lookup-delete_eq k j d h = lookup-delete k j d ∙ ap (λ b. if b then none else lookup j d) h

  pub lookup-delete_ne :
      (k j : K) (d : Dict K V) → (k == j) ≡ false → lookup j (delete k d) ≡ lookup j d
  lookup-delete_ne k j d h = lookup-delete k j d ∙ ap (λ b. if b then none else lookup j d) h

-- Where a key is found.
found_here :
    {K V : Type 0} ⦃e : Eq K⦄ (k j : K) (u w : V) (d : Dict K V)
    → (j == k) ≡ true
    → lookup k ((j, u) ∷ d) ≡ some w
    → u ≡ w
unfolding lookup
found_here k j u w d same h =
    some-injective u w (sym (ap (λ b. if b then some u else lookup k d) same) ∙ h)

found_later :
    {K V : Type 0} ⦃e : Eq K⦄ (k j : K) (u w : V) (d : Dict K V)
    → (j == k) ≡ false
    → lookup k ((j, u) ∷ d) ≡ some w
    → lookup k d ≡ some w
unfolding lookup
found_later k j u w d other h = sym (ap (λ b. if b then some u else lookup k d) other) ∙ h

-- A predicate of every entry.
pub All-put {κ} :
    {K V : Type 0} ⦃e : Eq K⦄ (P : K × V → Type κ) (k : K) (v : V) (d : Dict K V)
    → ((j : K) → P (j, v))
    → All P d
    → All P (put k v d)
unfolding put
All-put P k v [] new h = (new k, tt)
All-put P k v ((j, w) ∷ d) new h =
    if_cases (All P) (j == k) (λ _. (new j, h.1)) (λ _. (h.0, All-put P k v d new h.1))

pub All-take_out {κ} :
    {K V : Type 0} ⦃e : Eq K⦄ (P : K × V → Type κ) (k : K) (d : Dict K V)
    → All P d
    → All P (take_out k d)
unfolding take_out
All-take_out P k [] h = tt
All-take_out P k ((j, w) ∷ d) h =
    if_cases (All P) (j == k) (λ _. h.1) (λ _. (h.0, All-take_out P k d h.1))

pub All-lookup {κ} :
    {K V : Type 0} ⦃e : Eq K⦄ (P : V → Type κ) (k : K) (v : V) (d : Dict K V)
    → lookup k d ≡ some v
    → All (λ (r : K × V). P r.1) d
    → P v
unfolding lookup
All-lookup P k v [] h all = absurd (ground arith)
All-lookup P k v ((j, w) ∷ d) h all = elim (Bool-cases (j == k)) [
  | inl same ↦ subst P (found_here k j w v d same h) all.0
  | inr other ↦ All-lookup P k v d (found_later k j w v d other h) all.1
]

-- A sum over the values, when one of them is replaced, or taken out.
module _ {K V : Type 0} ⦃e : Eq K⦄ (f : V → ℕ) where
  abbrev pub total : Dict K V → ℕ
  total [] = 0
  total ((k, v) ∷ d) = f v + total d

  pub total-put :
      (k : K) (v w : V) (d : Dict K V)
      → lookup k d ≡ some w
      → total (put k v d) + f w ≡ total d + f v
  unfolding put lookup
  total-put k v w [] h = absurd (ground arith)
  total-put k v w ((j, u) ∷ d) h = elim (Bool-cases (j == k)) [
    | inl same ↦ rw same (omega (arith, ap f (found_here k j u w d same h)))
    | inr other ↦ rw other (omega (arith, total-put k v w d (found_later k j u w d other h)))
  ]

  total-at : (k : K) (w : V) (d : Dict K V) → lookup k d ≡ some w → f w ≤ total d
  unfolding lookup
  total-at k w [] h = absurd (ground arith)
  total-at k w ((j, u) ∷ d) h = elim (Bool-cases (j == k)) [
    | inl same ↦ omega (arith, ap f (found_here k j u w d same h))
    | inr other ↦ omega (arith, total-at k w d (found_later k j u w d other h))
  ]

  -- Two keys count twice.
  pub total-two :
      (k l : K) (v w : V) (d : Dict K V)
      → (k == l) ≡ false
      → lookup k d ≡ some v
      → lookup l d ≡ some w
      → f v + f w ≤ total d
  unfolding lookup
  total-two k l v w [] n h g = absurd (ground arith)
  total-two k l v w ((j, u) ∷ d) n h g = elim (Bool-cases (j == k)) [
    | inl a ↦
        let other : (j == l) ≡ false =
          ground (arith, e.beq_iff j k, e.beq_iff j l, e.beq_iff k l) in
        omega
          (arith, ap f (found_here k j u v d a h), total-at l w d (found_later l j u w d other g))
    | inr a ↦ elim (Bool-cases (j == l)) [
      | inl b ↦
          omega (arith, total-at k v d (found_later k j u v d a h), ap f (found_here l j u w d b g))
      | inr b ↦
          omega
            (arith, total-two k l v w d n (found_later k j u v d a h) (found_later l j u w d b g))
    ]
  ]

  pub total-take_out :
      (k : K) (w : V) (d : Dict K V) → lookup k d ≡ some w → total (take_out k d) + f w ≡ total d
  unfolding take_out lookup
  total-take_out k w [] h = absurd (ground arith)
  total-take_out k w ((j, u) ∷ d) h = elim (Bool-cases (j == k)) [
    | inl same ↦ rw same (omega (arith, ap f (found_here k j u w d same h)))
    | inr other ↦ rw other (omega (arith, total-take_out k w d (found_later k j u w d other h)))
  ]
