-- ===== src/Base/Sets.antt =====
-- Python's `set` of values that compare by an identity, such as the fields that `compare=False`
-- leaves: a list without repeated identities, in insertion order.
use mathlib.Core.Path.{◌≡◌, refl}
use mathlib.Core.Bool.{Bool, false, not, ◌&&◌, ◌||◌}
use mathlib.Core.List.{List, [], ◌∷◌, ◌++◌}
use native.Mathlib.Omega.{arith}
use aiomisc.Base.Tests.{if◌then◌else◌}
use aiomisc.Base.Lists.{keep}
use aiomisc.Base.Classes.{Eq, ◌==◌}

module _ {ℓ} {A I : Type ℓ} ⦃e : Eq I⦄ (ident : A → I) where
  -- x in s
  unfoldable pub contains : List A → A → Bool
  contains [] x = false
  contains (y ∷ s) x = ident y == ident x || contains s x

  -- s.add(x)
  unfoldable pub add : A → List A → List A
  add x s = if contains s x then s else s ++ x ∷ []

  -- s.discard(x)
  unfoldable pub discard : A → List A → List A
  discard x s = keep (λ y. not (ident y == ident x)) s

  pub contains-nil : (x : A) → contains [] x ≡ false
  unfolding contains
  contains-nil x = refl

  pub contains-cons :
      (y x : A) (s : List A) → contains (y ∷ s) x ≡ ((ident y == ident x) || contains s x)
  unfolding contains
  contains-cons y x s = refl

  contains-append : (s t : List A) (x : A) → contains (s ++ t) x ≡ (contains s x || contains t x)
  unfolding contains
  contains-append [] t x = refl
  contains-append (y ∷ s) t x = ground (arith, contains-append s t x)

  contains_same : (s : List A) (x y : A) → ident x ≡ ident y → contains s x ≡ contains s y
  unfolding contains
  contains_same [] x y h = refl
  contains_same (z ∷ s) x y h = ground (arith, contains_same s x y)

  contains_one : (x y : A) → contains (x ∷ []) y ≡ (ident x == ident y)
  unfolding contains
  contains_one x y = ground arith

  pub contains-add :
      (x y : A) (s : List A) → contains (add x s) y ≡ ((ident x == ident y) || contains s y)
  unfolding add
  contains-add x y s = ground (
    arith,
    contains-append s (x ∷ []) y,
    contains_same s x y,
    e.beq_iff (ident x) (ident y),
    contains_one x y,
  )

  pub contains-discard :
      (x y : A) (s : List A) → contains (discard x s) y ≡ (not (ident x == ident y) && contains s y)
  unfolding discard contains
  contains-discard x y [] = ground arith
  contains-discard x y (z ∷ s) = ground (
    arith,
    contains-discard x y s,
    e.beq_iff (ident x) (ident y),
    e.beq_iff (ident z) (ident x),
    e.beq_iff (ident z) (ident y),
  )
