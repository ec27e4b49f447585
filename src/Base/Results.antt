-- ===== src/Base/Results.antt =====
-- Python's exceptions as values: a call returns `ok` of its value or `err` of what it raised.
use mathlib.Core.Path.{◌≡◌}

-- The exceptions that the modelled code raises itself; `other` is one of its callees'.
pub data Exn : Type 0 where
  value_error type_error runtime_error attribute_error assertion_error : Exn
  invalid_state_error timeout_error cancelled_error : Exn

pub data Result {ℓ} (E A : Type ℓ) : Type ℓ where
  ok : A → Result E A
  err : E → Result E A

infixl 5 ◌>>=◌ ◌>>◌
abbrev pub ◌>>=◌ {ℓ} : {E A B : Type ℓ} → Result E A → (A → Result E B) → Result E B
ok a >>= f = f a
err e >>= f = err e

abbrev pub ◌>>◌ {ℓ} : {E A B : Type ℓ} → Result E A → Result E B → Result E B
m >> k = m >>= λ _. k

pub ok-injective {ℓ} : {E A : Type ℓ} {a b : A} → ◌≡◌ {A = Result E A} (ok a) (ok b) → a ≡ b
ok-injective h = cc
