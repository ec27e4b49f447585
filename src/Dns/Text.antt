-- ===== src/Dns/Text.antt =====
-- The operations of `str` that aiomisc/service/dns uses on names. A text is the list of its code
-- points.
use aiomisc.Base.{
  ℕ, ◌≡◌, refl, Bool, true, false, ◌&&◌, ◌||◌, List, [], ◌∷◌, ◌++◌, arith, if◌then◌else◌, ◌==◌,
  nat_eq, list_eq, list_beq_iff, Bool-cases, inl, inr, ap,
}

abbrev pub Str : Type 0
Str = List ℕ

abbrev pub dot : ℕ
dot = b'.'

-- s.endswith(suffix)
unfoldable pub ends_with : Str → Str → Bool
ends_with [] suffix = [] == suffix
ends_with (c ∷ s) suffix = (c ∷ s) == suffix || ends_with s suffix

abbrev is_empty : Str → Bool
is_empty [] = true
is_empty (c ∷ s) = false

-- s.lstrip(".")
unfoldable pub lstrip : Str → Str
lstrip [] = []
lstrip (c ∷ s) = if c == dot then lstrip s else c ∷ s

-- s.rstrip(".")
unfoldable pub rstrip : Str → Str
rstrip [] = []
rstrip (c ∷ s) = let rest = rstrip s in if (c == dot) && is_empty rest then [] else c ∷ rest

-- s.strip(".")
unfoldable pub strip : Str → Str
unfolding lstrip rstrip
strip s = rstrip (lstrip s)

abbrev cons_head : ℕ → List Str → List Str
cons_head c [] = (c ∷ []) ∷ []
cons_head c (l ∷ ls) = (c ∷ l) ∷ ls

-- s.split(".")
unfoldable pub split : Str → List Str
split [] = [] ∷ []
split (c ∷ s) = let rest = split s in if c == dot then [] ∷ rest else cons_head c rest

-- A suffix is what some text precedes.
pub ends_with-append : (p s : Str) → ends_with (p ++ s) s ≡ true
unfolding ends_with
ends_with-append [] [] = refl
ends_with-append [] (c ∷ s) = ground (arith, list_beq_iff (c ∷ s) (c ∷ s))
ends_with-append (c ∷ p) s = ground (arith, ends_with-append p s)

pub split_suffix : (s suffix : Str) → ends_with s suffix ≡ true → (p : Str) × (s ≡ p ++ suffix)
unfolding ends_with
split_suffix [] suffix h = ([], (list_beq_iff [] suffix).0 h)
split_suffix (c ∷ s) suffix h = elim (Bool-cases ((c ∷ s) == suffix)) [
  | inl whole ↦ ([], (list_beq_iff (c ∷ s) suffix).0 whole)
  | inr part ↦ let (p, e) = split_suffix s suffix (ground arith) in (c ∷ p, ap (λ t. c ∷ t) e)
]
