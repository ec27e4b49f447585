-- ===== src/Pool/Counting.antt =====
-- How often an instance stands in a queue or a set of aiomisc/pool.py.
use aiomisc.Base.{
  ℕ, suc, ◌+◌, ◌≡◌, refl, List, [], ◌∷◌, ◌++◌, arith, nat_beq, if◌then◌else◌, nat_beq_iff, nat_eq,
  list_eq, pair_eq, length,
}
use aiomisc.Pool.{count, without}

pub count-append : (i : ℕ) (js ks : List ℕ) → count i (js ++ ks) ≡ count i js + count i ks
unfolding count
count-append i [] ks = omega arith
count-append i (j ∷ js) ks = ground (arith, count-append i js ks)

pub count-one : (i j : ℕ) → count i (j ∷ []) ≡ (if nat_beq i j then 1 else 0)
unfolding count
count-one i j = ground arith

pub count-cons :
    (i j : ℕ) (js : List ℕ)
    → count i (j ∷ js) ≡ (if nat_beq i j then suc (count i js) else count i js)
unfolding count
count-cons i j js = refl

pub count-without :
    (i j : ℕ) (js : List ℕ) → count i (without j js) ≡ (if nat_beq i j then 0 else count i js)
unfolding without
count-without i j [] = unfold count in ground arith
count-without i j (k ∷ js) = ground (
  arith,
  count-without i j js,
  count-cons i k js,
  count-cons i k (without j js),
  nat_beq_iff i j,
  nat_beq_iff j k,
  nat_beq_iff i k,
)

pub length-without : (j : ℕ) (js : List ℕ) → length (without j js) + count j js ≡ length js
unfolding without count
length-without j [] = omega arith
length-without j (k ∷ js) = ground (arith, length-without j js)
