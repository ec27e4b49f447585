-- ===== src/Dns/Tree/Prefix.antt =====
-- What `find_prefix` of aiomisc/service/dns/tree.py finds: the path of the deepest node that the
-- key reaches, with the value of the deepest node on it that has one.
use aiomisc.Base.{
  ℕ, zero, suc, ◌≤◌, ◌<◌, ◌≡◌, refl, true, false, Option, none, some, List, [], ◌∷◌, ◌++◌, arith,
  if◌then◌else◌, length, take, is_some, Option-cases, inl, inr, ◌⊎◌, ◌∙◌, nat_eq, list_eq, sym,
}
use mathlib.Core.List.{append-nil, append_assoc}
use aiomisc.Dns.Text.{Str}
use aiomisc.Dns.Tree.{
  RadixNode, node, Children, value, get_child, search, walk, with_path, find_prefix,
}
use aiomisc.Dns.Tree.Laws.{has_path, has_path-cons, search-cons}

-- What holds of the longer prefixes of a key holds one part further from the root.
deeper :
    {A : Type 0} (p : Str) (key : List Str) (f g : List Str → A) {c : A}
    (through : (xs : List Str) → f (p ∷ xs) ≡ g xs) (k : ℕ)
    → ((i : ℕ) → k < i → i ≤ length key → g (take i key) ≡ c)
    → (i : ℕ) → suc k < i
    → i ≤ length (p ∷ key)
    → f (take i (p ∷ key)) ≡ c
deeper p key f g through k h zero lo hi = absurd (omega arith)
deeper p key f g through k h (suc i) lo hi = through (take i key) ∙ h i (omega arith) (omega arith)

module _ {T : Type 0} where
  -- The longest prefix of a key whose nodes are all there has `d` parts.
  abbrev pub Deepest : ℕ → List Str → RadixNode T → Type 0
  Deepest d key n =
      (d ≤ length key)
      × (has_path (take d key) n ≡ true)
      × ((i : ℕ) → d < i → i ≤ length key → has_path (take i key) n ≡ false)

  -- The longest prefix of a key that has a value has `k` parts, and its value is `t`.
  abbrev pub Closest : ℕ → T → List Str → RadixNode T → Type 0
  Closest k t key n =
      (k ≤ length key)
      × (search (take k key) n ≡ some t)
      × ((i : ℕ) → k < i → i ≤ length key → search (take i key) n ≡ none)

  -- No part of a key below the root has a value.
  abbrev NoneBelow : List Str → RadixNode T → Type 0
  NoneBelow key n = (i : ℕ) → i < length key → search (take (suc i) key) n ≡ none

  abbrev Walked : List Str → RadixNode T → Option T → Option T → Type 0
  Walked key n before after =
      (NoneBelow key n × (after ≡ before))
      ⊎ ((k : ℕ) × (t : T) × Closest (suc k) t key n × (after ≡ some t))

  search-value : (n : RadixNode T) → search [] n ≡ value n
  unfolding search value
  search-value (node v cs) = refl

  below-none :
      (key : List Str) (m : RadixNode T)
      → NoneBelow key m
      → (i : ℕ) → 0 < i
      → i ≤ length key
      → search (take i key) m ≡ none
  below-none key m h zero lo hi = absurd (omega arith)
  below-none key m h (suc i) lo hi = h i (omega arith)

  none-all :
      (key : List Str) (m : RadixNode T)
      → NoneBelow key m
      → search [] m ≡ none
      → (i : ℕ) → i ≤ length key
      → search (take i key) m ≡ none
  none-all key m h e zero hi = e
  none-all key m h e (suc i) hi = h i hi

  -- One step of the walk, to a child `m` through which the parent is searched.
  module _ (p : Str) (key : List Str) (n m : RadixNode T)
      (through : (xs : List Str) → search (p ∷ xs) n ≡ search xs m) where
    NoneBelow-cons : NoneBelow key m → value m ≡ none → NoneBelow (p ∷ key) n
    NoneBelow-cons h e zero lt = through [] ∙ search-value m ∙ e
    NoneBelow-cons h e (suc i) lt = through (take (suc i) key) ∙ h i (omega arith)

    Walked-cons :
        (v after : Option T)
        → Walked key m (if is_some (value m) then value m else v) after
        → Walked (p ∷ key) n v after
    Walked-cons v after (inr (k, t, c, e)) = inr (
      suc k,
      t,
      (
        omega (arith, c.0),
        through (take (suc k) key) ∙ c.1,
        deeper p key (λ xs. search xs n) (λ xs. search xs m) through (suc k) c.2,
      ),
      e,
    )
    Walked-cons v after (inl (h, e)) = elim (Option-cases (value m)) [
      | inl empty ↦ inl (NoneBelow-cons h empty, ground arith)
      | inr (t, full) ↦ inr (
        0,
        t,
        (
          omega arith,
          through [] ∙ search-value m ∙ full,
          deeper p key (λ xs. search xs n) (λ xs. search xs m) through 0 (below-none key m h),
        ),
        ground arith,
      )
    ]

  walk-Walked :
      (key : List Str) (n : RadixNode T) (path : List Str) (v : Option T)
      → Walked key n v (walk key n path v).1
  unfolding walk
  walk-Walked [] n path v = inl ((λ i h. absurd (omega arith)), refl)
  walk-Walked (p ∷ key) (node w cs) path v = elim (Option-cases (get_child p cs)) [
    | inl e ↦ inl ((λ i h. search-cons p (take i key) w cs ∙ (rw e)), rw (e, walk))
    | inr (m, e) ↦
        rw (e, walk)
          (Walked-cons p key (node w cs) m (λ xs. search-cons p xs w cs ∙ (rw e)) v _
            (walk-Walked key m (path ++ p ∷ []) _))
  ]

  childless :
      (p : Str) (key : List Str) (w : Option T) (cs : Children T)
      → get_child p cs ≡ none
      → (i : ℕ) → 0 < i
      → i ≤ length (p ∷ key)
      → has_path (take i (p ∷ key)) (node w cs) ≡ false
  childless p key w cs e zero lo hi = absurd (omega arith)
  childless p key w cs e (suc i) lo hi = has_path-cons p (take i key) w cs ∙ (rw e)

  walk-Deepest :
      (key : List Str) (n : RadixNode T) (path : List Str) (v : Option T)
      → (d : ℕ) × ((walk key n path v).0 ≡ path ++ take d key) × Deepest d key n
  unfolding walk
  walk-Deepest [] n path v = (
    0,
    sym (append-nil path),
    (omega arith, unfold has_path in refl, λ i lo hi. absurd (omega arith)),
  )
  walk-Deepest (p ∷ key) (node w cs) path v = elim (Option-cases (get_child p cs)) [
    | inl e ↦ (
      0,
      rw (e, walk) (sym (append-nil path)),
      (omega arith, unfold has_path in refl, childless p key w cs e),
    )
    | inr (m, e) ↦
        let (d, path_eq, deepest) =
          walk-Deepest key m (path ++ p ∷ []) (if is_some (value m) then value m else v) in
        let through : (xs : List Str) → has_path (p ∷ xs) (node w cs) ≡ has_path xs m =
          λ xs. has_path-cons p xs w cs ∙ (rw e) in
        (
          suc d,
          rw (e, walk) (path_eq ∙ append_assoc path (p ∷ []) (take d key)),
          (
            omega (arith, deepest.0),
            through (take d key) ∙ deepest.1,
            deeper p key (λ xs. has_path xs (node w cs)) (λ xs. has_path xs m) through d deepest.2,
          ),
        )
  ]

  with_path_parts :
      (r : List Str × Option T) {path : List Str} {v : Option T}
      → r.0 ≡ path
      → r.1 ≡ v
      → with_path r ≡ with_path (path, v)
  with_path_parts (path, v) p e = cc

  -- `find_prefix` fails exactly when no prefix of the key has a value. Otherwise it pairs the
  -- longest path that the tree has with the value of the longest prefix that has one.
  pub find_prefix_lem :
      (key : List Str) (root : RadixNode T)
      → ((find_prefix key root ≡ none)
          × ((i : ℕ) → i ≤ length key → search (take i key) root ≡ none))
        ⊎ ((d k : ℕ) × (t : T) × (find_prefix key root ≡ some (take d key, t))
            × Deepest d key root
            × Closest k t key root)
  unfolding find_prefix
  find_prefix_lem key root =
      let (d, path_eq, deepest) = walk-Deepest key root [] (value root) in
      elim (walk-Walked key root [] (value root)) [
        | inr (k, t, closest, e) ↦ inr (d, suc k, t, with_path_parts _ path_eq e, deepest, closest)
        | inl (below, e) ↦ elim (Option-cases (value root)) [
          | inl empty ↦ inl (
            with_path_parts _ path_eq (e ∙ empty),
            none-all key root below (search-value root ∙ empty),
          )
          | inr (t, full) ↦ inr (
            d,
            0,
            t,
            with_path_parts _ path_eq (e ∙ full),
            deepest,
            (omega arith, search-value root ∙ full, below-none key root below),
          )
        ]
      ]
