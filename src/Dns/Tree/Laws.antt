-- ===== src/Dns/Tree/Laws.antt =====
-- What `search` finds after `insert` in the tree of aiomisc/service/dns/tree.py, and which paths
-- `insert` adds.
use aiomisc.Base.{
  ◌≡◌, refl, Bool, true, false, ◌&&◌, ◌||◌, Option, none, some, List, [], ◌∷◌, arith, if◌then◌else◌,
  ◌==◌, nat_eq, list_eq, list_beq_iff, sym, ap, ◌∙◌, inl, inr, Option-cases, pair_eq,
}
use aiomisc.Dns.Text.{Str}
use aiomisc.Dns.Tree.{
  RadixNode, node, Children, nil, child, new_node, get_child, put_child, or_new, insert, search,
}

abbrev pub is_prefix : List Str → List Str → Bool
is_prefix [] k = true
is_prefix (p ∷ j) [] = false
is_prefix (p ∷ j) (q ∷ k) = p == q && is_prefix j k

module _ {T : Type 0} where
  pub get_child-put_child :
      (k j : Str) (n : RadixNode T) (cs : Children T)
      → get_child j (put_child k n cs) ≡ (if k == j then some n else get_child j cs)
  unfolding get_child put_child
  get_child-put_child k j n nil = refl
  get_child-put_child k j n (child i m cs) =
      ground
        (arith, list_beq_iff k j, list_beq_iff i k, list_beq_iff i j, get_child-put_child k j n cs)

  pub search-new_node : (key : List Str) → search key (new_node {T = T}) ≡ none
  unfolding search new_node get_child
  search-new_node [] = refl
  search-new_node (k ∷ key) = refl

  -- `search` through a child, as a function of the child.
  abbrev search_child : List Str → Option (RadixNode T) → Option T
  search_child key none = none
  search_child key (some n) = search key n

  search_child-or_new :
      (key : List Str) (o : Option (RadixNode T)) → search key (or_new o) ≡ search_child key o
  search_child-or_new key none = search-new_node key
  search_child-or_new key (some n) = refl

  pub search-cons :
      (k : Str) (key : List Str) (v : Option T) (cs : Children T)
      → search (k ∷ key) (node v cs) ≡ search_child key (get_child k cs)
  unfolding search
  search-cons k key v cs = ground arith

  -- Inserting at one key makes its value the one found at that key, and changes what is found at no
  -- other.
  pub search-insert :
      (k j : List Str) (v : Option T) (n : RadixNode T)
      → search j (insert k v n) ≡ (if k == j then v else search j n)
  unfolding insert
  search-insert [] [] v (node w cs) = unfold search in refl
  search-insert [] (q ∷ j) v (node w cs) = unfold search in refl
  search-insert (p ∷ k) [] v (node w cs) = unfold search in refl
  search-insert (p ∷ k) (q ∷ j) v (node w cs) = ground (
    arith,
    search-cons q j w (put_child p (insert k v (or_new (get_child p cs))) cs),
    search-cons q j w cs,
    get_child-put_child p q (insert k v (or_new (get_child p cs))) cs,
    search-insert k j v (or_new (get_child p cs)),
    search_child-or_new j (get_child p cs),
    list_beq_iff p q,
    list_beq_iff k j,
  )

  -- Whether every node on the path of a key is there, with a value or without.
  unfoldable pub has_path : List Str → RadixNode T → Bool
  has_path [] n = true
  has_path (p ∷ key) (node v cs) = elim (get_child p cs) [ none ↦ false | some n ↦ has_path key n ]

  abbrev path_child : List Str → Option (RadixNode T) → Bool
  path_child key none = false
  path_child key (some n) = has_path key n

  pub has_path-cons :
      (p : Str) (key : List Str) (v : Option T) (cs : Children T)
      → has_path (p ∷ key) (node v cs) ≡ path_child key (get_child p cs)
  unfolding has_path
  has_path-cons p key v cs = ground arith

  path_child-or_new :
      (j k : List Str) (o : Option (RadixNode T))
      → (has_path j (or_new o) || is_prefix j k) ≡ (path_child j o || is_prefix j k)
  unfolding has_path new_node get_child
  path_child-or_new [] k none = refl
  path_child-or_new (p ∷ j) k none = refl
  path_child-or_new j k (some n) = refl

  -- `insert` adds the nodes on the path of its key, and removes none.
  pub has_path-insert :
      (k j : List Str) (v : Option T) (n : RadixNode T)
      → has_path j (insert k v n) ≡ (has_path j n || is_prefix j k)
  unfolding insert
  has_path-insert [] [] v (node w cs) = unfold has_path in refl
  has_path-insert [] (q ∷ j) v (node w cs) =
      ground (arith, has_path-cons q j v cs, has_path-cons q j w cs)
  has_path-insert (p ∷ k) [] v (node w cs) = unfold has_path in refl
  has_path-insert (p ∷ k) (q ∷ j) v (node w cs) = ground (
    arith,
    has_path-cons q j w (put_child p (insert k v (or_new (get_child p cs))) cs),
    has_path-cons q j w cs,
    get_child-put_child p q (insert k v (or_new (get_child p cs))) cs,
    has_path-insert k j v (or_new (get_child p cs)),
    path_child-or_new j k (get_child p cs),
    list_beq_iff p q,
    list_beq_iff q p,
  )

  -- What has a value has a path.
  pub search-has_path :
      (key : List Str) (n : RadixNode T) (t : T) → search key n ≡ some t → has_path key n ≡ true
  search-has_path [] n t h = unfold has_path in refl
  search-has_path (p ∷ key) (node v cs) t h = elim (Option-cases (get_child p cs)) [
    | inl e ↦ cc (h, search-cons p key v cs, ap (search_child key) e)
    | inr (m, e) ↦
        has_path-cons p key v cs
        ∙ ap (path_child key) e
        ∙ search-has_path key m t (sym (search-cons p key v cs ∙ ap (search_child key) e) ∙ h)
  ]
