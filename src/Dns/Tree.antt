-- ===== src/Dns/Tree.antt =====
-- aiomisc/service/dns/tree.py: the radix tree of zones. A node's `children` dict is the list of
-- its keys and subtrees; `insert` writes along one path of a tree that nobody else holds.
pub mod Laws
pub mod Prefix
use aiomisc.Base.{
  Option, none, some, List, [], ◌∷◌, ◌++◌, if◌then◌else◌, ◌==◌, nat_eq, list_eq, is_some,
}
use aiomisc.Dns.Text.{Str}

mutual
  pub data RadixNode (T : Type 0) : Type 0 where
    node : Option T → Children T → RadixNode T

  pub data Children (T : Type 0) : Type 0 where
    nil : Children T
    child : Str → RadixNode T → Children T → Children T

module _ {T : Type 0} where
  unfoldable pub value : RadixNode T → Option T
  value (node v cs) = v

  unfoldable pub children : RadixNode T → Children T
  children (node v cs) = cs

  unfoldable pub new_node : RadixNode T
  new_node = node none nil

  -- `node.children[part]`, if `part in node.children`
  unfoldable pub get_child : Str → Children T → Option (RadixNode T)
  get_child part nil = none
  get_child part (child k n cs) = if k == part then some n else get_child part cs

  unfoldable pub put_child : Str → RadixNode T → Children T → Children T
  put_child part m nil = child part m nil
  put_child part m (child k n cs) =
      if k == part then child k m cs else child k n (put_child part m cs)

  abbrev pub or_new : Option (RadixNode T) → RadixNode T
  or_new none = new_node
  or_new (some n) = n

  unfoldable pub insert : List Str → Option T → RadixNode T → RadixNode T
  insert [] v (node w cs) = node v cs
  insert (part ∷ key) v (node w cs) =
      node w (put_child part (insert key v (or_new (get_child part cs))) cs)

  unfoldable pub search : List Str → RadixNode T → Option T
  search [] (node v cs) = v
  search (part ∷ key) (node v cs) = elim (get_child part cs) [ none ↦ none | some n ↦ search key n ]

  -- The loop of `find_prefix`: the path walked so far and the last value seen on it.
  unfoldable pub walk : List Str → RadixNode T → List Str → Option T → List Str × Option T
  walk [] n longest_prefix v = (longest_prefix, v)
  walk (part ∷ key) (node w cs) longest_prefix v = elim (get_child part cs) [
    | none ↦ (longest_prefix, v)
    | some n ↦ walk key n (longest_prefix ++ part ∷ []) (if is_some (value n) then value n else v)
  ]

  -- `None if value is None else (tuple(longest_prefix), value)`
  abbrev pub with_path : List Str × Option T → Option (List Str × T)
  with_path (longest_prefix, none) = none
  with_path (longest_prefix, some t) = some (longest_prefix, t)

  unfoldable pub find_prefix : List Str → RadixNode T → Option (List Str × T)
  find_prefix key root = with_path (walk key root [] (value root))
