-- ===== src/Tests/Dns.antt =====
-- Runs of the zones and the tree of aiomisc/service/dns. A text is its characters' codes: 97 is "a".
use aiomisc.Base.{
  ℕ, Bool, ltb, type_error, ◌≤◌, ◌<◌, ◌≡◌, refl, subst, ◌⊎◌, false, ◌&&◌, none, some, List, [], ◌∷◌,
  arith, ◌==◌, nat_eq, list_eq, pair_eq, length, take, ok, err, Exn, Result,
}
use aiomisc.Base.Sets.{contains, add}
use aiomisc.Base.Dict.{lookup, put}
use aiomisc.Dns.Text.{Str, ends_with, strip, lstrip, rstrip, split}
use aiomisc.Dns.Names.{get_reverse_tuple}
use aiomisc.Dns.Tree.{RadixNode, new_node, insert, search, find_prefix, get_child, put_child}
use aiomisc.Dns.Tree.Laws.{has_path, search-insert}
use aiomisc.Dns.Tree.Prefix.{Deepest, Closest, find_prefix_lem}
use aiomisc.Dns.Types.{a, in_, mx, txt, type_eq, class_eq}
use aiomisc.Dns.Records.{DnsRecord, identity, key_of}
use aiomisc.Dns.Zone.{
  DnsZone, check_record, add_record, remove_record, get_records, replace, new_zone, with_dot,
  add_records, file,
}
use aiomisc.Dns.Zone.Laws.{holds}
use aiomisc.Dns.Zone.Filed.{IsFiled, operations-IsFiled, new_zone-IsFiled, get_records-holds}
use aiomisc.Dns.Creation.{Rd, mx_rd, create_mx, address, create, create_address}
use aiomisc.Dns.Store.{DnsStore, get_zone, query}
use aiomisc.Dns.Store.Queries.{query_key, query-zoned}

-- "a", "b" and "c"
abbrev a_ : Str
a_ = 97 ∷ []

abbrev b_ : Str
b_ = 98 ∷ []

abbrev c_ : Str
c_ = 99 ∷ []

-- One value, at "a".
abbrev tree : RadixNode ℕ
tree = insert (a_ ∷ []) (some 1) (new_node {T = ℕ})

search-insert_example : search (a_ ∷ []) (insert (a_ ∷ b_ ∷ []) (some 2) tree) ≡ some 1
unfolding search insert new_node get_child put_child
search-insert_example = search-insert (a_ ∷ b_ ∷ []) (a_ ∷ []) (some 2) tree

find_prefix_lem_example :
    ((find_prefix (a_ ∷ b_ ∷ []) tree ≡ none)
      × ((i : ℕ) → i ≤ length (a_ ∷ b_ ∷ []) → search (take i (a_ ∷ b_ ∷ [])) tree ≡ none))
    ⊎ ((d k : ℕ) × (t : ℕ) × (find_prefix (a_ ∷ b_ ∷ []) tree ≡ some (take d (a_ ∷ b_ ∷ []), t))
        × Deepest d (a_ ∷ b_ ∷ []) tree
        × Closest k t (a_ ∷ b_ ∷ []) tree)
find_prefix_lem_example = find_prefix_lem (a_ ∷ b_ ∷ []) tree

-- The zone "a." and records of it, and one of "b."
abbrev zone_name : Str
zone_name = 97 ∷ 46 ∷ []

abbrev host : DnsRecord ℕ
host = record { name = 98 ∷ 46 ∷ 97 ∷ 46 ∷ []; type = a; payload = 7; cls = in_; ttl = 60 }

abbrev apex : DnsRecord ℕ
apex = record { name = zone_name; type = mx; payload = 9; cls = in_; ttl = 60 }

abbrev stranger : DnsRecord ℕ
stranger = record { name = 98 ∷ 46 ∷ []; type = a; payload = 8; cls = in_; ttl = 60 }

-- Data above 100 are lists, which do not hash.
abbrev is_hashable : ℕ → Bool
is_hashable d = ltb d 100

abbrev listed_data : DnsRecord ℕ
listed_data = record { name = zone_name; type = txt; payload = 200; cls = in_; ttl = 60 }

abbrev empty_zone : DnsZone ℕ
empty_zone = record { name = zone_name; records = [] }

abbrev zone : DnsZone ℕ
zone = (add_record is_hashable empty_zone host).1

-- A record that does not hash leaves an empty set under its key.
empty_set_left :
    add_record is_hashable empty_zone listed_data
    ≡ (err type_error, record { name = zone_name; records = (key_of listed_data, []) ∷ [] })
unfolding add_record lookup put ends_with check_record
empty_set_left = refl

abbrev made : DnsZone ℕ
made = record { name = zone_name; records = (key_of apex, apex ∷ []) ∷ [] }

made_by : new_zone is_hashable a_ (apex ∷ []) ≡ ok made
unfolding new_zone add_records add_record check_record file with_dot ends_with lookup put add
    contains
made_by = refl

made-IsFiled : IsFiled made
made-IsFiled = new_zone-IsFiled is_hashable a_ (apex ∷ []) made made_by

operations-IsFiled_example :
    IsFiled (add_record is_hashable made host).1
    × IsFiled (remove_record is_hashable made listed_data).1
    × IsFiled (replace is_hashable made (host ∷ [])).1
operations-IsFiled_example =
    operations-IsFiled is_hashable made host listed_data (host ∷ []) refl made-IsFiled

get_records-holds_example :
    contains identity (get_records made a_ mx) apex
    ≡ ((key_of apex == (with_dot a_, mx)) && holds made apex)
get_records-holds_example = get_records-holds made a_ mx apex made-IsFiled

abbrev store : DnsStore ℕ
store = insert (a_ ∷ []) (some zone) new_node

abbrev deep_zone : DnsZone ℕ
deep_zone = record { name = 99 ∷ 46 ∷ 98 ∷ 46 ∷ 97 ∷ 46 ∷ []; records = [] }

abbrev key : List Str
key = a_ ∷ b_ ∷ []

key_is : query_key host.name ≡ key
unfolding with_dot ends_with get_reverse_tuple strip lstrip rstrip split
key_is = refl

new_key_is : get_reverse_tuple deep_zone.name ≡ a_ ∷ b_ ∷ c_ ∷ []
unfolding get_reverse_tuple strip lstrip rstrip split
new_key_is = refl

only_two : {A : Type 0} (f : ℕ → A) (c : A) → f 2 ≡ c → (i : ℕ) → 1 < i → i ≤ 2 → f i ≡ c
only_two f c h i lo hi = subst (λ j. f j ≡ c) (omega arith) h

store-Deepest : Deepest 1 (query_key host.name) store
unfolding has_path insert new_node get_child put_child
store-Deepest =
    rw key_is (omega arith, refl, only_two (λ i. has_path (take i key) store) false refl)

store-Closest : Closest 1 zone (query_key host.name) store
unfolding search insert new_node get_child put_child
store-Closest = rw key_is (omega arith, refl, only_two (λ i. search (take i key) store) none refl)

-- "b.a." is asked for in a store with the zone "a." only.
query-zoned_example : query store host.name a ≡ get_records zone (with_dot host.name) a
query-zoned_example =
    query-zoned store host.name a 1 1 zone store-Deepest store-Closest (omega arith)

deep_zone-fresh : get_zone store deep_zone.name ≡ none
unfolding get_zone search insert new_node get_child put_child
deep_zone-fresh = rw new_key_is refl

-- dnslib's data are numbers here: the preference of an MX record, and else 0.
abbrev build : Rd ℕ → Result Exn ℕ
build (mx_rd exchange preference) = ok preference
build _ = ok 0

abbrev mail : DnsRecord ℕ
mail = record { name = zone_name; type = mx; payload = 10; cls = in_; ttl = 300 }

mail_by : create build zone_name (address (create_mx host.name 10)) 300 ≡ ok mail
unfolding create create_address
mail_by = refl
