-- ===== src/Dns/Store/Queries.antt =====
-- Which zone answers a query of aiomisc/service/dns/store.py.
use aiomisc.Base.{
  ℕ, zero, suc, ◌≤◌, ◌<◌, ◌≡◌, refl, sym, ap, ◌∙◌, inl, inr, true, false, none, some, List, [], ◌∷◌,
  arith, ltb, nat_beq, if◌then◌else◌, ltb→lt, nat_beq_iff, Bool-cases, Eq, ◌==◌, nat_eq, list_eq,
  pair_eq, length, take,
}
use aiomisc.Dns.Text.{Str}
use aiomisc.Dns.Names.{get_reverse_tuple}
use aiomisc.Dns.Tree.{insert, search, find_prefix}
use aiomisc.Dns.Tree.Laws.{search-insert, has_path, has_path-insert, is_prefix, search-has_path}
use aiomisc.Dns.Tree.Prefix.{Deepest, Closest, find_prefix_lem}
use aiomisc.Dns.Types.{RecordType}
use aiomisc.Dns.Zone.{DnsZone, with_dot, get_records}
use aiomisc.Dns.Store.{
  DnsStore, get_zone, get_zone_for_name, add_zone, query, query_at, answer, path_of,
}

-- The key under which a query looks for a zone.
abbrev pub query_key : Str → List Str
query_key name = get_reverse_tuple (with_dot name)

-- A key that is no prefix of another is none of its prefixes.
prefix_ne : (key new : List Str) (i : ℕ) → is_prefix new key ≡ false → (new == take i key) ≡ false
prefix_ne key [] i h = cc
prefix_ne [] (p ∷ new) zero h = refl
prefix_ne [] (p ∷ new) (suc i) h = refl
prefix_ne (q ∷ key) (p ∷ new) zero h = refl
prefix_ne (q ∷ key) (p ∷ new) (suc i) h = ground (arith, prefix_ne key new i)

module _ {D : Type 0} where
  Deepest-le :
      (c d : ℕ) (key : List Str) (store : DnsStore D)
      → Deepest c key store
      → Deepest d key store
      → c ≤ d
  Deepest-le c d key store h k = elim (Bool-cases (ltb d c)) [
    | inl lt ↦ cc (h.1, k.2 c (ltb→lt d c lt) h.0)
    | inr ge ↦ ground arith
  ]

  Closest-le :
      (i j : ℕ) (y z : DnsZone D) (key : List Str) (store : DnsStore D)
      → Closest i y key store
      → Closest j z key store
      → i ≤ j
  Closest-le i j y z key store h k = elim (Bool-cases (ltb j i)) [
    | inl lt ↦ cc (h.1, k.2 i (ltb→lt j i lt) h.0)
    | inr ge ↦ ground arith
  ]

  -- The tree reaches as far as the closest zone, and further where it does not end there.
  beyond :
      (d k : ℕ) (key : List Str) (store : DnsStore D) (zone : DnsZone D)
      → Deepest d key store
      → Closest k zone key store
      → nat_beq d k ≡ false
      → k < d
  beyond d k key store zone deepest closest other = elim (Bool-cases (ltb d k)) [
    | inl short ↦ cc (
      deepest.2 k (ltb→lt d k short) closest.0,
      search-has_path (take k key) store zone closest.1,
    )
    | inr long ↦ ground arith
  ]

module _ {D : Type 0} ⦃e : Eq D⦄ where
  query_at-take :
      (store : DnsStore D) (d : ℕ) (key : List Str) (name : Str) (type : RecordType)
      → 0 < d
      → d ≤ length key
      → query_at store (some (take d key)) name type ≡ answer (search (take d key) store) name type
  query_at-take store zero key name type up within = absurd (omega arith)
  query_at-take store (suc d) [] name type up within = absurd (omega arith)
  query_at-take store (suc d) (l ∷ key) name type up within = refl

  module _ (store : DnsStore D) (name : Str) (type : RecordType) where
    query-found :
        (d : ℕ) (zone : DnsZone D)
        → find_prefix (query_key name) store ≡ some (take d (query_key name), zone)
        → 0 < d
        → d ≤ length (query_key name)
        → query store name type
          ≡ answer (search (take d (query_key name)) store) (with_dot name) type
    unfolding query get_zone_for_name
    query-found d zone found up within =
        ap (λ o. query_at store (path_of o) (with_dot name) type) found
        ∙ query_at-take store d (query_key name) (with_dot name) type up within

    -- With no zone on the way to a name the reply is empty.
    pub query-unzoned :
        ((i : ℕ) → i ≤ length (query_key name) → search (take i (query_key name)) store ≡ none)
        → query store name type ≡ []
    unfolding query get_zone_for_name
    query-unzoned unzoned = elim (find_prefix_lem (query_key name) store) [
      | inl (nothing, _) ↦ ap (λ o. query_at store (path_of o) (with_dot name) type) nothing
      | inr (d, k, zone, _, _, closest) ↦ cc (closest.1, unzoned k closest.0)
    ]

    answer_at :
        (d k : ℕ) (zone : DnsZone D)
        → Deepest d (query_key name) store
        → Closest k zone (query_key name) store
        → answer (search (take d (query_key name)) store) (with_dot name) type
          ≡ (if nat_beq d k then get_records zone (with_dot name) type else [])
    answer_at d k zone deepest closest = elim (Bool-cases (nat_beq d k)) [
      | inl same ↦
          ap (λ o. answer o (with_dot name) type)
            (ap (λ (i : ℕ). search (take i (query_key name)) store) ((nat_beq_iff d k).0 same)
              ∙ closest.1)
          ∙ ap (λ b. if b then get_records zone (with_dot name) type else []) (sym same)
      | inr other ↦
          ap (λ o. answer o (with_dot name) type)
            (closest.2 d (beyond d k _ store zone deepest closest other) deepest.0)
          ∙ ap (λ b. if b then get_records zone (with_dot name) type else []) (sym other)
    ]

    -- Where `zone` is the closest enclosing zone of the name, at `k` labels, and the tree reaches
    -- `d` labels of the name, at least one, the records of `zone` answer the query if `d` is `k`,
    -- and otherwise the reply is empty.
    pub query-zoned :
        (d k : ℕ) (zone : DnsZone D)
        → Deepest d (query_key name) store
        → Closest k zone (query_key name) store
        → 0 < d
        → query store name type
          ≡ (if nat_beq d k then get_records zone (with_dot name) type else [])
    query-zoned d k zone deepest closest up = elim (find_prefix_lem (query_key name) store) [
      | inl (_, unzoned) ↦ cc (closest.1, unzoned k closest.0)
      | inr (d', k', zone', found, deepest', closest') ↦
          let same : d ≡ d' = omega (
            arith,
            Deepest-le d d' _ store deepest deepest',
            Deepest-le d' d _ store deepest' deepest,
          ) in
          query-found d zone'
            (found ∙ ap (λ (i : ℕ). some (take i (query_key name), zone')) (sym same)) up deepest.0
          ∙ answer_at d k zone deepest closest
    ]

  Closest-insert :
      (store : DnsStore D) (key new : List Str) (k : ℕ) (zone other : DnsZone D)
      → is_prefix new key ≡ false
      → Closest k zone key store
      → Closest k zone key (insert new (some other) store)
  Closest-insert store key new k zone other apart closest =
      (closest.0, kept k ∙ closest.1, λ i lo hi. kept i ∙ closest.2 i lo hi)
    where
      kept :
          (i : ℕ) → search (take i key) (insert new (some other) store) ≡ search (take i key) store
      kept i =
          search-insert new (take i key) (some other) store
          ∙ ap (λ b. if b then some other else search (take i key) store)
              (prefix_ne key new i apart)

  reaches :
      (store : DnsStore D) (key new : List Str) (d k : ℕ) (other : DnsZone D)
      → is_prefix (take (suc k) key) new ≡ true
      → suc k ≤ length key
      → Deepest d key (insert new (some other) store)
      → k < d
  reaches store key new d k other shared room deepest = elim (Bool-cases (ltb k d)) [
    | inl far ↦ ltb→lt k d far
    | inr near ↦
        let there : has_path (take (suc k) key) (insert new (some other) store) ≡ true =
          has_path-insert new (take (suc k) key) (some other) store ∙ ground (arith, shared) in
        cc (there, deepest.2 (suc k) (ground arith) room)
  ]

  -- A new zone whose name goes on, past the closest enclosing zone of a queried name, along the
  -- next label of that name and then elsewhere, hides that zone: the reply becomes empty, whatever
  -- records the closest zone has.
  pub query-hidden :
      (store : DnsStore D) (name : Str) (type : RecordType) (k : ℕ) (zone other : DnsZone D)
      → Closest k zone (query_key name) store
      → k < length (query_key name)
      → is_prefix (take (suc k) (query_key name)) (get_reverse_tuple other.name) ≡ true
      → is_prefix (get_reverse_tuple other.name) (query_key name) ≡ false
      → get_zone store other.name ≡ none
      → query (add_zone store other).1 name type ≡ []
  unfolding get_zone add_zone
  query-hidden store name type k zone other closest room shared apart fresh =
      let key = query_key name in
      let new = get_reverse_tuple other.name in
      let closest' : Closest k zone key (insert new (some other) store) =
        Closest-insert store key new k zone other apart closest in
      rw fresh (elim (find_prefix_lem key (insert new (some other) store)) [
        | inl (_, unzoned) ↦ cc (closest'.1, unzoned k closest'.0)
        | inr (d, _, _, _, deepest, _) ↦
            let far : k < d = reaches store key new d k other shared room deepest in
            query-zoned (insert new (some other) store) name type d k zone deepest closest'
              (omega arith)
            ∙ ground arith
      ])
