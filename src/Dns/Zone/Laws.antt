-- ===== src/Dns/Zone/Laws.antt =====
-- The zone of aiomisc/service/dns/zone.py as the set of records that it holds.
use aiomisc.Base.{
  pair_beq_iff, ◌≡◌, refl, ap, ◌∙◌, inl, inr, Bool, true, false, not, ◌&&◌, ◌||◌, List, [], ◌∷◌,
  arith, if◌then◌else◌, Bool-cases, Eq, ◌==◌, nat_eq, list_eq, pair_eq, value_error, type_error,
  Exn, is_some, ok, err, ◌⊎◌,
}
use aiomisc.Base.Dict.{lookup, put, lookup-put}
use aiomisc.Base.Sets.{contains, contains-add}
use aiomisc.Dns.Text.{Str}
use aiomisc.Dns.Types.{RecordType, type_eq, class_eq}
use aiomisc.Dns.Records.{DnsRecord, identity, key_of}
use aiomisc.Dns.Zone.{
  DnsZone, RecordsDict, at, file, check_record, add_record, remove_record, touch,
}

module _ {D : Type 0} ⦃e : Eq D⦄ where
  -- Whether a record, whatever its `ttl`, is filed under its own key.
  abbrev pub filed : RecordsDict D → DnsRecord D → Bool
  filed d q = contains identity (at d (key_of q)) q

  abbrev pub holds : DnsZone D → DnsRecord D → Bool
  holds zone q = filed zone.records q

  abbrev pub same : DnsRecord D → DnsRecord D → Bool
  same r q = identity r == identity q

  same-key : (r q : DnsRecord D) → same r q ≡ true → (key_of r == key_of q) ≡ true
  same-key r q h = ground arith

  at-put :
      (k j : Str × RecordType) (s : List (DnsRecord D)) (d : RecordsDict D)
      → at (put k s d) j ≡ (if k == j then s else at d j)
  at-put k j s d = ground (arith, lookup-put k j s d)

  at-put_eq :
      (k j : Str × RecordType) (s : List (DnsRecord D)) (d : RecordsDict D)
      → (k == j) ≡ true
      → at (put k s d) j ≡ s
  at-put_eq k j s d h = at-put k j s d ∙ ap (λ b. if b then s else at d j) h

  at-put_ne :
      (k j : Str × RecordType) (s : List (DnsRecord D)) (d : RecordsDict D)
      → (k == j) ≡ false
      → at (put k s d) j ≡ at d j
  at-put_ne k j s d h = at-put k j s d ∙ ap (λ b. if b then s else at d j) h

  filed-file :
      (d : RecordsDict D) (r q : DnsRecord D) → filed (file d r) q ≡ (same r q || filed d q)
  unfolding file
  filed-file d r q = elim (Bool-cases (key_of r == key_of q)) [
    | inl k ↦
        ap (λ s. contains identity s q) (at-put_eq (key_of r) (key_of q) _ d k)
        ∙ contains-add identity r q (at d (key_of r))
        ∙ ap (λ key. same r q || contains identity (at d key) q)
            ((pair_beq_iff (key_of r) (key_of q)).0 k)
    | inr k ↦
        ap (λ s. contains identity s q) (at-put_ne (key_of r) (key_of q) _ d k)
        ∙ ground (arith, same-key r q)
  ]

  -- Reading a key leaves what is filed.
  filed-touch :
      (d : RecordsDict D) (k : Str × RecordType) (q : DnsRecord D) → filed (touch k d) q ≡ filed d q
  filed-touch d k q = elim (Bool-cases (k == key_of q)) [
    | inl same_ ↦
        ap (λ s. contains identity s q) (at-put_eq k (key_of q) _ d same_)
        ∙ ap (λ key. contains identity (at d key) q) ((pair_beq_iff k (key_of q)).0 same_)
    | inr other ↦ ap (λ s. contains identity s q) (at-put_ne k (key_of q) _ d other)
  ]

  -- Filing records one after the other, with no check.
  abbrev file_each : RecordsDict D → List (DnsRecord D) → RecordsDict D
  file_each d [] = d
  file_each d (r ∷ rs) = file_each (file d r) rs

module _ {D : Type 0} ⦃e : Eq D⦄ (is_hashable : D → Bool) where
  -- Adding a record of the zone that hashes adds it and no other; one that does not hash raises
  -- TypeError and adds nothing; one of another zone raises ValueError, and changes nothing.
  abbrev pub Added : DnsZone D → DnsRecord D → DnsRecord D → Type 0
  Added zone r q =
      ((check_record zone r ≡ true)
        × (is_hashable r.payload ≡ true)
        × ((add_record is_hashable zone r).0 ≡ ok tt)
        × (holds (add_record is_hashable zone r).1 q ≡ (same r q || holds zone q)))
      ⊎ ((check_record zone r ≡ true)
          × (is_hashable r.payload ≡ false)
          × ((add_record is_hashable zone r).0 ≡ err type_error)
          × (holds (add_record is_hashable zone r).1 q ≡ holds zone q))
      ⊎ ((check_record zone r ≡ false) × (add_record is_hashable zone r ≡ (err value_error, zone)))

  pub holds-add_record : (zone : DnsZone D) (r q : DnsRecord D) → Added zone r q
  unfolding add_record
  holds-add_record zone r q = elim (Bool-cases (check_record zone r)) [
    | inl h ↦ elim (Bool-cases (is_hashable r.payload)) [
      | inl y ↦ inl (h, y, rw (h, y) refl, rw (h, y) (filed-file zone.records r q))
      | inr n ↦ inr (inl (h, n, rw (h, n) refl, rw (h, n) (filed-touch zone.records (key_of r) q)))
    ]
    | inr h ↦ inr (inr (h, rw h refl))
  ]

  -- Removing a record that hashes takes out that record and no other, whether or not it was there; one
  -- that does not hash raises TypeError when its name and type have an entry, and changes nothing.
  abbrev pub Removed : DnsZone D → DnsRecord D → DnsRecord D → Type 0
  Removed zone r q =
      ((is_hashable r.payload ≡ true)
        × ((remove_record is_hashable zone r).0 ≡ ok tt)
        × (holds (remove_record is_hashable zone r).1 q ≡ (not (same r q) && holds zone q)))
      ⊎ ((is_hashable r.payload ≡ false)
          × (remove_record is_hashable zone r ≡ (
            (if is_some (lookup (key_of r) zone.records) then err type_error else ok tt),
            zone,
          )))

  -- Whether all of the records belong to the zone and hash.
  abbrev pub check_all : DnsZone D → List (DnsRecord D) → Bool
  check_all zone [] = true
  check_all zone (r ∷ rs) = check_record zone r && (is_hashable r.payload && check_all zone rs)

  -- What the first record that is refused raises.
  abbrev pub first_fault : DnsZone D → List (DnsRecord D) → Exn
  first_fault zone [] = value_error
  first_fault zone (r ∷ rs) =
      let later = first_fault zone rs in
      if not (check_record zone r)
      then value_error
      else if is_hashable r.payload
      then later
      else type_error
