-- ===== src/Dns/Zone/Filed.antt =====
-- The invariant of the zone of aiomisc/service/dns/zone.py: each record stands under its own key
-- and belongs to the zone, and no key has an empty set.
use mathlib.Core.Option.{some-injective}
use aiomisc.Base.{
  if_cases, Bool, All-append, All-keep, pair_beq_iff, ◌≡◌, refl, sym, ap, subst, ◌∙◌, ◌≢◌, inl, inr,
  true, false, ◌&&◌, some, List, [], ◌∷◌, arith, Bool-cases, Option-cases, Eq, ◌==◌, nat_eq,
  list_eq, pair_eq, All, Exn, Result, ok, err, ok-injective,
}
use aiomisc.Base.Dict.{
  lookup, put, delete, lookup-put_eq, lookup-put_ne, lookup-delete_eq, lookup-delete_ne,
}
use aiomisc.Base.Sets.{contains, add, discard, contains-nil, contains-cons}
use aiomisc.Dns.Text.{Str, ends_with}
use aiomisc.Dns.Types.{RecordType, type_eq, class_eq}
use aiomisc.Dns.Records.{DnsRecord, identity, key_of}
use aiomisc.Dns.Zone.{
  DnsZone, RecordsDict, or_empty, at, file, check_record, add_record, remove_record, remove_from,
  refile, file_all, install, replace, with_dot, get_records, add_records, new_zone,
}
use aiomisc.Dns.Zone.Laws.{holds}

module _ {D : Type 0} ⦃e : Eq D⦄ where
  abbrev pub Belongs : Str → Str × RecordType → DnsRecord D → Type 0
  Belongs name key r = (key_of r ≡ key) × (ends_with r.name name ≡ true)

  -- The set under a key.
  abbrev pub GoodSet : Str → Str × RecordType → List (DnsRecord D) → Type 0
  GoodSet name key s = All (Belongs name key) s × (s ≢ [])

  abbrev pub Sound : Str → RecordsDict D → Type 0
  Sound name d =
      (key : Str × RecordType) (s : List (DnsRecord D)) → lookup key d ≡ some s → GoodSet name key s

  pub record IsFiled (zone : DnsZone D) : Type 0 where
    pub sound : Sound zone.name zone.records

  Sound-put :
      (name : Str) (k : Str × RecordType) (t : List (DnsRecord D)) (d : RecordsDict D)
      → GoodSet name k t
      → Sound name d
      → Sound name (put k t d)
  Sound-put name k t d good sound key s h = elim (Bool-cases (k == key)) [
    | inl same ↦
        subst (λ (x : List (DnsRecord D)). GoodSet name key x)
          (some-injective t s (sym (lookup-put_eq k key t d same) ∙ h))
          (subst (λ j. GoodSet name j t) ((pair_beq_iff k key).0 same) good)
    | inr other ↦ sound key s (sym (lookup-put_ne k key t d other) ∙ h)
  ]

  Sound-delete :
      (name : Str) (k : Str × RecordType) (d : RecordsDict D)
      → Sound name d
      → Sound name (delete k d)
  Sound-delete name k d sound key s h = elim (Bool-cases (k == key)) [
    | inl same ↦ cc (sym (lookup-delete_eq k key d same) ∙ h)
    | inr other ↦ sound key s (sym (lookup-delete_ne k key d other) ∙ h)
  ]

  at-All :
      (name : Str) (d : RecordsDict D) (key : Str × RecordType)
      → Sound name d
      → All (Belongs name key) (at d key)
  at-All name d key sound = elim (Option-cases (lookup key d)) [
    | inl e ↦ subst (λ o. All (Belongs name key) (or_empty o)) (sym e) tt
    | inr (s, e) ↦ subst (λ o. All (Belongs name key) (or_empty o)) (sym e) (sound key s e).0
  ]

  add-GoodSet :
      (name : Str) (key : Str × RecordType) (r : DnsRecord D) (s : List (DnsRecord D))
      → Belongs name key r
      → All (Belongs name key) s
      → GoodSet name key (add identity r s)
  unfolding add
  add-GoodSet name key r [] b h = rw (contains-nil identity r) ((b, tt), λ p. cc p)
  add-GoodSet name key r (q ∷ s) b h = elim (Bool-cases (contains identity (q ∷ s) r)) [
    | inl old ↦ rw old (h, λ p. cc p)
    | inr new ↦ rw new (All-append (Belongs name key) (q ∷ s) (r ∷ []) h (b, tt), λ p. cc p)
  ]

  Sound-file :
      (name : Str) (r : DnsRecord D) (d : RecordsDict D)
      → ends_with r.name name ≡ true
      → Sound name d
      → Sound name (file d r)
  unfolding file
  Sound-file name r d fits sound =
      Sound-put name (key_of r) _ d
        (add-GoodSet name (key_of r) r (at d (key_of r)) (refl, fits)
          (at-All name d (key_of r) sound))
        sound

  refile-Sound :
      (name : Str) (k : Str × RecordType) (s : List (DnsRecord D)) (d : RecordsDict D)
      → All (Belongs name k) s
      → Sound name d
      → Sound name (refile k s d)
  refile-Sound name k [] d h sound = Sound-delete name k d sound
  refile-Sound name k (r ∷ s) d h sound = Sound-put name k (r ∷ s) d (h, λ p. cc p) sound

  remove_from-IsFiled :
      (zone : DnsZone D) (r : DnsRecord D) (s : List (DnsRecord D))
      → lookup (key_of r) zone.records ≡ some s
      → IsFiled zone
      → IsFiled (remove_from zone r s)
  remove_from-IsFiled zone r s e h = record {
    sound =
        refile-Sound zone.name (key_of r) (discard identity r s) zone.records
          (unfold discard in All-keep _ _ s (h.sound (key_of r) s e).0) h.sound;
  }

  Sound-nil : (name : Str) → Sound name []
  unfolding lookup
  Sound-nil name key s h = cc h

  install-IsFiled :
      (zone : DnsZone D) (made : Result Exn (RecordsDict D))
      → ((d : RecordsDict D) → made ≡ ok d → Sound zone.name d)
      → IsFiled zone
      → IsFiled (install zone made).1
  install-IsFiled zone (ok d) good h = record { sound = good d refl }
  install-IsFiled zone (err x) good h = h

  strangers :
      (name : Str) (key : Str × RecordType) (s : List (DnsRecord D)) (q : DnsRecord D)
      → All (Belongs name key) s
      → (key_of q == key) ≡ false
      → contains identity s q ≡ false
  strangers name key [] q h ne = contains-nil identity q
  strangers name key (r ∷ s) q h ne =
      contains-cons identity r q s
      ∙ ground (
        arith,
        strangers name key s q h.1 ne,
        h.0.0,
        pair_beq_iff (key_of r) (key_of q),
        pair_beq_iff (key_of q) key,
      )

  -- In a zone whose records are all filed, `get_records` gives exactly the records that the zone
  -- holds under that name and type, where a name without the final dot stands for the one with it.
  pub get_records-holds :
      (zone : DnsZone D) (name : Str) (type : RecordType) (q : DnsRecord D)
      → IsFiled zone
      → contains identity (get_records zone name type) q
        ≡ ((key_of q == (with_dot name, type)) && holds zone q)
  unfolding get_records
  get_records-holds zone name type q h = elim (Bool-cases (key_of q == (with_dot name, type))) [
    | inl k ↦
        ap (λ key. contains identity (at zone.records key) q)
          (sym ((pair_beq_iff (key_of q) (with_dot name, type)).0 k))
        ∙ ap (λ b. b && holds zone q) (sym k)
    | inr k ↦
        strangers zone.name (with_dot name, type) _ q
          (at-All zone.name zone.records (with_dot name, type) h.sound) k
        ∙ ap (λ b. b && holds zone q) (sym k)
  ]

module _ {D : Type 0} ⦃e : Eq D⦄ (is_hashable : D → Bool) where
  -- `add_record` keeps the invariant when it accepts the record, and when the record is of another zone.
  add_record-IsFiled :
      (zone : DnsZone D) (r : DnsRecord D)
      → is_hashable r.payload ≡ true
      → IsFiled zone
      → IsFiled (add_record is_hashable zone r).1
  unfolding add_record check_record
  add_record-IsFiled zone r y h = elim (Bool-cases (ends_with r.name zone.name)) [
    | inl fits ↦ rw (fits, y) (record { sound = Sound-file zone.name r zone.records fits h.sound })
    | inr strange ↦ rw strange h
  ]

  -- So does `remove_record`: the last record of a key takes the key with it.
  remove_record-IsFiled :
      (zone : DnsZone D) (r : DnsRecord D)
      → IsFiled zone
      → IsFiled (remove_record is_hashable zone r).1
  unfolding remove_record
  remove_record-IsFiled zone r h = elim (Option-cases (lookup (key_of r) zone.records)) [
    | inl none_ ↦ rw none_ h
    | inr (s, some_) ↦ rw some_ (
        if_cases (λ (x : Result Exn (Unit {0}) × DnsZone D). IsFiled x.1) (is_hashable r.payload)
          (λ _. remove_from-IsFiled zone r s some_ h) (λ _. h))
  ]

  file_all-Sound :
      (zone : DnsZone D) (d : RecordsDict D) (rs : List (DnsRecord D))
      → Sound zone.name d
      → (d' : RecordsDict D) → file_all is_hashable zone d rs ≡ ok d'
      → Sound zone.name d'
  unfolding file_all check_record
  file_all-Sound zone d [] sound d' h = subst (Sound zone.name) (ok-injective h) sound
  file_all-Sound zone d (r ∷ rs) sound d' h = elim (Bool-cases (ends_with r.name zone.name)) [
    | inl fits ↦ elim (Bool-cases (is_hashable r.payload)) [
      | inl y ↦
          file_all-Sound zone (file d r) rs (Sound-file zone.name r d fits sound) d'
            (rw (fits, y) at h)
      | inr n ↦ cc (rw (fits, n) at h)
    ]
    | inr strange ↦ cc (rw strange at h)
  ]

  replace-IsFiled :
      (zone : DnsZone D) (rs : List (DnsRecord D))
      → IsFiled zone
      → IsFiled (replace is_hashable zone rs).1
  unfolding replace
  replace-IsFiled zone rs h =
      install-IsFiled zone (file_all is_hashable zone [] rs)
        (λ d made_. file_all-Sound zone [] rs (Sound-nil zone.name) d made_) h

  -- In a zone with every record under its own key and in its zone, and no key with an empty set, this
  -- stays so after `remove_record` of any record and `replace` with any records, whether or not they are
  -- accepted, and after `add_record` of a record whose data hash, of this zone or another.
  pub operations-IsFiled :
      (zone : DnsZone D) (r q : DnsRecord D) (rs : List (DnsRecord D))
      → is_hashable r.payload ≡ true
      → IsFiled zone
      → IsFiled (add_record is_hashable zone r).1
        × IsFiled (remove_record is_hashable zone q).1
        × IsFiled (replace is_hashable zone rs).1
  operations-IsFiled zone r q rs y h =
      (add_record-IsFiled zone r y h, remove_record-IsFiled zone q h, replace-IsFiled zone rs h)

  add_records-IsFiled :
      (zone zone' : DnsZone D) (rs : List (DnsRecord D))
      → IsFiled zone
      → add_records is_hashable zone rs ≡ ok zone'
      → IsFiled zone'
  unfolding add_records add_record check_record
  add_records-IsFiled zone zone' [] h e = subst IsFiled (ok-injective e) h
  add_records-IsFiled zone zone' (r ∷ rs) h e = elim (Bool-cases (ends_with r.name zone.name)) [
    | inl fits ↦ elim (Bool-cases (is_hashable r.payload)) [
      | inl y ↦
          add_records-IsFiled (add_record is_hashable zone r).1 zone' rs
            (add_record-IsFiled zone r y h) (rw (fits, y, add_records) at e)
      | inr n ↦ cc (rw (fits, n, add_records) at e)
    ]
    | inr strange ↦ cc (rw (strange, add_records) at e)
  ]

  -- A zone that the constructor makes has every record under its own key and in its zone, with no
  -- empty set.
  pub new_zone-IsFiled :
      (name : Str) (rs : List (DnsRecord D)) (zone : DnsZone D)
      → new_zone is_hashable name rs ≡ ok zone
      → IsFiled zone
  unfolding new_zone
  new_zone-IsFiled name rs zone e =
      add_records-IsFiled _ zone rs (record { sound = Sound-nil (with_dot name) }) e
