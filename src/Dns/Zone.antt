-- ===== src/Dns/Zone.antt =====
-- aiomisc/service/dns/zone.py. A method that changes the zone returns its result, or what it
-- raised, with the zone that it leaves. The set under a key is a list without repeated records.
pub mod Laws
pub mod Filed
use aiomisc.Base.{
  ◌+◌, ◌-◌, ◌/◌, Bool, Option, none, some, List, [], ◌∷◌, ◌++◌, if◌then◌else◌, Eq, nat_eq, list_eq,
  Exn, value_error, type_error, not, Result, ok, err, pair_eq,
}
use aiomisc.Base.Dict.{Dict, lookup, put, delete}
use aiomisc.Base.Sets.{contains, add, discard}
use aiomisc.Dns.Text.{Str, dot, ends_with}
use aiomisc.Dns.Types.{RecordType, type_eq, class_eq}
use aiomisc.Dns.Records.{DnsRecord, Identity, identity, key_of}

abbrev pub RecordsDict : Type 0 → Type 0
RecordsDict D = Dict (Str × RecordType) (List (DnsRecord D))

pub record DnsZone (D : Type 0) : Type 0 where
  pub name : Str
  pub records : RecordsDict D

-- `name if name.endswith(".") else name + "."`
unfoldable pub with_dot : Str → Str
with_dot name = if ends_with name (dot ∷ []) then name else name ++ dot ∷ []

-- An absent key reads as the empty set, in `defaultdict(set)` and in `get(key, ())`.
abbrev pub or_empty {ℓ} : {A : Type ℓ} → Option (List A) → List A
or_empty none = []
or_empty (some s) = s

module _ {D : Type 0} ⦃e : Eq D⦄ where
  abbrev pub at : RecordsDict D → Str × RecordType → List (DnsRecord D)
  at d key = or_empty (lookup key d)

  -- `records[(record.name, record.type)].add(record)`, of a record that hashes.
  unfoldable pub file : RecordsDict D → DnsRecord D → RecordsDict D
  file d record_ = put (key_of record_) (add identity record_ (at d (key_of record_))) d

  unfoldable pub check_record : DnsZone D → DnsRecord D → Bool
  check_record zone record_ = ends_with record_.name zone.name

  -- The set that is left, and the entry gone when it is empty.
  abbrev pub refile : Str × RecordType → List (DnsRecord D) → RecordsDict D → RecordsDict D
  refile key [] d = delete key d
  refile key (r ∷ s) d = put key (r ∷ s) d

  unfoldable pub get_records : DnsZone D → Str → RecordType → List (DnsRecord D)
  get_records zone name type = at zone.records (with_dot name, type)

  abbrev pub remove_from : DnsZone D → DnsRecord D → List (DnsRecord D) → DnsZone D
  remove_from zone record_ s = record zone {
    records = refile (key_of record_) (discard identity record_ s) zone.records;
  }

  -- A `defaultdict` that is read has the key from then on.
  abbrev pub touch : Str × RecordType → RecordsDict D → RecordsDict D
  touch key d = put key (at d key) d

  abbrev pub install : DnsZone D → Result Exn (RecordsDict D) → Result Exn (Unit {0}) × DnsZone D
  install zone (err x) = (err x, zone)
  install zone (ok new_records) = (ok tt, record zone { records = new_records })

-- A set hashes what is added or discarded, and a record's hash is that of its data's `data`, which
-- raises TypeError for a list: `is_hashable` tells the record data that hash from those, as those of
-- TXT, that do not.
module _ {D : Type 0} ⦃e : Eq D⦄ (is_hashable : D → Bool) where
  unfoldable pub add_record : DnsZone D → DnsRecord D → Result Exn (Unit {0}) × DnsZone D
  add_record zone record_ =
      if not (check_record zone record_)
      then (err value_error, zone)
      else if is_hashable record_.payload
      then (ok tt, record zone { records = file zone.records record_ })
      else (err type_error, record zone { records = touch (key_of record_) zone.records })

  abbrev pub remove_found :
      DnsZone D → DnsRecord D → Option (List (DnsRecord D)) → Result Exn (Unit {0}) × DnsZone D
  remove_found zone record_ none = (ok tt, zone)
  remove_found zone record_ (some s) =
      if is_hashable record_.payload
      then (ok tt, remove_from zone record_ s)
      else (err type_error, zone)

  unfoldable pub remove_record : DnsZone D → DnsRecord D → Result Exn (Unit {0}) × DnsZone D
  remove_record zone record_ = remove_found zone record_ (lookup (key_of record_) zone.records)

  -- The loop of `replace` over the new records.
  unfoldable pub file_all :
      DnsZone D → RecordsDict D → List (DnsRecord D) → Result Exn (RecordsDict D)
  file_all zone d [] = ok d
  file_all zone d (r ∷ rs) =
      let filed_all = file_all zone (file d r) rs in
      if not (check_record zone r)
      then err value_error
      else if is_hashable r.payload
      then filed_all
      else err type_error

  unfoldable pub replace : DnsZone D → List (DnsRecord D) → Result Exn (Unit {0}) × DnsZone D
  replace zone records = install zone (file_all zone [] records)

  -- The loop of the constructor: `add_record` of each, until one raises.
  unfoldable pub add_records : DnsZone D → List (DnsRecord D) → Result Exn (DnsZone D)
  add_records zone [] = ok zone
  add_records zone (r ∷ rs) =
      let (result, zone') = add_record zone r in
      elim result [ ok _ ↦ add_records zone' rs | err x ↦ err x ]

  unfoldable pub new_zone : Str → List (DnsRecord D) → Result Exn (DnsZone D)
  new_zone name records = add_records (record { name = with_dot name; records = [] }) records
