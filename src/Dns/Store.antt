-- ===== src/Dns/Store.antt =====
-- aiomisc/service/dns/store.py: the zones by their reversed labels, and the lookup of a name.
pub mod Zones
pub mod Queries
use aiomisc.Base.{
  Option, none, some, List, [], ◌∷◌, if◌then◌else◌, is_some, Eq, nat_eq, list_eq, pair_eq, Exn,
  value_error, Result, ok, err, ◌-◌, ◌/◌, not, Bool,
}
use aiomisc.Dns.Text.{Str}
use aiomisc.Dns.Names.{get_reverse_tuple}
use aiomisc.Dns.Tree.{RadixNode, new_node, insert, search, find_prefix}
use aiomisc.Dns.Types.{RecordType}
use aiomisc.Dns.Records.{DnsRecord}
use aiomisc.Dns.Zone.{DnsZone, with_dot, get_records, new_zone}

abbrev pub DnsStore : Type 0 → Type 0
DnsStore D = RadixNode (DnsZone D)

module _ {D : Type 0} where
  unfoldable pub new_store : DnsStore D
  new_store = new_node

  unfoldable pub get_zone : DnsStore D → Str → Option (DnsZone D)
  get_zone store zone_name = search (get_reverse_tuple zone_name) store

  unfoldable pub add_zone : DnsStore D → DnsZone D → Result Exn (Unit {0}) × DnsStore D
  add_zone store zone =
      let zone_tuple = get_reverse_tuple zone.name in
      if is_some (search zone_tuple store)
      then (err value_error, store)
      else (ok tt, insert zone_tuple (some zone) store)

  unfoldable pub remove_zone : DnsStore D → Str → Result Exn (Unit {0}) × DnsStore D
  remove_zone store zone_name =
      let zone_tuple = get_reverse_tuple zone_name in
      if is_some (search zone_tuple store)
      then (ok tt, insert zone_tuple none store)
      else (err value_error, store)

  abbrev pub path_of : Option (List Str × DnsZone D) → Option (List Str)
  path_of none = none
  path_of (some (path, zone)) = some path

  unfoldable pub get_zone_for_name : DnsStore D → Str → Option (List Str)
  get_zone_for_name store name = path_of (find_prefix (get_reverse_tuple name) store)

module _ {D : Type 0} ⦃e : Eq D⦄ where
  abbrev pub answer : Option (DnsZone D) → Str → RecordType → List (DnsRecord D)
  answer none name type = []
  answer (some zone) name type = get_records zone name type

  -- `if not zone_tuple` also catches the empty path.
  abbrev pub query_at : DnsStore D → Option (List Str) → Str → RecordType → List (DnsRecord D)
  query_at store none name type = []
  query_at store (some []) name type = []
  query_at store (some (label ∷ path)) name type = answer (search (label ∷ path) store) name type

  unfoldable pub query : DnsStore D → Str → RecordType → List (DnsRecord D)
  query store name type =
      query_at store (get_zone_for_name store (with_dot name)) (with_dot name) type

  abbrev pub install_zones :
      DnsStore D → Result Exn (DnsStore D) → Result Exn (Unit {0}) × DnsStore D
  install_zones store (ok new_zones) = (ok tt, new_zones)
  install_zones store (err x) = (err x, store)

module _ {D : Type 0} ⦃e : Eq D⦄ (is_hashable : D → Bool) where
  -- The loop of `replace` over the items of the mapping.
  unfoldable pub build_zones :
      DnsStore D → List (Str × List (DnsRecord D)) → Result Exn (DnsStore D)
  build_zones zones [] = ok zones
  build_zones zones ((zone_name, records) ∷ items) = elim (new_zone is_hashable zone_name records) [
    | ok zone ↦ build_zones (insert (get_reverse_tuple zone.name) (some zone) zones) items
    | err x ↦ err x
  ]

  unfoldable pub replace_zones :
      DnsStore D → List (Str × List (DnsRecord D)) → Result Exn (Unit {0}) × DnsStore D
  replace_zones store zones_data = install_zones store (build_zones new_node zones_data)
