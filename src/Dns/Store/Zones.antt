-- ===== src/Dns/Store/Zones.antt =====
-- What `get_zone` of aiomisc/service/dns/store.py finds after zones are added and removed.
use aiomisc.Base.{
  ◌≡◌, none, some, if◌then◌else◌, ◌==◌, nat_eq, list_eq, pair_eq, value_error, ok, err, ◌⊎◌, inl,
  inr, Option-cases,
}
use aiomisc.Dns.Text.{Str}
use aiomisc.Dns.Names.{get_reverse_tuple}
use aiomisc.Dns.Tree.Laws.{search-insert}
use aiomisc.Dns.Zone.{DnsZone}
use aiomisc.Dns.Store.{DnsStore, get_zone, add_zone, remove_zone}

module _ {D : Type 0} where
  -- A zone is added under its name, and under that of no other zone; a second zone of one name is
  -- refused, and changes nothing.
  pub get_zone-add_zone :
      (store : DnsStore D) (zone : DnsZone D) (name : Str)
      → ((get_zone store zone.name ≡ none)
          × ((add_zone store zone).0 ≡ ok tt)
          × (get_zone (add_zone store zone).1 name ≡ (
              if get_reverse_tuple zone.name == get_reverse_tuple name
              then some zone
              else get_zone store name)))
        ⊎ ((old : DnsZone D) × (get_zone store zone.name ≡ some old)
            × (add_zone store zone ≡ (err value_error, store)))
  unfolding get_zone add_zone
  get_zone-add_zone store zone name = elim (Option-cases (get_zone store zone.name)) [
    | inl fresh ↦ inl (fresh, rw fresh, rw fresh (search-insert _ _ (some zone) store))
    | inr (old, taken) ↦ inr (old, taken, rw taken)
  ]

  -- A zone that is there is removed, and no other; removing one that is not is refused, and
  -- changes nothing.
  pub get_zone-remove_zone :
      (store : DnsStore D) (zone_name name : Str)
      → ((zone : DnsZone D) × (get_zone store zone_name ≡ some zone)
          × ((remove_zone store zone_name).0 ≡ ok tt)
          × (get_zone (remove_zone store zone_name).1 name ≡ (
              if get_reverse_tuple zone_name == get_reverse_tuple name
              then none
              else get_zone store name)))
        ⊎ ((get_zone store zone_name ≡ none)
            × (remove_zone store zone_name ≡ (err value_error, store)))
  unfolding get_zone remove_zone
  get_zone-remove_zone store zone_name name = elim (Option-cases (get_zone store zone_name)) [
    | inl missing ↦ inr (missing, rw missing)
    | inr (zone, there) ↦ inl (zone, there, rw there, rw there (search-insert _ _ none store))
  ]
