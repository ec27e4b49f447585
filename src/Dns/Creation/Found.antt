-- ===== src/Dns/Creation/Found.antt =====
-- The records that the `create` methods of aiomisc/service/dns/records.py make, in a zone.
use aiomisc.Base.{
  Bool, ℕ, ◌≡◌, sym, ap, ◌∙◌, inl, inr, true, [], ◌∷◌, arith, Eq, ◌==◌, beq_self, nat_eq, list_eq,
  pair_eq, pair_beq_iff, Exn, Result, ok, err, ok-injective,
}
use aiomisc.Base.Sets.{contains}
use aiomisc.Dns.Text.{Str, ends_with, dot}
use aiomisc.Dns.Types.{
  RecordType, a, aaaa, cname, ns, ptr, dname, mx, txt, soa, srv, caa, naptr, ds, dnskey, rrsig,
  nsec, https, loc, rp, tlsa, sshfp, type_eq, class_eq,
}
use aiomisc.Dns.Records.{DnsRecord, identity, key_of}
use aiomisc.Dns.Zone.{DnsZone, check_record, add_record, get_records, with_dot}
use aiomisc.Dns.Zone.Laws.{holds-add_record}
use aiomisc.Dns.Zone.Filed.{IsFiled, operations-IsFiled, get_records-holds}
use aiomisc.Dns.Creation.{
  Rd, create_a, create_aaaa, create_cname, create_ns, create_ptr, create_dname, create_txt,
  create_mx, create_soa, create_srv, create_caa, create_naptr, create_ds, create_dnskey,
  create_rrsig, create_nsec, create_https, create_loc, create_rp, create_tlsa, create_sshfp,
  Request, address, service, security, other, made, create_address, create_service, create_security,
  create_other, create,
}

-- The record type that a class stands for.
abbrev pub type_of : {F : Type 0} → Request F → RecordType
type_of (address (create_a _)) = a
type_of (address (create_aaaa _)) = aaaa
type_of (address (create_cname _)) = cname
type_of (address (create_ns _)) = ns
type_of (address (create_ptr _)) = ptr
type_of (address (create_dname _)) = dname
type_of (address (create_txt _)) = txt
type_of (address (create_mx _ _)) = mx
type_of (service (create_soa _ _ _ _ _ _ _)) = soa
type_of (service (create_srv _ _ _ _)) = srv
type_of (service (create_caa _ _ _)) = caa
type_of (service (create_naptr _ _ _ _ _ _)) = naptr
type_of (security (create_ds _ _ _ _)) = ds
type_of (security (create_dnskey _ _ _ _)) = dnskey
type_of (security (create_rrsig _ _ _ _ _ _ _ _ _)) = rrsig
type_of (security (create_nsec _ _)) = nsec
type_of (other (create_https _ _ _)) = https
type_of (other (create_loc _ _ _ _ _ _)) = loc
type_of (other (create_rp _ _)) = rp
type_of (other (create_tlsa _ _ _ _)) = tlsa
type_of (other (create_sshfp _ _ _)) = sshfp

module _ {D : Type 0} where
  made-key :
      (name : Str) (type : RecordType) (data_ : Result Exn D) (ttl : ℕ) (r : DnsRecord D)
      → made name type data_ ttl ≡ ok r
      → key_of r ≡ (name, type)
  made-key name type (err x) ttl r h = cc h
  made-key name type (ok d) ttl r h = ap (λ (s : DnsRecord D). key_of s) (sym (ok-injective h))

module _ {D F : Type 0} where
  create-key :
      (build : Rd F → Result Exn D) (name : Str) (request : Request F) (ttl : ℕ) (r : DnsRecord D)
      → create build name request ttl ≡ ok r
      → key_of r ≡ (name, type_of request)
  unfolding create create_address create_service create_security create_other
  create-key build name (address (create_a _)) ttl r h = made-key name a (build _) ttl r h
  create-key build name (address (create_aaaa _)) ttl r h = made-key name aaaa (build _) ttl r h
  create-key build name (address (create_cname _)) ttl r h = made-key name cname (build _) ttl r h
  create-key build name (address (create_ns _)) ttl r h = made-key name ns (build _) ttl r h
  create-key build name (address (create_ptr _)) ttl r h = made-key name ptr (build _) ttl r h
  create-key build name (address (create_dname _)) ttl r h = made-key name dname (build _) ttl r h
  create-key build name (address (create_txt _)) ttl r h = made-key name txt (build _) ttl r h
  create-key build name (address (create_mx _ _)) ttl r h = made-key name mx (build _) ttl r h
  create-key build name (service (create_soa _ _ _ _ _ _ _)) ttl r h =
      made-key name soa (build _) ttl r h
  create-key build name (service (create_srv _ _ _ _)) ttl r h = made-key name srv (build _) ttl r h
  create-key build name (service (create_caa _ _ _)) ttl r h = made-key name caa (build _) ttl r h
  create-key build name (service (create_naptr _ _ _ _ _ _)) ttl r h =
      made-key name naptr (build _) ttl r h
  create-key build name (security (create_ds _ _ _ _)) ttl r h = made-key name ds (build _) ttl r h
  create-key build name (security (create_dnskey _ _ _ _)) ttl r h =
      made-key name dnskey (build _) ttl r h
  create-key build name (security (create_rrsig _ _ _ _ _ _ _ _ _)) ttl r h =
      made-key name rrsig (build _) ttl r h
  create-key build name (security (create_nsec _ _)) ttl r h = made-key name nsec (build _) ttl r h
  create-key build name (other (create_https _ _ _)) ttl r h = made-key name https (build _) ttl r h
  create-key build name (other (create_loc _ _ _ _ _ _)) ttl r h =
      made-key name loc (build _) ttl r h
  create-key build name (other (create_rp _ _)) ttl r h = made-key name rp (build _) ttl r h
  create-key build name (other (create_tlsa _ _ _ _)) ttl r h = made-key name tlsa (build _) ttl r h
  create-key build name (other (create_sshfp _ _ _)) ttl r h = made-key name sshfp (build _) ttl r h

module _ {D F : Type 0} ⦃e : Eq D⦄ (is_hashable : D → Bool) where
  -- A record that a `create` method gives, with data that hash, for an absolute name within a zone whose records are all
  -- filed, is accepted by the zone, and then among those that the zone gives for that name and the
  -- type of its class.
  pub create-found :
      (build : Rd F → Result Exn D) (name : Str) (request : Request F) (ttl : ℕ) (zone : DnsZone D)
      (r : DnsRecord D)
      → create build name request ttl ≡ ok r
      → is_hashable r.payload ≡ true
      → IsFiled zone
      → ends_with name (dot ∷ []) ≡ true
      → ends_with name zone.name ≡ true
      → ((add_record is_hashable zone r).0 ≡ ok tt)
        × (contains identity
              (get_records (add_record is_hashable zone r).1 name (type_of request))
              r
            ≡ true)
  create-found build name request ttl zone r h hashes filed absolute within =
      let zone' : DnsZone D = (add_record is_hashable zone r).1 in
      let key = create-key build name request ttl r h in
      let within' : check_record zone r ≡ true =
        unfold check_record in
        ap (λ (k : Str × RecordType). ends_with k.0 zone.name) key ∙ within in
      let same_name : with_dot name ≡ name = unfold with_dot in (rw absolute) in
      let listed : (key_of r == (with_dot name, type_of request)) ≡ true =
        (pair_beq_iff (key_of r) (with_dot name, type_of request)).1 (rw same_name key) in
      elim (holds-add_record is_hashable zone r r) [
        | inl (_, _, accepted, held) ↦ (
          accepted,
          get_records-holds zone' name (type_of request) r
                (operations-IsFiled is_hashable zone r r [] hashes filed).0
              ∙ ground (arith, listed, held, beq_self (identity r)),
        )
        | inr (inl (_, unhashable, _, _)) ↦ cc (unhashable, hashes)
        | inr (inr (strange, _)) ↦ cc (strange, within')
      ]
