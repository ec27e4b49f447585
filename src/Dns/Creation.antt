-- ===== src/Dns/Creation.antt =====
-- The `create` methods of aiomisc/service/dns/records.py. Each calls dnslib's constructor of its
-- class, which may raise, and wraps the data that it gives. `F` is the type of Python's floats.
pub mod Found
use aiomisc.Base.{ℕ, ◌-◌, ◌/◌, List, nat_eq, list_eq, pair_eq, Exn, Result, ok, err}
use aiomisc.Dns.Text.{Str}
use aiomisc.Dns.Types.{
  RecordType, a, aaaa, cname, ns, ptr, dname, mx, txt, soa, srv, caa, naptr, ds, dnskey, rrsig,
  nsec, https, loc, rp, tlsa, sshfp, in_,
}
use aiomisc.Dns.Records.{DnsRecord}

-- The calls of dnslib's constructors.
pub data Rd (F : Type 0) : Type 0 where
  a_rd aaaa_rd cname_rd ns_rd ptr_rd dname_rd txt_rd : Str → Rd F
  mx_rd : Str → ℕ → Rd F
  soa_rd : Str → Str → ℕ × ℕ × ℕ × ℕ × ℕ → Rd F
  srv_rd : ℕ → ℕ → ℕ → Str → Rd F
  caa_rd : ℕ → Str → Str → Rd F
  naptr_rd : ℕ → ℕ → Str → Str → Str → Str → Rd F
  ds_rd dnskey_rd tlsa_rd : ℕ → ℕ → ℕ → Str → Rd F
  rrsig_rd : ℕ → ℕ → ℕ → ℕ → ℕ → ℕ → ℕ → Str → Str → Rd F
  nsec_rd : Str → List ℕ → Rd F
  https_rd : ℕ → Str → List Str → Rd F
  loc_rd : F → F → F → F → F → F → Rd F
  rp_rd : Str → Str → Rd F
  sshfp_rd : ℕ → ℕ → Str → Rd F

pub data Address : Type 0 where
  create_a create_aaaa create_cname create_ns create_ptr create_dname create_txt : Str → Address
  create_mx : Str → ℕ → Address

pub data Service : Type 0 where
  create_soa : Str → Str → ℕ → ℕ → ℕ → ℕ → ℕ → Service
  create_srv : ℕ → ℕ → ℕ → Str → Service
  create_caa : ℕ → Str → Str → Service
  create_naptr : ℕ → ℕ → Str → Str → Str → Str → Service

pub data Security : Type 0 where
  create_ds create_dnskey : ℕ → ℕ → ℕ → Str → Security
  create_rrsig : ℕ → ℕ → ℕ → ℕ → ℕ → ℕ → ℕ → Str → Str → Security
  create_nsec : Str → List ℕ → Security

pub data Other (F : Type 0) : Type 0 where
  create_https : ℕ → Str → List Str → Other F
  create_loc : F → F → F → F → F → F → Other F
  create_rp : Str → Str → Other F
  create_tlsa : ℕ → ℕ → ℕ → Str → Other F
  create_sshfp : ℕ → ℕ → Str → Other F

-- A call of `create`, without the name and the time to live.
pub data Request (F : Type 0) : Type 0 where
  address : Address → Request F
  service : Service → Request F
  security : Security → Request F
  other : Other F → Request F

-- `DNSRecord(name, type, data, ttl)`, when the data are made.
abbrev pub made : {D : Type 0} → Str → RecordType → Result Exn D → ℕ → Result Exn (DnsRecord D)
made name type (err x) ttl = err x
made name type (ok data_) ttl =
    ok (record { name = name; type = type; payload = data_; cls = in_; ttl = ttl })

module _ {D F : Type 0} (build : Rd F → Result Exn D) where
  unfoldable pub create_address : Str → Address → ℕ → Result Exn (DnsRecord D)
  create_address name (create_a ip) ttl = made name a (build (a_rd ip)) ttl
  create_address name (create_aaaa ipv6) ttl = made name aaaa (build (aaaa_rd ipv6)) ttl
  create_address name (create_cname label) ttl = made name cname (build (cname_rd label)) ttl
  create_address name (create_ns label) ttl = made name ns (build (ns_rd label)) ttl
  create_address name (create_ptr label) ttl = made name ptr (build (ptr_rd label)) ttl
  create_address name (create_dname label) ttl = made name dname (build (dname_rd label)) ttl
  create_address name (create_txt text) ttl = made name txt (build (txt_rd text)) ttl
  create_address name (create_mx exchange preference) ttl =
      made name mx (build (mx_rd exchange preference)) ttl

  unfoldable pub create_service : Str → Service → ℕ → Result Exn (DnsRecord D)
  create_service name (create_soa mname rname serial refresh retry expire minimum) ttl =
      made name soa (build (soa_rd mname rname (serial, refresh, retry, expire, minimum))) ttl
  create_service name (create_srv priority weight port target) ttl =
      made name srv (build (srv_rd priority weight port target)) ttl
  create_service name (create_caa flags tag value) ttl =
      made name caa (build (caa_rd flags tag value)) ttl
  create_service name (create_naptr order preference flags service_ regexp replacement) ttl =
      made name naptr (build (naptr_rd order preference flags service_ regexp replacement)) ttl

  unfoldable pub create_security : Str → Security → ℕ → Result Exn (DnsRecord D)
  create_security name (create_ds key_tag algorithm digest_type digest) ttl =
      made name ds (build (ds_rd key_tag algorithm digest_type digest)) ttl
  create_security name (create_dnskey flags protocol algorithm key_) ttl =
      made name dnskey (build (dnskey_rd flags protocol algorithm key_)) ttl
  create_security name
        (create_rrsig type_covered algorithm labels original_ttl expiration inception key_tag signer
          signature)
        ttl =
      made name rrsig
        (build (
          rrsig_rd type_covered algorithm labels original_ttl expiration inception key_tag signer
            signature))
        ttl
  create_security name (create_nsec next_domain rrtypes) ttl =
      made name nsec (build (nsec_rd next_domain rrtypes)) ttl

  unfoldable pub create_other : Str → Other F → ℕ → Result Exn (DnsRecord D)
  create_other name (create_https priority target params) ttl =
      made name https (build (https_rd priority target params)) ttl
  create_other name (create_loc latitude longitude altitude size h_precision v_precision) ttl =
      made name loc (build (loc_rd latitude longitude altitude size h_precision v_precision)) ttl
  create_other name (create_rp mbox txt_) ttl = made name rp (build (rp_rd mbox txt_)) ttl
  create_other name (create_tlsa usage selector mtype cert_) ttl =
      made name tlsa (build (tlsa_rd usage selector mtype cert_)) ttl
  create_other name (create_sshfp algorithm fptype fingerprint) ttl =
      made name sshfp (build (sshfp_rd algorithm fptype fingerprint)) ttl

  unfoldable pub create : Str → Request F → ℕ → Result Exn (DnsRecord D)
  create name (address r) ttl = create_address name r ttl
  create name (service r) ttl = create_service name r ttl
  create name (security r) ttl = create_security name r ttl
  create name (other r) ttl = create_other name r ttl
