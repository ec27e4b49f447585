-- ===== src/Dns/Records.antt =====
-- `DNSRecord` of aiomisc/service/dns/records.py. `D` is the type of record data, the classes that
-- derive from dnslib's `RD`, with their equality.
use aiomisc.Base.{ℕ, nat_eq, list_eq}
use aiomisc.Dns.Text.{Str}
use aiomisc.Dns.Types.{RecordType, DnsClass, type_eq, class_eq}

pub record DnsRecord (D : Type 0) : Type 0 where
  pub name : Str
  pub type : RecordType
  pub payload : D
  pub cls : DnsClass
  pub ttl : ℕ

abbrev pub default_ttl : ℕ
default_ttl = 3600

-- The fields that take part in comparison and hashing: `ttl` is declared with `compare=False`. Which
-- record data hash is a parameter of the zone.
abbrev pub Identity : Type 0 → Type 0
Identity D = (Str × RecordType) × (D × DnsClass)

abbrev pub identity : {D : Type 0} → DnsRecord D → Identity D
identity r = ((r.name, r.type), (r.payload, r.cls))

-- The key under which a zone files a record.
abbrev pub key_of : {D : Type 0} → DnsRecord D → Str × RecordType
key_of r = (r.name, r.type)
