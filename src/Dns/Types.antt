-- ===== src/Dns/Types.antt =====
-- The enumerations of aiomisc/service/dns/records.py. `code` is the integer value of a member, and
-- `of_code` the call of the class on an integer, which raises ValueError outside the members.
use aiomisc.Base.{
  ℕ, ◌≡◌, refl, ◌↔◌, inl, inr, Bool, true, Option, none, some, List, [], ◌∷◌, arith, if◌then◌else◌,
  nat_beq_iff, Bool-cases, Eq, ◌==◌, nat_eq, list_eq, Exn, value_error, Result, ok, err,
}

pub data RecordType : Type 0 where
  a a6 aaaa afsdb any apl axfr caa cdnskey cds cert cname csync dhcid dlv dname : RecordType
  dnskey ds eui48 eui64 hinfo hip hip_ac https ipseckey ixfr key kx loc mx naptr : RecordType
  ns nsec nsec3 nsec3param null openpgpkey opt ptr rp rrsig sig soa spf srv sshfp : RecordType
  svcb ta tkey tlsa tsig txt uri zonemd : RecordType

pub data DnsClass : Type 0 where
  in_ cs ch hesiod none_ asterisk : DnsClass

unfoldable pub code : RecordType → ℕ
code a = 1
code a6 = 38
code aaaa = 28
code afsdb = 18
code any = 255
code apl = 42
code axfr = 252
code caa = 257
code cdnskey = 60
code cds = 59
code cert = 37
code cname = 5
code csync = 62
code dhcid = 49
code dlv = 32769
code dname = 39
code dnskey = 48
code ds = 43
code eui48 = 108
code eui64 = 109
code hinfo = 13
code hip = 53
code hip_ac = 55
code https = 65
code ipseckey = 45
code ixfr = 251
code key = 25
code kx = 36
code loc = 29
code mx = 15
code naptr = 35
code ns = 2
code nsec = 47
code nsec3 = 50
code nsec3param = 51
code null = 10
code openpgpkey = 61
code opt = 41
code ptr = 12
code rp = 17
code rrsig = 46
code sig = 24
code soa = 6
code spf = 99
code srv = 33
code sshfp = 44
code svcb = 64
code ta = 32768
code tkey = 249
code tlsa = 52
code tsig = 250
code txt = 16
code uri = 256
code zonemd = 63

unfoldable pub members : List RecordType
members =
    a ∷ a6 ∷ aaaa ∷ afsdb ∷ any ∷ apl ∷ axfr ∷ caa ∷ cdnskey ∷ cds ∷ cert ∷ cname ∷ csync ∷ dhcid
    ∷ dlv ∷ dname ∷ dnskey ∷ ds ∷ eui48 ∷ eui64 ∷ hinfo ∷ hip ∷ hip_ac ∷ https ∷ ipseckey ∷ ixfr
    ∷ key ∷ kx ∷ loc ∷ mx ∷ naptr ∷ ns ∷ nsec ∷ nsec3 ∷ nsec3param ∷ null ∷ openpgpkey ∷ opt ∷ ptr
    ∷ rp ∷ rrsig ∷ sig ∷ soa ∷ spf ∷ srv ∷ sshfp ∷ svcb ∷ ta ∷ tkey ∷ tlsa ∷ tsig ∷ txt ∷ uri
    ∷ zonemd ∷ []

unfoldable pub find_code : List RecordType → ℕ → Option RecordType
find_code [] n = none
find_code (t ∷ ts) n = if code t == n then some t else find_code ts n

abbrev or_value_error : Option RecordType → Result Exn RecordType
or_value_error none = err value_error
or_value_error (some t) = ok t

unfoldable pub of_code : ℕ → Result Exn RecordType
of_code n = or_value_error (find_code members n)

or_value_error-ok : (o : Option RecordType) (t : RecordType) → or_value_error o ≡ ok t → o ≡ some t
or_value_error-ok none t h = cc
or_value_error-ok (some u) t h = cc

find_code_sound :
    (ts : List RecordType) (n : ℕ) (t : RecordType) → find_code ts n ≡ some t → code t ≡ n
unfolding find_code
find_code_sound [] n t h = cc
find_code_sound (u ∷ ts) n t h = elim (Bool-cases (code u == n)) [
  | inl e ↦ cc (rw e at h, (nat_beq_iff (code u) n).0 e)
  | inr e ↦ find_code_sound ts n t (rw e at h)
]

-- A type's code is accepted and names that type.
pub of_code-code : (t : RecordType) → of_code (code t) ≡ ok t
unfolding of_code find_code members code
of_code-code a = refl
of_code-code _ = refl

-- The record type that an integer is accepted as has that integer for its code.
pub code-of_code : (n : ℕ) (t : RecordType) → of_code n ≡ ok t → code t ≡ n
unfolding of_code
code-of_code n t h = find_code_sound members n t (or_value_error-ok (find_code members n) t h)

pub code-injective : (t u : RecordType) → code t ≡ code u → t ≡ u
code-injective t u h = cc (of_code-code t, of_code-code u)

pub type_beq : RecordType → RecordType → Bool
type_beq t u = code t == code u

pub type_beq_iff : (t u : RecordType) → (type_beq t u ≡ true) ↔ (t ≡ u)
unfolding type_beq
type_beq_iff t u = (λ h. code-injective t u (ground arith), λ e. ground (arith, e))

instance abbrev pub type_eq : Eq RecordType
type_eq = record { beq = type_beq; beq_iff = type_beq_iff }

unfoldable pub class_code : DnsClass → ℕ
class_code in_ = 1
class_code cs = 2
class_code ch = 3
class_code hesiod = 4
class_code none_ = 254
class_code asterisk = 255

pub class_beq : DnsClass → DnsClass → Bool
class_beq c d = class_code c == class_code d

pub class_beq_iff : (c d : DnsClass) → (class_beq c d ≡ true) ↔ (c ≡ d)
unfolding class_beq class_code
class_beq_iff c d = (λ h. ground arith, λ e. ground arith)

instance abbrev pub class_eq : Eq DnsClass
class_eq = record { beq = class_beq; beq_iff = class_beq_iff }
