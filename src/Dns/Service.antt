-- ===== src/Dns/Service.antt =====
-- `DNSServer` of aiomisc/service/dns/service.py. dnslib, which is not part of the library, is the
-- record `Dnslib`: what a parsed request says, and the reply with the calls that change it. A packed
-- message is a list of bytes, and `pack` may raise.
pub mod Replies
use aiomisc.Base.{
  false, ℕ, ◌-◌, ◌/◌, Bool, true, not, Option, none, some, List, [], ◌∷◌, ltb, nat_beq,
  if◌then◌else◌, Eq, nat_eq, list_eq, pair_eq, length, take, Exn, Result, ok, err,
}
use aiomisc.Dns.Text.{Str}
use aiomisc.Dns.Types.{RecordType, of_code}
use aiomisc.Dns.Records.{DnsRecord}
use aiomisc.Dns.Store.{DnsStore, query}

-- What the code reads from a request: `additional` has the type and the length of each extra record.
pub record Question : Type 0 where
  pub query_name : Str
  pub query_type : ℕ
  pub additional : List (ℕ × ℕ)

pub record Dnslib (D : Type 0) : Type 1 where
  pub Reply : Type 0
  pub parse : List ℕ → Result Exn Question
  pub reply_to : Question → Reply
  -- `reply.add_ar(dnslib.EDNS0(udp_len=n))`
  pub add_edns : Reply → ℕ → Reply
  -- `reply.add_answer(rec.rr(query_type))`
  pub add_answer : Reply → DnsRecord D → ℕ → Reply
  pub set_rcode : Reply → ℕ → Reply
  pub set_tc : Reply → Reply
  pub pack : Reply → Result Exn (List ℕ)

-- `QTYPE.OPT`, `RCODE.NXDOMAIN` and `RCODE.SERVFAIL`
abbrev pub opt_type : ℕ
opt_type = 41

abbrev pub nxdomain : ℕ
nxdomain = 3

abbrev pub servfail : ℕ
servfail = 2

unfoldable pub get_edns_max_size : List (ℕ × ℕ) → Option ℕ
get_edns_max_size [] = none
get_edns_max_size ((rtype, edns_len) ∷ rest) =
    let later = get_edns_max_size rest in if nat_beq rtype opt_type then some edns_len else later

abbrev pub cut : Bool → Option ℕ → List ℕ → List ℕ
cut true (some n) body = take n body
cut _ _ body = body

module _ {D : Type 0} ⦃e : Eq D⦄ (lib : Dnslib D) where
  open lib use {Reply, reply_to, add_edns, add_answer, set_rcode, set_tc, pack}

  abbrev pub with_edns : Reply → Option ℕ → Reply
  with_edns r none = r
  with_edns r (some n) = add_edns r n

  unfoldable pub add_answers : Reply → List (DnsRecord D) → ℕ → Reply
  add_answers r [] query_type = r
  add_answers r (x ∷ xs) query_type = add_answers (add_answer r x query_type) xs query_type

  abbrev pub with_rcode : Reply → List (DnsRecord D) → Reply
  with_rcode r [] = set_rcode r nxdomain
  with_rcode r (x ∷ xs) = r

  -- A body of more than 512 bytes is packed again, with the flag of truncation.
  abbrev pub repack : Reply → Result Exn (List ℕ) → Result Exn (List ℕ)
  repack r (err x) = err x
  repack r (ok body) = if ltb 512 (length body) then pack (set_tc r) else ok body

  abbrev pub cut_body : Bool → Option ℕ → Result Exn (List ℕ) → Result Exn (List ℕ)
  cut_body should_truncate size (err x) = err x
  cut_body should_truncate size (ok body) = ok (cut should_truncate size body)

  abbrev pub answer_type :
      DnsStore D → Question → Bool → Option ℕ → Result Exn RecordType → Result Exn (List ℕ)
  answer_type store q should_truncate size (err x) = err x
  answer_type store q should_truncate size (ok type) =
      let records = query store q.query_name type in
      let r = with_rcode (add_answers (with_edns (reply_to q) size) records q.query_type) records in
      cut_body should_truncate size (repack r (pack r))

  -- The body of the `try`.
  unfoldable pub answer_question : DnsStore D → Question → Bool → Result Exn (List ℕ)
  answer_question store q should_truncate =
      answer_type store q should_truncate (get_edns_max_size q.additional) (of_code q.query_type)

  abbrev pub or_servfail : Question → Result Exn (List ℕ) → Result Exn (List ℕ)
  or_servfail q (ok body) = ok body
  or_servfail q (err x) = pack (set_rcode (reply_to q) servfail)

  abbrev pub handle_question : DnsStore D → Bool → Result Exn Question → Result Exn (List ℕ)
  handle_question store should_truncate (err x) = err x
  handle_question store should_truncate (ok q) =
      or_servfail q (answer_question store q should_truncate)

  unfoldable pub handle_request : DnsStore D → List ℕ → Bool → Result Exn (List ℕ)
  handle_request store bytes should_truncate =
      handle_question store should_truncate (lib.parse bytes)
