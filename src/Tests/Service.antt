-- ===== src/Tests/Service.antt =====
-- A run of aiomisc/service/dns/service.py, with a reply that is the list of what it is made of.
use aiomisc.Base.{
  ℕ, ◌≤◌, ◌≡◌, refl, ◌⊎◌, true, List, [], ◌∷◌, ◌++◌, nat_eq, list_eq, pair_eq, length, Exn,
  value_error, Result, ok, err,
}
use aiomisc.Dns.Types.{mx, in_, type_eq, class_eq}
use aiomisc.Dns.Store.{DnsStore, new_store, add_zone}
use aiomisc.Dns.Service.{Question, Dnslib, get_edns_max_size, handle_request}
use aiomisc.Dns.Service.Replies.{handle_request-fits}

-- A request for the MX records of "a.", from a client with a buffer of 2 bytes.
abbrev question : Question
question = record { query_name = 97 ∷ 46 ∷ []; query_type = 15; additional = (1, 7) ∷ (41, 2) ∷ [] }

abbrev parse_bytes : List ℕ → Result Exn Question
parse_bytes [] = err value_error
parse_bytes (byte ∷ bytes) = ok question

abbrev lib : Dnslib ℕ
lib = record {
  Reply = List ℕ;
  parse = parse_bytes;
  reply_to = λ q. 0 ∷ [];
  add_edns = λ r n. r ++ n ∷ [];
  add_answer = λ r x t. r ++ x.payload ∷ [];
  set_rcode = λ r c. c ∷ r;
  set_tc = λ r. 1 ∷ r;
  pack = λ r. ok r;
}

abbrev store : DnsStore ℕ
store =
    (add_zone new_store (record {
      name = 97 ∷ 46 ∷ [];
      records =
          (
            (97 ∷ 46 ∷ [], mx),
            record { name = 97 ∷ 46 ∷ []; type = mx; payload = 9; cls = in_; ttl = 60 } ∷ [],
          )
          ∷ [];
    })).1

handle_request-fits_example :
    (body : List ℕ) × (handle_request lib store (5 ∷ []) true ≡ ok body)
    × ((length body ≤ 2) ⊎ (body ≡ 2 ∷ 0 ∷ []))
handle_request-fits_example =
    handle_request-fits lib store (5 ∷ []) question 2 (2 ∷ 0 ∷ []) refl
      (unfold get_edns_max_size in refl) refl
