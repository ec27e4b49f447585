-- ===== src/Dns/Service/Replies.antt =====
-- The replies of aiomisc/service/dns/service.py.
use aiomisc.Base.{
  ℕ, length-take-le, ◌≤◌, ◌≡◌, refl, sym, ap, subst, ◌∙◌, ◌⊎◌, inl, inr, true, some, List, Eq,
  nat_eq, list_eq, pair_eq, length, Exn, Result, ok, err, ok-injective,
}
use aiomisc.Dns.Service.{
  Question, Dnslib, servfail, get_edns_max_size, cut_body, answer_type, answer_question,
  or_servfail, handle_question, handle_request,
}
use aiomisc.Dns.Types.{RecordType, of_code}
use aiomisc.Dns.Store.{DnsStore}

module _ {D : Type 0} ⦃e : Eq D⦄ (lib : Dnslib D) where
  cut_body-le :
      (n : ℕ) (r : Result Exn (List ℕ)) (body : List ℕ)
      → cut_body {D = D} lib true (some n) r ≡ ok body
      → length body ≤ n
  cut_body-le n (err x) body h = cc h
  cut_body-le n (ok full) body h =
      subst (λ (b : List ℕ). length b ≤ n) (ok-injective h) (length-take-le n full)

  answer_type-le :
      (store : DnsStore D) (q : Question) (n : ℕ) (t : Result Exn RecordType) (body : List ℕ)
      → answer_type lib store q true (some n) t ≡ ok body
      → length body ≤ n
  answer_type-le store q n (err x) body h = cc h
  answer_type-le store q n (ok type) body h = cut_body-le n _ body h

  or_servfail-ok :
      (q : Question) (n : ℕ) (r : Result Exn (List ℕ)) (failure : List ℕ)
      → ((body : List ℕ) → r ≡ ok body → length body ≤ n)
      → lib.pack (lib.set_rcode (lib.reply_to q) servfail) ≡ ok failure
      → (body : List ℕ) × (or_servfail lib q r ≡ ok body) × ((length body ≤ n) ⊎ (body ≡ failure))
  or_servfail-ok q n (ok body) failure fits h = (body, refl, inl (fits body refl))
  or_servfail-ok q n (err x) failure fits h = (failure, h, inr refl)

  -- A request that dnslib can parse, that has an EDNS record with a buffer of `n` bytes, and whose
  -- answer is to be truncated, is always answered, whatever the store holds, and whatever record type is
  -- asked for, as long as the bare reply of a failure can be packed. The answer is no longer than `n`
  -- bytes, or is that reply.
  pub handle_request-fits :
      (store : DnsStore D) (bytes : List ℕ) (q : Question) (n : ℕ) (failure : List ℕ)
      → lib.parse bytes ≡ ok q
      → get_edns_max_size q.additional ≡ some n
      → lib.pack (lib.set_rcode (lib.reply_to q) servfail) ≡ ok failure
      → (body : List ℕ) × (handle_request lib store bytes true ≡ ok body)
        × ((length body ≤ n) ⊎ (body ≡ failure))
  unfolding handle_request answer_question
  handle_request-fits store bytes q n failure parsed size failing =
      let (body, made, small) =
        or_servfail-ok q n (answer_question lib store q true) failure
          (λ b h.
            answer_type-le store q n (of_code q.query_type) b
              (sym (ap (λ o. answer_type lib store q true o (of_code q.query_type)) size) ∙ h))
          failing in
      (body, ap (handle_question lib store true) parsed ∙ made, small)
