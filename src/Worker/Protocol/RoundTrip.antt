-- ===== src/Worker/Protocol/RoundTrip.antt =====
-- What is sent with aiomisc_worker/protocol.py is received, by any of its ways to read.
use aiomisc.Base.{
  ok-injective, ℕ, ◌≤◌, ◌≡◌, refl, sym, ap, subst, ◌∙◌, List, [], ◌∷◌, ◌++◌, arith, nat_eq, list_eq,
  pair_eq, length, length-append, take, drop, Result, ok, ◌>>=◌, All, err,
}
use aiomisc.Worker.Protocol.{
  send_all, receive_all, receive_more, pack, WireError, Reader, receive, receive_payload,
  receive_header, lift_pickle,
}
use aiomisc.Worker.Protocol.Headers.{
  pack-IsPacket, header_bytes, unpack_header-header_bytes, IsPacket,
}
use aiomisc.Worker.Protocol.Reading.{IsExact}

take_front : {A : Type 0} (xs ys : List A) → take (length xs) (xs ++ ys) ≡ xs
take_front [] ys = refl
take_front (x ∷ xs) ys = ap (λ zs. x ∷ zs) (take_front xs ys)

drop_front : {A : Type 0} (xs ys : List A) → drop (length xs) (xs ++ ys) ≡ ys
drop_front [] ys = refl
drop_front (x ∷ xs) ys = drop_front xs ys

append_assoc : {A : Type 0} (xs ys zs : List A) → (xs ++ ys) ++ zs ≡ xs ++ (ys ++ zs)
append_assoc [] ys zs = refl
append_assoc (x ∷ xs) ys zs = ap (λ r. x ∷ r) (append_assoc xs ys zs)

-- What a receive leaves of a stream that begins with what was sent.
pub record Received {E A S : Type 0} (result : Result (WireError E) (A × S)) (view : S → List ℕ)
    (Valid : S → Type 0) (value : A) (more : List ℕ) : Type 0 where
  pub left_over : S
  pub received : result ≡ ok (value, left_over)
  pub left_view : view left_over ≡ more
  pub left_Valid : Valid left_over

module _ {E X S : Type 0} (dumps : X → Result E (List ℕ)) (loads : List ℕ → Result E X)
    (read : Reader E S) (view : S → List ℕ) (Valid : S → Type 0) where
  -- A read of the front part of a stream.
  read_front :
      IsExact read view Valid
      → (s : S) (front back : List ℕ) → Valid s
      → view s ≡ front ++ back
      → Received (read (length front) s) view Valid front back
  read_front e s front back v h =
      let r = e.exact (length front) s v (
        subst (λ (bs : List ℕ). length front ≤ length bs) (sym h)
          (omega (arith, length-append front back))) in
      record {
        left_over = r.rest;
        received =
            r.reads
            ∙ ap (λ bs. ok (bs, r.rest)) (ap (take (length front)) h ∙ take_front front back);
        left_view = r.rest_view ∙ ap (drop (length front)) h ∙ drop_front front back;
        left_Valid = r.rest_Valid;
      }

  receive-packet :
      IsExact read view Valid
      → (x : X) (packet : List ℕ) → IsPacket dumps x packet
      → ((data_ : List ℕ) → dumps x ≡ ok data_ → loads data_ ≡ ok x)
      → (s : S) (more : List ℕ) → Valid s
      → view s ≡ packet ++ more
      → Received (receive loads read s) view Valid x more
  unfolding receive
  receive-packet e x packet p law s more v h =
      let front = header_bytes (length p.payload) in
      let a =
        read_front e s front (p.payload ++ more) v
          (h ∙ ap (λ bs. bs ++ more) p.is_packet ∙ append_assoc front p.payload more) in
      let b = read_front e a.left_over p.payload more a.left_Valid a.left_view in
      record {
        left_over = b.left_over;
        received =
            ap (receive_header loads read) a.received
            ∙ ap
                (λ r.
                  r >>= λ payload_size. receive_payload loads read (read payload_size a.left_over))
                (unpack_header-header_bytes (length p.payload))
            ∙ ap (receive_payload loads read) b.received
            ∙ ap (λ r. lift_pickle r >>= λ payload. ok (payload, b.left_over))
                (law p.payload p.dumped);
        left_view = b.left_view;
        left_Valid = b.left_Valid;
      }

  -- The packet of the first payload, and what is sent after it.
  send_all-cons :
      (x : X) (xs : List X) (bytes : List ℕ)
      → send_all dumps (x ∷ xs) ≡ ok bytes
      → (packet : List ℕ) × (rest : List ℕ) × (pack dumps x ≡ ok packet)
        × (send_all dumps xs ≡ ok rest)
        × (bytes ≡ packet ++ rest)
  unfolding send_all
  send_all-cons x xs bytes h = split (pack dumps x) (send_all dumps xs) refl refl h
    where
      split :
          (p q : Result (WireError E) (List ℕ))
          → pack dumps x ≡ p
          → send_all dumps xs ≡ q
          → (p >>= λ packet. q >>= λ rest. ok (packet ++ rest)) ≡ ok bytes
          → (packet : List ℕ) × (rest : List ℕ) × (pack dumps x ≡ ok packet)
            × (send_all dumps xs ≡ ok rest)
            × (bytes ≡ packet ++ rest)
      split (ok packet) (ok rest) e f g = (packet, rest, e, f, sym (ok-injective g))
      split (ok packet) (err _) e f g = absurd (ground arith)
      split (err _) q e f g = absurd (ground arith)

  -- Payloads that were sent one after the other, each packet written as a whole, are received as they
  -- were, in their order, and the bytes after them are left for later receives; for every way to read
  -- that gives exactly the bytes asked for as long as there are enough, and for every pickle whose
  -- `loads` undoes its `dumps` on these payloads.
  pub receive_all-send_all :
      IsExact read view Valid
      → (xs : List X) (bytes more : List ℕ) (s : S) → send_all dumps xs ≡ ok bytes
      → All (λ x. (data_ : List ℕ) → dumps x ≡ ok data_ → loads data_ ≡ ok x) xs
      → Valid s
      → view s ≡ bytes ++ more
      → Received (receive_all loads read (length xs) s) view Valid xs more
  unfolding send_all receive_all
  receive_all-send_all e [] bytes more s h laws v w = record {
    left_over = s;
    received = refl;
    left_view = w ∙ ap (λ bs. bs ++ more) (sym (ok-injective h));
    left_Valid = v;
  }
  receive_all-send_all e (x ∷ xs) bytes more s h laws v w =
      let (packet, rest, packed, sent, bytes_eq) = send_all-cons x xs bytes h in
      let first =
        receive-packet e x packet (pack-IsPacket dumps x packet packed) laws.0 s (rest ++ more) v
          (w ∙ ap (λ bs. bs ++ more) bytes_eq ∙ append_assoc packet rest more) in
      let later =
        receive_all-send_all e xs rest more first.left_over sent laws.1 first.left_Valid
          first.left_view in
      record {
        left_over = later.left_over;
        received =
            ap (receive_more (λ t. receive_all loads read (length xs) t)) first.received
            ∙ ap (λ r. r >>= λ p. ok (x ∷ p.0, p.1)) later.received;
        left_view = later.left_view;
        left_Valid = later.left_Valid;
      }
