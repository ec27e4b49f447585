-- ===== src/Worker/Protocol/Reading.antt =====
-- The three ways to read of aiomisc_worker/protocol.py: a file, a stream and a socket.
use aiomisc.Base.{
  take_positive, take-append_rest, drop-append_rest, length-drop_rest, ℕ, zero, suc, ◌+◌, ◌-◌, ◌≤◌,
  ◌<◌, ◌≡◌, refl, sym, ap, subst, ◌∙◌, Bool, true, false, List, [], ◌∷◌, ◌++◌, arith, leb, nat_beq,
  if◌then◌else◌, le→leb, nat_eq, list_eq, pair_eq, All, length, take, drop, Result, ok, err,
  ok-injective, if_cases,
}
use aiomisc.Worker.Protocol.{
  recv, WireError, connection_error, Reader, read_file, readexactly, push_chunk, after_chunk,
  read_loop, read_socket,
}

-- What the reads of a stream promise, with the bytes to come as its abstract view.
pub record ReadsTo {E S : Type 0} (read : Reader E S) (view : S → List ℕ) (Valid : S → Type 0)
    (size : ℕ) (s : S) : Type 0 where
  pub rest : S
  pub reads : read size s ≡ ok (take size (view s), rest)
  pub rest_view : view rest ≡ drop size (view s)
  pub rest_Valid : Valid rest

pub record IsExact {E S : Type 0} (read : Reader E S) (view : S → List ℕ) (Valid : S → Type 0)
    : Type 0 where
  pub exact : (size : ℕ) (s : S) → Valid s → size ≤ length (view s) → ReadsTo read view Valid size s

abbrev pub same_bytes : List ℕ → List ℕ
same_bytes s = s

pub read_file-IsExact : (E : Type 0) → IsExact {E = E} read_file same_bytes (λ s. Unit)
unfolding read_file
read_file-IsExact E = record {
  exact =
      λ size s v h. record { rest = drop size s; reads = refl; rest_view = refl; rest_Valid = tt };
}

pub readexactly-IsExact : (E : Type 0) → IsExact {E = E} readexactly same_bytes (λ s. Unit)
unfolding readexactly
readexactly-IsExact E = record {
  exact = λ size s v h. record {
    rest = drop size s;
    reads = rw (le→leb size (length s) h) refl;
    rest_view = refl;
    rest_Valid = tt;
  };
}

-- The bytes of all chunks.
abbrev pub joined : List (List ℕ) → List ℕ
joined [] = []
joined (chunk ∷ s) = chunk ++ joined s

abbrev pub NonEmpty : List ℕ → Type 0
NonEmpty chunk = 0 < length chunk

joined-push_chunk : (bs : List ℕ) (s : List (List ℕ)) → joined (push_chunk bs s) ≡ bs ++ joined s
joined-push_chunk [] s = refl
joined-push_chunk (b ∷ bs) s = refl

push_chunk-NonEmpty :
    (bs : List ℕ) (s : List (List ℕ)) → All NonEmpty s → All NonEmpty (push_chunk bs s)
push_chunk-NonEmpty [] s h = h
push_chunk-NonEmpty (b ∷ bs) s h = (omega arith, h)

nat_beq_zero : (n : ℕ) → 0 < n → nat_beq n 0 ≡ false
nat_beq_zero n h = ground arith

leb_zero : (n : ℕ) → leb (suc n) 0 ≡ false
leb_zero n = ground arith

-- What a read gives in bytes, its chunks forgotten.
abbrev pub in_bytes :
    {E : Type 0}
    → Result (WireError E) (List ℕ × List (List ℕ))
    → Result (WireError E) (List ℕ × List ℕ)
in_bytes (ok (bytes, s)) = ok (bytes, joined s)
in_bytes (err e) = err e

-- The bytes that come, or ConnectionError when the peer has closed before.
abbrev pub whole_or_closed : {E : Type 0} → ℕ → List ℕ → Result (WireError E) (List ℕ × List ℕ)
whole_or_closed size bytes =
    if leb size (length bytes) then ok (take size bytes, drop size bytes) else err connection_error

-- One round and those after it, whichever way they end.
after_chunk-in_bytes :
    {E : Type 0} (b : Bool) (chunk front back : List ℕ)
    (r : Result (WireError E) (List ℕ × List (List ℕ)))
    → in_bytes r ≡ (if b then ok (front, back) else err connection_error)
    → in_bytes (after_chunk chunk r)
      ≡ (if b then ok (chunk ++ front, back) else err connection_error)
after_chunk-in_bytes true chunk front back (ok (bytes, t)) h =
    ap (λ (p : List ℕ × List ℕ). ok (chunk ++ p.0, p.1)) (ok-injective h)
after_chunk-in_bytes true chunk front back (err e) h = absurd (ground arith)
after_chunk-in_bytes false chunk front back (ok (bytes, t)) h = absurd (ground arith)
after_chunk-in_bytes false chunk front back (err e) h = h

whole_or_closed-zero :
    {E : Type 0} (bytes : List ℕ) → ok ([], bytes) ≡ whole_or_closed {E = E} 0 bytes
whole_or_closed-zero bytes = rw (le→leb 0 (length bytes) (omega arith)) refl

same_test : (size n k rest : ℕ) → rest + k ≡ n → leb (size - k) rest ≡ leb size n
same_test size n k rest h = ground arith

round-in_bytes :
    {E : Type 0} (size : ℕ) (chunk : List ℕ) (s : List (List ℕ))
    (r : Result (WireError E) (List ℕ × List (List ℕ)))
    → in_bytes r
      ≡ whole_or_closed (size - length (take size chunk)) (joined (push_chunk (drop size chunk) s))
    → in_bytes (after_chunk (take size chunk) r) ≡ whole_or_closed size (chunk ++ joined s)
round-in_bytes size chunk s r h =
    rw
      (
        sym (take-append_rest size chunk (joined s)),
        sym (drop-append_rest size chunk (joined s)),
        sym (
            same_test size (length (chunk ++ joined s)) (length (take size chunk))
              (length (drop size chunk ++ joined s)) (length-drop_rest size chunk (joined s))),
      )
      (after_chunk-in_bytes _ (take size chunk) _ _ r (
        subst (λ (bs : List ℕ). in_bytes r ≡ whole_or_closed (size - length (take size chunk)) bs)
          (joined-push_chunk (drop size chunk) s) h))

module _ {E : Type 0} where
  read_loop-in_bytes :
      (fuel size : ℕ) (s : List (List ℕ))
      → All NonEmpty s
      → size ≤ fuel
      → in_bytes (read_loop {E = E} fuel size s) ≡ whole_or_closed size (joined s)
  unfolding read_loop
  read_loop-in_bytes zero zero s v h = whole_or_closed-zero (joined s)
  read_loop-in_bytes zero (suc size) s v h = absurd (omega arith)
  read_loop-in_bytes (suc fuel) zero s v h = whole_or_closed-zero (joined s)
  read_loop-in_bytes (suc fuel) (suc size) [] v h =
      rw (nat_beq_zero (suc size) (omega arith), leb_zero size) refl
  read_loop-in_bytes (suc fuel) (suc size) (chunk ∷ s) v h =
      let taken = take_positive (suc size) chunk (omega arith) v.0 in
      rw
        (nat_beq_zero (suc size) (omega arith), nat_beq_zero (length (take (suc size) chunk)) taken)
        (round-in_bytes (suc size) chunk s _ (
          read_loop-in_bytes fuel (suc size - length (take (suc size) chunk))
            (push_chunk (drop (suc size) chunk) s)
            (push_chunk-NonEmpty (drop (suc size) chunk) s v.1) (omega (arith, taken))))

  -- The loop of a socket's `_read` ends, and whatever the chunks in which the bytes come (none is
  -- empty), it gives exactly the first `size` bytes and leaves all others for the next read; when the
  -- peer closes before, it raises ConnectionError.
  pub read_socket-in_bytes :
      (size : ℕ) (s : List (List ℕ))
      → All NonEmpty s
      → in_bytes (read_socket {E = E} size s) ≡ whole_or_closed size (joined s)
  unfolding read_socket
  read_socket-in_bytes size s v = read_loop-in_bytes size size s v (omega arith)

-- The chunks that a read leaves.
abbrev LeavesChunks : {E : Type 0} → Result (WireError E) (List ℕ × List (List ℕ)) → Type 0
LeavesChunks (ok (bytes, s)) = All NonEmpty s
LeavesChunks (err e) = Unit

after_chunk-LeavesChunks :
    {E : Type 0} (chunk : List ℕ) (r : Result (WireError E) (List ℕ × List (List ℕ)))
    → LeavesChunks r
    → LeavesChunks (after_chunk chunk r)
after_chunk-LeavesChunks chunk (ok (bytes, s)) h = h
after_chunk-LeavesChunks chunk (err e) h = tt

recv-NonEmpty : (size : ℕ) (s : List (List ℕ)) → All NonEmpty s → All NonEmpty (recv size s).1
recv-NonEmpty size [] v = tt
recv-NonEmpty size (chunk ∷ s) v = push_chunk-NonEmpty (drop size chunk) s v.1

module _ (E : Type 0) where
  read_loop-LeavesChunks :
      (fuel size : ℕ) (s : List (List ℕ))
      → All NonEmpty s
      → LeavesChunks (read_loop {E = E} fuel size s)
  unfolding read_loop
  read_loop-LeavesChunks zero size s v = v
  read_loop-LeavesChunks (suc fuel) size s v =
      if_cases LeavesChunks (nat_beq size 0) (λ _. v)
        (λ _.
          if_cases LeavesChunks (nat_beq (length (recv size s).0) 0) (λ _. tt)
            (λ _. after_chunk-LeavesChunks (recv size s).0 _ (
              read_loop-LeavesChunks fuel (size - length (recv size s).0) (recv size s).1
                (recv-NonEmpty size s v))))

  read_socket-ReadsTo :
      (size : ℕ) (s : List (List ℕ)) (r : Result (WireError E) (List ℕ × List (List ℕ)))
      → read_socket size s ≡ r
      → LeavesChunks r
      → in_bytes r ≡ ok (take size (joined s), drop size (joined s))
      → ReadsTo {E = E} read_socket joined (All NonEmpty) size s
  read_socket-ReadsTo size s (ok (bytes, t)) e v h = record {
    rest = t;
    reads = e ∙ ap (λ bs. ok (bs, t)) (ap (λ (p : List ℕ × List ℕ). p.0) (ok-injective h));
    rest_view = ap (λ (p : List ℕ × List ℕ). p.1) (ok-injective h);
    rest_Valid = v;
  }
  read_socket-ReadsTo size s (err x) e v h = absurd (ground arith)

  pub read_socket-IsExact : IsExact {E = E} read_socket joined (All NonEmpty)
  unfolding read_socket
  read_socket-IsExact = record {
    exact = λ size s v h. read_socket-ReadsTo size s _ refl (read_loop-LeavesChunks size size s v) (
        subst
          (λ b.
            in_bytes (read_socket {E = E} size s)
            ≡ (if b then ok (take size (joined s), drop size (joined s)) else err connection_error))
          (le→leb size (length (joined s)) h) (read_socket-in_bytes size s v));
  }
