-- ===== src/Worker/Protocol.antt =====
-- aiomisc_worker/protocol.py: packets are a header with the size of the data, and the data. A byte is
-- its number. pickle's `dumps` and `loads` are parameters, with any exceptions they raise. A socket
-- delivers chunks: `recv` gives what has come of one chunk, and no bytes when the peer has closed.
pub mod Headers
pub mod Reading
pub mod RoundTrip
use aiomisc.Base.{
  ℕ, zero, suc, ◌+◌, ◌-◌, ◌*◌, ◌/◌, ◌%◌, not, List, [], ◌∷◌, ◌++◌, ltb, leb, nat_beq, if◌then◌else◌,
  nat_eq, list_eq, pair_eq, length, take, drop, Result, ok, err, ◌>>=◌, ◌>>◌,
}

-- What a packet can fail with; `pickle_error` is an exception of pickle's.
pub data WireError (E : Type 0) : Type 0 where
  pickle_error : E → WireError E
  struct_error connection_error incomplete_read_error : WireError E

abbrev pub header_size : ℕ
header_size = 4

-- `PACKET_HEADER.pack`: four bytes, the highest first; it raises on what does not fit.
unfoldable pub pack_header : {E : Type 0} → ℕ → Result (WireError E) (List ℕ)
pack_header n =
    if ltb n 4294967296
    then ok (n / 16777216 ∷ n / 65536 % 256 ∷ n / 256 % 256 ∷ n % 256 ∷ [])
    else err struct_error

-- `PACKET_HEADER.unpack`, which takes exactly four bytes.
unfoldable pub unpack_header : {E : Type 0} → List ℕ → Result (WireError E) ℕ
unpack_header (a ∷ b ∷ c ∷ d ∷ []) = ok (a * 16777216 + b * 65536 + c * 256 + d)
unpack_header _ = err struct_error

-- A reader: what `_read` gives of a stream, with the stream that is left.
abbrev pub Reader : Type 0 → Type 0 → Type 0
Reader E S = ℕ → S → Result (WireError E) (List ℕ × S)

abbrev pub lift_pickle : {E A : Type 0} → Result E A → Result (WireError E) A
lift_pickle (ok a) = ok a
lift_pickle (err e) = err (pickle_error e)

module _ {E X : Type 0} (dumps : X → Result E (List ℕ)) where
  unfoldable pub pack : X → Result (WireError E) (List ℕ)
  pack payload = lift_pickle (dumps payload) >>= λ data_.
      pack_header (length data_) >>= λ header. ok (header ++ data_)

module _ {E X S : Type 0} (loads : List ℕ → Result E X) (read : Reader E S) where
  abbrev pub receive_payload : Result (WireError E) (List ℕ × S) → Result (WireError E) (X × S)
  receive_payload (err e) = err e
  receive_payload (ok (payload_bytes, s)) =
      lift_pickle (loads payload_bytes) >>= λ payload. ok (payload, s)

  abbrev pub receive_header : Result (WireError E) (List ℕ × S) → Result (WireError E) (X × S)
  receive_header (err e) = err e
  receive_header (ok (header, s)) =
      unpack_header header >>= λ payload_size. receive_payload (read payload_size s)

  unfoldable pub receive : S → Result (WireError E) (X × S)
  receive s = receive_header (read header_size s)

-- `FileIOProtocol._read`: a file gives fewer bytes at its end.
unfoldable pub read_file : {E : Type 0} → Reader E (List ℕ)
read_file size s = ok (take size s, drop size s)

-- `StreamReader.readexactly`, which AsyncProtocol reads with.
unfoldable pub readexactly : {E : Type 0} → Reader E (List ℕ)
readexactly size s =
    if leb size (length s) then ok (take size s, drop size s) else err incomplete_read_error

abbrev pub push_chunk : List ℕ → List (List ℕ) → List (List ℕ)
push_chunk [] s = s
push_chunk (b ∷ bs) s = (b ∷ bs) ∷ s

-- `sock.recv(size)`
abbrev pub recv : ℕ → List (List ℕ) → List ℕ × List (List ℕ)
recv size [] = ([], [])
recv size (chunk ∷ s) = (take size chunk, push_chunk (drop size chunk) s)

abbrev pub after_chunk :
    {E : Type 0}
    → List ℕ
    → Result (WireError E) (List ℕ × List (List ℕ))
    → Result (WireError E) (List ℕ × List (List ℕ))
after_chunk chunk (ok (bytes, s)) = ok (chunk ++ bytes, s)
after_chunk chunk (err e) = err e

-- The loop of `SocketIOProtocol._read`, with `size` the bytes that are still missing; every round
-- reads one byte at least, or raises.
unfoldable pub read_loop :
    {E : Type 0} → ℕ → ℕ → List (List ℕ) → Result (WireError E) (List ℕ × List (List ℕ))
read_loop zero size s = ok ([], s)
read_loop (suc fuel) size s =
    let chunk = (recv size s).0 in
    let rest = after_chunk chunk (read_loop fuel (size - length chunk) (recv size s).1) in
    if nat_beq size 0
    then ok ([], s)
    else if nat_beq (length chunk) 0
    then err connection_error
    else rest

unfoldable pub read_socket : {E : Type 0} → Reader E (List (List ℕ))
read_socket size s = read_loop size size s

-- `sock.send(data)` takes over the first `sent` bytes, and `_write` does not look at how many.
unfoldable pub write_socket : ℕ → List ℕ → List ℕ → List ℕ
write_socket sent data_ wire = wire ++ take sent data_

-- Several sends, one after the other, each written as a whole.
unfoldable pub send_all :
    {E X : Type 0} → (X → Result E (List ℕ)) → List X → Result (WireError E) (List ℕ)
send_all dumps [] = ok []
send_all dumps (x ∷ xs) =
    pack dumps x >>= λ packet. send_all dumps xs >>= λ rest. ok (packet ++ rest)

-- As many receives.
abbrev pub receive_more :
    {E X S : Type 0}
    → (S → Result (WireError E) (List X × S))
    → Result (WireError E) (X × S)
    → Result (WireError E) (List X × S)
receive_more next (err e) = err e
receive_more next (ok (x, s)) = next s >>= λ r. ok (x ∷ r.0, r.1)

unfoldable pub receive_all :
    {E X S : Type 0}
    → (List ℕ → Result E X)
    → Reader E S
    → ℕ
    → S
    → Result (WireError E) (List X × S)
receive_all loads read zero s = ok ([], s)
receive_all loads read (suc n) s =
    receive_more (λ t. receive_all loads read n t) (receive loads read s)
