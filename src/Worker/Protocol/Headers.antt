-- ===== src/Worker/Protocol/Headers.antt =====
-- The header and the packet of aiomisc_worker/protocol.py.
use aiomisc.Base.{
  ℕ, ◌+◌, ◌*◌, ◌/◌, ◌%◌, ◌≤◌, ◌<◌, ◌≡◌, refl, sym, ap, Bool, true, false, List, [], ◌∷◌, ◌++◌,
  arith, ltb, if◌then◌else◌, ltb→lt, leb_not_ltb, nat_eq, list_eq, pair_eq, All, All-append, length,
  Result, ok, err, ok-injective, ◌>>=◌, ◌⊎◌, inl, inr, Bool-cases,
}
use aiomisc.Worker.Protocol.{WireError, struct_error, pack_header, unpack_header, pack, lift_pickle}

abbrev pub IsByte : ℕ → Type 0
IsByte b = b < 256

abbrev pub header_bytes : ℕ → List ℕ
header_bytes n = n / 16777216 ∷ n / 65536 % 256 ∷ n / 256 % 256 ∷ n % 256 ∷ []

digits :
    (n : ℕ) → n / 16777216 * 16777216 + n / 65536 % 256 * 65536 + n / 256 % 256 * 256 + n % 256 ≡ n
digits n = omega arith

pub unpack_header-header_bytes :
    {E : Type 0} (n : ℕ) → ◌≡◌ {A = Result (WireError E) ℕ} (unpack_header (header_bytes n)) (ok n)
unfolding unpack_header
unpack_header-header_bytes n = ap ok (digits n)

header_bytes-IsByte : (n : ℕ) → n < 4294967296 → All IsByte (header_bytes n)
header_bytes-IsByte n h = (omega arith, (omega arith, (omega arith, (omega arith, tt))))

-- What a packet is, when there is one.
pub record IsPacket {E X : Type 0} (dumps : X → Result E (List ℕ)) (x : X) (packet : List ℕ)
    : Type 0 where
  pub payload : List ℕ
  pub dumped : dumps x ≡ ok payload
  pub fits : length payload < 4294967296
  pub is_packet : packet ≡ header_bytes (length payload) ++ payload

module _ {E X : Type 0} (dumps : X → Result E (List ℕ)) (x : X) where
  pub pack-IsPacket : (packet : List ℕ) → pack dumps x ≡ ok packet → IsPacket dumps x packet
  unfolding pack pack_header
  pack-IsPacket packet h = with_dumps (dumps x) refl h
    where
      framed : List ℕ → Bool → Result (WireError E) (List ℕ)
      framed bs b = (if b then ok (header_bytes (length bs)) else err struct_error) >>= λ header.
          ok (header ++ bs)

      with_length :
          (bs : List ℕ)
          → dumps x ≡ ok bs
          → (b : Bool) → ltb (length bs) 4294967296 ≡ b
          → framed bs b ≡ ok packet
          → IsPacket dumps x packet
      with_length bs e true f g = record {
        payload = bs;
        dumped = e;
        fits = ltb→lt _ _ f;
        is_packet = sym (ok-injective g);
      }
      with_length bs e false f g = absurd (ground arith)

      with_dumps :
          (r : Result E (List ℕ))
          → dumps x ≡ r
          → (lift_pickle r >>= λ data_. framed data_ (ltb (length data_) 4294967296)) ≡ ok packet
          → IsPacket dumps x packet
      with_dumps (ok bs) e g = with_length bs e (ltb (length bs) 4294967296) refl g
      with_dumps (err _) e g = absurd (ground arith)

  -- Data of 2 ^ 32 bytes or more are refused with struct.error.
  pub pack_too_long :
      (data_ : List ℕ)
      → dumps x ≡ ok data_
      → 4294967296 ≤ length data_
      → pack dumps x ≡ err struct_error
  unfolding pack pack_header
  pack_too_long data_ e h = rw (e, leb_not_ltb (length data_) 4294967296 h) refl

  pack_fits :
      (data_ : List ℕ)
      → dumps x ≡ ok data_
      → ltb (length data_) 4294967296 ≡ true
      → pack dumps x ≡ ok (header_bytes (length data_) ++ data_)
  unfolding pack pack_header
  pack_fits data_ e h = rw (e, h) refl

  -- Data of bytes below 256 either have 2 ^ 32 bytes or more, and are refused with struct.error, or
  -- are sent as the header of their length and then the data: a packet four bytes longer than the
  -- data, of bytes below 256, whose header is read back as the length, which has not wrapped around.
  pub pack-AllBytes :
      (data_ : List ℕ)
      → dumps x ≡ ok data_
      → All IsByte data_
      → ((4294967296 ≤ length data_) × (pack dumps x ≡ err struct_error))
        ⊎ ((length data_ < 4294967296)
            × (pack dumps x ≡ ok (header_bytes (length data_) ++ data_))
            × (length (header_bytes (length data_) ++ data_) ≡ length data_ + 4)
            × All IsByte (header_bytes (length data_) ++ data_)
            × (unpack_header {E = E} (header_bytes (length data_)) ≡ ok (length data_)))
  pack-AllBytes data_ e bytes = elim (Bool-cases (ltb (length data_) 4294967296)) [
    | inl short ↦
        let fits = ltb→lt (length data_) 4294967296 short in
        inr (
          fits,
          pack_fits data_ e short,
          omega arith,
          All-append IsByte (header_bytes (length data_)) data_ (header_bytes-IsByte _ fits) bytes,
          unpack_header-header_bytes (length data_),
        )
    | inr long ↦
        let le : 4294967296 ≤ length data_ = ground arith in inl (le, pack_too_long data_ e le)
  ]
