-- ===== src/Packet/Header/RoundTrip.antt =====
-- What is read back of a header that was written.
use Prim.Native.Nat.{bit_and}
use mote_broker.Prelude.{
  ℕ, zero, suc, ◌+◌, ◌*◌, ◌/◌, ◌%◌, ◌^◌, ◌≤◌, ◌<◌, ◌≡◌, ◌∙◌, ap, true, ltb, if◌then◌else◌, [], ◌∷◌,
  ◌++◌, arith, Bool-cases, inl, inr,
}
use mote_broker.Prelude.Bits.{
  bit_and-0x7f, bit_and-0x80, bit_or-0x80, bit_and-0x0f, bit_and-0xf0, bit_or-halves,
}
use mote_broker.Result.{ok, err, io_error}
use mote_broker.Protocols.{Bytes}
use mote_broker.Packet.Header.{
  length_bytes, remaining_length, get_header_bytes, read_header, decode_length_loop,
  decode_packet_length,
}

-- A last byte, and a byte with more behind it.
last_byte :
    (b m v : ℕ) (rest : Bytes) → b < 128 → decode_length_loop (b ∷ rest) m v ≡ ok (v + b * m, rest)
unfolding decode_length_loop
last_byte b m v rest h = ground (arith, bit_and-0x7f b, bit_and-0x80 b)

inner_byte :
    (b m v : ℕ) (rest : Bytes)
    → b < 128
    → m ≤ 128 * 128
    → decode_length_loop ((b + 128) ∷ rest) m v ≡ decode_length_loop rest (m * 128) (v + b * m)
unfolding decode_length_loop
inner_byte b m v rest h k = ground (arith, bit_and-0x7f (b + 128), bit_and-0x80 (b + 128))

fifth_byte :
    (b v : ℕ) (rest : Bytes)
    → b < 128
    → decode_length_loop ((b + 128) ∷ rest) (128 * 128 * 128) v ≡ err io_error
unfolding decode_length_loop
fifth_byte b v rest h = ground (arith, bit_and-0x80 (b + 128))

-- One round of the writer.
short_length : (f n : ℕ) → n < 128 → length_bytes (suc f) n ≡ n ∷ []
unfolding length_bytes
short_length f n h = ground arith

long_length :
    (f n : ℕ) → 128 ≤ n → length_bytes (suc f) n ≡ (n % 128 + 128) ∷ length_bytes f (n / 128)
unfolding length_bytes
long_length f n h = ground (arith, bit_or-0x80 (n % 128))

-- The number of rounds that are allowed does not matter, if there are enough.
length_bytes-fuel : (f g n : ℕ) → n < f → n < g → length_bytes f n ≡ length_bytes g n
length_bytes-fuel zero g n h k = absurd (omega arith)
length_bytes-fuel (suc f) zero n h k = absurd (omega arith)
length_bytes-fuel (suc f) (suc g) n h k = elim (Bool-cases (ltb n 128)) [
  | inl short ↦ rw (short_length f n (ground arith), short_length g n (ground arith))
  | inr long ↦
      rw (long_length f n (ground arith), long_length g n (ground arith))
        (ap (λ l. (n % 128 + 128) ∷ l)
          (length_bytes-fuel f g (n / 128) (ground arith) (ground arith)))
]

split_digit : (n m v : ℕ) → v + n % 128 * m + n / 128 * (m * 128) ≡ v + n * m
split_digit n m v =
    let e : n ≡ n / 128 * 128 + n % 128 = omega arith in omega (arith, ap (λ (t : ℕ). t * m) e)

module _ (rest : Bytes) where
  -- The bytes of a number are read at a multiplier.
  abbrev Reads : ℕ → ℕ → ℕ → Type 0
  Reads f n m = (v : ℕ) → decode_length_loop (length_bytes f n ++ rest) m v ≡ ok (v + n * m, rest)

  last_round : (f n m : ℕ) → n < 128 → Reads (suc f) n m
  last_round f n m h v = rw (short_length f n h) (last_byte n m v rest h)

  next_round : (f n m : ℕ) → m ≤ 128 * 128 → Reads f (n / 128) (m * 128) → Reads (suc f) n m
  next_round f n m h r v = elim (Bool-cases (ltb n 128)) [
    | inl short ↦ last_round f n m (ground arith) v
    | inr long ↦ rw (long_length f n (ground arith)) (
        inner_byte (n % 128) m v (length_bytes f (n / 128) ++ rest) (omega arith) h
        ∙ r (v + n % 128 * m)
        ∙ ap (λ t. ok (t, rest)) (split_digit n m v))
  ]

  four_rounds : (f n : ℕ) → n < 128 ^ 4 → Reads (suc (suc (suc (suc f)))) n 1
  four_rounds f n h = next_round _ n 1 (omega arith) (
      next_round _ (n / 128) 128 (omega arith) (
        next_round _ (n / 128 / 128) (128 * 128) (omega arith)
          (last_round f (n / 128 / 128 / 128) (128 * 128 * 128) (omega arith))))

  more_rounds :
      (f n : ℕ)
      → 128 ^ 4 ≤ n
      → decode_length_loop (length_bytes (suc (suc (suc (suc (suc f))))) n ++ rest) 1 0
        ≡ err io_error
  more_rounds f n h =
      rw
        (
          long_length _ n (omega arith),
          long_length _ (n / 128) (omega arith),
          long_length _ (n / 128 / 128) (omega arith),
          long_length _ (n / 128 / 128 / 128) (omega arith),
        )
        (inner_byte (n % 128) 1 0 _ (omega arith) (omega arith)
          ∙ inner_byte (n / 128 % 128) 128 _ _ (omega arith) (omega arith)
          ∙ inner_byte (n / 128 / 128 % 128) (128 * 128) _ _ (omega arith) (omega arith)
          ∙ fifth_byte (n / 128 / 128 / 128 % 128) _ _ (omega arith))

-- A length below 128 ^ 4 is read back as it was written, and what follows is left; a longer one is
-- refused.
decode-remaining_length :
    (n : ℕ) (rest : Bytes)
    → decode_packet_length (remaining_length n ++ rest)
      ≡ (if ltb n (128 ^ 4) then ok (n, rest) else err io_error)
unfolding decode_packet_length remaining_length
decode-remaining_length n rest =
    rw (length_bytes-fuel (suc n) (suc (suc (suc (suc (suc n))))) n (omega arith) (omega arith))
      (elim (Bool-cases (ltb n (128 ^ 4))) [
        | inl fits ↦
            rw fits
              (four_rounds rest (suc n) n (ground arith) 0 ∙ ap (λ t. ok (t, rest)) (omega arith))
        | inr long ↦ rw long (more_rounds rest n n (ground arith))
      ])

-- A header that was written for a length below 128 ^ 4 is read back: the type, the flags, the length
-- and what follows.
pub read_header-get_header_bytes :
    (type_code flags length : ℕ) (rest : Bytes)
    → type_code < 16
    → flags < 16
    → length < 128 ^ 4
    → read_header (get_header_bytes type_code flags length ++ rest)
      ≡ ok (type_code, flags, length, rest)
unfolding get_header_bytes read_header
read_header-get_header_bytes type_code flags length rest t f n =
    let small : ltb length (128 ^ 4) ≡ true = ground arith in
    let hi : bit_and (type_code * 16 + flags) 0xf0 / 2 ^ 4 ≡ type_code =
      omega (arith, bit_and-0xf0 (type_code * 16 + flags) (omega arith)) in
    let lo : bit_and (type_code * 16 + flags) 0x0f ≡ flags =
      omega (arith, bit_and-0x0f (type_code * 16 + flags) (omega arith)) in
    rw (bit_or-halves type_code flags t f, hi, lo, decode-remaining_length length rest, small)
