-- ===== src/WebSocket/Frame/RoundTrip.antt =====
-- A frame that was written is read back, up to the length at which the writer and the reader part.
use Prim.Native.Nat.{bit_and, bit_xor}
use mote_broker.Prelude.{
  ℕ, ◌+◌, ◌*◌, ◌/◌, ◌^◌, ◌<◌, ◌≡◌, refl, ap, Bool, true, false, ltb, ◌==◌, if◌then◌else◌, Option,
  none, some, suc, List, [], ◌∷◌, ◌++◌, length, append_assoc, arith, Bool-cases, inl, inr,
}
use mote_broker.Prelude.Bits.{equal_below, equal_below→eq}
use mote_broker.Prelude.Masks.{bit_and-255}
use mote_broker.Result.{ok}
use mote_broker.Protocols.{Bytes}
use mote_broker.WebSocket.Frame.{
  Frame, bit_of, big_endian, length_field, frame_bytes, first_bytes, recv, arrived, with_header,
  from_bytes, read_length, read_payload, recv_frame,
}

lt→ltb : (a b : ℕ) → a < b → ltb a b ≡ true
lt→ltb a b h = ground arith

first_bytes-append :
    (bytes rest : Bytes) → first_bytes (length bytes) (bytes ++ rest) ≡ (bytes, rest)
unfolding first_bytes
first_bytes-append [] rest = refl
first_bytes-append (b ∷ bytes) rest = ap (λ r. (b ∷ r.0, r.1)) (first_bytes-append bytes rest)

fin_bits : (o : ℕ) → o < 16 → bit_and (bit_xor 128 o) 128 ≡ 128
unfolding equal_below
fin_bits = equal_below→eq _ _ 16 refl

no_fin_bits : (o : ℕ) → o < 16 → bit_and (bit_xor 0 o) 128 ≡ 0
unfolding equal_below
no_fin_bits = equal_below→eq _ _ 16 refl

fin_opcode : (o : ℕ) → o < 16 → bit_and (bit_xor 128 o) 15 ≡ o
unfolding equal_below
fin_opcode = equal_below→eq _ _ 16 refl

no_fin_opcode : (o : ℕ) → o < 16 → bit_and (bit_xor 0 o) 15 ≡ o
unfolding equal_below
no_fin_opcode = equal_below→eq _ _ 16 refl

-- The first byte of a frame gives back its opcode and its last bit.
first_byte :
    (fin : Bool) (opcode : ℕ)
    → opcode < 16
    → (bit_and (bit_xor (bit_of fin * 2 ^ 7) opcode) 15 ≡ opcode)
      × ((bit_and (bit_xor (bit_of fin * 2 ^ 7) opcode) 128 == 128) ≡ fin)
first_byte true opcode h = (fin_opcode opcode h, rw (fin_bits opcode h))
first_byte false opcode h = (no_fin_opcode opcode h, rw (no_fin_bits opcode h))

second_low : (n : ℕ) → n < 128 → bit_and (bit_xor 0 n) 127 ≡ n
unfolding equal_below
second_low = equal_below→eq _ _ 128 refl

second_high : (n : ℕ) → n < 128 → bit_and (bit_xor 0 n) 128 ≡ 0
unfolding equal_below
second_high = equal_below→eq _ _ 128 refl

two_bytes :
    (n : ℕ) → n < 65535 → (0 * 256 + bit_and (n / 2 ^ 8) 255) * 256 + bit_and (n / 2 ^ 0) 255 ≡ n
two_bytes n h = omega (arith, bit_and-255 (n / 2 ^ 8), bit_and-255 (n / 2 ^ 0))

-- the number of seven bytes, and the eighth byte that is read with them
seven_bytes : (n b : ℕ) → n < 2 ^ 56 → from_bytes 0 (big_endian 7 n ++ (b ∷ [])) ≡ n * 256 + b
unfolding from_bytes big_endian
seven_bytes n b h = omega (
  arith,
  bit_and-255 (n / 2 ^ 48),
  bit_and-255 (n / 2 ^ 40),
  bit_and-255 (n / 2 ^ 32),
  bit_and-255 (n / 2 ^ 24),
  bit_and-255 (n / 2 ^ 16),
  bit_and-255 (n / 2 ^ 8),
  bit_and-255 (n / 2 ^ 0),
)

-- What the reader takes for the length, and what it goes on with, behind the second byte.
abbrev behind : Bytes → Option (ℕ × List Bytes)
behind [] = none
behind (b ∷ input) = some (read_length (bit_and b 127) (arrived input []))

-- The length of a payload below 65535 is read as it was written. From there on it is written in seven
-- bytes and read in eight: the reader takes the first byte of what follows for the lowest byte of the
-- length.
read_length-length_field :
    (n b : ℕ) (rest : Bytes)
    → n < 2 ^ 56
    → behind (length_field n ++ (b ∷ rest)) ≡ (
        if ltb n 65535
        then some (n, arrived (b ∷ rest) [])
        else some (n * 256 + b, arrived rest []))
unfolding length_field read_length big_endian
read_length-length_field n b rest h = elim (Bool-cases (ltb n 126)) [
  | inl small ↦ rw (small, second_low n (ground arith)) (ground arith)
  | inr large ↦ elim (Bool-cases (ltb n 65535)) [
    | inl medium ↦
        rw (large, medium) (ap (λ t. some (t, arrived (b ∷ rest) [])) (two_bytes n (ground arith)))
    | inr long ↦ rw (large, long) (ap (λ t. some (t, arrived rest [])) (seven_bytes n b h))
  ]
]

-- The field of a length below 65535: its first byte, and what the reader makes of it.
short_field :
    (n : ℕ)
    → n < 65535
    → (b : ℕ) × (more : Bytes) × (length_field n ≡ b ∷ more)
      × ((bit_and b 128 == 128) ≡ false)
      × ((rest : Bytes) (later : List Bytes)
          → read_length (bit_and b 127) (arrived (more ++ rest) later) ≡ (n, arrived rest later))
unfolding length_field read_length
short_field n h = elim (Bool-cases (ltb n 126)) [
  | inl small ↦ (
    bit_xor 0 n,
    [],
    rw small,
    rw (second_high n (ground arith)),
    λ rest later. rw (second_low n (ground arith)) (ground arith),
  )
  | inr large ↦ (
    126,
    big_endian 2 n,
    rw (large, lt→ltb n 65535 h),
    refl,
    λ rest later. unfold big_endian in ap (λ t. (t, arrived rest later)) (two_bytes n h),
  )
]

recv-arrived :
    (b : ℕ) (bytes rest : Bytes) (later : List Bytes)
    → recv (suc (length bytes)) (arrived ((b ∷ bytes) ++ rest) later)
      ≡ (b ∷ bytes, arrived rest later)
unfolding recv
recv-arrived b bytes rest later =
    ap (λ r. (r.0, arrived r.1 later)) (first_bytes-append (b ∷ bytes) rest)

read_payload-plain :
    (payload rest : Bytes) (later : List Bytes)
    → read_payload false (length payload, arrived (payload ++ rest) later)
      ≡ ok (payload, arrived rest later)
unfolding read_payload
read_payload-plain [] rest later = refl
read_payload-plain (b ∷ payload) rest later =
    rw (no_zero (length payload)) (ap ok (recv-arrived b payload rest later))
  where
    no_zero : (n : ℕ) → (suc n == 0) ≡ false
    no_zero n = ground arith

-- A payload below 65535 bytes: where all bytes of an unmasked frame have arrived together, with some that
-- follow or none, Frame.recv gives back its opcode, last bit and payload, and leaves what follows it.
pub recv_frame-frame_bytes :
    (opcode : ℕ) (fin : Bool) (payload rest : Bytes) (later : List Bytes)
    → opcode < 16
    → length payload < 65535
    → let f : Frame = record {
      opcode = opcode;
      fin = fin;
      masked = false;
      payload = some payload;
    } in
      recv_frame (arrived (frame_bytes f ++ rest) later) ≡ ok (f, arrived rest later)
unfolding recv_frame frame_bytes recv first_bytes with_header
recv_frame-frame_bytes opcode fin payload rest later h k =
    let (b, more, field, plain, len) = short_field (length payload) k in
    let (op, last) = first_byte fin opcode h in
    rw (append_assoc, field) (rw (plain, last, op, len, read_payload-plain))
