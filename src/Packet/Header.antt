-- ===== src/Packet/Header.antt =====
-- The fixed header of a packet: Packet.get_header_bytes of packet/base_packet.py writes it, and
-- decode_header and decode_packet_length of servers/streams.py read it. What `handler.read` has yet to
-- deliver is a list of bytes, at whose end it raises ConnectionError.
pub mod RoundTrip
use Prim.Native.Nat.{bit_and, bit_or}
use mote_broker.Prelude.{
  ℕ, zero, suc, ◌+◌, ◌*◌, ◌/◌, ◌%◌, ◌^◌, Bool, ltb, ◌==◌, if◌then◌else◌, List, [], ◌∷◌,
}
use mote_broker.Result.{Result, ok, err, connection_error, io_error, ◌>>=◌}
use mote_broker.Protocols.{Bytes}

-- The loop over the length, on fuel: each round divides the length by 128 (`remaining_length`).
unfoldable pub length_bytes : ℕ → ℕ → Bytes
length_bytes zero length = []
length_bytes (suc fuel) length =
    let more = bit_or (length % 0x80) 0x80 ∷ length_bytes fuel (length / 0x80) in
    if ltb 0 (length / 0x80) then more else length % 0x80 ∷ []

unfoldable pub remaining_length : ℕ → Bytes
unfolding length_bytes
remaining_length length = length_bytes (suc length) length

unfoldable pub get_header_bytes : ℕ → ℕ → ℕ → Bytes
unfolding remaining_length
get_header_bytes type_code flags length = bit_or (type_code * 2 ^ 4) flags ∷ remaining_length length

unfoldable pub decode_header : Bytes → Result ((ℕ × ℕ) × Bytes)
decode_header [] = err connection_error
decode_header (b ∷ rest) = ok ((bit_and b 0xf0 / 2 ^ 4, bit_and b 0x0f), rest)

-- The loop of decode_packet_length, with its two running numbers.
unfoldable pub decode_length_loop : Bytes → ℕ → ℕ → Result (ℕ × Bytes)
decode_length_loop [] multiplier value = err connection_error
decode_length_loop (b ∷ rest) multiplier value =
    let value' = value + bit_and b 0x7f * multiplier in
    let more = decode_length_loop rest (multiplier * 128) value' in
    if bit_and b 0x80 == 0
    then ok (value', rest)
    else if ltb (128 * 128 * 128) (multiplier * 128)
    then err io_error
    else more

unfoldable pub decode_packet_length : Bytes → Result (ℕ × Bytes)
unfolding decode_length_loop
decode_packet_length input = decode_length_loop input 1 0

-- What Handler.read_next_packet and Packet.read take of a packet before its payload.
unfoldable pub read_header : Bytes → Result (ℕ × ℕ × ℕ × Bytes)
unfolding decode_header decode_packet_length
read_header input = do
  (fields, after) ← decode_header input
  (length, payload) ← decode_packet_length after
  ok (fields.0, fields.1, length, payload)
