-- ===== src/WebSocket/Frame.antt =====
-- servers/websocket/frame.py. A socket is the list of what it delivers, in pieces that arrive together:
-- an answer of `recv` is of one piece, and shorter than what is asked for where the piece is. Frame.recv asks
-- once for each part of a frame, whatever the answers are.
pub mod RoundTrip
use Prim.Native.Nat.{bit_and, bit_xor}
use mote_broker.Prelude.{
  ℕ, zero, suc, ◌+◌, ◌*◌, ◌/◌, ◌%◌, ◌^◌, Bool, true, false, ltb, ◌==◌, if◌then◌else◌, Option, none,
  some, List, [], ◌∷◌, ◌++◌, length, get_elem?,
}
use mote_broker.Result.{Result, ok, err, connection_error, index_error, ◌>>=◌}
use mote_broker.Protocols.{Bytes}

abbrev pub op_continuation : ℕ
op_continuation = 0

abbrev pub op_text : ℕ
op_text = 1

abbrev pub op_bytes : ℕ
op_bytes = 2

abbrev pub op_close : ℕ
op_close = 8

abbrev pub op_ping : ℕ
op_ping = 9

abbrev pub op_pong : ℕ
op_pong = 10

pub record Frame : Type 0 where
  pub opcode : ℕ
  pub fin : Bool
  pub masked : Bool
  pub payload : Option Bytes

abbrev pub bit_of : Bool → ℕ
bit_of true = 1
bit_of false = 0

abbrev pub payload_or_empty : Option Bytes → Bytes
payload_or_empty none = []
payload_or_empty (some p) = p

-- (n >> (i * 8)) & 255, for i from k - 1 down to 0
unfoldable pub big_endian : ℕ → ℕ → Bytes
big_endian zero n = []
big_endian (suc i) n = bit_and (n / 2 ^ (i * 8)) 255 ∷ big_endian i n

-- The bytes that tell the length of the payload; seven of them for a long one.
unfoldable pub length_field : ℕ → Bytes
unfolding big_endian
length_field payload_len =
    if ltb payload_len 126
    then bit_xor (0 * 2 ^ 7) payload_len ∷ []
    else if ltb payload_len 65535
    then bit_xor (0 * 2 ^ 7) 126 ∷ big_endian 2 payload_len
    else bit_xor (0 * 2 ^ 7) 127 ∷ big_endian 7 payload_len

-- Frame.bytes, of a frame that was not encoded before
unfoldable pub frame_bytes : Frame → Bytes
frame_bytes f =
    bit_xor (bit_of f.fin * 2 ^ 7) f.opcode
    ∷ (length_field (length (payload_or_empty f.payload)) ++ payload_or_empty f.payload)

-- the first `n` bytes, and those behind them: buffer.read(n) of a BytesIO
unfoldable pub first_bytes : ℕ → Bytes → Bytes × Bytes
first_bytes zero input = ([], input)
first_bytes (suc n) [] = ([], [])
first_bytes (suc n) (b ∷ input) = let (got, rest) = first_bytes n input in (b ∷ got, rest)

abbrev pub is_nil : Bytes → Bool
is_nil [] = true
is_nil (b ∷ bytes) = false

-- Bytes that have arrived together, before those that come later.
abbrev pub arrived : Bytes → List Bytes → List Bytes
arrived bytes later = if is_nil bytes then later else bytes ∷ later

-- sock.recv(n): at most `n` bytes of those that have arrived together
unfoldable pub recv : ℕ → List Bytes → Bytes × List Bytes
unfolding first_bytes
recv n [] = ([], [])
recv n (packet ∷ stream) = let (got, rest) = first_bytes n packet in (got, arrived rest stream)

-- int.from_bytes(data, 'big')
unfoldable pub from_bytes : ℕ → Bytes → ℕ
from_bytes acc [] = acc
from_bytes acc (b ∷ bytes) = from_bytes (acc * 256 + b) bytes

-- data[i] ^ key[i % 4] for each i from here on
unmask_from : ℕ → Bytes → Bytes → Result Bytes
unmask_from i key [] = ok []
unmask_from i key (b ∷ bytes) =
    (elim (get_elem? key (i % 4)) [ none ↦ err index_error | some k ↦ ok (bit_xor b k) ]) >>= λ c.
    unmask_from (i + 1) key bytes >>= λ rest. ok (c ∷ rest)

unfoldable pub unmask : Bytes → Bytes → Result Bytes
unfolding unmask_from
unmask key bytes = unmask_from 0 key bytes

-- `except IndexError`: a ConnectionError instead
caught : Result Bytes → Result Bytes
caught (ok payload) = ok payload
caught (err e) = err connection_error

-- the extended length, if there is one
unfoldable pub read_length : ℕ → List Bytes → ℕ × List Bytes
unfolding recv from_bytes
read_length len input =
    if len == 126
    then (let (got, rest) = recv 2 input in (from_bytes 0 got, rest))
    else if len == 127
    then (let (got, rest) = recv 8 input in (from_bytes 0 got, rest))
    else (len, input)

-- the payload, behind its length
unfoldable pub read_payload : Bool → ℕ × List Bytes → Result (Bytes × List Bytes)
unfolding first_bytes recv unmask caught
read_payload masked (payload_len, input) =
    if payload_len == 0
    then ok ([], if masked then (recv 4 input).1 else input)
    else if masked
    then (let (got, rest) = recv (payload_len + 4) input in
        let (key, covered) = first_bytes 4 got in
        caught (unmask key covered) >>= λ payload. ok (payload, rest))
    else ok (recv payload_len input)

-- the frame behind its first two bytes; fewer than two are an IndexError, which is turned into a
-- ConnectionError
unfoldable pub with_header : Bytes × List Bytes → Result (Frame × List Bytes)
with_header (b0 ∷ b1 ∷ more, input) =
    let masked = bit_and b1 128 == 128 in
    read_payload masked (read_length (bit_and b1 127) input) >>= λ (payload, rest). ok (
      record {
        opcode = bit_and b0 15;
        fin = bit_and b0 128 == 128;
        masked = masked;
        payload = some payload;
      },
      rest,
    )
with_header (bytes, input) = err connection_error

-- Frame.recv
unfoldable pub recv_frame : List Bytes → Result (Frame × List Bytes)
unfolding recv with_header
recv_frame input = with_header (recv 2 input)
