-- ===== src/Tests/Wire.antt =====
-- Witnesses about the bytes of packets and frames.
use mote_broker.Prelude.{ℕ, List, ◌⊎◌, ◌≡◌, refl, true, false, some, [], ◌∷◌, ◌++◌, arith}
use mote_broker.Result.{ok, err, value_error, connection_error}
use mote_broker.Topic.Split.{glue}
use mote_broker.WebSocket.Handshake
use mote_broker.WebSocket.Handshake.{
  get_handshake_response, handshake_of, respond, on_token, digest, response, split_from, split_once,
  has_prefix,
}
use mote_broker.Packet.Header.{remaining_length, get_header_bytes, read_header}
use mote_broker.Packet.Header.RoundTrip.{read_header-get_header_bytes}
use mote_broker.WebSocket.Frame.{Frame, frame_bytes, length_field}
use mote_broker.Protocols.{Bytes}
use mote_broker.Packet.Fields.{Value, read_fields, publish_fields}
use mote_broker.Packet.Fields.Taken.{AreBytes, IsTaken}
use mote_broker.Packet.Fields.Types.{HaveTypes, IsShort, read_fields-HaveTypes}

-- 321 is written in two bytes
length_runs : remaining_length 321 ≡ 193 ∷ 2 ∷ []
unfolding remaining_length
length_runs = refl

read_header-get_header_bytes_example :
    read_header (get_header_bytes 3 1 321 ++ (7 ∷ [])) ≡ ok (3, 1, 321, 7 ∷ [])
read_header-get_header_bytes_example =
    read_header-get_header_bytes 3 1 321 (7 ∷ []) (omega arith) (omega arith) (omega arith)

abbrev hello : Frame
hello = record { opcode = 2; fin = true; masked = false; payload = some (104 ∷ 105 ∷ []) }

hello_runs : frame_bytes hello ≡ 130 ∷ 2 ∷ 104 ∷ 105 ∷ []
unfolding frame_bytes length_field
hello_runs = refl

-- at 65535 bytes the reader takes the first of them for a part of the length
-- a request for an upgrade without a key is not refused: its empty line raises
no_key_runs :
    get_handshake_response
      (λ s. ok [])
      (λ bytes. bytes)
      (λ bytes. "")
      "GET / HTTP/1.1\r\nUpgrade: websocket\r\n\r\n"
    ≡ err value_error
unfolding get_handshake_response handshake_of respond on_token split_from split_once has_prefix
    Handshake.behind glue
no_key_runs = refl

key_runs :
    get_handshake_response
      (λ s. ok [])
      (λ bytes. bytes)
      (λ bytes. "abc")
      "GET / HTTP/1.1\r\nUpgrade: websocket\r\nSec-WebSocket-Key: k\r\n\r\n"
    ≡ ok (some (response (λ s. ok []) (λ bytes. bytes) (λ bytes. "abc") "abc"))
unfolding get_handshake_response handshake_of respond on_token digest split_from split_once
    has_prefix Handshake.behind glue
key_runs = refl

-- the fields of a publish packet of quality 1: the text "a", the id 7 and two bytes
abbrev sent_fields : Bytes
sent_fields = 0 ∷ 1 ∷ 97 ∷ 0 ∷ 7 ∷ 1 ∷ 2 ∷ []

sent_fields-AreBytes : AreBytes sent_fields
sent_fields-AreBytes = (
  omega arith,
  (omega arith, (omega arith, (omega arith, (omega arith, (omega arith, (omega arith, tt)))))),
)

read_fields-HaveTypes_example :
    ((read_fields (λ bytes. "a") (publish_fields 1) 7 sent_fields ≡ err connection_error)
      × IsShort (publish_fields 1) 7 sent_fields)
    ⊎ ((vs : List Value) × (size : ℕ) × (rest : Bytes) × (read_fields
            (λ bytes. "a")
            (publish_fields 1)
            7
            sent_fields
          ≡ ok ((vs, size), rest))
        × HaveTypes (publish_fields 1) vs
        × IsTaken sent_fields rest size)
read_fields-HaveTypes_example =
    read_fields-HaveTypes (λ bytes. "a") (publish_fields 1) 7 sent_fields sent_fields-AreBytes
