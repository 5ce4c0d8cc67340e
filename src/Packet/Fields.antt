-- ===== src/Packet/Fields.antt =====
-- The fields of packets: packet/types/ and the loops of packet/base_packet.py over them, with the
-- readers of servers/streams.py. `read` is that of servers/websocket/handler.py over
-- the bytes that the frames of a connection bring: it gives just the bytes asked for, and raises ConnectionError
-- where the socket ends before (a close frame, at which it raises too, is in WebSocket/Handler). That of servers/socket.py does so where each `recv` gives what it is asked for,
-- and may give more otherwise (SocketHandler/Bounds). `decode` is what decode_str makes of the bytes of a
-- text, and `encode` is `str.encode`.
pub mod RoundTrip
pub mod Taken
pub mod Types
pub mod Classes
use mote_broker.Prelude.{
  ℕ, zero, suc, ◌+◌, ◌-◌, ◌*◌, ◌/◌, ◌%◌, String, Bool, true, false, ltb, ◌==◌, if◌then◌else◌,
  Option, none, some, List, [], ◌∷◌, ◌++◌, length,
}
use mote_broker.Result.{
  Result, ok, err, Error, connection_error, struct_error, type_error, unknown_packet, ◌>>=◌,
}
use mote_broker.Protocols.{Bytes}
use mote_broker.WebSocket.Frame.{from_bytes}

-- WebsocketHandler.read, over what the frames bring
unfoldable pub read : ℕ → Bytes → Result (Bytes × Bytes)
read zero input = ok ([], input)
read (suc n) [] = err connection_error
read (suc n) (b ∷ input) = read n input >>= λ (got, rest). ok (b ∷ got, rest)

-- the values that fields have
pub data Value : Type 0 where
  int : ℕ → Value
  text : String → Value
  raw : Option Bytes → Value

pub data FieldType : Type 0 where
  static_int : ℕ → FieldType
  packet_id : FieldType
  dynamic_str : FieldType
  dynamic_bytes : FieldType
  remaining_bytes : FieldType

-- struct.pack of "!B" and of "!H"
unfoldable pub pack_b : ℕ → Result Bytes
pack_b v = if ltb v 256 then ok (v ∷ []) else err struct_error

unfoldable pub pack_h : ℕ → Result Bytes
pack_h v = if ltb v 65536 then ok (v / 256 ∷ v % 256 ∷ []) else err struct_error

-- PacketStaticInt.to_bytes
unfoldable pub int_to_bytes : ℕ → ℕ → Result Bytes
unfolding pack_b pack_h
int_to_bytes size v = if size == 1 then pack_b v else if size == 2 then pack_h v else err type_error

-- ReaderWriter.read_int
unfoldable pub read_int : ℕ → Bytes → Result (ℕ × Bytes)
read_int size input = do (got, rest) ← read size input; ok (from_bytes 0 got, rest)

-- ReaderWriter.decode_bytes
unfoldable pub decode_bytes : Bytes → Result ((Bytes × ℕ) × Bytes)
decode_bytes input = do
  (length_bytes, after) ← read 2 input
  (payload, rest) ← read (from_bytes 0 length_bytes) after
  ok ((payload, 2 + from_bytes 0 length_bytes), rest)

module _ (decode : Bytes → String) where
  -- ReaderWriter.decode_str
  unfoldable pub decode_str : Bytes → Result ((String × ℕ) × Bytes)
  decode_str input = do
    (length_bytes, after) ← read 2 input
    (byte_str, rest) ← read (from_bytes 0 length_bytes) after
    (if from_bytes 0 length_bytes == 0
        then ok (("", 2), after)
        else ok ((decode byte_str, from_bytes 0 length_bytes + 2), rest))

  -- packet_type.read, with the length that is left: the value and how many bytes it took
  unfoldable pub read_field : FieldType → ℕ → Bytes → Result ((Value × ℕ) × Bytes)
  unfolding read_int decode_bytes decode_str
  read_field (static_int size) left input = do
    (v, rest) ← read_int size input
    ok ((int v, size), rest)
  read_field packet_id left input = do
    (got, rest) ← read 2 input
    ok ((int (from_bytes 0 got), 2), rest)
  read_field dynamic_str left input = do (s, rest) ← decode_str input; ok ((text s.0, s.1), rest)
  read_field dynamic_bytes left input = do
    (s, rest) ← decode_bytes input
    ok ((raw (some s.0), s.1), rest)
  read_field remaining_bytes left input =
      if ltb left 1
      then ok ((raw none, 0), input)
      else (read left input >>= λ (got, rest). ok ((raw (some got), left), rest))

  -- the loop of Packet.read_payload, over the fields that are enabled
  unfoldable pub read_fields : List FieldType → ℕ → Bytes → Result ((List Value × ℕ) × Bytes)
  unfolding read_field
  read_fields [] left input = ok (([], 0), input)
  read_fields (ty ∷ tys) left input = do
    (v, after) ← read_field ty left input
    (vs, rest) ← read_fields tys (left - v.1) after
    ok ((v.0 ∷ vs.0, v.1 + vs.1), rest)

module _ (encode : String → Bytes) where
  -- packet_type.to_bytes; dynamic_bytes has none of its own
  unfoldable pub field_to_bytes : FieldType → Value → Result Bytes
  unfolding int_to_bytes pack_h
  field_to_bytes (static_int size) (int v) = int_to_bytes size v
  field_to_bytes packet_id (int v) = int_to_bytes 2 v
  field_to_bytes dynamic_str (text s) = pack_h (length (encode s)) >>= λ size. ok (size ++ encode s)
  field_to_bytes remaining_bytes (raw none) = ok []
  field_to_bytes remaining_bytes (raw (some bytes)) = ok bytes
  field_to_bytes _ _ = err type_error

  -- the loop of Packet.to_bytes, over the fields that are enabled
  unfoldable pub fields_to_bytes : List FieldType → List Value → Result Bytes
  unfolding field_to_bytes
  fields_to_bytes [] [] = ok []
  fields_to_bytes (ty ∷ tys) (v ∷ vs) = do
    b ← field_to_bytes ty v
    bytes ← fields_to_bytes tys vs
    ok (b ++ bytes)
  fields_to_bytes _ _ = err type_error

-- The classes of packet/packets.py.
pub data PacketClass : Type 0 where
  connect : PacketClass
  connack : PacketClass
  publish : PacketClass
  puback : PacketClass
  pubrec : PacketClass
  pubrel : PacketClass
  pubcomp : PacketClass
  subscribe : PacketClass
  suback : PacketClass
  unsubscribe : PacketClass
  unsuback : PacketClass
  pingreq : PacketClass
  pingresp : PacketClass
  auth : PacketClass

unfoldable pub type_code : PacketClass → ℕ
type_code connect = 0x01
type_code connack = 0x02
type_code publish = 0x03
type_code puback = 0x04
type_code pubrec = 0x05
type_code pubrel = 0x06
type_code pubcomp = 0x07
type_code subscribe = 0x08
type_code suback = 0x09
type_code unsubscribe = 0x0A
type_code unsuback = 0x0B
type_code pingreq = 0x0C
type_code pingresp = 0x0D
type_code auth = 0x0F

abbrev pub all_packets : List PacketClass
all_packets =
    connect ∷ connack ∷ publish ∷ puback ∷ pubrec ∷ pubrel ∷ pubcomp ∷ subscribe ∷ suback
    ∷ unsubscribe ∷ unsuback ∷ pingreq ∷ pingresp ∷ auth ∷ []

-- the loop of infer_packet_class
unfoldable pub infer_from : List PacketClass → ℕ → Result PacketClass
unfolding type_code
infer_from [] packet_type = err unknown_packet
infer_from (c ∷ cs) packet_type =
    let rest = infer_from cs packet_type in if type_code c == packet_type then ok c else rest

unfoldable pub infer_packet_class : ℕ → Result PacketClass
unfolding infer_from
infer_packet_class packet_type = infer_from all_packets packet_type

-- The fields of PublishPacket that are enabled at a quality of service.
unfoldable pub publish_fields : ℕ → List FieldType
publish_fields qos =
    if ltb 0 qos
    then dynamic_str ∷ packet_id ∷ remaining_bytes ∷ []
    else dynamic_str ∷ remaining_bytes ∷ []
