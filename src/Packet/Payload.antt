-- ===== src/Packet/Payload.antt =====
-- Whole payloads: packet/types/dynamic_list.py, and the fields of the classes of packets. A class has
-- scalar fields and at most one list, which is its last field. A list holds values of one type, or
-- objects of several fields (`Payload` of packet/payload.py).
pub mod RoundTrip
use mote_broker.Prelude.{
  ℕ, zero, suc, ◌+◌, ◌-◌, String, Bool, true, false, ltb, ◌==◌, if◌then◌else◌, Option, none, some,
  List, [], ◌∷◌, ◌++◌,
}
use mote_broker.Result.{Result, ok, err, type_error, io_error, key_error, ◌>>=◌}
use mote_broker.Protocols.{Bytes}
use mote_broker.Packet.Fields.{
  Value, int, FieldType, static_int, packet_id, dynamic_str, dynamic_bytes, remaining_bytes,
  read_fields, fields_to_bytes, field_to_bytes, publish_fields, PacketClass, connect, connack,
  publish, puback, pubrec, pubrel, pubcomp, subscribe, suback, unsubscribe, unsuback, pingreq,
  pingresp, auth,
}
use mote_broker.Packet.Flags
use mote_broker.Packet.Flags.{Kwargs, connect_flags, from_int}

module _ (decode : Bytes → String) where
  -- The loop of PacketDynamicList.read, on fuel: an item takes a byte at least.
  unfoldable pub read_list :
      ℕ → List FieldType → ℕ → Bytes → Result ((List (List Value) × ℕ) × Bytes)
  read_list zero tys left input = if ltb 0 left then err io_error else ok (([], 0), input)
  read_list (suc fuel) tys left input =
      let more =
        (read_fields decode tys left input >>= λ (item, after).
        read_list fuel tys (left - item.1) after >>= λ (items, rest).
        ok ((item.0 ∷ items.0, item.1 + items.1), rest)) in
      if ltb 0 left then more else ok (([], 0), input)

-- PacketDynamicList.to_bytes, which calls the `to_bytes` of its one type
unfoldable pub list_to_bytes : (String → Bytes) → FieldType → List Value → Result Bytes
list_to_bytes encode ty [] = ok []
list_to_bytes encode ty (v ∷ vs) = do
  b ← field_to_bytes encode ty v
  bytes ← list_to_bytes encode ty vs
  ok (b ++ bytes)

-- The fields of a class: the scalar ones, and the types of the items of its list.
pub record Shape : Type 0 where
  pub heads : List FieldType
  pub list : Option (List FieldType)

abbrev only : List FieldType → Shape
only tys = record { heads = tys; list = none }

-- The classes whose fields do not depend on what is read; a publish packet by its quality of service.
unfoldable pub shape : ℕ → PacketClass → Option Shape
unfolding publish_fields
shape qos connect = none
shape qos connack = some (only (static_int 1 ∷ static_int 1 ∷ []))
shape qos publish = some (only (publish_fields qos))
shape qos puback = some (only (packet_id ∷ []))
shape qos pubrec = some (only (packet_id ∷ []))
shape qos pubrel = some (only (packet_id ∷ []))
shape qos pubcomp = some (only (packet_id ∷ []))
shape qos subscribe =
    some (record { heads = static_int 2 ∷ []; list = some (dynamic_str ∷ static_int 1 ∷ []) })
shape qos suback = some (record { heads = static_int 2 ∷ []; list = some (static_int 1 ∷ []) })
shape qos unsubscribe = some (record { heads = packet_id ∷ []; list = some (dynamic_str ∷ []) })
shape qos unsuback = some (only (packet_id ∷ []))
shape qos pingreq = some (only [])
shape qos pingresp = some (only [])
shape qos auth = some (only [])

-- What is read of a payload: the values of the scalar fields, and the items.
abbrev pub Contents : Type 0
Contents = List Value × List (List Value)

module _ (decode : Bytes → String) where
  read_rest : Option (List FieldType) → ℕ → Bytes → Result ((List (List Value) × ℕ) × Bytes)
  unfolding read_list
  read_rest none left input = ok (([], 0), input)
  read_rest (some tys) left input = read_list decode left tys left input

  -- Packet.read_payload, of a length
  unfoldable pub read_payload : Shape → ℕ → Bytes → Result ((Contents × ℕ) × Bytes)
  unfolding read_rest
  read_payload s length input = do
    (heads, after) ← read_fields decode s.heads length input
    (items, rest) ← read_rest s.list (length - heads.1) after
    ok (((heads.0, items.0), heads.1 + items.1), rest)

-- ConnectPacket: the fields up to the client id, and those that its flags enable.
abbrev pub connect_heads : List FieldType
connect_heads = dynamic_str ∷ static_int 1 ∷ static_int 1 ∷ static_int 2 ∷ dynamic_str ∷ []

-- kwargs["connect_flags"].enable_last_will and so on
enabled : String → Kwargs → List FieldType → List FieldType → Result (List FieldType)
enabled name kwargs tys rest =
    Flags.lookup name kwargs >>= λ v. ok (if v == 0 then rest else tys ++ rest)

unfoldable pub connect_tail : Kwargs → Result (List FieldType)
unfolding enabled
connect_tail kwargs = do
  password ← enabled "enable_password" kwargs (dynamic_str ∷ []) []
  username ← enabled "enable_username" kwargs (dynamic_str ∷ []) password
  enabled "enable_last_will" kwargs (dynamic_str ∷ dynamic_bytes ∷ []) username

-- the flags of the fields that are read
connect_flags_of : List Value → Result Kwargs
connect_flags_of (name ∷ level ∷ int flags ∷ more) = ok (from_int connect_flags flags)
connect_flags_of vs = err key_error

-- ConnectPacket.read_payload, of a length: the values up to the client id, the flags, the other values
unfoldable pub read_connect :
    (Bytes → String) → ℕ → Bytes → Result ((List Value × Kwargs × List Value) × Bytes)
unfolding connect_tail connect_flags_of
read_connect decode length input = do
  (heads, after) ← read_fields decode connect_heads length input
  flags ← connect_flags_of heads.0
  tail ← connect_tail flags
  (more, rest) ← read_fields decode tail (length - heads.1) after
  ok ((heads.0, flags, more.0), rest)
