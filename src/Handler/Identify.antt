-- ===== src/Handler/Identify.antt =====
-- The start of Handler.read_loop in servers/handler.py: the connect packet of a client, up to its place
-- among the broker's clients. `connected` is whether the acknowledgement can be written. start_connection
-- comes before it: nothing for a socket, the handshake for a websocket (WebSocket/Handshake).
-- Behind an exception the loop ends as in Handler/Connection (end_loop).
pub mod Registers
use mote_broker.Prelude.{
  ℕ, ◌+◌, String, Bool, true, false, ◌==◌, if◌then◌else◌, Option, none, some, List, [], ◌∷◌,
}
use mote_broker.Result.{Result, ok, err, connection_error, attribute_error, packet_mismatch, ◌>>=◌}
use mote_broker.Protocols.{Bytes}
use mote_broker.Messages
use mote_broker.Messages.{IncomingMessage}
use mote_broker.Packet.Flags.{Kwargs, lookup}
use mote_broker.Packet.Fields.{
  Value, int, text, raw, PacketClass, connect, type_code, infer_packet_class,
}
use mote_broker.Packet.Header.{decode_header, decode_packet_length}
use mote_broker.Packet.Payload.{read_connect}
use mote_broker.Handler.Connection.{Connection}
use mote_broker.Handler.System.{System, update, link}

-- a connect packet: its flags, and the fields that the handler uses
pub record ConnectPacket : Type 0 where
  pub connect_flags : Kwargs
  pub keep_alive : ℕ
  pub client_id : String
  -- the fields that the flags enable
  pub more : List Value

-- cls != infer_packet_class(msg_type)
unfoldable pub check_class : Result PacketClass → Result (Unit {0})
check_class (err e) = err e
check_class (ok c) = if type_code c == type_code connect then ok tt else err packet_mismatch

-- the attributes that the packet's constructor sets
unfoldable pub connect_packet_of : List Value × Kwargs × List Value → Result ConnectPacket
connect_packet_of
      (text name ∷ int level ∷ int flags ∷ int keep_alive ∷ text client_id ∷ [], kwargs, more) =
    ok (record {
      connect_flags = kwargs;
      keep_alive = keep_alive;
      client_id = client_id;
      more = more;
    })
connect_packet_of (values, kwargs, more) = err attribute_error

-- ConnectPacket.read(self)
unfoldable pub read_connect_packet : (Bytes → String) → Bytes → Result (ConnectPacket × Bytes)
unfolding check_class connect_packet_of
read_connect_packet decode input = do
  (fields, after) ← decode_header input
  checked ← check_class (infer_packet_class fields.0)
  (length, payload) ← decode_packet_length after
  (values, rest) ← read_connect decode length payload
  packet ← connect_packet_of values
  ok (packet, rest)

-- IncomingMessage.last_will(packet), of the fields behind the client id
will_of : ConnectPacket → List Value → Result IncomingMessage
will_of p (text topic ∷ raw message ∷ more) = do
  qos ← lookup "last_will_qos" p.connect_flags
  retain ← lookup "retain_last_will" p.connect_flags
  Messages.last_will topic message qos (if retain == 0 then false else true)
will_of p more = err attribute_error

-- Handler.get_last_will
unfoldable pub get_last_will : ConnectPacket → Result (Option IncomingMessage)
unfolding will_of
get_last_will p = do
  enabled ← lookup "enable_last_will" p.connect_flags
  if enabled == 0 then ok none else will_of p p.more >>= λ m. ok (some m)

-- acknowledge_packet.write(self)
unfoldable pub write_connack : Bool → Result (Unit {0})
write_connack connected = if connected then ok tt else err connection_error

-- The connection `n` of a system, changed.
abbrev pub change : (Connection → Connection) → ℕ → System → System
change f n s = record s { connections = update s.connections n (f (s.connections n)) }

-- what comes behind the acknowledgement: add_client, `self.linked = True` and set_keep_alive, whose argument is returned
unfoldable pub registered : ℕ → ℕ → Result (Unit {0}) × System → Result ℕ × System
registered n keep_alive (err e, s) = (err e, s)
registered n keep_alive (ok u, s) = (ok (keep_alive + 1), s)

acknowledged :
    ℕ → ConnectPacket → Option IncomingMessage → System → Result (Unit {0}) → Result ℕ × System
unfolding registered
acknowledged n p will s (err e) = (err e, change (λ c. record c { last_will = will }) n s)
acknowledged n p will s (ok u) =
    registered n p.keep_alive (link n (change (λ c. record c { last_will = will }) n s))

with_will : ℕ → Bool → ConnectPacket → System → Result (Option IncomingMessage) → Result ℕ × System
unfolding acknowledged write_connack
with_will n connected p s (err e) = (err e, s)
with_will n connected p s (ok will) = acknowledged n p will s (write_connack connected)

with_packet : ℕ → Bool → System → Result (ConnectPacket × Bytes) → Result ℕ × System
unfolding with_will
with_packet n connected s (err e) = (err e, s)
with_packet n connected s (ok (p, rest)) =
    with_will n connected p (change (λ c. record c { id = p.client_id }) n s) (get_last_will p)

-- Handler.read_loop, up to its loop: the keep-alive time that is set
unfoldable pub identify : (Bytes → String) → ℕ → Bool → Bytes → System → Result ℕ × System
unfolding with_packet
identify decode n connected input s = with_packet n connected s (read_connect_packet decode input)
