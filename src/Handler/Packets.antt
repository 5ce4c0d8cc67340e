-- ===== src/Handler/Packets.antt =====
-- Handler.handle_packet and read_next_packet of servers/handler.py: what the read loop does with a packet
-- of a type code and an id. The handlers that it starts run in threads of their own.
pub mod Dispatch
use mote_broker.Prelude.{ℕ, Bool, true, false, ◌&&◌, if◌then◌else◌}
use mote_broker.Result.{Result, ok, err, unexpected_packet}
use mote_broker.Packet.Fields.{
  PacketClass, connect, connack, publish, puback, pubrec, pubrel, pubcomp, subscribe, suback,
  unsubscribe, unsuback, pingreq, pingresp, auth, type_code, infer_packet_class,
}
use mote_broker.Handler.{Session, packet_notify}

-- What becomes of a packet: a thread for its handler, or a condition that it meets.
pub data Handled : Type 0 where
  started : PacketClass → Handled
  notified : Handled

-- self.packet_map.get(packet.__class__)
unfoldable pub in_packet_map : PacketClass → Bool
in_packet_map pingreq = true
in_packet_map subscribe = true
in_packet_map unsubscribe = true
in_packet_map publish = true
in_packet_map c = false

-- isinstance(packet, PacketWithId)
unfoldable pub is_packet_with_id : PacketClass → Bool
is_packet_with_id publish = true
is_packet_with_id puback = true
is_packet_with_id pubrec = true
is_packet_with_id pubrel = true
is_packet_with_id pubcomp = true
is_packet_with_id subscribe = true
is_packet_with_id suback = true
is_packet_with_id unsubscribe = true
is_packet_with_id unsuback = true
is_packet_with_id c = false

-- what packet_notify returned
unfoldable pub by_notify : Bool × Session → Result Handled × Session
by_notify (true, s) = (ok notified, s)
by_notify (false, s) = (err unexpected_packet, s)

unfoldable pub handle_packet : PacketClass → ℕ → Session → Result Handled × Session
unfolding in_packet_map is_packet_with_id by_notify
handle_packet c id s =
    if in_packet_map c
    then (ok (started c), s)
    else if is_packet_with_id c
    then by_notify (packet_notify (type_code c) id s)
    else (err unexpected_packet, s)

-- the class that read_next_packet found
unfoldable pub handle_read : ℕ → Session → Result PacketClass → Result Handled × Session
handle_read id s (err e) = (err e, s)
handle_read id s (ok c) = handle_packet c id s

-- A round of the read loop, for a packet that is there.
unfoldable pub handle_next : ℕ → ℕ → Session → Result Handled × Session
unfolding handle_read
handle_next msg_type id s = handle_read id s (infer_packet_class msg_type)
