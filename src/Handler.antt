-- ===== src/Handler.antt =====
-- servers/handler.py: what a connection keeps for the packets of its client. A handler of a packet runs
-- in a thread of its own and `wait_for_packet` blocks it; it is split where it blocks, into what runs
-- before (Messages.send_message, Messages.handle_publish) and what runs when the packet has come
-- (Messages.resume). `write` raises ConnectionError once the socket is closed. What
-- `Broker.instance.publish` is called with is kept in the order of the calls; `publishing` is
-- what it raises, if anything. A packet that `packet_notify` takes is its type code and id.
pub mod PacketIds
pub mod Messages
pub mod Exchange
pub mod Connection
pub mod System
pub mod Packets
pub mod Writer
pub mod Identify
use mote_broker.Prelude.{
  ℕ, suc, ◌+◌, String, Bool, true, false, not, ◌&&◌, ltb, ◌==◌, if◌then◌else◌, Option, none, some,
  List, [], ◌∷◌, ◌++◌, keep, exists,
}
use mote_broker.Result.{Result, ok, err, Error, key_error, index_error, connection_error}
use mote_broker.Protocols.{Bytes, Retained}
use mote_broker.Messages.{IncomingMessage, from_raw_data}
use mote_broker.Handler.PacketIds.{mem, next_packet_id}

abbrev pub publish_code : ℕ
publish_code = 0x03

abbrev pub puback_code : ℕ
puback_code = 0x04

abbrev pub pubrec_code : ℕ
pubrec_code = 0x05

abbrev pub pubrel_code : ℕ
pubrel_code = 0x06

abbrev pub pubcomp_code : ℕ
pubcomp_code = 0x07

abbrev pub pingresp_code : ℕ
pingresp_code = 0x0D

pub record PublishPacket : Type 0 where
  pub qos : ℕ
  pub retain : Bool
  pub topic : String
  pub id : Option ℕ
  pub payload : Retained

pub data OutPacket : Type 0 where
  out_publish : PublishPacket → OutPacket
  -- a packet of only an id, by its type code
  out_id : ℕ → ℕ → OutPacket
  -- a packet of nothing but its type code
  out_blank : ℕ → OutPacket

-- `condition` tells apart the Condition objects, which the equality of the dataclass compares too;
-- `result` is whether the packet has come.
pub record PacketCondition : Type 0 where
  pub type_code : ℕ
  pub id : ℕ
  pub result : Bool
  pub condition : ℕ

pub record Session : Type 0 where
  pub connected : Bool
  pub used_ids : List ℕ
  pub packet_conditions : List PacketCondition
  pub conditions_made : ℕ
  pub written : List OutPacket
  pub published : List IncomingMessage
  -- what Broker.publish does with a message: whether it raises
  pub publishing : IncomingMessage → Result (Unit {0})

-- A call that may raise, and the rest of the body.
abbrev pub then_do {ℓ κ} :
    {A : Type ℓ} {B : Type κ}
    → Result A × Session
    → (A → Session → Result B × Session)
    → Result B × Session
then_do (err e, s) f = (err e, s)
then_do (ok a, s) f = f a s

unfoldable pub write : OutPacket → Session → Result (Unit {0}) × Session
write p s =
    if s.connected
    then (
      ok tt,
      record {
        connected = s.connected;
        used_ids = s.used_ids;
        packet_conditions = s.packet_conditions;
        conditions_made = s.conditions_made;
        written = s.written ++ p ∷ [];
        published = s.published;
        publishing = s.publishing;
      },
    )
    else (err connection_error, s)

abbrev pub with_conditions : List PacketCondition → ℕ → Session → Session
with_conditions cs made s = record {
  connected = s.connected;
  used_ids = s.used_ids;
  packet_conditions = cs;
  conditions_made = made;
  written = s.written;
  published = s.published;
  publishing = s.publishing;
}

abbrev pub with_used : List ℕ → Session → Session
with_used used s = record {
  connected = s.connected;
  used_ids = used;
  packet_conditions = s.packet_conditions;
  conditions_made = s.conditions_made;
  written = s.written;
  published = s.published;
  publishing = s.publishing;
}

-- the equality of the dataclass
abbrev pub same_condition : PacketCondition → PacketCondition → Bool
same_condition a b = a.type_code == b.type_code && a.id == b.id && a.condition == b.condition

-- The Condition object is a new one.
unfoldable pub create_packet_condition : ℕ → ℕ → Session → Result PacketCondition × Session
create_packet_condition type_code packet_id s =
    let c : PacketCondition = record {
      type_code = type_code;
      id = packet_id;
      result = false;
      condition = s.conditions_made;
    } in
    if exists (same_condition c) s.packet_conditions
    then (err key_error, s)
    else (ok c, with_conditions (s.packet_conditions ++ c ∷ []) (suc s.conditions_made) s)

-- packet_condition.type_code == packet.type_code and packet_condition.id == packet.id
abbrev pub waits_for : ℕ → ℕ → PacketCondition → Bool
waits_for type_code packet_id c = c.type_code == type_code && c.id == packet_id

abbrev pub met : PacketCondition → PacketCondition
met c = record { type_code = c.type_code; id = c.id; result = true; condition = c.condition }

-- the loop of packet_notify
unfoldable pub meet_first : ℕ → ℕ → List PacketCondition → Bool × List PacketCondition
meet_first type_code packet_id [] = (false, [])
meet_first type_code packet_id (c ∷ cs) =
    let (found, cs') = meet_first type_code packet_id cs in
    if waits_for type_code packet_id c then (true, met c ∷ cs) else (found, c ∷ cs')

unfoldable pub packet_notify : ℕ → ℕ → Session → Bool × Session
unfolding meet_first
packet_notify type_code packet_id s =
    let (found, cs) = meet_first type_code packet_id s.packet_conditions in
    (found, with_conditions cs s.conditions_made s)

-- What is left of a handler that waits, with the condition it waits for.
pub data Waiting : Type 0 where
  nothing : Waiting
  -- in send_message, for the answer to the publish packet and to the release packet
  first_answer : PacketCondition → ℕ → ℕ → Waiting
  complete : PacketCondition → ℕ → Waiting
  -- in handle_publish_qos_2
  release : PacketCondition → PublishPacket → Waiting

-- finally: self.used_ids.remove(packet_id)
unfoldable pub release_id {ℓ} : {A : Type ℓ} → ℕ → Result A × Session → Result A × Session
release_id i (r, s) =
    let s' = with_used (keep (λ j. not (j == i)) s.used_ids) s in
    if mem i s.used_ids then (r, s') else (err key_error, s)

-- Handler.using_packet_id, of a function that returns
unfoldable pub using_packet_id {ℓ} :
    {A : Type ℓ} → (Session → Result A × Session) → ℕ → Session → Result A × Session
unfolding release_id
using_packet_id func i s =
    release_id i (func (with_used (if mem i s.used_ids then s.used_ids else i ∷ s.used_ids) s))

unfoldable pub handle_ping_request : Session → Result (Unit {0}) × Session
unfolding write
handle_ping_request s = write (out_blank pingresp_code) s
