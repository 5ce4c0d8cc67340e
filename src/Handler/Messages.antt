-- ===== src/Handler/Messages.antt =====
-- The handlers of servers/handler.py that send and receive messages, each up to where it waits for a packet and behind it.
use mote_broker.Prelude.{
  ℕ, String, Bool, false, not, ◌&&◌, ◌==◌, if◌then◌else◌, Option, none, some, [], ◌∷◌, ◌++◌, keep,
  exists,
}
use mote_broker.Result.{Result, ok, err, index_error}
use mote_broker.Protocols.{Retained}
use mote_broker.Messages.{IncomingMessage, from_raw_data}
use mote_broker.Handler.PacketIds.{next_packet_id}
use mote_broker.Handler.{
  puback_code, pubrec_code, pubrel_code, pubcomp_code, PublishPacket, OutPacket, PacketCondition,
  Session, then_do, write, with_conditions, with_used, same_condition, create_packet_condition,
  Waiting, release_id, out_publish, out_id, nothing, first_answer, complete, release,
}

-- what an exception in the body of `try` leaves; a handler that goes on to wait keeps its id
unfoldable pub release_on_error : ℕ → Result Waiting × Session → Result Waiting × Session
release_on_error i (err e, s) = release_id i (err e, s)
release_on_error i (ok w, s) = (ok w, s)

abbrev pub out_message : ℕ → String → Retained → Option ℕ → OutPacket
out_message qos topic payload packet_id =
    out_publish
      (record { qos = qos; retain = false; topic = topic; id = packet_id; payload = payload })

-- send_message of a message with a quality above 0, with the id it has got
unfoldable pub send_with_id : ℕ → String → Retained → ℕ → Session → Result Waiting × Session
unfolding create_packet_condition write
send_with_id qos topic payload i s =
    then_do (create_packet_condition (if qos == 1 then puback_code else pubrec_code) i s) λ c s1.
      then_do (write (out_message qos topic payload (some i)) s1)
        λ u s2. (ok (first_answer c i qos), s2)

-- packet_id = self.next_packet_id; self.used_ids.add(packet_id)
unfoldable pub with_next_id : ℕ → String → Retained → Result ℕ → Session → Result Waiting × Session
unfolding send_with_id release_on_error
with_next_id qos topic payload (err e) s = (err e, s)
with_next_id qos topic payload (ok i) s =
    release_on_error i (send_with_id qos topic payload i (with_used (i ∷ s.used_ids) s))

unfoldable pub send_message : ℕ → String → Retained → Session → Result Waiting × Session
unfolding with_next_id write
send_message qos topic payload s =
    if qos == 0
    then then_do (write (out_message qos topic payload none) s) (λ u s1. (ok nothing, s1))
    else with_next_id qos topic payload (next_packet_id s.used_ids) s

-- IncomingMessage.from_packet
unfoldable pub from_packet : PublishPacket → Result IncomingMessage
from_packet p = from_raw_data p.topic p.payload p.qos p.retain

-- Broker.instance.publish(message)
unfoldable pub publish_message : Result IncomingMessage → Session → Result (Unit {0}) × Session
publish_message (err e) s = (err e, s)
publish_message (ok m) s = (
  s.publishing m,
  record {
    connected = s.connected;
    used_ids = s.used_ids;
    packet_conditions = s.packet_conditions;
    conditions_made = s.conditions_made;
    written = s.written;
    published = s.published ++ m ∷ [];
    publishing = s.publishing;
  },
)

-- Handler.publish
unfoldable pub publish : PublishPacket → Session → Result (Unit {0}) × Session
unfolding publish_message
publish p s = publish_message (from_packet p) s

-- the id of a packet with a quality above 0, which its reader sets
abbrev pub id_of : PublishPacket → ℕ
id_of p = elim p.id [ none ↦ 0 | some i ↦ i ]

unfoldable pub handle_publish_qos_1 : PublishPacket → Session → Result Waiting × Session
unfolding publish write
handle_publish_qos_1 p s =
    then_do (publish p s)
      λ u s1. then_do (write (out_id puback_code (id_of p)) s1) λ v s2. (ok nothing, s2)

unfoldable pub handle_publish_qos_2 : PublishPacket → Session → Result Waiting × Session
unfolding create_packet_condition write
handle_publish_qos_2 p s =
    then_do (create_packet_condition pubrel_code (id_of p) s)
      λ c s1. then_do (write (out_id pubrec_code (id_of p)) s1) λ u s2. (ok (release c p), s2)

-- publish_map[packet.flags.qos]
unfoldable pub handle_publish : PublishPacket → Session → Result Waiting × Session
unfolding publish handle_publish_qos_1 handle_publish_qos_2
handle_publish p s =
    if p.qos == 0
    then then_do (publish p s) (λ u s1. (ok nothing, s1))
    else if p.qos == 1
    then handle_publish_qos_1 p s
    else if p.qos == 2
    then handle_publish_qos_2 p s
    else (err index_error, s)

-- self.packet_conditions.remove(packet_condition)
abbrev pub remove_condition : PacketCondition → Session → Session
remove_condition c s =
    with_conditions (keep (λ other. not (same_condition c other)) s.packet_conditions)
      s.conditions_made s

-- packet_condition.result is not None
abbrev pub is_met : PacketCondition → Session → Bool
is_met c s = exists (λ other. other.result && same_condition c other) s.packet_conditions

-- after the release packet is made: its condition, then the packet itself
unfoldable pub send_release : ℕ → Session → Result Waiting × Session
unfolding create_packet_condition write
send_release i s =
    then_do (create_packet_condition pubcomp_code i s)
      λ c s1. then_do (write (out_id pubrel_code i) s1) λ u s2. (ok (complete c i), s2)

-- A handler goes on once its packet has come; until then it waits.
unfoldable pub resume : Waiting → Session → Result Waiting × Session
unfolding release_id release_on_error send_release publish write
resume nothing s = (ok nothing, s)
resume (first_answer c i qos) s =
    if is_met c s
    then (if qos == 2
        then release_on_error i (send_release i (remove_condition c s))
        else release_id i (ok nothing, remove_condition c s))
    else (ok (first_answer c i qos), s)
resume (complete c i) s =
    if is_met c s then release_id i (ok nothing, remove_condition c s) else (ok (complete c i), s)
resume (release c p) s =
    if is_met c s
    then then_do (publish p (remove_condition c s))
        (λ u s1. then_do (write (out_id pubcomp_code (id_of p)) s1) (λ v s2. (ok nothing, s2)))
    else (ok (release c p), s)
