-- ===== src/Tests/Connections.antt =====
-- Witnesses about the server, the connect packet and the write loop.
use mote_broker.Prelude.{
  ap, ℕ, String, ◌≡◌, refl, true, false, ◌==◌, if◌then◌else◌, Bool-cases, inl, inr, none, some, [],
  ◌∷◌, length,
}
use mote_broker.Dict.{get}
use mote_broker.Packet.Header.{decode_header, decode_packet_length}
use mote_broker.Packet.Fields.{infer_packet_class, read_fields, read}
use mote_broker.Packet.Payload.{read_connect}
use mote_broker.Packet.Flags.{lookup, from_int}
use mote_broker.WebSocket.Frame.{from_bytes}
use mote_broker.Result.{ok, err, io_error}
use mote_broker.Protocols.{Bytes}
use mote_broker.Broker.Subscriptions.Refinement.{quality}
use mote_broker.Handler.{Session}
use mote_broker.Handler.PacketIds.{mem}
use mote_broker.Handler.Connection.{handle_subscribe}
use mote_broker.Handler.Connection.Handlers.{handle_subscribe-Moved}
use mote_broker.Handler.System.{
  changed, changes, IsTimely, System, IsActive, put, both, subscribes, here, next, link,
}
use mote_broker.Handler.System.Tracked.{IsTracked, Reach-IsTracked}
use mote_broker.Handler.Identify.{identify, read_connect_packet, get_last_will}
use mote_broker.Handler.Identify.Registers.{Outcome, identify-registers}
use mote_broker.Handler.Writer
use mote_broker.Handler.Writer.{
  Outgoing, Writer, queue_message, check_alive, send_next, queues, checks, takes,
}
use mote_broker.Handler.Writer.Order.{IsInOrder, Reach-IsInOrder}
use mote_broker.SocketHandler.{tolerated}
use mote_broker.Server.{Server, stop}
use mote_broker.Server.Stop.{shut, AllEnd, stop-ends, stop-no_quality}
use mote_broker.Server.Raises.{stop-raises}
use mote_broker.Server.Accepting
use mote_broker.Server.Accepting.{
  Listening, new_server, starts_up, bound, starts, binds, testing, finished, stopped, test_alive,
  accepted, handled, stop_begins, stop_turn, tests, accepts, handles, begins, turns, IsShut,
  Reach-IsShut,
}
use mote_broker.Tests.Systems.{start, single, single-IsTracked, no_json, no_table, no_tree}

abbrev subscribed : System
subscribed =
    put 1 single (handle_subscribe no_json no_table no_tree (("light/a", 1) ∷ []) (both 1 single)).1

subscribed-IsTracked : IsTracked subscribed
unfolding IsTimely
subscribed-IsTracked =
    Reach-IsTracked {json = no_json} {table_message = no_table}
      (next here (subscribes 1 (("light/a", 1) ∷ []) no_tree)) (tt, (refl, refl)) single-IsTracked

subscribed-AllEnd : AllEnd subscribed
unfolding tolerated
subscribed-AllEnd m =
    let moved =
      handle_subscribe-Moved no_json no_table no_tree (("light/a", 1) ∷ []) (both 1 single)
        single-IsTracked.valid in
    elim (Bool-cases (1 == m)) [
      | inl e ↦ rw e (
        ap (λ errno. tolerated (9 ∷ 107 ∷ []) errno) moved.same_end.0,
        rw (moved.same_end.1, moved.same_end.2) refl,
      )
      | inr e ↦ rw e (refl, refl)
    ]

abbrev server : Server
server = record { alive = true; clients = 1 ∷ []; closed = false }

stop-ends_example :
    ((stop (some 107) server subscribed).0 ≡ tolerated (9 ∷ 57 ∷ 107 ∷ []) (some 107))
    × ((stop (some 107) server subscribed).1.clients ≡ [])
    × ((stop (some 107) server subscribed).1.alive ≡ false)
    × IsTracked (stop (some 107) server subscribed).2
    × ((m : ℕ)
        → (stop (some 107) server subscribed).2.connections m
          ≡ (if mem m (1 ∷ []) then shut (subscribed.connections m) else subscribed.connections m))
stop-ends_example = stop-ends (some 107) server subscribed subscribed-AllEnd subscribed-IsTracked

only_first :
    (n : ℕ)
    → IsActive (subscribed.connections n)
    → (subscribed.connections n).id ≡ "a"
    → mem n (1 ∷ []) ≡ true
only_first n active e = elim (Bool-cases (1 == n)) [
  | inl own ↦ rw own refl
  | inr other ↦ let no = rw other at active.0 in cc
]

stop-no_quality_example :
    quality (stop none server subscribed).2.broker.subscriptions ("light" ∷ "a" ∷ []) "a" ≡ none
stop-no_quality_example =
    stop-no_quality none server subscribed "a" subscribed-AllEnd subscribed-IsTracked only_first
      ("light" ∷ "a" ∷ [])

-- connection 2 ends, closing the socket of connection 1 raises, and connection 3 is left
abbrev broken : System
broken = changed 1 (some 5) (λ m. ok tt) single

broken-IsTracked : IsTracked broken
unfolding IsTimely
broken-IsTracked =
    Reach-IsTracked {json = no_json} {table_message = no_table}
      (next here (changes 1 (some 5) (λ m. ok tt))) (tt, tt) single-IsTracked

stop-raises_example :
    ((stop none (record server { clients = 2 ∷ 1 ∷ 3 ∷ [] }) broken).0 ≡ err io_error)
    × ((stop none (record server { clients = 2 ∷ 1 ∷ 3 ∷ [] }) broken).1
        ≡ record { alive = false; clients = 3 ∷ []; closed = false })
unfolding changed tolerated
stop-raises_example =
    stop-raises none (record server { clients = 2 ∷ 1 ∷ 3 ∷ [] }) broken (2 ∷ []) 1 (3 ∷ [])
      io_error refl broken-IsTracked ((refl, refl), tt) refl

-- a client is accepted, the server is stopped, and the client is started after that
abbrev raced : Listening
raced = handled false 7 (
    stop_turn false []
      (stop_begins (accepted 7 (test_alive (bound false (starts_up (new_server true)))))))

Reach-IsShut_example : IsShut raced
unfolding starts_up bound test_alive accepted stop_begins stop_turn handled
Reach-IsShut_example = Reach-IsShut {alive = true} (
    Accepting.next
      (Accepting.next
        (Accepting.next
          (Accepting.next
            (Accepting.next
              (Accepting.next (Accepting.next Accepting.here (starts refl)) (binds false refl))
              (tests refl))
            (accepts 7 refl))
          (begins refl))
        (turns false refl))
      (handles 7 false refl))

left_behind :
    ((test_alive raced).stopping ≡ stopped)
    × ((test_alive raced).loop ≡ finished)
    × ((test_alive raced).clients ≡ 7 ∷ [])
unfolding starts_up bound test_alive accepted stop_begins stop_turn handled
left_behind = (refl, refl, refl)

-- "MQTT" of level 4, with the flags 2, 60 seconds and the client id "a"
abbrev connect_bytes : Bytes
connect_bytes = 16 ∷ 13 ∷ 0 ∷ 4 ∷ 77 ∷ 81 ∷ 84 ∷ 84 ∷ 4 ∷ 2 ∷ 0 ∷ 60 ∷ 0 ∷ 1 ∷ 97 ∷ []

abbrev decode : Bytes → String
decode bytes = if length bytes == 1 then "a" else "MQTT"

identify-registers_example :
    IsTracked (identify decode 2 true connect_bytes subscribed).1
    × Outcome decode 2 true connect_bytes subscribed
        (identify decode 2 true connect_bytes subscribed)
identify-registers_example =
    identify-registers decode 2 true connect_bytes subscribed refl (λ m. (subscribed-AllEnd m).0)
      subscribed-IsTracked

identify_runs : (identify decode 2 true connect_bytes start).0 ≡ ok 61
unfolding identify read_connect_packet decode_header infer_packet_class decode_packet_length
    read_connect read_fields read from_bytes lookup from_int get_last_will link get
identify_runs = refl

abbrev session : Session
session = record {
  connected = true;
  used_ids = [];
  packet_conditions = [];
  conditions_made = 0;
  written = [];
  published = [];
  publishing = λ m. ok tt;
}

abbrev first : Outgoing
first = record { topic = "a"; qos = 0; payload = some (49 ∷ []) }

abbrev second : Outgoing
second = record { topic = "b"; qos = 0; payload = none }

abbrev idle : Writer
idle = record { session = session; queue = []; stage = Writer.checking; alive = true; queued = [] }

Reach-IsInOrder_example : IsInOrder (send_next first [] (check_alive (queue_message first idle)))
unfolding check_alive queue_message
Reach-IsInOrder_example =
    Reach-IsInOrder {w = idle}
      (Writer.next (Writer.next (Writer.next Writer.here (queues first)) (checks refl))
        (takes first [] refl refl))
      refl

abbrev loaded : Writer
loaded = record idle { queue = first ∷ second ∷ []; queued = first ∷ second ∷ [] }
