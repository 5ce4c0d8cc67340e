-- ===== src/Tests/Sessions.antt =====
-- Witnesses about connections, the worker of the tree and its database.
use mote_broker.Prelude.{
  arith, ℕ, String, ◌≡◌, refl, true, false, ◌=str=◌, if◌then◌else◌, Option, none, some, List, [],
  ◌∷◌, ◌++◌, exists,
}
use mote_broker.Result.{Result, ok}
use mote_broker.Dict.{Dict, atom, dict, empty, entry}
use mote_broker.RecursiveDict.{find}
use mote_broker.RecursiveDict.Shape.{IsTree}
use mote_broker.Protocols.{Bytes, Row}
use mote_broker.TreeManager.{TreeState, retain_rows}
use mote_broker.TreeManager.Retain.{last_retained, retain_rows-find}
use mote_broker.TreeManager.Worker.{last_stored, MessageTable}
use mote_broker.Messages.{IncomingMessage, from_raw_data, topic_of}
use mote_broker.Topic
use mote_broker.Handler.{
  PublishPacket, out_id, pubrel_code, pubrec_code, pubcomp_code, nothing, release, first_answer,
  complete,
}
use mote_broker.Handler.Messages.{
  from_packet, out_message, resume, handle_publish_qos_2, send_message,
}
use mote_broker.Handler.PacketIds.{
  IsSmallestFree, next_from, next_packet_id, next_packet_id-IsSmallestFree,
}
use mote_broker.Handler.Exchange.{
  online, answer, handle_publish_qos_2-exchange, send_message-exchange,
}
use mote_broker.Handler.Exchange.Conditions.{waiting}
use mote_broker.WebSocket.Handler.{read_frames, send_bytes}
use mote_broker.WebSocket.Handler.RoundTrip.{wire, read_frames-send_bytes, read-send_bytes}
use mote_broker.WebSocket
use mote_broker.WebSocket.Frame.{first_bytes}
use mote_broker.SocketHandler.{read}
use mote_broker.SocketHandler.Bounds.{IsRead, read-IsRead}
use mote_broker.Packet.Fields.{Value, int, text, raw}

abbrev table_by_topic : MessageTable
table_by_topic = record {
  Table = String → Option Bytes;
  lookup = λ topic t. t topic;
  delete = λ topics t topic. if exists (λ other. other =str= topic) topics then none else t topic;
  bulk_create = λ rows t topic. last_stored topic rows (t topic);
  lookup_delete = λ topic topics t. refl;
  lookup_bulk_create = λ topic rows t. refl;
}

abbrev no_rows : String → Option Bytes
no_rows topic = none

abbrev on_row : Row
on_row = record { topic = "lamp" ∷ "on" ∷ []; payload = some (49 ∷ []); qos = 1 }

abbrev no_state : TreeState
no_state = record { tree = empty; tasks = [] }

retain_rows-find_example :
    ((retain_rows (on_row ∷ []) no_state).0 ≡ ok tt)
    × IsTree (retain_rows (on_row ∷ []) no_state).1.tree
    × ((q : List String)
        → find q (retain_rows (on_row ∷ []) no_state).1.tree
          ≡ last_retained q (on_row ∷ []) (find q no_state.tree))
    × ((retain_rows (on_row ∷ []) no_state).1.tasks ≡ on_row ∷ [])
retain_rows-find_example = retain_rows-find (on_row ∷ []) no_state ((refl, (refl, tt)), tt) tt

next_packet_id-IsSmallestFree_example : IsSmallestFree (0 ∷ 2 ∷ []) (next_packet_id (0 ∷ 2 ∷ []))
next_packet_id-IsSmallestFree_example = next_packet_id-IsSmallestFree (0 ∷ 2 ∷ [])

next_packet_id_runs : next_packet_id (0 ∷ 2 ∷ []) ≡ ok 1
unfolding next_packet_id next_from
next_packet_id_runs = refl

abbrev hello_packet : PublishPacket
hello_packet = record {
  qos = 2;
  retain = false;
  topic = "lamp";
  id = some 7;
  payload = some (49 ∷ []);
}

abbrev hello_message : IncomingMessage
hello_message = record {
  topic = Topic.root "lamp" (some "lamp");
  qos = 2;
  retain = false;
  graft = false;
  payload = some (49 ∷ []);
}

hello_packet_runs : from_packet hello_packet ≡ ok hello_message
unfolding from_packet from_raw_data topic_of mote_broker.Topic.from_str mote_broker.Topic.from_nodes
    mote_broker.Topic.chain mote_broker.Topic.Split.split
hello_packet_runs = refl

abbrev publishes : IncomingMessage → Result (Unit {0})
publishes m = ok tt

handle_publish_qos_2-exchange_example :
    let w = release (waiting pubrel_code 7 0) hello_packet in
    let s = online publishes [] (waiting pubrel_code 7 0 ∷ []) 1 (out_id pubrec_code 7 ∷ []) [] in
    (handle_publish_qos_2 hello_packet (online publishes [] [] 0 [] []) ≡ (ok w, s))
    × (resume w s ≡ (ok w, s))
    × (answer pubrel_code 7 w s ≡ (
      ok nothing,
      online publishes [] [] 1
          (out_id pubrec_code 7 ∷ out_id pubcomp_code 7 ∷ [])
          (hello_message ∷ []),
    ))
handle_publish_qos_2-exchange_example =
    handle_publish_qos_2-exchange publishes hello_packet hello_message [] [] 0 [] []
      hello_packet_runs tt refl

send_message-exchange_example :
    let first = first_answer (waiting pubrec_code 1 0) 1 2 in
    let second = complete (waiting pubcomp_code 1 1) 1 in
    let sent = out_message 2 "lamp" none (some 1) ∷ [] in
    let s = online publishes (1 ∷ 0 ∷ 2 ∷ []) (waiting pubrec_code 1 0 ∷ []) 1 sent [] in
    let t =
      online publishes
        (1 ∷ 0 ∷ 2 ∷ [])
        (waiting pubcomp_code 1 1 ∷ [])
        2
        (sent ++ out_id pubrel_code 1 ∷ [])
        [] in
    (send_message 2 "lamp" none (online publishes (0 ∷ 2 ∷ []) [] 0 [] []) ≡ (ok first, s))
    × (answer pubrec_code 1 first s ≡ (ok second, t))
    × (answer pubcomp_code 1 second t
        ≡ (ok nothing, online publishes (0 ∷ 2 ∷ []) [] 2 (sent ++ out_id pubrel_code 1 ∷ []) []))
send_message-exchange_example =
    send_message-exchange publishes "lamp" none 1 (0 ∷ 2 ∷ []) [] 0 [] [] next_packet_id_runs tt
      refl refl

read_frames-send_bytes_example :
    read_frames [] (record {
      alive = true;
      input = (wire (send_bytes (1 ∷ 2 ∷ [])) ++ 3 ∷ []) ∷ (4 ∷ []) ∷ [];
      sent = [];
    })
    ≡ (ok (1 ∷ 2 ∷ []), record { alive = true; input = (3 ∷ []) ∷ (4 ∷ []) ∷ []; sent = [] })
unfolding send_bytes mote_broker.WebSocket.Frame.frame_bytes
read_frames-send_bytes_example = read_frames-send_bytes (1 ∷ 2 ∷ []) (3 ∷ []) [] ((4 ∷ []) ∷ []) []

read-send_bytes_example :
    WebSocket.Handler.read 1 [] (record {
      alive = true;
      input = (wire (send_bytes (1 ∷ 2 ∷ [])) ++ 3 ∷ []) ∷ (4 ∷ []) ∷ [];
      sent = [];
    })
    ≡ (
      ok (first_bytes 1 (1 ∷ 2 ∷ [])),
      record { alive = true; input = (3 ∷ []) ∷ (4 ∷ []) ∷ []; sent = [] },
    )
unfolding send_bytes mote_broker.WebSocket.Frame.frame_bytes
read-send_bytes_example = read-send_bytes 0 (1 ∷ 2 ∷ []) (3 ∷ []) ((4 ∷ []) ∷ []) [] (omega arith)

read-IsRead_example : IsRead 2 (1 ∷ 2 ∷ 3 ∷ []) (read 2 ((1 ∷ []) ∷ (2 ∷ 3 ∷ []) ∷ []))
read-IsRead_example = read-IsRead 2 ((1 ∷ []) ∷ (2 ∷ 3 ∷ []) ∷ []) (refl, (refl, tt))

-- two bytes are asked for and three are given
read_runs : read 2 ((1 ∷ []) ∷ (2 ∷ 3 ∷ []) ∷ []) ≡ ok (1 ∷ 2 ∷ 3 ∷ [], [])
unfolding read mote_broker.WebSocket.Frame.recv
read_runs = refl

abbrev letter_bytes : String → Bytes
letter_bytes s = 108 ∷ []

abbrev letter_text : Bytes → String
letter_text [] = ""
letter_text (b ∷ bytes) = "l"

abbrev hello_values : List Value
hello_values = text "l" ∷ int 7 ∷ raw (some (49 ∷ [])) ∷ []

-- the fields of a publish packet of quality 1
abbrev subscribed : Dict (Dict ℕ)
subscribed = entry "lamp" (dict (entry "/" (atom (entry "me" (atom 1) empty)) empty)) empty
