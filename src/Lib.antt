-- ===== src/Lib.antt =====
-- mote-broker: an MQTT broker that keeps its retained messages as a tree.
--
-- A client sends packets over a socket or over websocket frames. A packet has a fixed header, flags and
-- fields; publish packets become incoming messages. The tree manager turns a message into rows (paths with
-- data), for the wildcards of its topic or for the tree of JSON that it grafts, writes them to the tree of
-- retained messages and hands them to a worker for the database. The broker walks its tree of subscriptions
-- with the rows, makes the messages for each filter and queues them for the clients that subscribed.
--
-- Files and the code they model:
--   Prelude, Result        shared names and lemmas; exceptions as values
--   Dict, RecursiveDict    utils/recursive_default_dict.py, over dicts in the order of insertion; methods
--                          return the dict that they leave, and `visit` is a call on a nested dict
--   Topic                  models/topic.py
--   Protocols/Messages     protocols/create_messages_for_subscriptions.py; Fanout, Fanout/Rows, Matching and
--                          Matching/Filters compare the walk with a description by filters
--   Protocols/Applicable   protocols/get_applicable_rows.py (Sound: its theorems)
--   Protocols/Everything   protocols/get_everything_as_rows.py
--   RecursiveDict/Distinct the keys of a dict, each of which stands once
--   Protocols/Filter       protocols/filter_tree.py (Selection: what a topic selects; Loops, Picked,
--                          Wildcards, Static: its theorems)
--   Protocols/Flatten      protocols/flatten_message.py (Graft: its rows for a last +)
--   Messages               models/messages.py
--   TreeManager            tree/manager.py: TreeManager (Retain; Graft and its children: a grafted message;
--                          Snapshot, Published: a filter after rows or a
--                          message are retained) and TreeWorker.run_tasks (Worker)
--   Broker/Subscriptions   subscribe and unsubscribe of broker/broker.py, with the map from filters and
--                          clients to qualities of service that they implement (Refinement)
--   Broker/Dispatch        add_client, remove_client, process_outgoing_rows and publish of broker/broker.py,
--                          subscribe with its first message, unsubscribe of the texts of topics
--                          (Delivery)
--   Broker/MainLoop        main_loop of broker/broker.py, after publish (Publish)
--   Packet/Header          the header of packet/base_packet.py, read by servers/streams.py
--   Packet/Flags           packet/types/flag_group.py with the flags of publish and connect packets
--   Packet/Fields          packet/types/, the loops over fields of packet/base_packet.py, packet/packets.py
--                          (Classes, RoundTrip, Taken, Types)
--   Packet/Payload         packet/types/dynamic_list.py, the payload of each class of packets, and that of
--                          packet/connect.py (RoundTrip)
--   WebSocket/Frame        servers/websocket/frame.py
--   WebSocket/Handler      send_bytes, read_frames, read and close of servers/websocket/handler.py
--   WebSocket/Handshake    start_connection and get_handshake_response there (Keys)
--   SocketHandler          SocketHandler of servers/socket.py: read (Bounds), write and close
--   Server                 SocketServer of servers/socket.py: handle_client and stop (Stop, Raises), and its loop beside
--                          stop (Accepting)
--   Handler                servers/handler.py: packet ids (PacketIds), packet conditions, and the sending and
--                          receiving of messages (Messages; Exchange: its exchanges of packets)
--   Handler/Connection     its handle_subscribe, handle_unsubscribe, handle_disconnected, disconnect,
--                          override_connection and the end of its loops (Covers, Moves, Handlers, Ending)
--   Handler/Packets        its handle_packet, with the class that read_next_packet finds (Dispatch)
--   Handler/Identify       the start of its read_loop: the connect packet (Registers)
--   Handler/Writer         its write_loop with the queue of models/client.py, beside the other threads
--                          (Sends, Order, Drain)
--   Handler/System         all connections with the broker: the handlers as steps (Tracked, Link)
--   Backends               backends/worker.py and backends/manager.py: the worker and the calls of its owner
--                          as steps on what they share (Tasks, Races)
--   RecvUntil              utils/recv_until.py (Returns)
--   Tables                 tables/manager.py (Operations, Loading) and tables/models.py (Models)
--   Application            app.py and the settings of broker/broker.py (Arguments)
--   Tests                  runs, and the theorems at concrete inputs
--
-- Shared objects: what a walk over a nested dict returns stands in the tree, so that writing to it is a
-- write to the tree at its path. The locks of the broker order its operations; a handler that waits for a
-- packet is a value (Handler.Waiting) that goes on when the packet has come.
--
-- Bounds and fuel: next_packet_id runs on 65535 steps, at which the code gives up; the loop over a length
-- on the length itself, which each round divides; the pieces of a message on its number of bytes, of which
-- each piece takes one at least; the frames of an input on the number of its bytes, of which each frame
-- takes two at least, also for the buffered read; SocketHandler.read on the size, of which each round gets a byte;
-- a list of fields on the bytes that are left, of which each item takes one at least. recv_until may run for
-- ever: its fuel is a parameter, and one for each answer of the socket is enough where it ends at all.
--
-- Parameters: the JSON library (`json`, `treeify`, `loads`), the encoding of texts (`encode`, `decode`), the
-- table of messages of the database, with what a lookup gives after its two operations, Django's fields,
-- classes and commands in Tables, the encoding, SHA-1 and base 64 of the handshake, what a worker class answers to a query
-- (`query`) and of which tasks it raises, what closing the socket of a connection raises (`close_errno`), and for
-- which messages Broker.publish raises where a connection calls it (`publishing`; it is Broker/Dispatch.publish).
--
-- Sockets: what a socket delivers is a list of pieces, of which an answer of `recv` takes from one only, so that
-- it may be shorter than what is asked for. The fields of packets are read by the `read` of a websocket handler,
-- which gives just the bytes asked for; that of a socket handler may give more after a short answer. The `close`
-- in Handler.disconnect is that of a socket handler; that of a websocket handler does not shut down its socket
-- and is the case in which `close_errno` is none.
--
-- Interleaving: Handler/System runs the handlers of all connections one at a time, in any order, also behind
-- the end of their connection. A handler of several topics may be split into one step for each; that another
-- handler comes between a call of the broker and the change of the handler's own set is not modelled. Backends takes what runs
-- under `task_condition` as one step. Handler/Writer takes a handler, a call of send_message up to where it
-- blocks, and what follows as one step each; Server/Accepting a turn of each of its two loops.
--
-- Not modelled: sockets and their set-up in servers/ssl.py, the start of threads and processes, Django's
-- settings, logging, the constants of servers/websocket/constants.py, which nothing uses, and the order in
-- which a set is walked (a list stands for it).
pub mod Prelude
pub mod RecvUntil
pub mod Result
pub mod Dict
pub mod RecursiveDict
pub mod Topic
pub mod Protocols
pub mod Messages
pub mod TreeManager
pub mod Broker
pub mod Packet
pub mod WebSocket
pub mod Handler
pub mod Server
pub mod SocketHandler
pub mod Application
pub mod Backends
mod Tests
pub mod Tables
