-- ===== src/Tests/Systems.antt =====
-- Witnesses about connections, worker processes, payloads and tables.
use mote_broker.Prelude.{
  ℕ, suc, String, ◌≡◌, refl, Bool, true, false, not, ◌==◌, if◌then◌else◌, none, some, List, [], ◌∷◌,
  arith, ◌⊎◌,
}
use mote_broker.Result.{Result, ok, err, io_error, unknown_operation}
use mote_broker.Dict.{Dict, empty}
use mote_broker.RecursiveDict.Find.{find-empty}
use mote_broker.Topic.{Topic, root, below, node_list, from_nodes}
use mote_broker.Protocols.{Bytes, Retained}
use mote_broker.TreeManager.{TreeState}
use mote_broker.Tests.Trees.{no_subs-IsValid}
use mote_broker.SocketHandler.{tolerated}
use mote_broker.Messages.{OutgoingMessage}
use mote_broker.Broker.Subscriptions.Refinement.{quality}
use mote_broker.Handler.Connection.{Connection, BrokerState, handle_subscribe, disconnect}
use mote_broker.Handler.{Session}
use mote_broker.Handler.Packets.{handle_next}
use mote_broker.Handler.Packets.Dispatch.{is_ok, takes, handle_next-takes}
use mote_broker.Handler.System.{
  Reach, IsTimely, changed, changes, System, put, both, subscribes, disconnects, here, next,
}
use mote_broker.Handler.System.Tracked.{IsTracked, Reach-IsTracked}
use mote_broker.Backends
use mote_broker.Backends.{Shared, waiting, failed, add_tasks, init, by_add_tasks, by_worker, check}
use mote_broker.Backends.Tasks.{IsAccounted, Reach-IsAccounted}
use mote_broker.Backends.Races.{Works, add_tasks-runs}
use mote_broker.Packet.Fields.{fields_to_bytes, field_to_bytes, int, static_int}
use mote_broker.Packet.Payload.{read_payload}
use mote_broker.Packet.Payload.RoundTrip.{read_payload-list}
use mote_broker.RecvUntil.{find, starts_with, recv_until}
use mote_broker.RecvUntil.Returns.{Found, recv_until-returns}
use mote_broker.Tables.{
  TableWorker, run_tasks, handle_operation, handle_nodes, operate, operator_map, write_objects,
  caught, and_rest,
}
use mote_broker.Tables.Models.{FieldClass, build, field_class_map}
use mote_broker.Tables.Operations.{run_tasks-unknown, create_table-unknown_type}

-- a connection of client "a" that is linked
abbrev pub fresh : Connection
fresh = record {
  id = "a";
  client = 1;
  subscriptions = [];
  alive = true;
  linked = true;
  connection_override = false;
  last_will = none;
  close_errno = none;
}

abbrev pub quiet : BrokerState
quiet = record {
  subscriptions = empty;
  clients = empty;
  queued = [];
  published = [];
  publishing = λ m. ok tt;
}

abbrev pub start : System
start = record { connections = λ n. fresh; broker = quiet }

abbrev pub no_json : Dict Retained → Result Bytes
no_json tree = ok []

abbrev pub no_tree : TreeState
no_tree = record { tree = empty; tasks = [] }

abbrev pub no_table : Topic → ℕ → Result OutgoingMessage
no_table topic qos = err unknown_operation

-- a connection that waits for the puback packet with the id 7
abbrev awaiting : Session
awaiting = record {
  connected = true;
  used_ids = 7 ∷ [];
  packet_conditions = record { type_code = 4; id = 7; result = false; condition = 0 } ∷ [];
  conditions_made = 1;
  written = [];
  published = [];
  publishing = λ m. ok tt;
}

handle_next-takes_example :
    (is_ok (handle_next 5 7 awaiting).0 ≡ false)
    × (takes 5 false ≡ false → (handle_next 5 7 awaiting).1 ≡ awaiting)
handle_next-takes_example = handle_next-takes 5 7 awaiting

-- nothing was added, and the worker waits
abbrev idle : Shared ℕ Bool
idle = record { running = true; slot = none; tasks = []; stage = waiting; added = []; ran = [] }

pub start-IsTracked : IsTracked start
unfolding quality
start-IsTracked = record {
  valid = no_subs-IsValid;
  tracked = λ q j h. absurd (h (rw (find-empty {A = Dict ℕ} q) refl));
}

-- connection 1 subscribes to two topics
abbrev subscribed_start : System
subscribed_start =
    put 1 start
      (handle_subscribe no_json no_table no_tree (("light/a", 1) ∷ ("light/b", 2) ∷ [])
        (both 1 start)).1

-- connection 1 alone is linked, subscribes, and ends; its last will raises
abbrev pub single : System
single = record {
  connections = λ n. if 1 == n then fresh else record fresh { linked = false };
  broker = quiet;
}

pub single-IsTracked : IsTracked single
unfolding quality
single-IsTracked = record {
  valid = start-IsTracked.valid;
  tracked = λ q j h. absurd (h (rw (find-empty {A = Dict ℕ} q) refl));
}

abbrev pub requests : List (String × ℕ)
requests = ("light/a", 1) ∷ ("light/b", 2) ∷ []

abbrev subscribed_single : System
subscribed_single =
    put 1 single (handle_subscribe no_json no_table no_tree requests (both 1 single)).1

abbrev raising : System
raising = changed 1 (some 107) (λ m. err io_error) subscribed_single

abbrev disconnected : System
disconnected = put 1 raising (disconnect (both 1 raising)).1

abbrev session_of_single : Reach no_json no_table single disconnected
session_of_single =
    next
      (next (next here (subscribes 1 requests no_tree)) (changes 1 (some 107) (λ m. err io_error)))
      (disconnects 1)

session_of_single-IsTimely : IsTimely no_json no_table session_of_single
unfolding IsTimely changed tolerated handle_subscribe
session_of_single-IsTimely = (((tt, (refl, refl)), tt), refl)

Reach-IsTracked_example : IsTracked disconnected
Reach-IsTracked_example =
    Reach-IsTracked session_of_single session_of_single-IsTimely single-IsTracked

Reach-IsAccounted_example : IsAccounted (add_tasks (7 ∷ []) (init {T = ℕ} {V = Bool}))
Reach-IsAccounted_example =
    Reach-IsAccounted (λ v. v) (λ v. some (not v)) (λ ts. true)
      (Backends.next Backends.here (by_add_tasks (7 ∷ [])))

add_tasks-runs_example :
    (u : Shared ℕ Bool) × Works
      (λ v. v)
      (λ v. some (not v))
      (λ ts. true)
      (add_tasks (7 ∷ 8 ∷ []) idle)
      u
    × (u.ran ≡ 7 ∷ 8 ∷ [])
    × (u.tasks ≡ [])
    × (u.stage ≡ failed [])
add_tasks-runs_example =
    add_tasks-runs (λ v. v) (λ v. some (not v)) (λ ts. true) idle 7 (8 ∷ []) refl refl refl

-- the delimiter comes in two pieces
recv_until-returns_example :
    (f : Found (13 ∷ 10 ∷ []) (71 ∷ 13 ∷ 10 ∷ 5 ∷ [])) × (recv_until
        (λ bytes. ok "G")
        (13 ∷ 10 ∷ [])
        ((71 ∷ 13 ∷ []) ∷ (10 ∷ 5 ∷ []) ∷ [])
        2
      ≡ some (ok "G"))
unfolding find starts_with
recv_until-returns_example =
    recv_until-returns (λ bytes. ok "G") (13 ∷ 10 ∷ []) ((71 ∷ 13 ∷ []) ∷ (10 ∷ 5 ∷ []) ∷ []) 2 1
      (omega arith) refl

read_payload-list_example :
    read_payload
      (λ bytes. "")
      (record { heads = static_int 2 ∷ []; list = some (static_int 1 ∷ []) })
      4
      (0 ∷ 5 ∷ 1 ∷ 128 ∷ 9 ∷ [])
    ≡ ok (((int 5 ∷ [], (int 1 ∷ []) ∷ (int 128 ∷ []) ∷ []), 4), 9 ∷ [])
unfolding fields_to_bytes field_to_bytes
read_payload-list_example =
    read_payload-list (λ s. []) (λ bytes. "") refl (static_int 2 ∷ []) (int 5 ∷ []) (static_int 1)
      [] ((int 1 ∷ []) ∷ (int 128 ∷ []) ∷ []) (0 ∷ 5 ∷ []) (1 ∷ 128 ∷ []) (9 ∷ []) (tt, tt) (tt, tt)
      (tt, tt) ((tt, tt), ((tt, tt), tt)) refl refl

-- the topics of tasks: "@$/t", "@x/t" and "@&/t"
abbrev task_topic : String → Topic
task_topic operator = below (root operator none) "t" none

abbrev no_tables : TableWorker ℕ ℕ
no_tables = record { models = []; database = 0 }

run_tasks-unknown_example :
    run_tasks
      (λ table. ok 0)
      (λ table d. (suc d, ok tt))
      (λ d. (d, ok tt))
      (λ d. (d, ok tt))
      (λ c d. (d, ok tt))
      ((task_topic "@$", 1 ∷ []) ∷ (task_topic "@x", []) ∷ (task_topic "@&", []) ∷ [])
      no_tables
    ≡ (no_tables, err unknown_operation)
unfolding node_list run_tasks handle_operation handle_nodes operate operator_map write_objects
    caught and_rest
run_tasks-unknown_example =
    run_tasks-unknown (λ table. ok 0) (λ table d. (suc d, ok tt)) (λ d. (d, ok tt))
      (λ d. (d, ok tt)) (λ c d. (d, ok tt)) ((task_topic "@$", 1 ∷ []) ∷ [])
      ((task_topic "@&", []) ∷ []) (task_topic "@x") [] "@x" ("t" ∷ []) no_tables
      (("@$", "t" ∷ [], refl, refl), tt) refl refl

abbrev make_field : FieldClass → ℕ → Result FieldClass
make_field type_class attrs = ok type_class

abbrev make_class : String → List (String × (FieldClass ⊎ String)) → Result ℕ
make_class name attrs = ok 0

-- a field of the type "void"
abbrev loads : Bytes → Result (List (String × (String × ℕ)))
loads bytes = ok (("f", ("void", 0)) ∷ [])

create_table-unknown_type_example :
    handle_operation
      (build make_field make_class loads)
      (λ table d. (suc d, ok tt))
      (λ d. (d, ok tt))
      (λ d. (d, ok tt))
      (λ c d. (d, ok tt))
      (task_topic "@&")
      (1 ∷ [])
      (record { models = []; database = 0 })
    ≡ (record { models = []; database = 0 }, ok (some false))
unfolding node_list from_nodes field_class_map
create_table-unknown_type_example =
    create_table-unknown_type make_field make_class loads (λ table d. (suc d, ok tt))
      (λ d. (d, ok tt)) (λ d. (d, ok tt)) (λ c d. (d, ok tt)) (task_topic "@&") (root "t" none)
      (1 ∷ []) ("t" ∷ []) (("f", ("void", 0)) ∷ []) (record { models = []; database = 0 }) refl refl
      refl refl
