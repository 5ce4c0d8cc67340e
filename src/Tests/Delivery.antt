-- ===== src/Tests/Delivery.antt =====
-- Witness about the delivery of messages to the clients of the broker.
use mathlib.Core.Path.{subst}
use mathlib.Core.List.{Memᴰ}
use mathlib.Core.List.Memᴰ
use mote_broker.Prelude.{false, none, ℕ, String, ◌≡◌, refl, sym, some, List, [], ◌∷◌, inl, inr}
use mote_broker.Result.{Result, ok}
use mote_broker.Dict.{Item, Dict, atom, empty, get, set}
use mote_broker.RecursiveDict.{lshift, assign, find, make}
use mote_broker.Protocols.{Bytes, Retained, Row, is_node_static}
use mote_broker.Protocols.Messages.{build_message_data, place_rows}
use mote_broker.Protocols.Matching.{filters}
use mote_broker.Broker.Subscriptions.{Clients, subscribe}
use mote_broker.Broker.Subscriptions.Refinement.{quality}
use mote_broker.Broker.Dispatch.Delivery.{IsBuilt}
use mote_broker.Broker.Dispatch.{publish, broadcast}
use mote_broker.Broker.Dispatch.Delivery.{Gets}
use mote_broker.Broker.MainLoop.{Round, main_loop}
use mote_broker.Broker.MainLoop.Publish.{IsPlainMessage, publish-delivers}
use mote_broker.Messages.{IncomingMessage, table}
use mote_broker.Topic.{below, root, node_list, for_table}
use mote_broker.Protocols.Applicable.{all_static}
use mote_broker.Protocols.Flatten.{other}
use mote_broker.TreeManager.{TreeState}
use mote_broker.Tests.Trees.{bedroom, lights, two, two-IsValid}

abbrev some_json : Dict Retained → Result Bytes
some_json tree = ok (123 ∷ 125 ∷ [])

-- one row, for light/bedroom, and client "b" of light/+ alone
abbrev rows : List Row
rows = record { topic = bedroom; payload = some (49 ∷ []); qos = 0 } ∷ []

abbrev clients : Dict ℕ
clients = set "b" (atom 7) empty

two-IsBuilt : (s : List String × Item Clients) → Memᴰ s (filters two) → IsBuilt some_json rows s.0
unfolding subscribe lshift find get set assign make build_message_data place_rows is_node_static
two-IsBuilt s m = elim (Memᴰ.cases_cons m) [
  | inl e ↦ subst (λ t. IsBuilt some_json rows t.0) (sym e) (λ h. cc)
  | inr m' ↦ elim (Memᴰ.cases_cons m') [
    | inl e ↦ subst (λ t. IsBuilt some_json rows t.0) (sym e) (λ h. (_, refl))
    | inr m'' ↦ absurd (Memᴰ.not-nil m'')
  ]
]

abbrev note : IncomingMessage
note = record {
  topic = below (root "light" none) "bedroom" none;
  qos = 0;
  retain = false;
  graft = false;
  payload = some (49 ∷ []);
}

note-IsPlainMessage : IsPlainMessage note
unfolding table for_table node_list all_static is_node_static
note-IsPlainMessage = record {
  no_table = refl;
  no_retain = refl;
  static = refl;
  nodes = (refl, (refl, tt));
  named = λ e. cc;
}

abbrev quiet_round : Round
quiet_round = record { subscriptions = empty; clients = empty; rows = [] }

abbrev nobody : TreeState
nobody = record { tree = empty; tasks = [] }

-- between two rounds of the main loop without rows
publish-delivers_example :
    (publish (λ bytes. ok (atom other)) (λ s. []) note nobody ≡ (ok (broadcast (rows)), nobody))
    × Gets some_json rows 7 lights 2 (
        main_loop some_json
          (quiet_round
            ∷ (record { subscriptions = two; clients = clients; rows = rows } ∷ quiet_round ∷ []))
          [])
unfolding node_list quality subscribe lshift find get set assign make
publish-delivers_example =
    publish-delivers some_json (λ bytes. ok (atom other)) (λ s. []) note nobody two clients
      (quiet_round ∷ []) (quiet_round ∷ []) [] lights "b" 2 7 note-IsPlainMessage two-IsValid.proper
      two-IsBuilt refl refl refl
