-- ===== src/Broker/MainLoop/Publish.antt =====
-- From Broker.publish over the broadcast queue to the queues of the clients.
use mathlib.Core.List.{Memᴰ}
use mathlib.Core.List.Memᴰ
use mote_broker.Prelude.{
  ℕ, String, ◌≡◌, ◌≢◌, refl, true, false, Bool-cases, inl, inr, some, List, [], ◌∷◌, ◌++◌, All,
}
use mote_broker.Result.{Result, ok}
use mote_broker.Dict.{Item, Dict, atom, get}
use mote_broker.RecursiveDict.Shape.{IsTree, IsNode}
use mote_broker.Topic
use mote_broker.Protocols.{Bytes, Retained, Row}
use mote_broker.Protocols.Applicable.{all_static}
use mote_broker.Protocols.Flatten.{Scalar}
use mote_broker.Protocols.Messages.{is_nil}
use mote_broker.Protocols.Matching.{matches, filters}
use mote_broker.Messages
use mote_broker.Messages.{IncomingMessage}
use mote_broker.TreeManager.{TreeState}
use mote_broker.Broker.Subscriptions.{Clients, Subscriptions}
use mote_broker.Broker.Subscriptions.Refinement.{quality}
use mote_broker.Broker.Dispatch.{
  Queued, broadcast, broadcast_rows, publish_to, publish, process_outgoing_rows,
}
use mote_broker.Broker.Dispatch.Delivery.{IsBuilt, Gets, process_outgoing_rows-delivers}
use mote_broker.Broker.MainLoop.{Round, run_round, main_loop}

module _ (json : Dict Retained → Result Bytes) where
  run_round-keeps :
      (r : Round) (queued : List Queued) (q : Queued)
      → Memᴰ q queued
      → Memᴰ q (run_round json r queued)
  unfolding run_round
  run_round-keeps r queued q m = elim (Bool-cases (is_nil r.rows)) [
    | inl e ↦ rw e m
    | inr e ↦ rw e (Memᴰ.append_left _ m)
  ]

  main_loop-keeps :
      (rounds : List Round) (queued : List Queued) (q : Queued)
      → Memᴰ q queued
      → Memᴰ q (main_loop json rounds queued)
  unfolding main_loop
  main_loop-keeps [] queued q m = m
  main_loop-keeps (r ∷ rounds) queued q m =
      main_loop-keeps rounds _ q (run_round-keeps r queued q m)

  -- What a round queues is queued at the end, whatever the other rounds do or raise.
  pub main_loop-queues :
      (before after : List Round) (r : Round) (queued : List Queued) (q : Queued)
      → is_nil r.rows ≡ false
      → Memᴰ q (process_outgoing_rows json r.subscriptions r.clients r.rows).1
      → Memᴰ q (main_loop json (before ++ (r ∷ after)) queued)
  unfolding main_loop run_round
  main_loop-queues [] after r queued q some_row m =
      main_loop-keeps after _ q (rw some_row (Memᴰ.append_right queued m))
  main_loop-queues (b ∷ before) after r queued q some_row m =
      main_loop-queues before after r (run_round json b queued) q some_row m

-- A message of a topic without wildcards that is neither retained nor for a table.
pub record IsPlainMessage (m : IncomingMessage) : Type 0 where
  pub no_table : Messages.table m ≡ ok false
  pub no_retain : m.retain ≡ false
  pub static : all_static (Topic.node_list m.topic) ≡ true
  pub nodes : All IsNode (Topic.node_list m.topic)
  pub named : Topic.node_list m.topic ≢ []

abbrev pub row_of : IncomingMessage → Row
row_of m = record { topic = Topic.node_list m.topic; payload = m.payload; qos = m.qos }

publish-broadcasts :
    (treeify : Bytes → Result (Item Scalar)) (encode : String → Bytes) (m : IncomingMessage)
    (s : TreeState)
    → IsPlainMessage m
    → publish treeify encode m s ≡ (ok (broadcast (row_of m ∷ [])), s)
unfolding publish publish_to broadcast_rows Messages.as_single_row
publish-broadcasts treeify encode m s p = rw (p.no_table, p.no_retain, p.static)

module _ (json : Dict Retained → Result Bytes) where
  -- A plain message that is published is broadcast as one row, and once the main loop takes it, a client
  -- that is then registered and subscribed to a filter which the topic matches gets it, whatever rounds
  -- come before and after: under the filter, with the quality of service of its subscription and the
  -- payload built of the row. This is where the payload of each filter of the subscriptions that has
  -- wildcards can be built: otherwise the round is lost.
  pub publish-delivers :
      (treeify : Bytes → Result (Item Scalar)) (encode : String → Bytes) (m : IncomingMessage)
      (s : TreeState) (subs : Subscriptions) (clients : Dict ℕ) (before after : List Round)
      (queued : List Queued) (f : List String) (id : String) (qos c : ℕ)
      → IsPlainMessage m
      → IsTree subs
      → ((g : List String × Item Clients)
          → Memᴰ g (filters subs)
          → IsBuilt json (row_of m ∷ []) g.0)
      → quality subs f id ≡ some (atom qos)
      → get id clients ≡ some (atom c)
      → matches f (Topic.node_list m.topic) ≡ true
      → (publish treeify encode m s ≡ (ok (broadcast (row_of m ∷ [])), s))
        × Gets json (row_of m ∷ []) c f qos (
            main_loop json
              (before
                ++ (record { subscriptions = subs; clients = clients; rows = row_of m ∷ [] }
                    ∷ after))
              queued)
  publish-delivers treeify encode m s subs clients before after queued f id qos c p t built h k
        hit =
      let (returned, (payload, b, there)) =
        process_outgoing_rows-delivers json clients (row_of m ∷ []) subs f id qos c t (p.nodes, tt)
          (p.named, tt) built h k (rw hit refl) in
      (
        publish-broadcasts treeify encode m s p,
        (
          payload,
          b,
          main_loop-queues json before after
              (record { subscriptions = subs; clients = clients; rows = row_of m ∷ [] }) queued _
              refl there,
        ),
      )
