-- ===== src/Broker/Dispatch/Delivery/Queues.antt =====
-- What broker/broker.py queues for the clients of a list, and the text of its topic.
use mathlib.Core.List.{Memᴰ}
use mote_broker.Prelude.{
  ℕ, String, ◌≡◌, ◌≢◌, refl, ap, sym, false, ◌=str=◌, eq_iff, Bool-cases, inl, inr, Option, none,
  some, List, [], ◌∷◌,
}
use mote_broker.Result.{ok}
use mote_broker.Dict.{Item, Dict, atom, dict, empty, entry, get}
use mote_broker.RecursiveDict.{find}
use mote_broker.Topic.{str_or_join}
use mote_broker.Topic.Split.{join}
use mote_broker.Topic.RoundTrip.{from_nodes-node_list}
use mote_broker.Protocols.{Retained, Row}
use mote_broker.Protocols.Filter.{leaf}
use mote_broker.Protocols.Messages.{is_nil, last_payload}
use mote_broker.Broker.Subscriptions.{Clients, Subscriptions}
use mote_broker.Broker.Subscriptions.Refinement.{quality, quality_in}
use mote_broker.Messages.{OutgoingMessage}
use mote_broker.Broker.Dispatch.{Queued, queue_for, queue_messages, topic_text}

-- The text of a topic is its nodes, joined.
pub topic_text-join : (f : List String) → f ≢ [] → topic_text f ≡ ok (join f)
unfolding topic_text str_or_join
topic_text-join [] h = absurd (h refl)
topic_text-join (n ∷ f) h =
    let (t, made, nodes, text) = from_nodes-node_list (n ∷ f) none h in rw (topic_text, made, text)

queue_for-mem :
    (o : Option (Item ℕ)) (m : OutgoingMessage) (queued : List Queued) (q : Queued)
    → Memᴰ q queued
    → Memᴰ q (queue_for o m queued)
unfolding queue_for
queue_for-mem none m queued q h = h
queue_for-mem (some (dict d)) m queued q h = h
queue_for-mem (some (atom c)) m queued q h = Memᴰ.tail h

pub last_payload-returns :
    (rows : List Row)
    → is_nil rows ≡ false
    → (payload : Retained) × (last_payload rows ≡ ok payload)
unfolding last_payload
last_payload-returns [] h = cc
last_payload-returns (r ∷ []) h = (r.payload, refl)
last_payload-returns (r ∷ s ∷ rows) h = last_payload-returns (s ∷ rows) refl

-- A client of the list that is registered gets the message.
pub queue_messages-mem :
    (clients : Dict ℕ) (topic : String) (payload : Retained) (cl : Clients) (id : String)
    (qos c : ℕ)
    → get id cl ≡ some (atom qos)
    → get id clients ≡ some (atom c)
    → Memᴰ
        (c, record { topic = topic; qos = qos; payload = leaf payload })
        (queue_messages clients topic payload cl)
unfolding queue_messages get queue_for
queue_messages-mem clients topic payload empty id qos c h k = cc
queue_messages-mem clients topic payload (entry j (dict d) rest) id qos c h k =
    elim (Bool-cases (j =str= id)) [
      | inl e ↦ let no : some (dict d) ≡ some (atom qos) = rw e at h in cc
      | inr e ↦ queue_messages-mem clients topic payload rest id qos c (rw e at h) k
    ]
queue_messages-mem clients topic payload (entry j (atom q) rest) id qos c h k =
    elim (Bool-cases (j =str= id)) [
      | inl e ↦
          let here : some (atom q) ≡ some (atom qos) = rw e at h in
          let same : q ≡ qos = cc in
          rw ((eq_iff j id).0 e, k)
            (Memᴰ.head
              (ap (λ n. (c, record { topic = topic; qos = n; payload = leaf payload })) (sym same)))
      | inr e ↦
          queue_for-mem _ _ _ _
            (queue_messages-mem clients topic payload rest id qos c (rw e at h) k)
    ]

-- A subscription stands in the client list of its filter.
pub quality-find :
    (subs : Subscriptions) (f : List String) (id : String) (qos : ℕ)
    → quality subs f id ≡ some (atom qos)
    → (cl : Clients) × (find f subs ≡ some cl) × (get id cl ≡ some (atom qos))
unfolding quality quality_in
quality-find subs f id qos h = by_list (find f subs) refl h
  where
    by_list :
        (o : Option Clients)
        → find f subs ≡ o
        → quality_in id o ≡ some (atom qos)
        → (cl : Clients) × (find f subs ≡ some cl) × (get id cl ≡ some (atom qos))
    by_list none e g = cc
    by_list (some cl) e g = (cl, e, g)
