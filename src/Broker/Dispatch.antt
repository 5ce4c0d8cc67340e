-- ===== src/Broker/Dispatch.antt =====
-- The clients of broker/broker.py and the messages that are queued for them. A client object is the
-- number of its connection, `clients` the dict of BrokerContext from client ids to clients.
pub mod Delivery
use mote_broker.Prelude.{
  ℕ, String, Bool, true, false, ◌=str=◌, if◌then◌else◌, Option, none, some, List, [], ◌∷◌, ◌++◌,
  map,
}
use mote_broker.Result.{Result, ok, err, attribute_error, ◌>>=◌}
use mote_broker.Dict.{Item, Dict, atom, dict, empty, entry, get, set, pop}
use mote_broker.Topic
use mote_broker.Topic.{Topic}
use mote_broker.Protocols.{Bytes, Retained, Row}
use mote_broker.Protocols.Messages.{Message, create_messages_for_subscriptions}
use mote_broker.Protocols.Filter.{leaf}
use mote_broker.Protocols.Flatten.{Scalar}
use mote_broker.Broker.Subscriptions.{Clients, Subscriptions, subscribe, then_rest, unsubscribe_one}
use mote_broker.Messages
use mote_broker.Messages.{IncomingMessage, OutgoingMessage, topic_of}
use mote_broker.TreeManager.{TreeState, process_message, get_message}

-- Broker.add_client: the dict with the client, and the client whose connection it overrides
unfoldable pub add_client : String → ℕ → Dict ℕ → Dict ℕ × Option (Item ℕ)
add_client id client clients = (set id (atom client) clients, get id clients)

-- Broker.remove_client, which only logs a missing client
unfoldable pub remove_client : Option String → Dict ℕ → Dict ℕ
remove_client none clients = clients
remove_client (some id) clients = if id =str= "" then clients else pop id clients

-- What is queued: the client and the message.
abbrev pub Queued : Type 0
Queued = ℕ × OutgoingMessage

-- client.queue_message(message), unless the client is gone
queue_for : Option (Item ℕ) → OutgoingMessage → List Queued → List Queued
queue_for (some (atom client)) m queued = (client, m) ∷ queued
queue_for _ m queued = queued

-- the loop over client_list.items(), in which each value is a quality of service
unfoldable pub queue_messages : Dict ℕ → String → Retained → Clients → List Queued
unfolding queue_for
queue_messages clients topic payload empty = []
queue_messages clients topic payload (entry id (dict d) rest) =
    queue_messages clients topic payload rest
queue_messages clients topic payload (entry id (atom qos) rest) =
    queue_for (get id clients) (record { topic = topic; qos = qos; payload = leaf payload })
      (queue_messages clients topic payload rest)

-- str(Topic.from_nodes(topic_nodes)), which raises where there is no first node
unfoldable pub topic_text : List String → Result String
topic_text [] = err attribute_error
topic_text (n ∷ nodes) = elim (Topic.from_nodes (n ∷ nodes) none) [
  | none ↦ err attribute_error
  | some t ↦ ok (Topic.full_str t)
]

-- one message, with the text of its topic, before the rest of the loop
queue_message :
    Dict ℕ
    → Retained
    → Result (Unit {0}) × List Queued
    → Result String
    → Item Clients
    → Result (Unit {0}) × List Queued
unfolding queue_messages
queue_message clients payload (done, more) (err e) client_list = (err e, [])
queue_message clients payload (done, more) (ok topic) (dict d) = (err attribute_error, [])
queue_message clients payload (done, more) (ok topic) (atom client_list) =
    (done, queue_messages clients topic payload client_list ++ more)

-- the loop over the messages: what is queued before an exception stays queued
unfoldable pub queue_all : Dict ℕ → List (Message Clients) → Result (Unit {0}) × List Queued
unfolding queue_message topic_text
queue_all clients [] = (ok tt, [])
queue_all clients (m ∷ messages) =
    queue_message clients m.payload (queue_all clients messages) (topic_text m.topic) m.clients

after_messages : Dict ℕ → Result (List (Message Clients)) → Result (Unit {0}) × List Queued
after_messages clients (err e) = (err e, [])
after_messages clients (ok messages) = queue_all clients messages

unfoldable pub process_outgoing_rows :
    (Dict Retained → Result Bytes)
    → Subscriptions
    → Dict ℕ
    → List Row
    → Result (Unit {0}) × List Queued
unfolding after_messages queue_all
process_outgoing_rows json subs clients rows =
    after_messages clients (create_messages_for_subscriptions json subs rows)

-- What Broker.publish hands on: tasks for the tables, or rows for the broadcast queue.
pub data Handed : Type 0 where
  table_task : Topic → Retained → ℕ → Handed
  broadcast : List Row → Handed

unfoldable pub broadcast_rows : Result (List Row) × TreeState → Result Handed × TreeState
broadcast_rows (r, s) = (r >>= λ rows. ok (broadcast rows), s)

unfoldable pub publish_to :
    (Bytes → Result (Item Scalar))
    → (String → Bytes)
    → IncomingMessage
    → TreeState
    → Result Bool
    → Result Handed × TreeState
unfolding broadcast_rows
publish_to treeify encode m s (err e) = (err e, s)
publish_to treeify encode m s (ok true) = (ok (table_task m.topic m.payload m.qos), s)
publish_to treeify encode m s (ok false) = broadcast_rows (
    if m.retain
    then process_message treeify encode m s
    else ((Messages.as_single_row m >>= λ r. ok (r ∷ [])), s))

unfoldable pub publish :
    (Bytes → Result (Item Scalar))
    → (String → Bytes)
    → IncomingMessage
    → TreeState
    → Result Handed × TreeState
unfolding publish_to
publish treeify encode m s = publish_to treeify encode m s (Messages.table m)

-- The message that a subscription asks for at once: of the tree, or of a table (`table_message` is
-- TableManager.get_message), or none.
unfoldable pub first_message :
    (Dict Retained → Result Bytes)
    → (Topic → ℕ → Result OutgoingMessage)
    → Topic
    → ℕ
    → Bool
    → TreeState
    → Result (List OutgoingMessage)
first_message json table_message topic qos true s = do m ← get_message json topic qos s; ok (m ∷ [])
first_message json table_message topic qos false s = do
  table ← Topic.for_table topic
  (if table then (table_message topic qos >>= λ m. ok (m ∷ [])) else ok [])

-- with self.subscription_lock: an exception before it leaves the subscriptions alone
unfoldable pub subscribe_after :
    String
    → ℕ
    → ℕ
    → Topic
    → Subscriptions
    → Result (List OutgoingMessage)
    → Result Bool × List Queued × Subscriptions
subscribe_after id client qos topic subs (err e) = (err e, [], subs)
subscribe_after id client qos topic subs (ok messages) =
    let (done, subs') = subscribe id (Topic.node_list topic) qos subs in
    (done, map (λ m. (client, m)) messages, subs')

unfoldable pub subscribe_topic :
    (Dict Retained → Result Bytes)
    → (Topic → ℕ → Result OutgoingMessage)
    → String
    → ℕ
    → ℕ
    → Bool
    → TreeState
    → Subscriptions
    → Result Topic
    → Result Bool × List Queued × Subscriptions
unfolding subscribe_after
subscribe_topic json table_message id client qos wants_tree s subs (err e) = (err e, [], subs)
subscribe_topic json table_message id client qos wants_tree s subs (ok topic) =
    subscribe_after id client qos topic subs
      (first_message json table_message topic qos wants_tree s)

-- Broker.subscribe
unfoldable pub subscribe_client :
    (Dict Retained → Result Bytes)
    → (Topic → ℕ → Result OutgoingMessage)
    → String
    → ℕ
    → String
    → ℕ
    → Bool
    → TreeState
    → Subscriptions
    → Result Bool × List Queued × Subscriptions
unfolding subscribe_topic
subscribe_client json table_message id client topic_str qos wants_tree s subs =
    subscribe_topic json table_message id client qos wants_tree s subs (topic_of topic_str)

-- Broker.unsubscribe, of the texts of topics
unfoldable pub unsubscribe_topic :
    String
    → (Subscriptions → Result Bool × Subscriptions)
    → Subscriptions
    → Result Topic
    → Result Bool × Subscriptions
unsubscribe_topic id rest subs (err e) = (err e, subs)
unsubscribe_topic id rest subs (ok topic) =
    then_rest rest (unsubscribe_one id (Topic.node_list topic) subs)

unfoldable pub unsubscribe_client :
    String → List String → Subscriptions → Result Bool × Subscriptions
unfolding unsubscribe_topic
unsubscribe_client id [] subs = (ok true, subs)
unsubscribe_client id (topic_str ∷ topics) subs =
    unsubscribe_topic id (unsubscribe_client id topics) subs (topic_of topic_str)
