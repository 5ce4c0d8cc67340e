-- ===== src/Handler/Connection.antt =====
-- servers/handler.py: the subscriptions of a connection and its end. `id` is the client id of a
-- connection that has one, `client` stands for the object itself. A packet's handler gives what it
-- writes as its result: the response codes of one acknowledgement, or how many were written.
pub mod Covers
pub mod Moves
pub mod Handlers
pub mod Ending
use Prim.Native.Char.{Char}
use mote_broker.Prelude.{
  ℕ, ◌+◌, String, Bool, true, false, not, ◌=str=◌, if◌then◌else◌, Option, none, some, List, [], ◌∷◌,
  ◌++◌, keep, exists,
}
use mote_broker.Result.{Result, ok, err, index_error, ◌>>=◌}
use mote_broker.Dict.{Dict}
use mote_broker.Topic.{Topic}
use mote_broker.Topic.Split.{is_sep}
use mote_broker.Protocols.{Bytes, Retained}
use mote_broker.Messages.{IncomingMessage, OutgoingMessage}
use mote_broker.TreeManager.{TreeState}
use mote_broker.Broker.Subscriptions.{Subscriptions}
use mote_broker.SocketHandler.{tolerated}
use mote_broker.Broker.Dispatch.{Queued, subscribe_client, unsubscribe_client, remove_client}

pub record Connection : Type 0 where
  pub id : String
  pub client : ℕ
  pub subscriptions : List String
  pub alive : Bool
  pub linked : Bool
  pub connection_override : Bool
  pub last_will : Option IncomingMessage
  -- what `shutdown` of its socket raises, if it raises
  pub close_errno : Option ℕ

-- The part of the broker that connections change: `published` is what Broker.publish is called with.
pub record BrokerState : Type 0 where
  pub subscriptions : Subscriptions
  pub clients : Dict ℕ
  pub queued : List Queued
  pub published : List IncomingMessage
  -- whether Broker.publish raises for a message
  pub publishing : IncomingMessage → Result (Unit {0})

abbrev pub Both : Type 0
Both = Connection × BrokerState

-- self.subscriptions.add(topic) and .remove(topic), of a set
unfoldable pub add_topic : String → List String → List String
add_topic topic topics =
    if exists (λ other. other =str= topic) topics then topics else topics ++ (topic ∷ [])

unfoldable pub remove_topic : String → List String → List String
remove_topic topic topics = keep (λ other. not (other =str= topic)) topics

-- `tree` and `topic_str` of a request; `request.topic[0]` of an empty text is an IndexError
unfoldable pub request_topic : String → Result (Bool × String)
request_topic String.[] = err index_error
request_topic (String.◌∷◌ c s) = ok (if is_sep c then (true, s) else (false, String.◌∷◌ c s))

-- what Broker.subscribe returned, and the lines behind it
pub subscribed :
    String
    → ℕ
    → Connection
    → BrokerState
    → Result Bool × List Queued × Subscriptions
    → Result ℕ × Both
subscribed topic_str qos c b (err e, queued, subs) =
    (err e, (c, record b { subscriptions = subs; queued = b.queued ++ queued }))
subscribed topic_str qos c b (ok false, queued, subs) =
    (ok 0x80, (c, record b { subscriptions = subs; queued = b.queued ++ queued }))
subscribed topic_str qos c b (ok true, queued, subs) = (
  ok qos,
  (
    record c { subscriptions = add_topic topic_str c.subscriptions },
    record b { subscriptions = subs; queued = b.queued ++ queued },
  ),
)

-- the rest of the loop over the requests
pub more_codes : (Both → Result (List ℕ) × Both) → Result ℕ × Both → Result (List ℕ) × Both
more_codes rest (err e, s) = (err e, s)
more_codes rest (ok code, s) = let (codes, t) = rest s in (codes >>= λ l. ok (code ∷ l), t)

module _ (json : Dict Retained → Result Bytes) (table_message : Topic → ℕ → Result OutgoingMessage)
    (tree : TreeState) where
  pub subscribe_to : ℕ → Both → Result (Bool × String) → Result ℕ × Both
  unfolding subscribed
  subscribe_to qos (c, b) (err e) = (err e, (c, b))
  subscribe_to qos (c, b) (ok (wants_tree, topic_str)) = subscribed topic_str qos c b (
      subscribe_client json table_message c.id c.client topic_str qos wants_tree tree
        b.subscriptions)

  -- Handler.handle_subscribe: the response codes of the requests, each a topic with a quality
  unfoldable pub handle_subscribe : List (String × ℕ) → Both → Result (List ℕ) × Both
  unfolding subscribe_to more_codes
  handle_subscribe [] s = (ok [], s)
  handle_subscribe ((topic, qos) ∷ requests) s =
      more_codes (handle_subscribe requests) (subscribe_to qos s (request_topic topic))

-- what Broker.unsubscribe returned, and the lines behind it
pub unsubscribed : String → Both → Result Bool × Subscriptions → Result ℕ × Both
unsubscribed topic (c, b) (err e, subs) = (err e, (c, record b { subscriptions = subs }))
unsubscribed topic (c, b) (ok false, subs) = (ok 0, (c, record b { subscriptions = subs }))
unsubscribed topic (c, b) (ok true, subs) = (
  ok 1,
  (
    record c { subscriptions = remove_topic topic c.subscriptions },
    record b { subscriptions = subs },
  ),
)

pub more_written : (Both → Result ℕ × Both) → Result ℕ × Both → Result ℕ × Both
more_written rest (err e, s) = (err e, s)
more_written rest (ok n, s) = let (written, t) = rest s in (written >>= λ m. ok (n + m), t)

-- Handler.handle_unsubscribe: how many acknowledgements are written
unfoldable pub handle_unsubscribe : List String → Both → Result ℕ × Both
unfolding unsubscribed more_written
handle_unsubscribe [] s = (ok 0, s)
handle_unsubscribe (topic ∷ topics) (c, b) =
    more_written (handle_unsubscribe topics)
      (unsubscribed topic (c, b) (unsubscribe_client c.id (topic ∷ []) b.subscriptions))

-- if self.last_will is not None: Broker.instance.publish(self.last_will)
abbrev pub and_will : Option IncomingMessage → List IncomingMessage → List IncomingMessage
and_will none published = published
and_will (some m) published = published ++ (m ∷ [])

abbrev pub will_result :
    Option IncomingMessage → (IncomingMessage → Result (Unit {0})) → Result (Unit {0})
will_result none publishing = ok tt
will_result (some m) publishing = publishing m

unfoldable pub after_unsubscribe :
    Connection → BrokerState → Result Bool × Subscriptions → Result (Unit {0}) × BrokerState
after_unsubscribe c b (err e, subs) = (err e, record b { subscriptions = subs })
after_unsubscribe c b (ok r, subs) = (
  if c.connection_override then ok tt else will_result c.last_will b.publishing,
  if c.connection_override then record b { subscriptions = subs } else record b {
    subscriptions = subs;
    clients = remove_client (some c.id) b.clients;
    published = and_will c.last_will b.published;
  },
)

unfoldable pub handle_disconnected : Connection → BrokerState → Result (Unit {0}) × BrokerState
unfolding after_unsubscribe
handle_disconnected c b =
    after_unsubscribe c b (unsubscribe_client c.id c.subscriptions b.subscriptions)

-- SocketHandler.close: the connection is dead, whether or not closing its socket raises
abbrev pub closing : Connection → Result (Unit {0})
closing c = tolerated (9 ∷ 107 ∷ []) c.close_errno

-- handle_disconnected, unless `close` raised
unfoldable pub after_close : Result (Unit {0}) → Both → Result (Unit {0}) × Both
after_close (err e) s = (err e, s)
after_close (ok u) (c, b) = let (done, b') = handle_disconnected c b in (done, (c, b'))

-- Handler.disconnect
unfoldable pub disconnect : Both → Result (Unit {0}) × Both
unfolding after_close
disconnect (c, b) = after_close (closing c) (record c { linked = false; alive = false }, b)

unfoldable pub override_connection : Both → Result (Unit {0}) × Both
unfolding disconnect
override_connection (c, b) = disconnect (record c { connection_override = true }, b)

-- How read_loop and write_loop end: self.close(); if self.linked: self.handle_disconnected()
unfoldable pub ended : Bool → Both → Result (Unit {0}) × Both
unfolding after_close
ended true (c, b) = after_close (closing c) (record c { alive = false }, b)
ended false (c, b) = (closing c, (record c { alive = false }, b))

unfoldable pub end_loop : Both → Result (Unit {0}) × Both
unfolding ended
end_loop (c, b) = ended c.linked (c, b)
