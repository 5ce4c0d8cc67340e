-- ===== src/Handler/Connection/Handlers.antt =====
-- The handlers of subscribe and unsubscribe packets, and the end of a connection, move the map of
-- subscriptions as `Moves` says.
use mote_broker.Prelude.{
  ℕ, String, ◌≡◌, refl, ap, ◌∙◌, Bool, true, false, none, some, List, [], ◌∷◌, ◌=str=◌, path_eq,
  Bool-cases, inl, inr, eq_refl, ◌≢◌,
}
use mote_broker.Result.{Result, ok, err}
use mote_broker.Dict.{Dict, atom}
use mote_broker.Topic
use mote_broker.Topic.{Topic}
use mote_broker.Topic.Split.{split}
use mote_broker.Protocols.{Bytes, Retained}
use mote_broker.Messages.{OutgoingMessage}
use mote_broker.TreeManager.{TreeState}
use mote_broker.Broker.Subscriptions.{Subscriptions, subscribe, unsubscribe_one, then_rest}
use mote_broker.Broker.Subscriptions.Refinement.{
  quality, IsValid, IsPath, updated, subscribe-updates, subscribe-IsValid, unsubscribe_one-erases,
  unsubscribe_one-IsValid,
}
use mote_broker.Broker.Dispatch.{
  first_message, subscribe_client, subscribe_after, subscribe_topic, unsubscribe_client,
  unsubscribe_topic,
}
use mote_broker.Handler.Connection.{
  Connection, BrokerState, Both, request_topic, subscribed, subscribe_to, more_codes,
  handle_subscribe, unsubscribed, more_written, handle_unsubscribe,
}
use mote_broker.Handler.Connection.Covers.{covers}
use mote_broker.Handler.Connection.Moves.{
  split-IsPath, topic_of-split, Moves, Moves-refl, Moves-trans, own_write, own_erase,
}

-- `Moves` of a connection with the broker.
abbrev pub Moved : Both → Both → Type 0
Moved s t = Moves s.0 s.1.subscriptions t.0 t.1.subscriptions

-- What `subscribe` gives for a path.
pub subscribe-path :
    (id : String) (nodes : List String) (qos : ℕ) (subs : Subscriptions)
    → IsPath nodes
    → IsValid subs
    → ((subscribe id nodes qos subs).0 ≡ ok true)
      × IsValid (subscribe id nodes qos subs).1
      × ((q : List String) (j : String)
          → quality (subscribe id nodes qos subs).1 q j
            ≡ updated (quality subs) nodes id (some (atom qos)) q j)
subscribe-path id [] qos subs h v = absurd (h.1 refl)
subscribe-path id (n ∷ p) qos subs h v =
    let (done, view) = subscribe-updates id n p subs h.0 v qos in
    (done, subscribe-IsValid id n p subs h.0 v qos, view)

pub unsubscribe_one-path :
    (id : String) (nodes : List String) (subs : Subscriptions)
    → IsPath nodes
    → IsValid subs
    → ((unsubscribe_one id nodes subs).0 ≡ ok tt)
      × IsValid (unsubscribe_one id nodes subs).1
      × ((q : List String) (j : String)
          → quality (unsubscribe_one id nodes subs).1 q j
            ≡ updated (quality subs) nodes id none q j)
unsubscribe_one-path id [] subs h v = absurd (h.1 refl)
unsubscribe_one-path id (n ∷ p) subs h v =
    let (done, view) = unsubscribe_one-erases id n p subs h.0 v in
    (done, unsubscribe_one-IsValid id n p subs h.0 v, view)

-- The outcome of Broker.subscribe for a topic, with the messages that come first.
subscribed-Moved :
    (c : Connection) (b : BrokerState) (text : String) (qos : ℕ) (t : Topic)
    (messages : Result (List OutgoingMessage))
    → Topic.node_list t ≡ split text
    → IsValid b.subscriptions
    → Moved
        (c, b)
        (subscribed text qos c b (subscribe_after c.id c.client qos t b.subscriptions messages)).1
unfolding subscribe_after subscribed
subscribed-Moved c b text qos t (err e) nodes v = Moves-refl c b.subscriptions v
subscribed-Moved c b text qos t (ok ms) nodes v =
    let (done, v', view) =
      subscribe-path c.id (split text) qos b.subscriptions (split-IsPath text) v in
    rw (nodes, done) (own_write c b.subscriptions _ text v' (atom qos) view)

module _ (json : Dict Retained → Result Bytes) (table_message : Topic → ℕ → Result OutgoingMessage)
    (tree : TreeState) where
  subscribe_to-Moved :
      (qos : ℕ) (s : Both) (request : Result (Bool × String))
      → IsValid s.1.subscriptions
      → Moved s (subscribe_to json table_message tree qos s request).1
  unfolding subscribe_to subscribe_client subscribe_topic
  subscribe_to-Moved qos (c, b) (err e) v = Moves-refl c b.subscriptions v
  subscribe_to-Moved qos (c, b) (ok (wants_tree, text)) v =
      let (t, made, nodes) = topic_of-split text in
      rw made (
        subscribed-Moved c b text qos t (first_message json table_message t qos wants_tree tree)
          nodes v)

  more_codes-Moved :
      (s : Both) (r : Result ℕ × Both) (rest : Both → Result (List ℕ) × Both)
      → Moved s r.1
      → ((u : Both) → IsValid u.1.subscriptions → Moved u (rest u).1)
      → Moved s (more_codes rest r).1
  unfolding more_codes
  more_codes-Moved s (err e, t) rest m h = m
  more_codes-Moved s (ok code, t) rest m h =
      Moves-trans s.0 t.0 (rest t).1.0 s.1.subscriptions t.1.subscriptions
        (rest t).1.1.subscriptions m (h t m.valid)

  pub handle_subscribe-Moved :
      (requests : List (String × ℕ)) (s : Both)
      → IsValid s.1.subscriptions
      → Moved s (handle_subscribe json table_message tree requests s).1
  unfolding handle_subscribe
  handle_subscribe-Moved [] s v = Moves-refl s.0 s.1.subscriptions v
  handle_subscribe-Moved ((topic, qos) ∷ requests) s v =
      more_codes-Moved s (subscribe_to json table_message tree qos s (request_topic topic))
        (handle_subscribe json table_message tree requests)
        (subscribe_to-Moved qos s (request_topic topic) v) (handle_subscribe-Moved requests)

-- The outcome of Broker.unsubscribe for a topic.
unsubscribe_client-one :
    (id text : String) (rest : List String) (subs : Subscriptions)
    → IsValid subs
    → unsubscribe_client id (text ∷ rest) subs
      ≡ unsubscribe_client id rest (unsubscribe_one id (split text) subs).1
unfolding unsubscribe_client unsubscribe_topic then_rest
unsubscribe_client-one id text rest subs v =
    let (t, made, nodes) = topic_of-split text in
    let (done, valid, view) = unsubscribe_one-path id (split text) subs (split-IsPath text) v in
    rw (made, nodes)
      (ap
        (λ r. then_rest (unsubscribe_client id rest) (r, (unsubscribe_one id (split text) subs).1))
        done)

unsubscribe_client-nil :
    (id : String) (subs : Subscriptions) → unsubscribe_client id [] subs ≡ (ok true, subs)
unfolding unsubscribe_client
unsubscribe_client-nil id subs = refl

more_written-Moved :
    (s : Both) (r : Result ℕ × Both) (rest : Both → Result ℕ × Both)
    → Moved s r.1
    → ((u : Both) → IsValid u.1.subscriptions → Moved u (rest u).1)
    → Moved s (more_written rest r).1
unfolding more_written
more_written-Moved s (err e, t) rest m h = m
more_written-Moved s (ok n, t) rest m h =
    Moves-trans s.0 t.0 (rest t).1.0 s.1.subscriptions t.1.subscriptions (rest t).1.1.subscriptions
      m (h t m.valid)

unsubscribed-Moved :
    (topic : String) (c : Connection) (b : BrokerState)
    → IsValid b.subscriptions
    → Moved
        (c, b)
        (unsubscribed topic (c, b) (unsubscribe_client c.id (topic ∷ []) b.subscriptions)).1
unfolding unsubscribed
unsubscribed-Moved topic c b v =
    let (done, valid, view) =
      unsubscribe_one-path c.id (split topic) b.subscriptions (split-IsPath topic) v in
    rw
      (unsubscribe_client-one c.id topic [] b.subscriptions v
        ∙ unsubscribe_client-nil c.id (unsubscribe_one c.id (split topic) b.subscriptions).1)
      (own_erase c b.subscriptions _ topic valid view)

pub handle_unsubscribe-Moved :
    (topics : List String) (s : Both)
    → IsValid s.1.subscriptions
    → Moved s (handle_unsubscribe topics s).1
unfolding handle_unsubscribe
handle_unsubscribe-Moved [] s v = Moves-refl s.0 s.1.subscriptions v
handle_unsubscribe-Moved (topic ∷ topics) (c, b) v =
    more_written-Moved (c, b) _ (handle_unsubscribe topics) (unsubscribed-Moved topic c b v)
      (handle_unsubscribe-Moved topics)

-- Broker.unsubscribe of all topics of a set leaves only subscriptions that were there and that are not
-- the client's own for a topic of the set.
pub unsubscribe_client-erases :
    (id : String) (topics : List String) (subs : Subscriptions)
    → IsValid subs
    → ((unsubscribe_client id topics subs).0 ≡ ok true)
      × IsValid (unsubscribe_client id topics subs).1
      × ((q : List String) (j : String)
          → quality (unsubscribe_client id topics subs).1 q j ≢ none
          → (quality subs q j ≢ none) × (j ≡ id → covers q topics ≡ false))
unsubscribe_client-erases id [] subs v =
    rw (unsubscribe_client-nil id subs) (refl, v, λ q j h. (h, λ _. refl))
unsubscribe_client-erases id (topic ∷ topics) subs v =
    let (done, valid, view) = unsubscribe_one-path id (split topic) subs (split-IsPath topic) v in
    let (done', valid', left) =
      unsubscribe_client-erases id topics (unsubscribe_one id (split topic) subs).1 valid in
    rw (unsubscribe_client-one id topic topics subs v) (
      done',
      valid',
      λ q j h.
          let (before, apart) = left q j h in
          elim (Bool-cases (path_eq (split topic) q)) [
            | inl here ↦ elim (Bool-cases (id =str= j)) [
              | inl own ↦ absurd (before (view q j ∙ rw (here, own)))
              | inr other ↦
                  (λ n. before (view q j ∙ rw (here, other) n), λ i. cc (i, eq_refl id, other))
            ]
            | inr elsewhere ↦ (λ n. before (view q j ∙ rw elsewhere n), λ i. rw elsewhere (apart i))
          ],
    )
