-- ===== src/Broker/Subscriptions.antt =====
-- The tree of subscriptions of broker/broker.py and broker/context.py: under each subscribed filter
-- stands a dict from client ids to qualities of service. `subscribe` and `unsubscribe` hold
-- `subscription_lock` over what is modelled here, so that they run one after the other.
pub mod Refinement
use mote_broker.Prelude.{
  ℕ, String, Bool, true, false, if◌then◌else◌, Option, none, some, List, [], ◌∷◌,
}
use mote_broker.Result.{Result, ok, err, type_error}
use mote_broker.Dict.{Item, Dict, atom, dict, empty, get, set, pop, is_empty}
use mote_broker.RecursiveDict.{lshift, cascade_delete, assign, find}

-- from client ids to qualities of service
abbrev pub Clients : Type 0
Clients = Dict ℕ

abbrev pub Subscriptions : Type 0
Subscriptions = Dict Clients

-- client_set[client.id] = qos, where `client_set` is what the walk returned
add_to :
    String → ℕ → List String → Result (Item Clients) × Subscriptions → Result Bool × Subscriptions
add_to id qos nodes (err e, subs) = (err e, subs)
add_to id qos nodes (ok (dict d), subs) = (err type_error, subs)
add_to id qos nodes (ok (atom client_set), subs) =
    (ok true, assign nodes (set id (atom qos) client_set) subs)

-- Broker.subscribe, from `with self.subscription_lock` on
unfoldable pub subscribe : String → List String → ℕ → Subscriptions → Result Bool × Subscriptions
unfolding add_to
subscribe id nodes qos subs = add_to id qos nodes (lshift empty nodes subs)

-- if not client_set: self.subscriptions.cascade_delete(topic.node_list)
drop_empty : List String → Clients → Subscriptions → Result (Unit {0}) × Subscriptions
drop_empty nodes client_set subs =
    if is_empty client_set then cascade_delete empty nodes subs else (ok tt, subs)

take_from :
    String → List String → Result (Item Clients) × Subscriptions → Result (Unit {0}) × Subscriptions
take_from id nodes (err e, subs) = (err e, subs)
take_from id nodes (ok (dict d), subs) = (err type_error, subs)
take_from id nodes (ok (atom client_set), subs) =
    drop_empty nodes (pop id client_set) (assign nodes (pop id client_set) subs)

-- one round of the loop of Broker.unsubscribe
unfoldable pub unsubscribe_one :
    String → List String → Subscriptions → Result (Unit {0}) × Subscriptions
unfolding take_from drop_empty
unsubscribe_one id nodes subs = take_from id nodes (lshift empty nodes subs)

-- the rest of the loop, unless a round raised
unfoldable pub then_rest :
    (Subscriptions → Result Bool × Subscriptions)
    → Result (Unit {0}) × Subscriptions
    → Result Bool × Subscriptions
then_rest rest (err e, subs) = (err e, subs)
then_rest rest (ok u, subs) = rest subs

-- Broker.unsubscribe, for the nodes of each topic
unfoldable pub unsubscribe :
    String → List (List String) → Subscriptions → Result Bool × Subscriptions
unfolding unsubscribe_one then_rest
unsubscribe id [] subs = (ok true, subs)
unsubscribe id (nodes ∷ topics) subs =
    then_rest (unsubscribe id topics) (unsubscribe_one id nodes subs)
