-- ===== src/Broker/Dispatch/Delivery.antt =====
-- A message for rows reaches the clients of broker/broker.py that subscribed to a filter of theirs.
mod Queues
use Queues.{topic_text-join, last_payload-returns, queue_messages-mem, quality-find}
use mathlib.Core.Path.{subst}
use mathlib.Core.List.{Memᴰ}
use mathlib.Core.List.Memᴰ
use mote_broker.Prelude.{
  ℕ, String, ◌≡◌, ◌≢◌, refl, ap, ◌∙◌, sym, true, false, ◌=str=◌, eq_iff, Bool-cases, inl, inr,
  Option, none, some, List, [], ◌∷◌, ◌++◌, All, keep,
}
use mote_broker.Result.{Result, ok}
use mote_broker.Dict.{Item, Dict, atom, dict, empty, entry, get}
use mote_broker.RecursiveDict.{find}
use mote_broker.RecursiveDict.Shape.{IsTree}
use mote_broker.Topic.{str_or_join}
use mote_broker.Topic.Split.{join}
use mote_broker.Topic.RoundTrip.{from_nodes-node_list}
use mote_broker.Protocols.{Bytes, Retained, Row}
use mote_broker.Protocols.Filter.{leaf}
use mote_broker.Protocols.Messages.{Message, is_nil, last_payload, build_message_data, leaf_message}
use mote_broker.Protocols.Matching.{matches, has_many, filters, collect, IsRow, answer}
use mote_broker.Protocols.Fanout.{create_messages-answers}
use mote_broker.Broker.Subscriptions.{Clients, Subscriptions}
use mote_broker.Broker.Subscriptions.Refinement.{quality, quality_in}
use mote_broker.Protocols.Matching.Filters.{find-filters, filters-leaf}
use mote_broker.Messages.{OutgoingMessage}
use mote_broker.Broker.Dispatch.{
  Queued, queue_for, queue_messages, queue_message, topic_text, queue_all, after_messages,
  process_outgoing_rows,
}

-- The rows that a filter matches.
abbrev pub hits : List Row → List String → List Row
hits rows f = keep (λ (r : Row). matches f r.topic) rows

matches-nil : (topic : List String) → topic ≢ [] → matches [] topic ≡ false
matches-nil [] h = absurd (h refl)
matches-nil (n ∷ topic) h = refl

hits-nil : (rows : List Row) → All (λ (r : Row). r.topic ≢ []) rows → is_nil (hits rows []) ≡ true
hits-nil [] named = refl
hits-nil (r ∷ rows) named = rw (matches-nil r.topic named.0) (hits-nil rows named.1)

no_root :
    (rows : List Row) → All (λ (r : Row). r.topic ≢ []) rows → is_nil (hits rows []) ≡ false → ⊥
no_root rows named w = let no : true ≡ false = sym (hits-nil rows named) ∙ w in cc

module _ (json : Dict Retained → Result Bytes) (rows : List Row) where
  -- The payload for a filter can be built: where the filter has a wildcard, the tree of its rows and its
  -- JSON text.
  abbrev pub IsBuilt : List String → Type 0
  IsBuilt f =
      has_many f ≡ true
      → (payload : Retained) × (build_message_data json (hits rows f) f true ≡ ok payload)

  builds :
      (f : List String)
      → is_nil (hits rows f) ≡ false
      → IsBuilt f
      → (payload : Retained) × (build_message_data json (hits rows f) f (has_many f) ≡ ok payload)
  unfolding build_message_data
  builds f some_hit built = elim (Bool-cases (has_many f)) [
    | inl e ↦ rw e (built e)
    | inr e ↦ rw e (last_payload-returns (hits rows f) some_hit)
  ]

  -- What a filter with its clients needs: its payload, its clients and a node.
  record IsServed (s : List String × Item Clients) : Type 0 where
    built : IsBuilt s.0
    client_list : Clients
    at_leaf : s.1 ≡ atom client_list
    named : is_nil (hits rows s.0) ≡ false → s.0 ≢ []

  -- Client `c` gets a message for the filter, with the payload that was built for it.
  abbrev pub Gets : ℕ → List String → ℕ → List Queued → Type 0
  Gets c f qos queued =
      (payload : Retained) × (build_message_data json (hits rows f) f (has_many f) ≡ ok payload)
      × Memᴰ (c, record { topic = join f; qos = qos; payload = leaf payload }) queued

module _ (json : Dict Retained → Result Bytes) (clients : Dict ℕ) (rows : List Row) where
  -- All filters are served, each client that is registered with a message.
  record Serves (fs : List (List String × Item Clients)) : Type 0 where
    messages : List (Message Clients)
    made : collect (answer json rows) fs ≡ ok messages
    returns : (queue_all clients messages).0 ≡ ok tt
    delivers :
        (f : List String) (cl : Clients) (id : String) (qos c : ℕ)
        → Memᴰ (f, atom cl) fs
        → get id cl ≡ some (atom qos)
        → get id clients ≡ some (atom c)
        → is_nil (hits rows f) ≡ false
        → Gets json rows c f qos (queue_all clients messages).1

  queue_all-cons :
      (f : List String) (it : Item Clients) (cl : Clients) (payload : Retained)
      (ms : List (Message Clients))
      → f ≢ []
      → it ≡ atom cl
      → queue_all clients (record { clients = it; topic = f; payload = payload } ∷ ms) ≡ (
        (queue_all clients ms).0,
        queue_messages clients (join f) payload cl ++ (queue_all clients ms).1,
      )
  unfolding queue_all queue_message
  queue_all-cons f it cl payload ms named e = rw (topic_text-join f named, e)

  -- A filter without a matching row is passed over.
  skips :
      (f : List String) (it : Item Clients) (fs : List (List String × Item Clients))
      → is_nil (hits rows f) ≡ true
      → Serves fs
      → Serves ((f, it) ∷ fs)
  skips f it fs e rest = record {
    messages = rest.messages;
    made = rw (e, rest.made);
    returns = rest.returns;
    delivers = λ f' cl id qos c m g k w. elim (Memᴰ.cases_cons m) [
      | inl q ↦ let no : true ≡ false = sym e ∙ ap (λ s. is_nil (hits rows s.0)) (sym q) ∙ w in cc
      | inr m' ↦ rest.delivers f' cl id qos c m' g k w
    ];
  }

  hits-Serves :
      (f : List String) (it : Item Clients) (fs : List (List String × Item Clients))
      → is_nil (hits rows f) ≡ false
      → IsServed json rows (f, it)
      → Serves fs
      → Serves ((f, it) ∷ fs)
  unfolding leaf_message
  hits-Serves f it fs e served rest =
      let (payload, b) = builds json rows f e served.built in
      let cl0 = served.client_list in
      let queued = queue_all-cons f it cl0 payload rest.messages (served.named e) served.at_leaf in
      let ms : List (Message Clients) =
        record { clients = it; topic = f; payload = payload } ∷ rest.messages in
      record {
        messages = ms;
        made = rw (e, leaf_message, b, rest.made);
        returns = ap (λ r. r.0) queued ∙ rest.returns;
        delivers = λ f' cl id qos c m g k w. elim (Memᴰ.cases_cons m) [
          | inl q ↦
              let same : atom cl ≡ atom cl0 = ap (λ s. s.1) q ∙ served.at_leaf in
              let same' : cl ≡ cl0 = cc in
              let own =
                queue_messages-mem clients (join f) payload cl0 id qos c
                  (subst (λ x. get id x ≡ some (atom qos)) same' g) k in
              subst (λ x. Gets json rows c x qos (queue_all clients ms).1) (sym (ap (λ s. s.0) q))
                (payload, b, rw queued (Memᴰ.append_left _ own))
          | inr m' ↦
              let (p, b', there) = rest.delivers f' cl id qos c m' g k w in
              (p, b', rw queued (Memᴰ.append_right _ there))
        ];
      }

  serves :
      (fs : List (List String × Item Clients))
      → ((s : List String × Item Clients) → Memᴰ s fs → IsServed json rows s)
      → Serves fs
  unfolding queue_all
  serves [] h = record {
    messages = [];
    made = refl;
    returns = refl;
    delivers = λ f cl id qos c m. absurd (Memᴰ.not-nil m);
  }
  serves ((f, it) ∷ fs) h =
      let rest = serves fs (λ s m. h s (Memᴰ.tail m)) in
      elim (Bool-cases (is_nil (hits rows f))) [
        | inl e ↦ skips f it fs e rest
        | inr e ↦ hits-Serves f it fs e (h (f, it) (Memᴰ.head refl)) rest
      ]

  -- With a proper tree of subscriptions and rows of proper topics with a node each, and where the payload
  -- for each filter can be built (which needs the JSON library for wildcards alone), the call returns, and
  -- a registered client that is subscribed to a filter which some row matches gets a message: under the
  -- filter, with the quality of service of its subscription and the payload built of the matching rows.
  pub process_outgoing_rows-delivers :
      (subs : Subscriptions) (f : List String) (id : String) (qos c : ℕ)
      → IsTree subs
      → All IsRow rows
      → All (λ (r : Row). r.topic ≢ []) rows
      → ((s : List String × Item Clients) → Memᴰ s (filters subs) → IsBuilt json rows s.0)
      → quality subs f id ≡ some (atom qos)
      → get id clients ≡ some (atom c)
      → is_nil (hits rows f) ≡ false
      → ((process_outgoing_rows json subs clients rows).0 ≡ ok tt)
        × Gets json rows c f qos (process_outgoing_rows json subs clients rows).1
  unfolding process_outgoing_rows after_messages
  process_outgoing_rows-delivers subs f id qos c t rows_ok named built h k w =
      let all = serves (filters subs) (λ s m.
        let (cl, e) = filters-leaf subs s t m in
        record {
          built = built s m;
          client_list = cl;
          at_leaf = e;
          named = λ w' e'. no_root rows named (ap (λ g. is_nil (hits rows g)) (sym e') ∙ w');
        }) in
      let (cl, at, has) = quality-find subs f id qos h in
      let made = create_messages-answers json subs rows t rows_ok ∙ all.made in
      rw made (all.returns, all.delivers f cl id qos c (find-filters f subs cl t at) has k w)
