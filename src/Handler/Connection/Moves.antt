-- ===== src/Handler/Connection/Moves.antt =====
-- What the handlers of a connection do to the map of subscriptions, whether or not they raise.
use mote_broker.Prelude.{
  ℕ, String, ◌≡◌, refl, ◌∙◌, sym, true, ◌=str=◌, eq_iff, eq_refl, none, some, List, path_eq,
  Bool-cases, inl, inr, ◌⊎◌, ◌≢◌,
}
use mote_broker.Result.{ok}
use mote_broker.Dict.{Item}
use mote_broker.Topic
use mote_broker.Topic.{Topic}
use mote_broker.Topic.RoundTrip.{from_str-full_str}
use mote_broker.Topic.Split.{split, split-ne-nil, split-IsPlain, All-IsPlain-IsNode}
use mote_broker.Messages.{topic_of}
use mote_broker.Broker.Subscriptions.{Subscriptions}
use mote_broker.Broker.Subscriptions.Refinement.{quality, IsValid, IsPath, updated}
use mote_broker.Handler.Connection.Covers.{covers, covers-add_topic, covers-remove_topic}
use mote_broker.Handler.Connection.{Connection, add_topic, remove_topic}

pub split-IsPath : (s : String) → IsPath (split s)
split-IsPath s = (All-IsPlain-IsNode (split s) (split-IsPlain s), split-ne-nil s)

-- Every text makes a topic, of its pieces.
pub topic_of-split :
    (s : String) → (t : Topic) × (topic_of s ≡ ok t) × (Topic.node_list t ≡ split s)
unfolding topic_of
topic_of-split s =
    let (t, u, made, nodes, rest, again, equal) = from_str-full_str s in
    (t, rw (made, topic_of), nodes)

-- From one state of a connection and the subscriptions to another: a subscription that is there
-- afterwards is the connection's own, and in its set; or it was there before, and if it is the connection's own and was in
-- the set, it is still. The connection stays who it is.
pub record Moves (c : Connection) (subs : Subscriptions) (c' : Connection) (subs' : Subscriptions)
    : Type 0 where
  pub same_id : c'.id ≡ c.id
  pub same_alive : c'.alive ≡ c.alive
  pub same_linked : c'.linked ≡ c.linked
  -- what its end depends on
  pub same_end :
      (c'.close_errno ≡ c.close_errno)
      × (c'.connection_override ≡ c.connection_override)
      × (c'.last_will ≡ c.last_will)
  pub valid : IsValid subs'
  pub tracked :
      (q : List String) (j : String)
      → quality subs' q j ≢ none
      → ((j ≡ c.id) × (covers q c'.subscriptions ≡ true))
        ⊎ ((quality subs q j ≢ none)
            × (j ≡ c.id → covers q c.subscriptions ≡ true → covers q c'.subscriptions ≡ true))

pub Moves-refl : (c : Connection) (subs : Subscriptions) → IsValid subs → Moves c subs c subs
Moves-refl c subs v = record {
  same_id = refl;
  same_alive = refl;
  same_linked = refl;
  same_end = (refl, refl, refl);
  valid = v;
  tracked = λ q j h. inr (h, λ _ e. e);
}

pub Moves-trans :
    (c d e : Connection) (r s t : Subscriptions) → Moves c r d s → Moves d s e t → Moves c r e t
Moves-trans c d e r s t m n = record {
  same_id = n.same_id ∙ m.same_id;
  same_alive = n.same_alive ∙ m.same_alive;
  same_linked = n.same_linked ∙ m.same_linked;
  same_end =
      (n.same_end.0 ∙ m.same_end.0, n.same_end.1 ∙ m.same_end.1, n.same_end.2 ∙ m.same_end.2);
  valid = n.valid;
  tracked = λ q j h. chain q j (n.tracked q j h);
}
  where
    chain :
        (q : List String) (j : String)
        → ((j ≡ d.id) × (covers q e.subscriptions ≡ true))
          ⊎ ((quality s q j ≢ none)
              × (j ≡ d.id → covers q d.subscriptions ≡ true → covers q e.subscriptions ≡ true))
        → ((j ≡ c.id) × (covers q e.subscriptions ≡ true))
          ⊎ ((quality r q j ≢ none)
              × (j ≡ c.id → covers q c.subscriptions ≡ true → covers q e.subscriptions ≡ true))
    chain q j (inl own) = inl (own.0 ∙ m.same_id, own.1)
    chain q j (inr old) = elim (m.tracked q j old.0) [
      | inl own ↦ inl (own.0, old.1 (own.0 ∙ sym m.same_id) own.1)
      | inr older ↦ inr (older.0, λ i h. old.1 (i ∙ sym m.same_id) (older.1 i h))
    ]

module _ (c : Connection) (subs subs' : Subscriptions) (topic : String) (v : IsValid subs') where
  pub own_write :
      (value : Item ℕ)
      → ((q : List String) (j : String)
          → quality subs' q j ≡ updated (quality subs) (split topic) c.id (some value) q j)
      → Moves c subs (record c { subscriptions = add_topic topic c.subscriptions }) subs'
  own_write value e = record {
    same_id = refl;
    same_alive = refl;
    same_linked = refl;
    same_end = (refl, refl, refl);
    valid = v;
    tracked = λ q j h. elim (Bool-cases (path_eq (split topic) q)) [
      | inl here ↦ elim (Bool-cases (c.id =str= j)) [
        | inl own ↦
            inl (sym ((eq_iff c.id j).0 own), covers-add_topic q topic c.subscriptions ∙ rw here)
        | inr other ↦ inr (
          λ n. h (e q j ∙ rw (here, other) n),
          λ _ k. covers-add_topic q topic c.subscriptions ∙ rw here,
        )
      ]
      | inr elsewhere ↦ inr (
        λ n. h (e q j ∙ rw elsewhere n),
        λ _ k. covers-add_topic q topic c.subscriptions ∙ rw elsewhere k,
      )
    ];
  }

  pub own_erase :
      ((q : List String) (j : String)
        → quality subs' q j ≡ updated (quality subs) (split topic) c.id none q j)
      → Moves c subs (record c { subscriptions = remove_topic topic c.subscriptions }) subs'
  own_erase e = record {
    same_id = refl;
    same_alive = refl;
    same_linked = refl;
    same_end = (refl, refl, refl);
    valid = v;
    tracked = λ q j h. elim (Bool-cases (path_eq (split topic) q)) [
      | inl here ↦ elim (Bool-cases (c.id =str= j)) [
        | inl own ↦ absurd (h (e q j ∙ rw (here, own)))
        | inr other ↦ inr (λ n. h (e q j ∙ rw (here, other) n), λ i. cc (i, eq_refl c.id, other))
      ]
      | inr elsewhere ↦ inr (
        λ n. h (e q j ∙ rw elsewhere n),
        λ _. covers-remove_topic q topic c.subscriptions elsewhere,
      )
    ];
  }
