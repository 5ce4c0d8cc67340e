-- ===== src/Handler/System/Tracked.antt =====
-- Whose the subscriptions of the broker are, in every reachable state.
use mathlib.Core.Path.{subst}
use mote_broker.Prelude.{
  ℕ, String, ◌≡◌, refl, ap, ◌∙◌, sym, Bool, true, false, ◌==◌, ==_iff, Option, none, some, List,
  Bool-cases, inl, inr, ◌≢◌,
}
use mote_broker.Result.{Result, ok, err}
use mote_broker.Dict.{Item, Dict, atom, dict, get}
use mote_broker.Topic.{Topic}
use mote_broker.Protocols.{Bytes, Retained}
use mote_broker.Messages.{IncomingMessage, OutgoingMessage}
use mote_broker.Broker.Subscriptions.{Subscriptions}
use mote_broker.Broker.Subscriptions.Refinement.{quality, IsValid}
use mote_broker.Broker.Dispatch.{unsubscribe_client}
use mote_broker.Handler.Connection.{
  Connection, BrokerState, Both, after_unsubscribe, after_close, closing, handle_disconnected,
  disconnect, override_connection, ended, end_loop,
}
use mote_broker.Handler.Connection.Ending.{disconnect_closed}
use mote_broker.Handler.Connection.Covers.{covers}
use mote_broker.Handler.Connection.Handlers.{
  Moved, handle_subscribe-Moved, handle_unsubscribe-Moved, unsubscribe_client-erases,
}
use mote_broker.Handler.System.{
  System, update, put, both, IsActive, override_previous, linked, after_override, link, Step,
  IsTimelyStep, IsTimely, changed, changes, subscribes, unsubscribes, disconnects, ends, links,
  Reach, here, next,
}

-- A connection of the client that is active and has the filter in its set.
abbrev pub Holds : Connection → List String → String → Type 0
Holds c q j = IsActive c × (c.id ≡ j) × (covers q c.subscriptions ≡ true)

-- The subscriptions are valid, and each of them is in the set of an active connection of its client.
pub record IsTracked (s : System) : Type 0 where
  pub valid : IsValid s.broker.subscriptions
  pub tracked :
      (q : List String) (j : String)
      → quality s.broker.subscriptions q j ≢ none
      → (n : ℕ) × Holds (s.connections n) q j

pub self_update : (f : ℕ → Connection) (n : ℕ) (c : Connection) → update f n c n ≡ c
self_update f n c = rw ((==_iff n n).1 refl)

pub other_update :
    (f : ℕ → Connection) (n m : ℕ) (c : Connection) → (n == m) ≡ false → update f n c m ≡ f m
other_update f n m c e = rw e

-- the holder after connection `n` has changed
module _ (s : System) (n : ℕ) (c : Connection) (q : List String) (j : String) where
  at_self : Holds c q j → (m : ℕ) × Holds (update s.connections n c m) q j
  at_self h = (n, subst (λ x. Holds x q j) (sym (self_update s.connections n c)) h)

  at_other :
      (m : ℕ)
      → Holds (s.connections m) q j
      → (Holds (s.connections n) q j → Holds c q j)
      → (k : ℕ) × Holds (update s.connections n c k) q j
  at_other m h own = elim (Bool-cases (n == m)) [
    | inl same ↦
        at_self (own (subst (λ k. Holds (s.connections k) q j) (sym ((==_iff n m).0 same)) h))
    | inr other ↦ (m, subst (λ x. Holds x q j) (sym (other_update s.connections n m c other)) h)
  ]

Moved-IsTracked :
    (s : System) (n : ℕ) (t : Both)
    → IsActive (s.connections n)
    → Moved (both n s) t
    → IsTracked s
    → IsTracked (put n s t)
Moved-IsTracked s n t active m v = record {
  valid = m.valid;
  tracked = λ q j h.
      let active' : IsActive t.0 = (m.same_linked ∙ active.0, m.same_alive ∙ active.1) in
      elim (m.tracked q j h) [
        | inl own ↦ at_self s n t.0 q j (active', m.same_id ∙ sym own.0, own.1)
        | inr old ↦
            let (k, holds) = v.tracked q j old.0 in
            at_other s n t.0 q j k holds (λ g. (active', m.same_id ∙ g.1, old.1 (sym g.1) g.2))
      ];
}

-- Connection `n` loses its subscriptions, whatever becomes of it.
erased-IsTracked :
    (s : System) (n : ℕ) (t : Both)
    → t.1.subscriptions
      ≡ (unsubscribe_client
          (s.connections n).id
          (s.connections n).subscriptions
          s.broker.subscriptions).1
    → IsTracked s
    → IsTracked (put n s t)
erased-IsTracked s n t e v =
    let (done, valid, left) =
      unsubscribe_client-erases (s.connections n).id (s.connections n).subscriptions
        s.broker.subscriptions v.valid in
    record {
      valid = subst IsValid (sym e) valid;
      tracked = λ q j h.
          let (before, apart) =
            left q j (λ none_left. h (ap (λ subs. quality subs q j) e ∙ none_left)) in
          let (k, holds) = v.tracked q j before in
          at_other s n t.0 q j k holds (λ g. cc (apart (sym g.1), g.2));
    }

-- In each case the subscriptions are those that Broker.unsubscribe leaves.
handle_disconnected-subscriptions :
    (c : Connection) (b : BrokerState)
    → (handle_disconnected c b).1.subscriptions
      ≡ (unsubscribe_client c.id c.subscriptions b.subscriptions).1
unfolding handle_disconnected after_unsubscribe
handle_disconnected-subscriptions c b =
    by_result (unsubscribe_client c.id c.subscriptions b.subscriptions)
  where
    by_result : (r : Result Bool × Subscriptions) → (after_unsubscribe c b r).1.subscriptions ≡ r.1
    by_result (err e, subs) = refl
    by_result (ok done, subs) = elim (Bool-cases c.connection_override) [
      | inl e ↦ rw e
      | inr e ↦ rw e
    ]

pub disconnect-IsTracked :
    (s : System) (n : ℕ)
    → closing (s.connections n) ≡ ok tt
    → IsTracked s
    → IsTracked (put n s (disconnect (both n s)).1)
disconnect-IsTracked s n k v =
    erased-IsTracked s n _
      (ap (λ r. r.1.1.subscriptions) (disconnect_closed (s.connections n) s.broker k)
        ∙ handle_disconnected-subscriptions (s.connections n) s.broker)
      v

override_connection-IsTracked :
    (s : System) (n : ℕ)
    → closing (s.connections n) ≡ ok tt
    → IsTracked s
    → IsTracked (put n s (override_connection (both n s)).1)
unfolding override_connection
override_connection-IsTracked s n k v =
    let c : Connection = record (s.connections n) { connection_override = true } in
    erased-IsTracked s n _
      (ap (λ r. r.1.1.subscriptions) (disconnect_closed c s.broker k)
        ∙ handle_disconnected-subscriptions c s.broker)
      v

ended-IsTracked :
    (s : System) (n : ℕ) (l : Bool)
    → (s.connections n).linked ≡ l
    → closing (s.connections n) ≡ ok tt
    → IsTracked s
    → IsTracked (put n s (ended l (both n s)).1)
unfolding ended after_close
ended-IsTracked s n true e k v =
    let c : Connection = record (s.connections n) { alive = false } in
    erased-IsTracked s n _
      (ap (λ r. (after_close r (c, s.broker)).1.1.subscriptions) k
        ∙ handle_disconnected-subscriptions c s.broker)
      v
ended-IsTracked s n false e k v = record {
  valid = v.valid;
  tracked =
      λ q j h. let (k, holds) = v.tracked q j h in at_other s n _ q j k holds (λ g. cc (g.0.0, e));
}

end_loop-IsTracked :
    (s : System) (n : ℕ)
    → closing (s.connections n) ≡ ok tt
    → IsTracked s
    → IsTracked (put n s (end_loop (both n s)).1)
unfolding end_loop
end_loop-IsTracked s n k v = ended-IsTracked s n (s.connections n).linked refl k v

changed-by-IsTracked :
    (s : System) (n : ℕ) (errno : Option ℕ) (publishing : IncomingMessage → Result (Unit {0}))
    → IsTracked s
    → IsTracked (changed n errno publishing s)
unfolding changed
changed-by-IsTracked s n errno publishing v = record {
  valid = v.valid;
  tracked = λ q j h. let (k, holds) = v.tracked q j h in at_other s n _ q j k holds (λ g. g);
}

-- A connection that is not linked holds nothing, so that its change leaves no subscription without an owner.
pub changed-IsTracked :
    (s : System) (n : ℕ) (c : Connection)
    → (s.connections n).linked ≡ false
    → IsTracked s
    → IsTracked (record s { connections = update s.connections n c })
changed-IsTracked s n c e v = record {
  valid = v.valid;
  tracked =
      λ q j h. let (k, holds) = v.tracked q j h in at_other s n c q j k holds (λ g. cc (g.0.0, e));
}

linked-IsTracked : (s : System) (n : ℕ) → IsTracked s → IsTracked (linked n s)
unfolding linked
linked-IsTracked s n v = record {
  valid = v.valid;
  tracked = λ q j h.
      let (k, holds) = v.tracked q j h in
      at_other s n _ q j k holds (λ g. ((refl, g.0.1), g.1, g.2));
}

pub link-IsTracked :
    (s : System) (n : ℕ)
    → ((m : ℕ) → closing (s.connections m) ≡ ok tt)
    → IsTracked s
    → IsTracked (link n s).1
unfolding link
link-IsTracked s n closes v = after (override_previous o s) (previous o)
  where
    o : Option (Item ℕ)
    o = get (s.connections n).id s.broker.clients

    previous : (o : Option (Item ℕ)) → IsTracked (override_previous o s).1
    previous none = v
    previous (some (dict d)) = v
    previous (some (atom m)) = override_connection-IsTracked s m (closes m) v

    after : (r : Result (Unit {0}) × System) → IsTracked r.1 → IsTracked (after_override n r).1
    after (err e, t) w = w
    after (ok u, t) w = linked-IsTracked t n w

pub is_none-eq : {A : Type 0} (o : Option A) → ¬ (o ≢ none) → o ≡ none
is_none-eq none h = refl
is_none-eq (some a) h = absurd (h λ e. cc)

module _ {json : Dict Retained → Result Bytes}
    {table_message : Topic → ℕ → Result OutgoingMessage} where
  Step-IsTracked :
      {s t : System} (st : Step json table_message s t)
      → IsTimelyStep json table_message st
      → IsTracked s
      → IsTracked t
  Step-IsTracked {s} (subscribes n requests tree) active v =
      Moved-IsTracked s n _ active
        (handle_subscribe-Moved json table_message tree requests (both n s) v.valid) v
  Step-IsTracked {s} (unsubscribes n topics) active v =
      Moved-IsTracked s n _ active (handle_unsubscribe-Moved topics (both n s) v.valid) v
  Step-IsTracked {s} (disconnects n) k v = disconnect-IsTracked s n k v
  Step-IsTracked {s} (ends n) k v = end_loop-IsTracked s n k v
  Step-IsTracked {s} (changes n errno publishing) k v = changed-by-IsTracked s n errno publishing v
  Step-IsTracked {s} (links n e) closes v = link-IsTracked s n closes v

  -- The handlers of packets of all connections, their overriding and their ends run in any order, where
  -- each packet is handled before its connection ends and each socket that is closed closes
  -- without an exception; a last will may raise. If the broker's subscriptions are valid and each is in
  -- the set of an active connection of its client at first, they always are.
  pub Reach-IsTracked :
      {s t : System} (r : Reach json table_message s t)
      → IsTimely json table_message r
      → IsTracked s
      → IsTracked t
  unfolding IsTimely
  Reach-IsTracked here timely v = v
  Reach-IsTracked (next r st) timely v = Step-IsTracked st timely.1 (Reach-IsTracked r timely.0 v)
