-- ===== src/Handler/System/Link.antt =====
-- Broker.add_client with the connection that it overrides.
use mote_broker.Prelude.{
  ℕ, String, ◌≡◌, refl, ap, ◌∙◌, true, ◌==◌, ==_iff, Bool-cases, inl, inr, Option, none, some,
  eq_refl,
}
use mote_broker.Result.{Result, ok, err}
use mote_broker.Dict.{Item, atom, dict, get}
use mote_broker.Dict.Laws.{get-set}
use mote_broker.Broker.Dispatch.{add_client}
use mote_broker.Handler.Connection.{
  Connection, BrokerState, closing, after_close, override_connection, disconnect,
}
use mote_broker.Handler.Connection.Ending.{override_connection-ok}
use mote_broker.Handler.System.{System, link, linked, override_previous, after_override}
use mote_broker.Handler.System.Tracked.{IsTracked, self_update}

after_close-id :
    (r : Result (Unit {0})) (c : Connection) (b : BrokerState)
    → (after_close r (c, b)).1.0.id ≡ c.id
unfolding after_close
after_close-id (err e) c b = refl
after_close-id (ok u) c b = refl

override_connection-id :
    (c : Connection) (b : BrokerState) → (override_connection (c, b)).1.0.id ≡ c.id
unfolding override_connection disconnect
override_connection-id c b = after_close-id (closing c) _ b

-- overriding a connection keeps the ids of all
override_previous-id :
    (o : Option (Item ℕ)) (n : ℕ) (s : System)
    → ((override_previous o s).1.connections n).id ≡ (s.connections n).id
unfolding override_previous
override_previous-id none n s = refl
override_previous-id (some (dict d)) n s = refl
override_previous-id (some (atom m)) n s = elim (Bool-cases (m == n)) [
  | inl same ↦ rw same (
      override_connection-id (s.connections m) s.broker
      ∙ ap (λ k. (s.connections k).id) ((==_iff m n).0 same))
  | inr other ↦ rw other refl
]

override_previous-ok :
    (o : Option (Item ℕ)) (s : System)
    → ((m : ℕ) → closing (s.connections m) ≡ ok tt)
    → IsTracked s
    → (override_previous o s).0 ≡ ok tt
unfolding override_previous
override_previous-ok none s closes v = refl
override_previous-ok (some (dict d)) s closes v = refl
override_previous-ok (some (atom m)) s closes v =
    override_connection-ok (s.connections m) s.broker v.valid (closes m)

-- The connection is linked, and stands for its id among the clients.
pub record IsRegistered (n : ℕ) (j : String) (s : System) : Type 0 where
  pub linked : (s.connections n).linked ≡ true
  pub id : (s.connections n).id ≡ j
  pub found : get j s.broker.clients ≡ some (atom n)

linked-IsRegistered :
    (n : ℕ) (s : System) (id : String) → (s.connections n).id ≡ id → IsRegistered n id (linked n s)
unfolding linked add_client
linked-IsRegistered n s id e = record {
  linked =
      ap (λ (c : Connection). c.linked)
        (self_update s.connections n (record (s.connections n) { linked = true }));
  id =
      ap (λ (c : Connection). c.id)
        (self_update s.connections n (record (s.connections n) { linked = true }))
      ∙ e;
  found = rw e (get-set id id (atom n) s.broker.clients ∙ rw eq_refl refl);
}

pub link-IsRegistered :
    (n : ℕ) (s : System)
    → ((m : ℕ) → closing (s.connections m) ≡ ok tt)
    → IsTracked s
    → ((link n s).0 ≡ ok tt) × IsRegistered n (s.connections n).id (link n s).1
unfolding link
link-IsRegistered n s closes v =
    after (override_previous o s) (override_previous-ok o s closes v) (override_previous-id o n s)
  where
    o : Option (Item ℕ)
    o = get (s.connections n).id s.broker.clients

    after :
        (r : Result (Unit {0}) × System)
        → r.0 ≡ ok tt
        → (r.1.connections n).id ≡ (s.connections n).id
        → ((after_override n r).0 ≡ ok tt)
          × IsRegistered n (s.connections n).id (after_override n r).1
    after (err e, t) h k = cc h
    after (ok u, t) h k = (refl, linked-IsRegistered n t (s.connections n).id k)
