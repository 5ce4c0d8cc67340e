-- ===== src/Handler/System.antt =====
-- The connections of a server with their broker. A step is a call of one handler of servers/handler.py:
-- for a packet of a connection, also one that is not linked or alive any more, whose thread comes late;
-- for its end; or for a connection that identifies itself (read_loop up to `self.linked = True`). The
-- handler of several topics may be taken as one step for each. Between Broker.subscribe or
-- Broker.unsubscribe and the change of the handler's own set no other step comes here.
pub mod Tracked
pub mod Link
use mote_broker.Prelude.{
  ℕ, String, ◌≡◌, Bool, true, false, ◌==◌, ◌&&◌, if◌then◌else◌, Option, none, some, List, [], ◌∷◌,
}
use mote_broker.Result.{Result, ok, err}
use mote_broker.Dict.{Item, Dict, atom, dict, empty, get, set}
use mote_broker.Topic.{Topic}
use mote_broker.Protocols.{Bytes, Retained}
use mote_broker.Messages.{IncomingMessage, OutgoingMessage}
use mote_broker.TreeManager.{TreeState}
use mote_broker.Broker.Dispatch.{add_client}
use mote_broker.Handler.Connection.{
  Connection, BrokerState, Both, closing, handle_subscribe, handle_unsubscribe, disconnect,
  override_connection, end_loop,
}

pub record System : Type 0 where
  pub connections : ℕ → Connection
  pub broker : BrokerState

abbrev pub update : (ℕ → Connection) → ℕ → Connection → ℕ → Connection
update connections n c m = if n == m then c else connections m

-- The state that a handler of connection `n` leaves.
abbrev pub put : ℕ → System → Both → System
put n s (c, b) = record { connections = update s.connections n c; broker = b }

abbrev pub both : ℕ → System → Both
both n s = (s.connections n, s.broker)

-- A connection whose packets are handled.
abbrev pub IsActive : Connection → Type 0
IsActive c = (c.linked ≡ true) × (c.alive ≡ true)

-- prev_client.override_connection(), of the client that has the id
override_previous : Option (Item ℕ) → System → Result (Unit {0}) × System
override_previous (some (atom m)) s =
    let (done, t) = override_connection (both m s) in (done, put m s t)
override_previous _ s = (ok tt, s)

-- self.clients[client.id] = client, and `self.linked = True` behind it
linked : ℕ → System → System
linked n s =
    let c = s.connections n in
    record {
      connections = update s.connections n (record c { linked = true });
      broker = record s.broker { clients = (add_client c.id n s.broker.clients).0 };
    }

after_override : ℕ → Result (Unit {0}) × System → Result (Unit {0}) × System
after_override n (err e, s) = (err e, s)
after_override n (ok u, s) = (ok tt, linked n s)

-- Broker.add_client, in read_loop
unfoldable pub link : ℕ → System → Result (Unit {0}) × System
unfolding override_previous linked after_override
link n s = after_override n (override_previous (get (s.connections n).id s.broker.clients) s)

unfoldable pub changed : ℕ → Option ℕ → (IncomingMessage → Result (Unit {0})) → System → System
changed n errno publishing s = record {
  connections = update s.connections n (record (s.connections n) { close_errno = errno });
  broker = record s.broker { publishing = publishing };
}

module _ (json : Dict Retained → Result Bytes)
    (table_message : Topic → ℕ → Result OutgoingMessage) where
  pub data Step (s : System) : System → Type 0 where
    subscribes :
        (n : ℕ) (requests : List (String × ℕ)) (tree : TreeState)
        → Step s (put n s (handle_subscribe json table_message tree requests (both n s)).1)
    unsubscribes :
        (n : ℕ) (topics : List String) → Step s (put n s (handle_unsubscribe topics (both n s)).1)
    disconnects : (n : ℕ) → Step s (put n s (disconnect (both n s)).1)
    ends : (n : ℕ) → Step s (put n s (end_loop (both n s)).1)
    -- what closing a socket and publishing a message raise from now on
    changes :
        (n : ℕ) (errno : Option ℕ) (publishing : IncomingMessage → Result (Unit {0}))
        → Step s (changed n errno publishing s)
    links : (n : ℕ) → (s.connections n).linked ≡ false → Step s (link n s).1

  pub data Reach (s : System) : System → Type 0 where
    here : Reach s s
    next : {t u : System} → Reach s t → Step t u → Reach s u

  -- A packet is handled before its connection ends, and the sockets of connections that end close.
  abbrev pub IsTimelyStep : {s t : System} → Step s t → Type 0
  IsTimelyStep {s} (subscribes n requests tree) = IsActive (s.connections n)
  IsTimelyStep {s} (unsubscribes n topics) = IsActive (s.connections n)
  IsTimelyStep {s} (disconnects n) = closing (s.connections n) ≡ ok tt
  IsTimelyStep {s} (ends n) = closing (s.connections n) ≡ ok tt
  IsTimelyStep (changes n errno publishing) = Unit
  IsTimelyStep {s} (links n e) = (m : ℕ) → closing (s.connections m) ≡ ok tt

  unfoldable pub IsTimely : {s t : System} → Reach s t → Type 0
  IsTimely here = Unit
  IsTimely (next r st) = IsTimely r × IsTimelyStep st
