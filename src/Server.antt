-- ===== src/Server.antt =====
-- SocketServer of servers/socket.py, which servers/ssl.py gives another socket: the clients it has
-- accepted, and how it stops them. A client is the number of its connection, and `clients` has the last one
-- first, which `pop` takes. `errno` is what `shutdown` of the listening socket raises, if it raises; the
-- connection that stop_socket makes only wakes `accept`.
pub mod Stop
pub mod Raises
pub mod Accepting
use mote_broker.Prelude.{ℕ, Bool, true, false, if◌then◌else◌, Option, none, some, List, [], ◌∷◌}
use mote_broker.Result.{Result, ok, err}
use mote_broker.SocketHandler.{tolerated}
use mote_broker.Handler.Connection.{Connection, Both, disconnect}
use mote_broker.Handler.System.{System, update, put, both}

pub record Server : Type 0 where
  pub alive : Bool
  pub clients : List ℕ
  -- whether the listening socket is closed
  pub closed : Bool

-- Handler.new_connection; `None`, the id until the client has connected, is the empty text here
unfoldable pub new_connection : ℕ → Connection
new_connection n = record {
  id = "";
  client = n;
  subscriptions = [];
  alive = true;
  linked = false;
  connection_override = false;
  last_will = none;
  close_errno = none;
}

-- SocketServer.handle_client
unfoldable pub handle_client : ℕ → Server → System → Server × System
unfolding new_connection
handle_client n server s = (
  record server { clients = n ∷ server.clients },
  record s { connections = update s.connections n (new_connection n) },
)

-- one turn of the loop of stop, before the rest of it
pub after_disconnect :
    List ℕ
    → (System → Result (Unit {0}) × List ℕ × System)
    → ℕ
    → System
    → Result (Unit {0}) × Both
    → Result (Unit {0}) × List ℕ × System
after_disconnect left rest n s (err e, t) = (err e, left, put n s t)
after_disconnect left rest n s (ok u, t) = rest (put n s t)

-- while self.clients: self.clients.pop().disconnect()
unfoldable pub disconnect_clients : List ℕ → System → Result (Unit {0}) × List ℕ × System
unfolding after_disconnect
disconnect_clients [] s = (ok tt, [], s)
disconnect_clients (n ∷ clients) s =
    after_disconnect clients (disconnect_clients clients) n s (disconnect (both n s))

-- self.server.shutdown(SHUT_RDWR), and self.server.close() unless it raised
close_server : Server → List ℕ → Result (Unit {0}) → Result (Unit {0}) × Server
close_server server left (err e) =
    (err e, record { alive = false; clients = left; closed = server.closed })
close_server server left (ok u) = (ok tt, record { alive = false; clients = left; closed = true })

pub after_clients :
    Option ℕ → Server → Result (Unit {0}) × List ℕ × System → Result (Unit {0}) × Server × System
after_clients errno server (err e, left, s) =
    (err e, record { alive = false; clients = left; closed = server.closed }, s)
after_clients errno server (ok u, left, s) =
    let (done, server') = close_server server left (tolerated (9 ∷ 57 ∷ 107 ∷ []) errno) in
    (done, server', s)

-- SocketServer.stop
unfoldable pub stop : Option ℕ → Server → System → Result (Unit {0}) × Server × System
unfolding disconnect_clients after_clients close_server
stop errno server s = after_clients errno server (disconnect_clients server.clients s)
