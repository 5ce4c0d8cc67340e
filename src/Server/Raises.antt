-- ===== src/Server/Raises.antt =====
-- How `SocketServer.stop` ends at a client whose socket raises.
use mote_broker.Prelude.{
  ℕ, ◌≡◌, false, refl, sym, ap, ◌∙◌, ◌==◌, ==_iff, Bool-cases, inl, inr, Option, List, [], ◌∷◌,
  ◌++◌, All,
}
use mathlib.Core.Path.{subst}
use mote_broker.Result.{Result, ok, err, Error}
use mote_broker.Handler.Connection.{Both, closing, after_close, disconnect}
use mote_broker.Handler.Connection.Ending.{Ends, disconnect-ok, disconnect_closed}
use mote_broker.Handler.System.{System, update, put, both}
use mote_broker.Handler.System.Tracked.{IsTracked, disconnect-IsTracked}
use mote_broker.Server.{Server, disconnect_clients, after_disconnect, after_clients, stop}
use mote_broker.Server.Stop.{after_disconnect-ok, Ends-kept}

closing_kept :
    (s : System) (n m : ℕ)
    → Ends (s.connections n) s.broker
    → closing ((put n s (disconnect (both n s)).1).connections m) ≡ closing (s.connections m)
closing_kept s n m ends =
    let e = disconnect_closed (s.connections n) s.broker ends.0 in
    subst (λ (t : Both). closing (update s.connections n t.0 m) ≡ closing (s.connections m))
      (sym (ap (λ r. r.1) e))
      (elim (Bool-cases (n == m)) [
        | inl same ↦ rw same (ap (λ k. closing (s.connections k)) ((==_iff n m).0 same))
        | inr other ↦ rw other refl
      ])

All-kept :
    (s : System) (n : ℕ) (ms : List ℕ)
    → Ends (s.connections n) s.broker
    → All (λ m. Ends (s.connections m) s.broker) ms
    → let t = put n s (disconnect (both n s)).1 in All (λ m. Ends (t.connections m) t.broker) ms
All-kept s n [] ends others = tt
All-kept s n (m ∷ ms) ends others = (Ends-kept s n m ends others.0, All-kept s n ms ends others.1)

disconnect_clients-raises :
    (before : List ℕ) (n : ℕ) (left : List ℕ) (e : Error) (s : System)
    → IsTracked s
    → All (λ m. Ends (s.connections m) s.broker) before
    → closing (s.connections n) ≡ err e
    → ((disconnect_clients (before ++ n ∷ left) s).0 ≡ err e)
      × ((disconnect_clients (before ++ n ∷ left) s).1 ≡ left)
unfolding disconnect_clients after_disconnect disconnect after_close
disconnect_clients-raises [] n left e s v ends raised = (rw raised refl, rw raised refl)
disconnect_clients-raises (m ∷ before) n left e s v ends raised =
    let done = disconnect-ok (s.connections m) s.broker v.valid ends.0 in
    let rest = before ++ n ∷ left in
    rw (after_disconnect-ok rest (disconnect_clients rest) m s (disconnect (both m s)) done) (
      disconnect_clients-raises before n left e (put m s (disconnect (both m s)).1)
        (disconnect-IsTracked s m ends.0.0 v) (All-kept s m before ends.0 ends.1)
        (closing_kept s m n ends.0 ∙ raised))

after_clients-raised :
    (errno : Option ℕ) (server : Server) (r : Result (Unit {0}) × List ℕ × System) (e : Error)
    (left : List ℕ)
    → r.0 ≡ err e
    → r.1 ≡ left
    → ((after_clients errno server r).0 ≡ err e)
      × ((after_clients errno server r).1
          ≡ record { alive = false; clients = left; closed = server.closed })
unfolding after_clients
after_clients-raised errno server (err e', left', s) e left h k =
    (h, ap (λ l. record { alive = false; clients = l; closed = server.closed }) k)
after_clients-raised errno server (ok u, left', s) e left h k = cc h

-- Where closing the socket of a client raises, and the clients that `stop` takes before it end without an
-- exception, `stop` ends with that exception: the clients behind it are left in `clients`, the
-- server is not alive, and its listening socket is not closed.
pub stop-raises :
    (errno : Option ℕ) (server : Server) (s : System) (before : List ℕ) (n : ℕ) (left : List ℕ)
    (e : Error)
    → server.clients ≡ before ++ n ∷ left
    → IsTracked s
    → All (λ m. Ends (s.connections m) s.broker) before
    → closing (s.connections n) ≡ err e
    → ((stop errno server s).0 ≡ err e)
      × ((stop errno server s).1 ≡ record { alive = false; clients = left; closed = server.closed })
unfolding stop
stop-raises errno server s before n left e own v ends raised =
    let (result, rest) = disconnect_clients-raises before n left e s v ends raised in
    after_clients-raised errno server (disconnect_clients server.clients s) e left
      (ap (λ l. (disconnect_clients l s).0) own ∙ result)
      (ap (λ l. (disconnect_clients l s).1) own ∙ rest)
