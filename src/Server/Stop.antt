-- ===== src/Server/Stop.antt =====
-- What `SocketServer.stop` leaves.
use mote_broker.Prelude.{
  ℕ, String, Bool, ◌≡◌, refl, sym, ap, ◌∙◌, true, false, ◌==◌, ==_iff, if◌then◌else◌, Bool-cases,
  inl, inr, Option, none, List, [], ◌∷◌,
}
use mathlib.Core.Path.{subst}
use mote_broker.Result.{Result, ok, err}
use mote_broker.Handler.PacketIds.{mem}
use mote_broker.Broker.Subscriptions.Refinement.{quality}
use mote_broker.Handler.Connection.{
  Connection, BrokerState, Both, disconnect, handle_disconnected, after_unsubscribe,
}
use mote_broker.Broker.Subscriptions.{Subscriptions}
use mote_broker.Broker.Dispatch.{unsubscribe_client}
use mote_broker.Handler.Connection.Ending.{Ends, disconnect-ok, disconnect_closed}
use mote_broker.Handler.System.{System, IsActive, update, put, both}
use mote_broker.Handler.System.Tracked.{IsTracked, is_none-eq, disconnect-IsTracked}
use mote_broker.SocketHandler.{tolerated}
use mote_broker.Server.{
  Server, disconnect_clients, after_disconnect, close_server, after_clients, stop,
}

abbrev pub shut : Connection → Connection
shut c = record c { linked = false; alive = false }

-- after_disconnect goes on where the client is disconnected.
pub after_disconnect-ok :
    (left : List ℕ) (rest : System → Result (Unit {0}) × List ℕ × System) (n : ℕ) (s : System)
    (r : Result (Unit {0}) × Both)
    → r.0 ≡ ok tt
    → after_disconnect left rest n s r ≡ rest (put n s r.1)
unfolding after_disconnect
after_disconnect-ok left rest n s (err e, t) h = cc
after_disconnect-ok left rest n s (ok u, t) h = refl

shut_once :
    (n m : ℕ) (clients : List ℕ) (f : ℕ → Connection)
    → (if mem m clients then shut (update f n (shut (f n)) m) else update f n (shut (f n)) m)
      ≡ (if mem m (n ∷ clients) then shut (f m) else f m)
shut_once n m clients f = elim (Bool-cases (n == m)) [
  | inl same ↦ elim (Bool-cases (mem m clients)) [
    | inl e ↦ rw (same, e) (ap (λ k. shut (f k)) ((==_iff n m).0 same))
    | inr e ↦ rw (same, e) (ap (λ k. shut (f k)) ((==_iff n m).0 same))
  ]
  | inr other ↦ rw other refl
]

-- Closing the socket of a connection raises nothing, and neither does publishing its last will.
abbrev pub AllEnd : System → Type 0
AllEnd s = (m : ℕ) → Ends (s.connections m) s.broker

disconnected-publishing :
    (c : Connection) (b : BrokerState) → (handle_disconnected c b).1.publishing ≡ b.publishing
unfolding handle_disconnected after_unsubscribe
disconnected-publishing c b = by_result (unsubscribe_client c.id c.subscriptions b.subscriptions)
  where
    by_result :
        (r : Result Bool × Subscriptions) → (after_unsubscribe c b r).1.publishing ≡ b.publishing
    by_result (err e, subs) = refl
    by_result (ok done, subs) = elim (Bool-cases c.connection_override) [
      | inl e ↦ rw e
      | inr e ↦ rw e
    ]

pub Ends-kept :
    (s : System) (n m : ℕ)
    → Ends (s.connections n) s.broker
    → Ends (s.connections m) s.broker
    → let t = put n s (disconnect (both n s)).1 in Ends (t.connections m) t.broker
Ends-kept s n m ends others =
    let e = disconnect_closed (s.connections n) s.broker ends.0 in
    subst (λ (t : Both). Ends (update s.connections n t.0 m) t.1) (sym (ap (λ r. r.1) e))
      (let kept = disconnected-publishing (s.connections n) s.broker in
        elim (Bool-cases (n == m)) [
          | inl same ↦ rw same (rw kept ends)
          | inr other ↦ rw other (rw kept others)
        ])

disconnected-AllEnd : (s : System) (n : ℕ) → AllEnd s → AllEnd (put n s (disconnect (both n s)).1)
disconnected-AllEnd s n ends m = Ends-kept s n m (ends n) (ends m)

disconnect_clients-ends :
    (clients : List ℕ) (s : System)
    → AllEnd s
    → IsTracked s
    → ((disconnect_clients clients s).0 ≡ ok tt)
      × ((disconnect_clients clients s).1 ≡ [])
      × IsTracked (disconnect_clients clients s).2
      × ((m : ℕ)
          → (disconnect_clients clients s).2.connections m
            ≡ (if mem m clients then shut (s.connections m) else s.connections m))
unfolding disconnect_clients
disconnect_clients-ends [] s ends v = (refl, refl, v, λ m. refl)
disconnect_clients-ends (n ∷ clients) s ends v =
    let done = disconnect-ok (s.connections n) s.broker v.valid (ends n) in
    let e = disconnect_closed (s.connections n) s.broker (ends n).0 in
    let (ended, none_left, tracked, all) =
      disconnect_clients-ends clients (put n s (disconnect (both n s)).1)
        (disconnected-AllEnd s n ends) (disconnect-IsTracked s n (ends n).0 v) in
    rw (after_disconnect-ok clients (disconnect_clients clients) n s (disconnect (both n s)) done) (
      ended,
      none_left,
      tracked,
      λ m.
          all m
          ∙ (ap
                (λ c.
                  if mem m clients
                  then shut (update s.connections n c m)
                  else update s.connections n c m)
                (ap (λ r. r.1.0) e)
              ∙ shut_once n m clients s.connections),
    )

close_server-closed :
    (server : Server) (left : List ℕ) (r : Result (Unit {0}))
    → left ≡ []
    → ((close_server server left r).0 ≡ r)
      × ((close_server server left r).1.clients ≡ [])
      × ((close_server server left r).1.alive ≡ false)
unfolding close_server
close_server-closed server left (err e) k = (refl, k, refl)
close_server-closed server left (ok u) k = (refl, k, refl)

after_clients-stopped :
    (errno : Option ℕ) (server : Server) (r : Result (Unit {0}) × List ℕ × System)
    → r.0 ≡ ok tt
    → r.1 ≡ []
    → ((after_clients errno server r).0 ≡ tolerated (9 ∷ 57 ∷ 107 ∷ []) errno)
      × ((after_clients errno server r).1.clients ≡ [])
      × ((after_clients errno server r).1.alive ≡ false)
      × ((after_clients errno server r).2 ≡ r.2)
unfolding after_clients close_server
after_clients-stopped errno server (err e, left, s) h k = cc (h)
after_clients-stopped errno server (ok u, left, s) h k =
    let (result, clients, alive) =
      close_server-closed server left (tolerated (9 ∷ 57 ∷ 107 ∷ []) errno) k in
    (result, clients, alive, refl)

-- Where the subscriptions of the broker belong to active connections, and neither closing the socket of
-- a connection nor publishing its last will raises, `stop` disconnects every client
-- that it has: no client is left, each of their connections is neither linked nor alive, no other
-- connection is changed, and the subscriptions still belong to active connections. It raises only
-- where closing the listening socket does.
pub stop-ends :
    (errno : Option ℕ) (server : Server) (s : System)
    → AllEnd s
    → IsTracked s
    → ((stop errno server s).0 ≡ tolerated (9 ∷ 57 ∷ 107 ∷ []) errno)
      × ((stop errno server s).1.clients ≡ [])
      × ((stop errno server s).1.alive ≡ false)
      × IsTracked (stop errno server s).2
      × ((m : ℕ)
          → (stop errno server s).2.connections m
            ≡ (if mem m server.clients then shut (s.connections m) else s.connections m))
unfolding stop
stop-ends errno server s ends v =
    let (done, left, tracked, all) = disconnect_clients-ends server.clients s ends v in
    let (result, clients, alive, system) =
      after_clients-stopped errno server (disconnect_clients server.clients s) done left in
    (
      result,
      clients,
      alive,
      subst IsTracked (sym system) tracked,
      λ m. ap (λ (t : System). t.connections m) system ∙ all m,
    )

-- Where, moreover, the active connections of a client are all of the server, that client has no subscription left once the server is stopped.
pub stop-no_quality :
    (errno : Option ℕ) (server : Server) (s : System) (j : String)
    → AllEnd s
    → IsTracked s
    → ((n : ℕ)
        → IsActive (s.connections n)
        → (s.connections n).id ≡ j
        → mem n server.clients ≡ true)
    → (q : List String) → quality (stop errno server s).2.broker.subscriptions q j ≡ none
stop-no_quality errno server s j ends v own q =
    let (result, clients, alive, tracked, all) = stop-ends errno server s ends v in
    is_none-eq (quality (stop errno server s).2.broker.subscriptions q j) λ h.
      let (n, holds) = tracked.tracked q j h in
      elim (Bool-cases (mem n server.clients)) [
        | inl e ↦
            let shut_now : (stop errno server s).2.connections n ≡ shut (s.connections n) =
              all n ∙ rw e refl in
            let unlinked = ap (λ (c : Connection). c.linked) shut_now in cc (unlinked, holds.0.0)
        | inr e ↦
            let same : (stop errno server s).2.connections n ≡ s.connections n =
              all n ∙ rw e refl in
            let before =
              subst (λ (c : Connection). IsActive c × (c.id ≡ j)) same (holds.0, holds.1) in
            cc (own n before.0 before.1, e)
      ]
