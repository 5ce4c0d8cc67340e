-- ===== src/Handler/Connection/Ending.antt =====
-- The end of a connection whose read_loop and write_loop both end it.
use mote_broker.Prelude.{
  if◌then◌else◌, ℕ, String, ◌≡◌, refl, ap, ◌∙◌, Bool, true, false, none, some, List, [], ◌∷◌, ◌++◌,
  ◌≢◌,
}
use mote_broker.Result.{Result, ok, err}
use mote_broker.Dict.{Dict}
use mote_broker.Messages.{IncomingMessage}
use mote_broker.Broker.Subscriptions.{Subscriptions}
use mote_broker.Broker.Subscriptions.Refinement.{quality, IsValid}
use mote_broker.Broker.Dispatch.{unsubscribe_client, remove_client}
use mote_broker.Handler.Connection.{
  Connection, BrokerState, after_unsubscribe, after_close, closing, will_result,
  handle_disconnected, ended, end_loop, disconnect, override_connection,
}
use mote_broker.Handler.Connection.Covers.{covers}
use mote_broker.Handler.Connection.Handlers.{unsubscribe_client-erases}

-- What handle_disconnected leaves of the broker, with valid subscriptions.
handle_disconnected-published :
    (c : Connection) (b : BrokerState) (m : IncomingMessage)
    → c.connection_override ≡ false
    → c.last_will ≡ some m
    → IsValid b.subscriptions
    → ((handle_disconnected c b).0 ≡ b.publishing m)
      × IsValid (handle_disconnected c b).1.subscriptions
      × ((handle_disconnected c b).1.published ≡ b.published ++ (m ∷ []))
      × ((handle_disconnected c b).1.clients ≡ remove_client (some c.id) b.clients)
unfolding handle_disconnected after_unsubscribe
handle_disconnected-published c b m kept will v =
    by_result (unsubscribe_client c.id c.subscriptions b.subscriptions)
      (unsubscribe_client-erases c.id c.subscriptions b.subscriptions v)
  where
    by_result :
        (r : Result Bool × Subscriptions)
        → (r.0 ≡ ok true)
          × IsValid r.1
          × ((q : List String) (j : String)
              → quality r.1 q j ≢ none
              → (quality b.subscriptions q j ≢ none)
                × (j ≡ c.id → covers q c.subscriptions ≡ false))
        → ((after_unsubscribe c b r).0 ≡ b.publishing m)
          × IsValid (after_unsubscribe c b r).1.subscriptions
          × ((after_unsubscribe c b r).1.published ≡ b.published ++ (m ∷ []))
          × ((after_unsubscribe c b r).1.clients ≡ remove_client (some c.id) b.clients)
    by_result (err e, subs) h = cc (h.0)
    by_result (ok done, subs) h = rw kept (rw will (refl, h.1, refl, refl))

end_loop_linked :
    (c : Connection) (b : BrokerState)
    → c.linked ≡ true
    → closing c ≡ ok tt
    → end_loop (c, b)
      ≡ ((handle_disconnected c b).0, (record c { alive = false }, (handle_disconnected c b).1))
unfolding end_loop ended after_close handle_disconnected
end_loop_linked c b l k =
    ap (λ x. ended x (c, b)) l ∙ ap (λ r. after_close r (record c { alive = false }, b)) k

-- A connection that breaks while it is linked ends both of its loops, and `linked` is never reset: the
-- last will is published twice, and the second time the client with its id is removed again, although
-- by then it may be another connection.
end_loop_twice :
    (c : Connection) (b : BrokerState) (m : IncomingMessage) (later : Dict ℕ)
    → c.linked ≡ true
    → closing c ≡ ok tt
    → c.connection_override ≡ false
    → c.last_will ≡ some m
    → IsValid b.subscriptions
    → let (c', b') = (end_loop (c, b)).1 in
      let b'' = (end_loop (c', record b' { clients = later })).1.1 in
      (b''.published ≡ (b.published ++ (m ∷ [])) ++ (m ∷ []))
      × (b''.clients ≡ remove_client (some c.id) later)
end_loop_twice c b m later l k kept will v =
    let (done, v', first, gone) = handle_disconnected-published c b m kept will v in
    let c' : Connection = record c { alive = false } in
    let b' : BrokerState = record (handle_disconnected c b).1 { clients = later } in
    let (done', valid, second, gone') = handle_disconnected-published c' b' m kept will v' in
    rw (end_loop_linked c b l k)
      (rw (end_loop_linked c' b' l k) (second ∙ ap (λ p. p ++ (m ∷ [])) first, gone'))

-- The end of a connection raises nothing, with valid subscriptions, where closing its socket and
-- publishing its last will do not.
abbrev pub Ends : Connection → BrokerState → Type 0
Ends c b =
    (closing c ≡ ok tt)
    × ((if c.connection_override then ok tt else will_result c.last_will b.publishing) ≡ ok tt)

after_unsubscribe-ok :
    (c : Connection) (b : BrokerState) (r : Result Bool × Subscriptions)
    → r.0 ≡ ok true
    → Ends c b
    → (after_unsubscribe c b r).0 ≡ ok tt
unfolding after_unsubscribe
after_unsubscribe-ok c b (err e, subs) h k = cc h
after_unsubscribe-ok c b (ok r, subs) h k = k.1

pub disconnect_closed :
    (c : Connection) (b : BrokerState)
    → closing c ≡ ok tt
    → disconnect (c, b) ≡ (
      (handle_disconnected c b).0,
      (record c { linked = false; alive = false }, (handle_disconnected c b).1),
    )
unfolding disconnect after_close handle_disconnected
disconnect_closed c b k = ap (λ r. after_close r (record c { linked = false; alive = false }, b)) k

pub disconnect-ok :
    (c : Connection) (b : BrokerState)
    → IsValid b.subscriptions
    → Ends c b
    → (disconnect (c, b)).0 ≡ ok tt
unfolding handle_disconnected
disconnect-ok c b v k =
    ap (λ r. r.0) (disconnect_closed c b k.0)
    ∙ after_unsubscribe-ok c b _
        (unsubscribe_client-erases c.id c.subscriptions b.subscriptions v).0 k

pub override_connection-ok :
    (c : Connection) (b : BrokerState)
    → IsValid b.subscriptions
    → closing c ≡ ok tt
    → (override_connection (c, b)).0 ≡ ok tt
unfolding override_connection
override_connection-ok c b v k =
    disconnect-ok (record c { connection_override = true }) b v (k, refl)
