-- ===== src/Handler/Identify/Registers.antt =====
-- What the connect packet of a client changes in the system.
use mathlib.Core.Path.{subst}
use mote_broker.Prelude.{
  ℕ, ◌+◌, String, ◌≡◌, refl, sym, ap, ◌∙◌, ◌⊎◌, Bool, true, false, inl, inr, Option, ◌==◌,
  Bool-cases,
}
use mote_broker.Result.{Result, ok, err, Error, connection_error}
use mote_broker.Protocols.{Bytes}
use mote_broker.Messages.{IncomingMessage}
use mote_broker.Handler.Connection.{Connection, closing}
use mote_broker.Handler.System.{System, link, update}
use mote_broker.Handler.System.Tracked.{IsTracked, changed-IsTracked, self_update, link-IsTracked}
use mote_broker.Handler.System.Link.{IsRegistered, link-IsRegistered}
use mote_broker.Handler.Identify.{
  ConnectPacket, change, registered, acknowledged, with_will, with_packet, write_connack,
  get_last_will, read_connect_packet, identify,
}

-- The outcome: an exception that leaves the broker alone and the connection unlinked, or a client that is
-- registered under the id of its packet.
abbrev pub Refused : ℕ → System → Result ℕ × System → Type 0
Refused n s r =
    (e : Error) × (r.0 ≡ err e) × (r.1.broker ≡ s.broker) × ((r.1.connections n).linked ≡ false)

abbrev pub Accepted : ℕ → ConnectPacket → Result ℕ × System → Type 0
Accepted n p r = (r.0 ≡ ok (p.keep_alive + 1)) × IsRegistered n p.client_id r.1

-- The last will cannot be made, or the acknowledgement not be written.
abbrev pub IsRefused : Bool → Result (Option IncomingMessage) → Type 0
IsRefused connected will = ((e : Error) × (will ≡ err e)) ⊎ (connected ≡ false)

-- Closing the socket of a connection raises nothing.
abbrev pub Closing : System → Type 0
Closing s = (m : ℕ) → closing (s.connections m) ≡ ok tt

changed-Closing :
    (s : System) (n : ℕ) (c : Connection)
    → closing c ≡ closing (s.connections n)
    → Closing s
    → Closing (record s { connections = update s.connections n c })
changed-Closing s n c e closes m = elim (Bool-cases (n == m)) [
  | inl same ↦ rw same (e ∙ closes n)
  | inr other ↦ rw other (closes m)
]

-- the connection, changed where its link stays as it was
change-linked :
    (f : Connection → Connection) (n : ℕ) (s : System)
    → (f (s.connections n)).linked ≡ false
    → ((change f n s).connections n).linked ≡ false
change-linked f n s e =
    ap (λ (c : Connection). c.linked) (self_update s.connections n (f (s.connections n))) ∙ e

module _ (n : ℕ) where
  registered-Accepted :
      (p : ConnectPacket) (s : System) (r : Result (Unit {0}) × System)
      → r.0 ≡ ok tt
      → IsRegistered n p.client_id r.1
      → Accepted n p (registered n p.keep_alive r)
  unfolding registered
  registered-Accepted p s (err e, t) h k = cc h
  registered-Accepted p s (ok u, t) h k = (refl, k)

  registered-system : (k : ℕ) (r : Result (Unit {0}) × System) → (registered n k r).1 ≡ r.1
  unfolding registered
  registered-system k (err e, t) = refl
  registered-system k (ok u, t) = refl

  with_will-registers :
      (connected : Bool) (p : ConnectPacket) (s : System) (r : Result (Option IncomingMessage))
      → (s.connections n).linked ≡ false
      → (s.connections n).id ≡ p.client_id
      → Closing s
      → IsTracked s
      → IsTracked (with_will n connected p s r).1
        × ((IsRefused connected r × Refused n s (with_will n connected p s r))
            ⊎ Accepted n p (with_will n connected p s r))
  unfolding with_will acknowledged write_connack
  with_will-registers connected p s (err e) free own closes v =
      (v, inl (inl (e, refl), (e, refl, refl, free)))
  with_will-registers false p s (ok will) free own closes v = (
    changed-IsTracked s n (record (s.connections n) { last_will = will }) free v,
    inl (
      inr refl,
      (connection_error, refl, refl, change-linked (λ c. record c { last_will = will }) n s free),
    ),
  )
  with_will-registers true p s (ok will) free own closes v =
      let t = change (λ (c : Connection). record c { last_will = will }) n s in
      let w = changed-IsTracked s n (record (s.connections n) { last_will = will }) free v in
      let same : (t.connections n).id ≡ p.client_id =
        ap (λ (c : Connection). c.id)
          (self_update s.connections n (record (s.connections n) { last_will = will }))
        ∙ own in
      let still = changed-Closing s n (record (s.connections n) { last_will = will }) refl closes in
      let (done, there) = link-IsRegistered n t still w in
      (
        subst IsTracked (sym (registered-system p.keep_alive (link n t)))
            (link-IsTracked t n still w),
        inr (
            registered-Accepted p t (link n t) done
              (subst (λ j. IsRegistered n j (link n t).1) same there)),
      )

module _ (decode : Bytes → String) (n : ℕ) (connected : Bool) where
  -- What comes of the packet that was read, or not read.
  abbrev pub Outcome : Bytes → System → Result ℕ × System → Type 0
  Outcome input s r =
      ((e : Error) × (read_connect_packet decode input ≡ err e) × Refused n s r)
      ⊎ ((p : ConnectPacket) × (rest : Bytes) × (read_connect_packet decode input ≡ ok (p, rest))
          × ((IsRefused connected (get_last_will p) × Refused n s r) ⊎ Accepted n p r))

  -- A connection that is not linked reads its connect packet, and closing a socket raises nothing. Where the packet cannot be read, its last
  -- will not be made or the acknowledgement not be written, an exception ends this, the broker is as
  -- before and the connection not linked. Otherwise the connection is linked, registered under
  -- the client id of the packet, and its keep-alive time is one second more than the packet's. The
  -- subscriptions still belong to active connections, also where another connection with the id is overridden.
  pub identify-registers :
      (input : Bytes) (s : System)
      → (s.connections n).linked ≡ false
      → Closing s
      → IsTracked s
      → IsTracked (identify decode n connected input s).1
        × Outcome input s (identify decode n connected input s)
  unfolding identify with_packet
  identify-registers input s free closes v = by_packet (read_connect_packet decode input) refl
    where
      by_packet :
          (r : Result (ConnectPacket × Bytes))
          → read_connect_packet decode input ≡ r
          → IsTracked (with_packet n connected s r).1
            × Outcome input s (with_packet n connected s r)
      by_packet (err e) h = (v, inl (e, h, (e, refl, refl, free)))
      by_packet (ok (p, rest)) h =
          let t = change (λ (c : Connection). record c { id = p.client_id }) n s in
          let (tracked, outcome) =
            with_will-registers n connected p t (get_last_will p)
              (change-linked (λ c. record c { id = p.client_id }) n s free)
              (ap (λ (c : Connection). c.id)
                (self_update s.connections n (record (s.connections n) { id = p.client_id })))
              (changed-Closing s n (record (s.connections n) { id = p.client_id }) refl closes)
              (changed-IsTracked s n (record (s.connections n) { id = p.client_id }) free v) in
          (tracked, inr (p, rest, h, outcome))
