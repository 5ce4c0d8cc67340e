-- ===== src/Handler/Exchange.antt =====
-- The exchanges of packets for the quality of service 2, as handlers of servers/handler.py that wait
-- and go on.
pub mod Conditions
use mote_broker.Prelude.{
  ℕ, suc, ◌+◌, ◌<◌, String, ◌≡◌, refl, ap, ◌∙◌, Bool, true, false, not, ◌&&◌, ◌==◌, if◌then◌else◌,
  Option, none, some, List, [], ◌∷◌, ◌++◌, keep, exists, append_assoc, arith,
}
use mathlib.Core.Path.{subst}
use mote_broker.Result.{Result, ok, err, ◌>>=◌}
use mote_broker.Protocols.{Retained}
use mote_broker.Messages.{IncomingMessage}
use mote_broker.Handler.PacketIds.{
  mem, next_packet_id, IsSmallestFree, next_packet_id-IsSmallestFree,
}
use mote_broker.Handler.{
  PublishPacket, OutPacket, out_id, out_publish, PacketCondition, Session, Waiting, nothing,
  first_answer, complete, release, pubrec_code, pubrel_code, pubcomp_code, create_packet_condition,
  packet_notify, waits_for, met, release_id, write, then_do,
}
use mote_broker.Handler.Messages.{
  from_packet, out_message, id_of, handle_publish_qos_2, send_message, resume, release_on_error,
  send_release, send_with_id, with_next_id, publish, publish_message,
}
use mote_broker.Handler.Exchange.Conditions.{
  IsFresh, waiting, same_condition_fresh, meet_first-append, keep-met, is_met-append,
  is_met-waiting, IsFresh-suc,
}

-- a connected session
abbrev pub online :
    (IncomingMessage → Result (Unit {0}))
    → List ℕ
    → List PacketCondition
    → ℕ
    → List OutPacket
    → List IncomingMessage
    → Session
online publishing used cs made written published = record {
  connected = true;
  used_ids = used;
  packet_conditions = cs;
  conditions_made = made;
  written = written;
  published = published;
  publishing = publishing;
}

-- A packet comes that only has an id, and the handler goes on.
abbrev pub answer : ℕ → ℕ → Waiting → Session → Result Waiting × Session
answer type_code i w s = resume w (packet_notify type_code i s).1

-- What is written behind `publish`, which may raise.
abbrev pub then_written : Result (Unit {0}) → OutPacket → List OutPacket → List OutPacket
then_written (err e) packet written = written
then_written (ok u) packet written = written ++ packet ∷ []

-- A publish packet of quality 2 is answered with a received packet, and not published before the
-- release packet comes; then its message is published once. If Broker.publish does not raise for it, a
-- complete packet is written; otherwise its exception ends the handler and none is written. Either way
-- the conditions are those of before. The topic of the packet is one that makes a message.
pub handle_publish_qos_2-exchange :
    (publishing : IncomingMessage → Result (Unit {0})) (p : PublishPacket) (m : IncomingMessage)
    (used : List ℕ) (cs : List PacketCondition) (made : ℕ) (ws : List OutPacket)
    (ps : List IncomingMessage)
    → from_packet p ≡ ok m
    → IsFresh made cs
    → exists (waits_for pubrel_code (id_of p)) cs ≡ false
    → let w = release (waiting pubrel_code (id_of p) made) p in
      let sent = ws ++ out_id pubrec_code (id_of p) ∷ [] in
      let s =
        online publishing used (cs ++ waiting pubrel_code (id_of p) made ∷ []) (suc made) sent ps in
      (handle_publish_qos_2 p (online publishing used cs made ws ps) ≡ (ok w, s))
      × (resume w s ≡ (ok w, s))
      × (answer pubrel_code (id_of p) w s ≡ (
        publishing m >>= λ u. ok nothing,
        online publishing used cs
            (suc made)
            (then_written (publishing m) (out_id pubcomp_code (id_of p)) sent)
            (ps ++ m ∷ []),
      ))
unfolding handle_publish_qos_2 create_packet_condition write resume packet_notify publish
    publish_message
handle_publish_qos_2-exchange publishing p m used cs made ws ps message fresh free = (
  rw (same_condition_fresh pubrel_code (id_of p) made cs fresh),
  rw (is_met-waiting pubrel_code (id_of p) made cs fresh),
  rw (meet_first-append pubrel_code (id_of p) made cs free) (
      rw (is_met-append pubrel_code (id_of p) made cs)
        (rw (keep-met pubrel_code (id_of p) made cs fresh, message) (by_result (publishing m)))),
)
  where
    by_result :
        (r : Result (Unit {0}))
        → then_do
            (
              r,
              online publishing used cs
                  (suc made)
                  (ws ++ out_id pubrec_code (id_of p) ∷ [])
                  (ps ++ m ∷ []),
            )
            (λ u s1. then_do (write (out_id pubcomp_code (id_of p)) s1) (λ v s2. (ok nothing, s2)))
          ≡ (
            r >>= λ u. ok nothing,
            online publishing used cs
                (suc made)
                (then_written r
                  (out_id pubcomp_code (id_of p))
                  (ws ++ out_id pubrec_code (id_of p) ∷ []))
                (ps ++ m ∷ []),
          )
    by_result (err e) = refl
    by_result (ok u) = refl

keep_unused :
    (i : ℕ) (used : List ℕ) → mem i used ≡ false → keep (λ j. not (j == i)) (i ∷ used) ≡ used
keep_unused i used h = ground arith ∙ others used h
  where
    others : (used : List ℕ) → mem i used ≡ false → keep (λ j. not (j == i)) used ≡ used
    others [] h = refl
    others (j ∷ used) h = ground (arith, h, others used)

unused_of_next : (used : List ℕ) (i : ℕ) → next_packet_id used ≡ ok i → mem i used ≡ false
unused_of_next used i h = (subst (IsSmallestFree used) h (next_packet_id-IsSmallestFree used)).1

mem_self : (i : ℕ) (used : List ℕ) → mem i (i ∷ used) ≡ true
mem_self i used = ground arith

release_id_own :
    (publishing : IncomingMessage → Result (Unit {0})) (i : ℕ) (used : List ℕ)
    (cs : List PacketCondition) (made : ℕ) (ws : List OutPacket) (ps : List IncomingMessage)
    → mem i used ≡ false
    → release_id i (ok nothing, online publishing (i ∷ used) cs made ws ps)
      ≡ (ok nothing, online publishing used cs made ws ps)
unfolding release_id
release_id_own publishing i used cs made ws ps h =
    rw (mem_self i used)
      (ap (λ used'. (ok nothing, online publishing used' cs made ws ps)) (keep_unused i used h))

-- A message of quality 2 is sent with the smallest free id: the publish packet, and when the received
-- packet comes, the release packet; when the complete packet comes, the id is free again and the
-- conditions are those of before.
pub send_message-exchange :
    (publishing : IncomingMessage → Result (Unit {0})) (topic : String) (payload : Retained) (i : ℕ)
    (used : List ℕ) (cs : List PacketCondition) (made : ℕ) (ws : List OutPacket)
    (ps : List IncomingMessage)
    → next_packet_id used ≡ ok i
    → IsFresh made cs
    → exists (waits_for pubrec_code i) cs ≡ false
    → exists (waits_for pubcomp_code i) cs ≡ false
    → let first = first_answer (waiting pubrec_code i made) i 2 in
      let second = complete (waiting pubcomp_code i (suc made)) i in
      let sent = ws ++ out_message 2 topic payload (some i) ∷ [] in
      let s =
        online publishing (i ∷ used) (cs ++ waiting pubrec_code i made ∷ []) (suc made) sent ps in
      let t =
        online publishing
          (i ∷ used)
          (cs ++ waiting pubcomp_code i (suc made) ∷ [])
          (suc (suc made))
          (sent ++ out_id pubrel_code i ∷ [])
          ps in
      (send_message 2 topic payload (online publishing used cs made ws ps) ≡ (ok first, s))
      × (answer pubrec_code i first s ≡ (ok second, t))
      × (answer pubcomp_code i second t ≡ (
        ok nothing,
        online publishing used cs (suc (suc made)) (sent ++ out_id pubrel_code i ∷ []) ps,
      ))
unfolding send_message with_next_id send_with_id release_on_error create_packet_condition write
    resume packet_notify release_id send_release
send_message-exchange publishing topic payload i used cs made ws ps next fresh free_first
      free_second =
    let fresh' = IsFresh-suc made cs fresh in
    let sent = ws ++ out_message 2 topic payload (some i) ∷ [] in
    (
      rw (next, same_condition_fresh pubrec_code i made cs fresh),
      rw (meet_first-append pubrec_code i made cs free_first) (
          rw (is_met-append pubrec_code i made cs) (
            rw (keep-met pubrec_code i made cs fresh)
              (rw (same_condition_fresh pubcomp_code i (suc made) cs fresh')))),
      rw (meet_first-append pubcomp_code i (suc made) cs free_second) (
          rw (is_met-append pubcomp_code i (suc made) cs) (
            rw (keep-met pubcomp_code i (suc made) cs fresh') (
              release_id_own publishing i used cs (suc (suc made))
                (sent ++ out_id pubrel_code i ∷ []) ps (unused_of_next used i next)))),
    )
