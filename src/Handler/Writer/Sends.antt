-- ===== src/Handler/Writer/Sends.antt =====
-- What the calls of a connection write: `send_message` one publish packet at most, the others none.
use mote_broker.Prelude.{
  ℕ, ◌≡◌, refl, ap, ◌∙◌, false, ◌==◌, if◌then◌else◌, Bool-cases, inl, inr, Option, none, some, List,
  [], ◌∷◌, ◌++◌, append-nil, exists,
}
use mote_broker.Result.{Result, ok, err}
use mote_broker.Messages.{IncomingMessage}
use mote_broker.Handler.PacketIds.{mem, next_packet_id}
use mote_broker.Handler.{
  PublishPacket, OutPacket, out_publish, out_id, out_blank, pingresp_code, handle_ping_request,
  PacketCondition, Session, Waiting, nothing, first_answer, complete, release, then_do, write,
  create_packet_condition, packet_notify, release_id, same_condition, with_used, pubcomp_code,
  pubrel_code, puback_code, pubrec_code,
}
use mote_broker.Handler.Messages.{
  release_on_error, send_message, send_with_id, with_next_id, out_message, publish, publish_message,
  from_packet, handle_publish, handle_publish_qos_1, handle_publish_qos_2, resume, send_release,
  is_met, id_of, remove_condition,
}
use mote_broker.Handler.Writer.{Outgoing}

-- The messages of the publish packets that are written.
abbrev pub sent : List OutPacket → List Outgoing
sent [] = []
sent (out_publish p ∷ ps) = record { topic = p.topic; qos = p.qos; payload = p.payload } ∷ sent ps
sent (out_id c i ∷ ps) = sent ps
sent (out_blank c ∷ ps) = sent ps

pub sent-append : (ps qs : List OutPacket) → sent (ps ++ qs) ≡ sent ps ++ sent qs
sent-append [] qs = refl
sent-append (out_publish p ∷ ps) qs = rw (sent-append ps qs)
sent-append (out_id c i ∷ ps) qs = sent-append ps qs
sent-append (out_blank c ∷ ps) qs = sent-append ps qs

-- A call that writes no publish packet.
abbrev pub Keeps : {A : Type 0} → Session → Result A × Session → Type 0
Keeps s r = sent r.1.written ≡ sent s.written

then_do-Keeps :
    {A B : Type 0} (s : Session) (r : Result A × Session) (f : A → Session → Result B × Session)
    → Keeps s r
    → ((a : A) (t : Session) → Keeps t (f a t))
    → Keeps s (then_do r f)
then_do-Keeps s (err e, t) f k h = k
then_do-Keeps s (ok a, t) f k h = h a t ∙ k

write_id-Keeps : (c i : ℕ) (s : Session) → Keeps s (write (out_id c i) s)
unfolding write
write_id-Keeps c i s = elim (Bool-cases s.connected) [
  | inl e ↦ rw e (sent-append s.written (out_id c i ∷ []) ∙ append-nil (sent s.written))
  | inr e ↦ rw e refl
]

pub handle_ping_request-Keeps : (s : Session) → Keeps s (handle_ping_request s)
unfolding handle_ping_request write
handle_ping_request-Keeps s = elim (Bool-cases s.connected) [
  | inl e ↦
      rw e (sent-append s.written (out_blank pingresp_code ∷ []) ∙ append-nil (sent s.written))
  | inr e ↦ rw e refl
]

create-Keeps : (c i : ℕ) (s : Session) → Keeps s (create_packet_condition c i s)
unfolding create_packet_condition
create-Keeps c i s =
    elim (Bool-cases (
      exists
        (same_condition
          (record { type_code = c; id = i; result = false; condition = s.conditions_made }))
        s.packet_conditions)) [ inl e ↦ rw e refl | inr e ↦ rw e refl ]

-- A packet with an id is written, and the rest only returns.
write_only-Keeps :
    (c i : ℕ) (v : Waiting) (s : Session)
    → Keeps s (then_do (write (out_id c i) s) (λ u t. (ok v, t)))
write_only-Keeps c i v s =
    then_do-Keeps s (write (out_id c i) s) (λ u t. (ok v, t)) (write_id-Keeps c i s) (λ u t. refl)

-- A condition is made, and a packet with an id written.
create_write-Keeps :
    (code c i : ℕ) (f : PacketCondition → Waiting) (s : Session)
    → Keeps s (
        then_do
          (create_packet_condition code i s)
          (λ k t. then_do (write (out_id c i) t) (λ u t'. (ok (f k), t'))))
create_write-Keeps code c i f s =
    then_do-Keeps s (create_packet_condition code i s)
      (λ k t. then_do (write (out_id c i) t) (λ u t'. (ok (f k), t'))) (create-Keeps code i s)
      (λ k t. write_only-Keeps c i (f k) t)

release_id-Keeps :
    {A : Type 0} (i : ℕ) (s : Session) (r : Result A × Session)
    → Keeps s r
    → Keeps s (release_id i r)
unfolding release_id
release_id-Keeps i s (r, t) k = elim (Bool-cases (mem i t.used_ids)) [
  | inl e ↦ rw e k
  | inr e ↦ rw e k
]

release_on_error-Keeps :
    (i : ℕ) (s : Session) (r : Result Waiting × Session)
    → Keeps s r
    → Keeps s (release_on_error i r)
unfolding release_on_error
release_on_error-Keeps i s (err e, t) k = release_id-Keeps i s (err e, t) k
release_on_error-Keeps i s (ok v, t) k = k

publish-Keeps : (p : PublishPacket) (s : Session) → Keeps s (publish p s)
unfolding publish
publish-Keeps p s = by_message (from_packet p)
  where
    by_message : (r : Result IncomingMessage) → Keeps s (publish_message r s)
    by_message (err e) = refl
    by_message (ok m) = refl

pub notify-written : (c i : ℕ) (s : Session) → (packet_notify c i s).1.written ≡ s.written
unfolding packet_notify
notify-written c i s = refl

nothing-Keeps : (v : Waiting) (s : Session) → Keeps s (ok v, s)
nothing-Keeps v s = refl

-- A packet is published, and the rest writes no publish packet.
publish_then-Keeps :
    (p : PublishPacket) (s : Session) (f : Unit {0} → Session → Result Waiting × Session)
    → ((u : Unit {0}) (t : Session) → Keeps t (f u t))
    → Keeps s (then_do (publish p s) f)
publish_then-Keeps p s f h = then_do-Keeps s (publish p s) f (publish-Keeps p s) h

pub handle_publish-Keeps : (p : PublishPacket) (s : Session) → Keeps s (handle_publish p s)
unfolding handle_publish handle_publish_qos_1 handle_publish_qos_2
handle_publish-Keeps p s = elim (Bool-cases (p.qos == 0)) [
  | inl zero ↦ rw zero (publish_then-Keeps p s (λ u t. (ok nothing, t)) (λ u t. refl))
  | inr e0 ↦ elim (Bool-cases (p.qos == 1)) [
    | inl one ↦
        rw (e0, one)
          (publish_then-Keeps p s
            (λ u t. then_do (write (out_id puback_code (id_of p)) t) (λ v t'. (ok nothing, t')))
            (λ u t. write_only-Keeps puback_code (id_of p) nothing t))
    | inr e1 ↦ elim (Bool-cases (p.qos == 2)) [
      | inl two ↦
          rw (e0, e1, two)
            (create_write-Keeps pubrel_code pubrec_code (id_of p) (λ c. release c p) s)
      | inr e2 ↦ rw (e0, e1, e2) refl
    ]
  ]
]

send_release-Keeps : (i : ℕ) (s : Session) → Keeps s (send_release i s)
unfolding send_release
send_release-Keeps i s = create_write-Keeps pubcomp_code pubrel_code i (λ c. complete c i) s

pub resume-Keeps : (v : Waiting) (s : Session) → Keeps s (resume v s)
unfolding resume
resume-Keeps nothing s = refl
resume-Keeps (first_answer c i qos) s = elim (Bool-cases (is_met c s)) [
  | inl e ↦ elim (Bool-cases (qos == 2)) [
    | inl two ↦
        rw (e, two)
          (release_on_error-Keeps i s (send_release i (remove_condition c s))
            (send_release-Keeps i (remove_condition c s)))
    | inr other ↦ rw (e, other) (release_id-Keeps i s (ok nothing, remove_condition c s) refl)
  ]
  | inr e ↦ rw e refl
]
resume-Keeps (complete c i) s = elim (Bool-cases (is_met c s)) [
  | inl e ↦ rw e (release_id-Keeps i s (ok nothing, remove_condition c s) refl)
  | inr e ↦ rw e refl
]
resume-Keeps (release c p) s = elim (Bool-cases (is_met c s)) [
  | inl e ↦ rw e (
      publish_then-Keeps p (remove_condition c s)
        (λ u t. then_do (write (out_id pubcomp_code (id_of p)) t) (λ v t'. (ok nothing, t')))
        (λ u t. write_only-Keeps pubcomp_code (id_of p) nothing t))
  | inr e ↦ rw e refl
]

-- A call that writes a publish packet for the message, unless it raises.
abbrev pub Sends : Outgoing → Session → Result Waiting × Session → Type 0
Sends m s (ok v, t) = sent t.written ≡ sent s.written ++ m ∷ []
Sends m s (err e, t) = sent t.written ≡ sent s.written

write_out-Sends :
    (m : Outgoing) (id : Option ℕ) (v : Waiting) (s : Session)
    → Sends m s (then_do (write (out_message m.qos m.topic m.payload id) s) (λ u t. (ok v, t)))
unfolding write
write_out-Sends m id v s = elim (Bool-cases s.connected) [
  | inl e ↦ rw e (sent-append s.written (out_message m.qos m.topic m.payload id ∷ []))
  | inr e ↦ rw e refl
]

then_do-Sends :
    {A : Type 0} (m : Outgoing) (s : Session) (r : Result A × Session)
    (f : A → Session → Result Waiting × Session)
    → Keeps s r
    → ((a : A) (t : Session) → Sends m t (f a t))
    → Sends m s (then_do r f)
then_do-Sends m s (err e, t) f k h = k
then_do-Sends m s (ok a, t) f k h = by_rest (f a t) (h a t)
  where
    by_rest : (r : Result Waiting × Session) → Sends m t r → Sends m s r
    by_rest (err e, t') g = g ∙ k
    by_rest (ok v, t') g = g ∙ ap (λ l. l ++ m ∷ []) k

release_on_error-Sends :
    (m : Outgoing) (i : ℕ) (s : Session) (r : Result Waiting × Session)
    → Sends m s r
    → Sends m s (release_on_error i r)
unfolding release_on_error release_id
release_on_error-Sends m i s (ok v, t) k = k
release_on_error-Sends m i s (err e, t) k = elim (Bool-cases (mem i t.used_ids)) [
  | inl there ↦ rw there k
  | inr gone ↦ rw gone k
]

send_with_id-Sends :
    (m : Outgoing) (i : ℕ) (s : Session) → Sends m s (send_with_id m.qos m.topic m.payload i s)
unfolding send_with_id
send_with_id-Sends m i s =
    then_do-Sends m s
      (create_packet_condition (if m.qos == 1 then puback_code else pubrec_code) i s)
      (λ c t.
        then_do (write (out_message m.qos m.topic m.payload (some i)) t)
          (λ u t'. (ok (first_answer c i m.qos), t')))
      (create-Keeps (if m.qos == 1 then puback_code else pubrec_code) i s)
      (λ c t. write_out-Sends m (some i) (first_answer c i m.qos) t)

pub send_message-Sends :
    (m : Outgoing) (s : Session) → Sends m s (send_message m.qos m.topic m.payload s)
unfolding send_message
send_message-Sends m s = elim (Bool-cases (m.qos == 0)) [
  | inl zero ↦ rw zero (write_out-Sends m none nothing s)
  | inr more ↦ rw more (by_id (next_packet_id s.used_ids))
]
  where
    by_id : (r : Result ℕ) → Sends m s (with_next_id m.qos m.topic m.payload r s)
    by_id (err e) = refl
    by_id (ok i) =
        release_on_error-Sends m i s
          (send_with_id m.qos m.topic m.payload i (with_used (i ∷ s.used_ids) s))
          (send_with_id-Sends m i (with_used (i ∷ s.used_ids) s))
