-- ===== src/Handler/Writer/Order.antt =====
-- The publish packets that a connection writes, against the messages that are queued for its client.
use mote_broker.Prelude.{◌≡◌, sym, ap, ◌∙◌, Bool-cases, inl, inr, List, [], ◌∷◌, ◌++◌, append_assoc}
use mote_broker.Result.{Result, ok, err}
use mote_broker.Handler.{
  handle_ping_request, Session, Waiting, nothing, first_answer, complete, release, packet_notify,
}
use mote_broker.Handler.Messages.{send_message, handle_publish, resume}
use mote_broker.Handler.Writer.{
  Outgoing, Stage, getting, sending, ended, Writer, queue_message, check_alive, is_connection_error,
  after_send, send_next, go_on, Step, checks, takes, goes_on, queues, notifies, handles, releases,
  pings, closes, Reach, here, next,
}
use mote_broker.Handler.Writer.Sends.{
  sent, Keeps, Sends, resume-Keeps, handle_publish-Keeps, handle_ping_request-Keeps, notify-written,
  send_message-Sends,
}

-- the message that the loop took and did not send
abbrev pub lost : Stage → List Outgoing
lost (ended ms) = ms
lost stage = []

-- The messages written, the one lost with the loop, and those that wait are together those queued.
abbrev pub IsInOrder : Writer → Type 0
IsInOrder w = sent w.session.written ++ (lost w.stage ++ w.queue) ≡ w.queued

-- What after_send leaves, by the outcome of the call.
abbrev Accounted : List Outgoing → Writer → Result Waiting × Session → Type 0
Accounted ms w (ok v, s) = sent s.written ++ w.queue ≡ w.queued
Accounted ms w (err e, s) = sent s.written ++ (ms ++ w.queue) ≡ w.queued

after_send-IsInOrder :
    (ms : List Outgoing) (w : Writer) (r : Result Waiting × Session)
    → Accounted ms w r
    → IsInOrder (after_send ms w r)
unfolding after_send
after_send-IsInOrder ms w (ok nothing, s) h = h
after_send-IsInOrder ms w (ok (first_answer c i qos), s) h = h
after_send-IsInOrder ms w (ok (complete c i), s) h = h
after_send-IsInOrder ms w (ok (release c p), s) h = h
after_send-IsInOrder ms w (err e, s) h = elim (Bool-cases (is_connection_error e)) [
  | inl closing ↦ rw closing h
  | inr other ↦ rw other h
]

send_next-IsInOrder :
    (m : Outgoing) (rest : List Outgoing) (w : Writer)
    → w.stage ≡ getting
    → w.queue ≡ m ∷ rest
    → IsInOrder w
    → IsInOrder (send_next m rest w)
unfolding send_next
send_next-IsInOrder m rest w at e h =
    after_send-IsInOrder (m ∷ []) (record w { queue = rest })
      (send_message m.qos m.topic m.payload w.session)
      (by_outcome (send_message m.qos m.topic m.payload w.session) (send_message-Sends m w.session))
  where
    before : sent w.session.written ++ (m ∷ rest) ≡ w.queued
    before = rw (at, e) at h

    by_outcome :
        (r : Result Waiting × Session)
        → Sends m w.session r
        → Accounted (m ∷ []) (record w { queue = rest }) r
    by_outcome (ok v, t) g =
        ap (λ l. l ++ rest) g ∙ append_assoc (sent w.session.written) (m ∷ []) rest ∙ before
    by_outcome (err e', t) g = ap (λ l. l ++ (m ∷ rest)) g ∙ before

go_on-IsInOrder :
    (v : Waiting) (w : Writer) → w.stage ≡ sending v → IsInOrder w → IsInOrder (go_on v w)
unfolding go_on
go_on-IsInOrder v w at h =
    after_send-IsInOrder [] w (resume v w.session)
      (by_outcome (resume v w.session) (resume-Keeps v w.session))
  where
    before : sent w.session.written ++ w.queue ≡ w.queued
    before = rw at at h

    by_outcome : (r : Result Waiting × Session) → Keeps w.session r → Accounted [] w r
    by_outcome (ok v', t) g = ap (λ l. l ++ w.queue) g ∙ before
    by_outcome (err e, t) g = ap (λ l. l ++ w.queue) g ∙ before

-- Another thread writes no publish packet.
kept-IsInOrder :
    (w : Writer) (s : Session)
    → sent s.written ≡ sent w.session.written
    → IsInOrder w
    → IsInOrder (record w { session = s })
kept-IsInOrder w s k h = ap (λ l. l ++ (lost w.stage ++ w.queue)) k ∙ h

Step-IsInOrder : {w u : Writer} → Step w u → IsInOrder w → IsInOrder u
unfolding check_alive queue_message
Step-IsInOrder {w} (checks at) h = elim (Bool-cases w.alive) [
  | inl e ↦ rw e (rw at at h)
  | inr e ↦ rw e (rw at at h)
]
Step-IsInOrder {w} (takes m rest at e) h = send_next-IsInOrder m rest w at e h
Step-IsInOrder {w} (goes_on v at) h = go_on-IsInOrder v w at h
Step-IsInOrder {w} (queues m) h =
    ap (λ l. sent w.session.written ++ l) (sym (append_assoc (lost w.stage) w.queue (m ∷ [])))
    ∙ sym (append_assoc (sent w.session.written) (lost w.stage ++ w.queue) (m ∷ []))
    ∙ ap (λ l. l ++ m ∷ []) h
Step-IsInOrder {w} (notifies c i) h =
    kept-IsInOrder w (packet_notify c i w.session).1 (ap sent (notify-written c i w.session)) h
Step-IsInOrder {w} (handles p) h =
    kept-IsInOrder w (handle_publish p w.session).1 (handle_publish-Keeps p w.session) h
Step-IsInOrder {w} (releases c p) h =
    kept-IsInOrder w (resume (release c p) w.session).1 (resume-Keeps (release c p) w.session) h
Step-IsInOrder {w} pings h =
    kept-IsInOrder w (handle_ping_request w.session).1 (handle_ping_request-Keeps w.session) h
Step-IsInOrder {w} closes h = h

-- However the write loop and the other threads of a connection interleave: the publish packets written,
-- the message that is lost where the loop ended while it sent one, and the messages that still wait
-- are together the messages that were queued, each once and in their order.
pub Reach-IsInOrder : {w u : Writer} → Reach w u → IsInOrder w → IsInOrder u
Reach-IsInOrder here h = h
Reach-IsInOrder (next r st) h = Step-IsInOrder st (Reach-IsInOrder r h)
