-- ===== src/Handler/Writer.antt =====
-- Handler.write_loop of servers/handler.py with the queue of models/client.py, beside the other threads
-- of the connection. `send_message` blocks where it waits for a packet, so that the loop is cut there; the
-- other threads handle packets, notify conditions, queue messages and close the connection in between.
-- What handle_disconnected does once the loop has ended is in Handler/Connection. The data of a message
-- that is queued is bytes or `None`; the empty text is written as no bytes.
pub mod Sends
pub mod Order
pub mod Drain
use mote_broker.Prelude.{ℕ, String, ◌≡◌, Bool, true, false, if◌then◌else◌, List, [], ◌∷◌, ◌++◌}
use mote_broker.Result.{Result, ok, err, Error, connection_error}
use mote_broker.Protocols.{Retained}
use mote_broker.Handler.{
  PublishPacket, PacketCondition, Session, Waiting, nothing, first_answer, complete, release,
  packet_notify, handle_ping_request,
}
use mote_broker.Handler.Messages.{send_message, resume, handle_publish}

pub record Outgoing : Type 0 where
  pub topic : String
  pub qos : ℕ
  pub payload : Retained

-- Where write_loop stands.
pub data Stage : Type 0 where
  -- at `while self.alive`
  checking : Stage
  -- in message_queue.get
  getting : Stage
  -- in send_message, waiting for a packet
  sending : Waiting → Stage
  -- the thread has ended, with the message that it took and did not send
  ended : List Outgoing → Stage

pub record Writer : Type 0 where
  pub session : Session
  pub queue : List Outgoing
  pub stage : Stage
  pub alive : Bool
  -- all messages that were queued, in their order
  pub queued : List Outgoing

-- Client.queue_message
unfoldable pub queue_message : Outgoing → Writer → Writer
queue_message m w = record w { queue = w.queue ++ m ∷ []; queued = w.queued ++ m ∷ [] }

unfoldable pub check_alive : Writer → Writer
check_alive w = record w { stage = if w.alive then getting else ended [] }

-- self.close()
abbrev pub close : Writer → Writer
close w = record w { session = record w.session { connected = false }; alive = false }

-- except ConnectionError
abbrev pub is_connection_error : Error → Bool
is_connection_error connection_error = true
is_connection_error _ = false

-- What the loop does after `send_message` returned, waits or raised; any other exception ends the thread
-- and leaves the connection open.
unfoldable pub after_send : List Outgoing → Writer → Result Waiting × Session → Writer
after_send lost w (ok nothing, s) = record w { session = s; stage = checking }
after_send lost w (ok (first_answer c i qos), s) = record w {
  session = s;
  stage = sending (first_answer c i qos);
}
after_send lost w (ok (complete c i), s) = record w { session = s; stage = sending (complete c i) }
after_send lost w (ok (release c p), s) = record w { session = s; stage = sending (release c p) }
after_send lost w (err e, s) =
    let w' = record w { session = s; stage = ended lost } in
    if is_connection_error e then close w' else w'

-- message = self.message_queue.get(block=True); self.send_message(message)
unfoldable pub send_next : Outgoing → List Outgoing → Writer → Writer
unfolding after_send
send_next m rest w =
    after_send (m ∷ []) (record w { queue = rest }) (send_message m.qos m.topic m.payload w.session)

-- The loop goes on in send_message.
unfoldable pub go_on : Waiting → Writer → Writer
unfolding after_send
go_on v w = after_send [] w (resume v w.session)

-- A move of the loop, or of another thread.
pub data Step (w : Writer) : Writer → Type 0 where
  checks : w.stage ≡ checking → Step w (check_alive w)
  takes :
      (m : Outgoing) (rest : List Outgoing)
      → w.stage ≡ getting
      → w.queue ≡ m ∷ rest
      → Step w (send_next m rest w)
  goes_on : (v : Waiting) → w.stage ≡ sending v → Step w (go_on v w)
  queues : (m : Outgoing) → Step w (queue_message m w)
  notifies :
      (type_code id : ℕ) → Step w (record w { session = (packet_notify type_code id w.session).1 })
  handles : (p : PublishPacket) → Step w (record w { session = (handle_publish p w.session).1 })
  releases :
      (c : PacketCondition) (p : PublishPacket)
      → Step w (record w { session = (resume (release c p) w.session).1 })
  pings : Step w (record w { session = (handle_ping_request w.session).1 })
  closes : Step w (close w)

pub data Reach (w : Writer) : Writer → Type 0 where
  here : Reach w w
  next : {v u : Writer} → Reach w v → Step v u → Reach w u
