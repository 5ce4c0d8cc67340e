-- ===== src/Handler/Writer/Drain.antt =====
-- The write loop on a connection that stays open, for messages that need no answer.
use mote_broker.Prelude.{◌≡◌, true, List, ◌∷◌}
use mote_broker.Handler.Writer.{Outgoing, checking, Writer, check_alive, send_next, getting}

-- Moves of the loop alone: no other thread does anything, and no packet comes.
pub data Works (w : Writer) : Writer → Type 0 where
  rests : Works w w
  checked : {v : Writer} → Works w v → v.stage ≡ checking → Works w (check_alive v)
  taken :
      {v : Writer} (m : Outgoing) (rest : List Outgoing)
      → Works w v
      → v.stage ≡ getting
      → v.queue ≡ m ∷ rest
      → Works w (send_next m rest v)

-- A connection that is open, whose loop is about to look for a message.
pub record IsOpen (w : Writer) : Type 0 where
  pub stage : w.stage ≡ checking
  pub alive : w.alive ≡ true
  pub connected : w.session.connected ≡ true
