-- ===== src/WebSocket/Handler.antt =====
-- servers/websocket/handler.py: messages in frames. `input` is what the socket has yet to deliver and
-- `sent` the frames that were sent on it.
pub mod RoundTrip
use mote_broker.Prelude.{
  ℕ, zero, suc, ◌+◌, Bool, true, false, ltb, ◌==◌, ◌||◌, if◌then◌else◌, Option, none, some, List,
  [], ◌∷◌, ◌++◌, length,
}
use mote_broker.Result.{Result, ok, err, Error, type_error, connection_error}
use mote_broker.Protocols.{Bytes}
use mote_broker.WebSocket.Frame.{
  Frame, op_continuation, op_bytes, op_close, op_ping, op_pong, first_bytes, is_nil, recv_frame,
  payload_or_empty,
}

abbrev pub out_size : ℕ
out_size = 2040

-- how many bytes a socket has yet to deliver
abbrev pub bytes_left : List Bytes → ℕ
bytes_left [] = 0
bytes_left (packet ∷ stream) = length packet + bytes_left stream

-- The frame that is sent for a piece of a message.
abbrev pub piece : ℕ → Bool → Bytes → Frame
piece opcode fin payload = record {
  opcode = opcode;
  fin = fin;
  masked = false;
  payload = some payload;
}

-- The loop of send_bytes, on fuel: `n` is the piece at hand, and each further piece is not empty.
unfoldable pub send_loop : ℕ → ℕ → Bytes → Bytes → List Frame
send_loop zero opcode n buffer = []
send_loop (suc fuel) opcode n buffer =
    let (next, buffer') = first_bytes out_size buffer in
    let rest = send_loop fuel op_continuation next buffer' in
    piece opcode (is_nil next) n ∷ (if is_nil next then [] else rest)

-- The frames of a message, as WebsocketHandler.send_bytes sends them.
unfoldable pub send_bytes : Bytes → List Frame
unfolding send_loop
send_bytes payload =
    let (n, buffer) = first_bytes out_size payload in
    send_loop (suc (length buffer)) op_bytes n buffer

pub record Connection : Type 0 where
  pub alive : Bool
  pub input : List Bytes
  pub sent : List Frame

abbrev pub send : Frame → Connection → Connection
send f c = record { alive = c.alive; input = c.input; sent = c.sent ++ f ∷ [] }

abbrev pub with_input : List Bytes → Connection → Connection
with_input input c = record { alive = c.alive; input = input; sent = c.sent }

-- send_close without a status code and without application data
unfoldable pub send_close : Connection → Connection
send_close c = send (record { opcode = op_close; fin = true; masked = false; payload = none }) c

unfoldable pub send_pong : Option Bytes → Connection → Connection
send_pong payload c =
    send (record { opcode = op_pong; fin = true; masked = false; payload = payload }) c

-- `raise ConnectionClosed` makes the exception without the client id that its constructor takes, which
-- is a TypeError.
unfoldable pub end_connection : Connection → Result Bytes × Connection
end_connection c = (err type_error, record { alive = false; input = c.input; sent = c.sent })

-- WebsocketHandler.close: an exception of send_close is swallowed, and one close frame is sent at most.
unfoldable pub close : Connection → Connection
unfolding send_close
close c =
    let closed = if c.alive then send_close c else c in
    record { alive = false; input = closed.input; sent = closed.sent }

-- One frame, and the rest of the loop that collects `buf`.
unfoldable pub on_frame :
    (Bytes → Connection → Result Bytes × Connection)
    → Frame
    → Bytes
    → Connection
    → Result Bytes × Connection
unfolding send_close send_pong end_connection
on_frame again f buf c =
    if f.opcode == op_bytes || f.opcode == op_continuation
    then (if f.fin
        then (ok (buf ++ payload_or_empty f.payload), c)
        else again (buf ++ payload_or_empty f.payload) c)
    else if f.opcode == op_close
    then end_connection (if f.fin then send_close c else c)
    else if f.opcode == op_ping
    then again buf (send_pong f.payload c)
    else if f.opcode == op_pong
    then again buf c
    else end_connection c

-- what Frame.first_bytes gave
received :
    (Bytes → Connection → Result Bytes × Connection)
    → Bytes
    → Connection
    → Result (Frame × List Bytes)
    → Result Bytes × Connection
unfolding on_frame
received again buf c (err e) = (err e, c)
received again buf c (ok (f, input)) = on_frame again f buf (with_input input c)

-- The loop of read_frames, on fuel: a frame takes two bytes of the input at least. A connection that is
-- not alive gives `None`, of which the caller takes the length.
unfoldable pub frames_loop : ℕ → Bytes → Connection → Result Bytes × Connection
unfolding received
frames_loop zero buf c = (err connection_error, c)
frames_loop (suc fuel) buf c =
    if c.alive then received (frames_loop fuel) buf c (recv_frame c.input) else (err type_error, c)

unfoldable pub read_frames : Bytes → Connection → Result Bytes × Connection
unfolding frames_loop
read_frames buf c = frames_loop (suc (bytes_left c.input)) buf c

-- What `read` keeps of the frames it reads, and its answer: the first `n` bytes of the buffer.
filled :
    ℕ
    → (Bytes → Connection → Result Bytes × Connection)
    → Result Bytes × Connection
    → Result Bytes × Connection
filled n again (err e, c) = (err e, c)
filled n again (ok buffer, c) = again buffer c

-- The loop of `read`, on fuel: each round takes a frame off the input.
unfoldable pub fill : ℕ → ℕ → Bytes → Connection → Result Bytes × Connection
unfolding filled
fill zero n buffer c = (err connection_error, c)
fill (suc fuel) n buffer c =
    let more = filled n (fill fuel n) (read_frames buffer c) in
    if ltb (length buffer) n then more else (ok buffer, c)

cut : ℕ → Result Bytes × Connection → Result (Bytes × Bytes) × Connection
cut n (err e, c) = (err e, c)
cut n (ok buffer, c) = (ok (first_bytes n buffer), c)

-- WebsocketHandler.read: the bytes, and what the buffer has left
unfoldable pub read : ℕ → Bytes → Connection → Result (Bytes × Bytes) × Connection
unfolding fill cut
read n buffer c = cut n (fill (suc (bytes_left c.input)) n buffer c)
