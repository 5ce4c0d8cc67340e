-- ===== src/SocketHandler.antt =====
-- SocketHandler.read of servers/socket.py. The stream is what the client has sent, in the packets that
-- `recv` returns one at a time; a packet longer than the size asked for is cut. Its end is an empty
-- answer of `recv`, which raises ConnectionError.
pub mod Bounds
use mote_broker.Prelude.{
  Option, none, some, ℕ, zero, suc, ◌+◌, Bool, true, false, ltb, if◌then◌else◌, List, [], ◌∷◌, ◌++◌,
  length,
}
use mote_broker.Result.{Result, ok, err, connection_error, io_error, ◌>>=◌}
use mote_broker.Protocols.{Bytes}
use mote_broker.Handler.PacketIds.{mem}
use mote_broker.WebSocket.Frame.{is_nil, recv}

-- The loop of read, on fuel: a round takes a byte at least.
unfoldable pub read_loop : ℕ → ℕ → Bytes → List Bytes → Result (Bytes × List Bytes)
unfolding recv
read_loop zero size cached stream = err connection_error
read_loop (suc fuel) size cached stream =
    let (buf, stream') = recv size stream in
    let rest = read_loop fuel size (cached ++ buf) stream' in
    if ltb (length cached) size
    then (if is_nil buf then err connection_error else rest)
    else ok (cached, stream)

unfoldable pub read : ℕ → List Bytes → Result (Bytes × List Bytes)
unfolding read_loop
read size stream = read_loop (suc size) size [] stream

-- SocketHandler.send_bytes: `send` takes as many bytes as the socket has room for, and gives their number,
-- which is not looked at
unfoldable pub send_bytes : ℕ → Bytes → Bytes
send_bytes zero payload = []
send_bytes (suc room) [] = []
send_bytes (suc room) (b ∷ payload) = b ∷ send_bytes room payload

-- SocketHandler.write: the bytes that are sent; where `send` raises there is no room to speak of
unfoldable pub write : Option ℕ → Bytes → Result Bytes
unfolding send_bytes
write none payload = err connection_error
write (some room) payload = ok (send_bytes room payload)

-- except OSError as e: if e.errno not in codes: raise
unfoldable pub tolerated : List ℕ → Option ℕ → Result (Unit {0})
tolerated codes none = ok tt
tolerated codes (some errno) = if mem errno codes then ok tt else err io_error

-- SocketHandler.close, with what `shutdown` raises: whether the socket is closed; `alive` is False in any case
unfoldable pub close : Option ℕ → Result (Unit {0}) × Bool
unfolding tolerated
close errno = elim (tolerated (9 ∷ 107 ∷ []) errno) [
  | err e ↦ (err e, false)
  | ok u ↦ (ok tt, true)
]
