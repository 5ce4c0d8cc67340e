-- ===== src/RecvUntil.antt =====
-- utils/recv_until.py: what `recv` of the socket answers is a list, one item for each call; behind its
-- end the peer has closed the connection, and `recv` answers with no bytes. The loop may go on for ever:
-- it runs on fuel, and gives none where it has not ended by then.
pub mod Returns
use mote_broker.Prelude.{
  ℕ, zero, suc, String, Bool, true, false, ◌==◌, if◌then◌else◌, Option, none, some, List, [], ◌∷◌,
  ◌++◌,
}
use mote_broker.Protocols.{Bytes}
use mote_broker.Result.{Result}

-- The bytes begin with the pattern.
unfoldable pub starts_with : Bytes → Bytes → Bool
starts_with [] bytes = true
starts_with (p ∷ pattern_bytes) [] = false
starts_with (p ∷ pattern_bytes) (b ∷ bytes) =
    if p == b then starts_with pattern_bytes bytes else false

-- data.find(edl), with none for -1
unfoldable pub find : Bytes → Bytes → Option ℕ
unfolding starts_with
find [] edl = if starts_with edl [] then some 0 else none
find (b ∷ bytes) edl =
    if starts_with edl (b ∷ bytes)
    then some 0
    else elim (find bytes edl) [ none ↦ none | some i ↦ some (suc i) ]

-- socket.recv(buf_size), with the answers that are left
unfoldable pub recv : List Bytes → Bytes × List Bytes
recv [] = ([], [])
recv (answer ∷ answers) = (answer, answers)

-- while i < 0
unfoldable pub recv_loop : Bytes → Bytes → List Bytes → ℕ → Option Bytes
unfolding recv find
recv_loop edl bytes answers zero = elim (find bytes edl) [ none ↦ none | some i ↦ some bytes ]
recv_loop edl bytes answers (suc fuel) = elim (find bytes edl) [
  | none ↦ recv_loop edl (bytes ++ (recv answers).0) (recv answers).1 fuel
  | some i ↦ some bytes
]

module _ (decode : Bytes → Result String) where
  -- recv_until(socket, buf_size, delimiter), with the delimiter as bytes
  unfoldable pub recv_until : Bytes → List Bytes → ℕ → Option (Result String)
  unfolding recv recv_loop
  recv_until edl answers fuel = elim (recv_loop edl (recv answers).0 (recv answers).1 fuel) [
    | none ↦ none
    | some bytes ↦ some (decode bytes)
  ]
