-- ===== src/WebSocket/Handshake.antt =====
-- The handshake of servers/websocket/handler.py. `ascii` is the encoding of a text, which may raise,
-- `sha1` the digest of hashlib and `b64encode` the text in base 64. A request is read by recv_until.
pub mod Keys
use Prim.Native.Char.{Char}
use Prim.Native.String.{◌++◌ as ◌+++◌}
use mote_broker.Prelude.{
  ℕ, zero, suc, ◌-◌, String, Bool, true, false, ◌=str=◌, if◌then◌else◌, Option, none, some, List,
  [], ◌∷◌, exists,
}
use mote_broker.Result.{Result, ok, err, value_error, connection_error, ◌>>=◌}
use mote_broker.Protocols.{Bytes}
use mote_broker.Topic.Split.{glue}
use mote_broker.RecvUntil.{recv_until}

-- The text begins with the other.
unfoldable pub has_prefix : String → String → Bool
has_prefix String.[] s = true
has_prefix (String.◌∷◌ c sep) String.[] = false
has_prefix (String.◌∷◌ c sep) (String.◌∷◌ d s) =
    if String.◌∷◌ c "" =str= String.◌∷◌ d "" then has_prefix sep s else false

abbrev pub size : String → ℕ
size String.[] = 0
size (String.◌∷◌ c s) = suc (size s)

-- s.split(sep), where the next characters are the rest of a separator
unfoldable pub split_from : String → ℕ → String → List String
unfolding has_prefix glue
split_from sep skip String.[] = "" ∷ []
split_from sep (suc skip) (String.◌∷◌ c s) = split_from sep skip s
split_from sep zero (String.◌∷◌ c s) = elim (has_prefix sep (String.◌∷◌ c s)) [
  | true ↦ "" ∷ split_from sep (size sep - 1) s
  | false ↦ glue c (split_from sep 0 s)
]

-- The text without its first characters.
unfoldable pub behind : ℕ → String → String
behind zero s = s
behind (suc n) String.[] = ""
behind (suc n) (String.◌∷◌ c s) = behind n s

-- s.split(sep, 1), with none for a list of one
unfoldable pub split_once : String → String → Option (String × String)
unfolding has_prefix behind
split_once sep String.[] = none
split_once sep (String.◌∷◌ c s) =
    let rest = split_once sep s in
    if has_prefix sep (String.◌∷◌ c s)
    then some ("", behind (size sep) (String.◌∷◌ c s))
    else elim rest [ none ↦ none | some p ↦ some (String.◌∷◌ c p.0, p.1) ]

abbrev pub is_one_of : List String → String → Bool
is_one_of texts s = exists (λ t. t =str= s) texts

abbrev pub upgrade_set : List String
upgrade_set = "Upgrade: WebSocket" ∷ "Upgrade: websocket" ∷ "upgrade: websocket" ∷ []

abbrev pub label_set : List String
label_set = "Sec-WebSocket-Key" ∷ "sec-websocket-key" ∷ []

abbrev pub secret_key : String
secret_key = "258EAFA5-E914-47DA-95CA-C5AB0DC85B11"

abbrev pub line_end : String
line_end = "\r\n"

module _ (ascii : String → Result Bytes) (sha1 : Bytes → Bytes) (b64encode : Bytes → String) where
  unfoldable pub digest : String → Result String
  digest client_secret_key =
      ascii (client_secret_key +++ secret_key) >>= λ raw. ok (b64encode (sha1 raw))

  -- What is sent for a digest.
  unfoldable pub response : String → String
  response accept =
      "HTTP/1.1 101 Switching Protocols\r\nUpgrade: websocket\r\nConnection: Upgrade\r\nSec-WebSocket-Accept: "
      +++ (accept +++ "\r\nSec-WebSocket-Protocol: mqtt\r\nSec-WebSocket-Version: 13\r\n\r\n")

  -- a token that was split at ": ", in the loop over the tokens
  unfoldable pub on_token :
      Option (String × String) → Result (Option String) → Result (Option String)
  unfolding digest response
  on_token none rest = err value_error
  on_token (some (label, value)) rest =
      if is_one_of label_set label
      then (digest value >>= λ accept. ok (some (response accept)))
      else rest

  unfoldable pub respond : List String → Result (Option String)
  unfolding on_token split_once
  respond [] = ok none
  respond (token ∷ tokens) = on_token (split_once ": " token) (respond tokens)

  -- the lines of a request, of which the first is the request itself
  unfoldable pub handshake_of : List String → Result (Option String)
  unfolding respond
  handshake_of [] = ok none
  handshake_of (line ∷ tokens) =
      if exists (is_one_of upgrade_set) (line ∷ tokens) then respond tokens else ok none

  unfoldable pub get_handshake_response : String → Result (Option String)
  unfolding handshake_of split_from
  get_handshake_response request = handshake_of (split_from line_end 0 request)

  -- if not handshake: raise ConnectionError
  unfoldable pub accepted : Option String → Result String
  accepted none = err connection_error
  accepted (some handshake) = ok handshake

  -- WebsocketHandler.start_connection: what is sent, on the fuel of recv_until
  unfoldable pub start_connection :
      (Bytes → Result String) → List Bytes → ℕ → Option (Result String)
  unfolding recv_until get_handshake_response accepted
  start_connection decode answers fuel =
      elim (recv_until decode (13 ∷ 10 ∷ 13 ∷ 10 ∷ []) answers fuel) [
        | none ↦ none
        | some upgrade_request ↦
            some (upgrade_request >>= λ request. get_handshake_response request >>= accepted)
      ]
