-- ===== src/WebSocket/Handshake/Keys.antt =====
-- The key of a handshake of servers/websocket/handler.py, and requests without one.
use mote_broker.Prelude.{
  String, ◌≡◌, refl, ◌∙◌, true, false, none, some, List, [], ◌∷◌, ◌++◌, exists, All,
}
use mote_broker.Result.{Result, ok, err, value_error, ◌>>=◌}
use mote_broker.Protocols.{Bytes}
use mote_broker.WebSocket.Handshake.{
  split_once, is_one_of, upgrade_set, label_set, digest, response, on_token, respond, handshake_of,
}

-- The token is a header with another label.
abbrev pub IsOther : String → Type 0
IsOther token =
    (label : String) × (value : String) × (split_once ": " token ≡ some (label, value))
    × (is_one_of label_set label ≡ false)

module _ (ascii : String → Result Bytes) (sha1 : Bytes → Bytes) (b64encode : Bytes → String) where
  respond-append :
      (before after : List String)
      → All IsOther before
      → respond ascii sha1 b64encode (before ++ after) ≡ respond ascii sha1 b64encode after
  unfolding respond on_token
  respond-append [] after h = refl
  respond-append (token ∷ before) after ((label, value, e, other), h) =
      rw (e, other) (respond-append before after h)

  -- A request that asks for an upgrade is answered with the digest of its key, whatever other headers
  -- stand before the key and whatever follows it.
  pub handshake_of-key :
      (line token value : String) (label : String) (before after : List String)
      → exists (is_one_of upgrade_set) (line ∷ (before ++ (token ∷ after))) ≡ true
      → All IsOther before
      → split_once ": " token ≡ some (label, value)
      → is_one_of label_set label ≡ true
      → handshake_of ascii sha1 b64encode (line ∷ (before ++ (token ∷ after))) ≡ (
          digest ascii sha1 b64encode value >>= λ accept.
          ok (some (response ascii sha1 b64encode accept)))
  unfolding handshake_of respond on_token
  handshake_of-key line token value label before after up h e key =
      rw up (respond-append before (token ∷ after) h ∙ rw (e, key) refl)

  -- A request that asks for an upgrade but has no key before its first line without a colon raises a
  -- ValueError, and is not refused with None.
  pub handshake_of-no_key :
      (line token : String) (before after : List String)
      → exists (is_one_of upgrade_set) (line ∷ (before ++ (token ∷ after))) ≡ true
      → All IsOther before
      → split_once ": " token ≡ none
      → handshake_of ascii sha1 b64encode (line ∷ (before ++ (token ∷ after))) ≡ err value_error
  unfolding handshake_of respond on_token
  handshake_of-no_key line token before after up h e =
      rw up (respond-append before (token ∷ after) h ∙ rw e refl)
