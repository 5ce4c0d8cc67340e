-- ===== src/WebSocket/Handler/RoundTrip.antt =====
-- A message that is cut into frames is read back whole.
use mote_broker.Prelude.{
  ℕ, zero, suc, ◌+◌, ◌≤◌, ◌<◌, ◌≡◌, refl, ap, ◌∙◌, Bool, true, false, ltb, if◌then◌else◌,
  Bool-cases, inl, inr, ◌⊎◌, List, [], ◌∷◌, ◌++◌, length, length-append, append_assoc, append-nil,
  arith,
}
use mathlib.Core.Path.{subst}
use mote_broker.Result.{ok}
use mote_broker.Protocols.{Bytes}
use mote_broker.WebSocket.Frame.{
  Frame, op_bytes, op_continuation, first_bytes, is_nil, arrived, frame_bytes, length_field,
  payload_or_empty,
}
use mote_broker.WebSocket.Frame.RoundTrip.{recv_frame-frame_bytes}
use mote_broker.WebSocket.Handler.{
  out_size, bytes_left, piece, send_loop, send_bytes, on_frame, received, Connection, frames_loop,
  read_frames, read, fill, filled, cut,
}

-- The bytes of frames, one behind the other.
abbrev pub wire : List Frame → Bytes
wire [] = []
wire (f ∷ fs) = frame_bytes f ++ wire fs

pub first_bytes-splits :
    (n : ℕ) (input : Bytes) → (first_bytes n input).0 ++ (first_bytes n input).1 ≡ input
unfolding first_bytes
first_bytes-splits zero input = refl
first_bytes-splits (suc n) [] = refl
first_bytes-splits (suc n) (b ∷ input) = ap (λ bytes. b ∷ bytes) (first_bytes-splits n input)

pub length-first_bytes : (n : ℕ) (input : Bytes) → length (first_bytes n input).0 ≤ n
unfolding first_bytes
length-first_bytes zero input = omega arith
length-first_bytes (suc n) [] = omega arith
length-first_bytes (suc n) (b ∷ input) = omega (arith, length-first_bytes n input)

empty_piece : (n : ℕ) (input : Bytes) → is_nil (first_bytes (suc n) input).0 ≡ true → input ≡ []
unfolding first_bytes
empty_piece n [] h = refl
empty_piece n (b ∷ input) h = cc

shorter :
    (n : ℕ) (input : Bytes)
    → is_nil (first_bytes (suc n) input).0 ≡ false
    → length (first_bytes (suc n) input).1 < length input
unfolding first_bytes
shorter n [] h = cc
shorter n (b ∷ input) h = omega (arith, length-rest n input)
  where
    length-rest : (n : ℕ) (input : Bytes) → length (first_bytes n input).1 ≤ length input
    length-rest n input = omega (
      arith,
      ap length (first_bytes-splits n input),
      length-append (first_bytes n input).0 (first_bytes n input).1,
    )

-- one piece is read, and the loop goes on or ends
read_piece :
    (fuel opcode : ℕ) (fin : Bool) (payload rest buf : Bytes) (later : List Bytes)
    (sent : List Frame)
    → (opcode ≡ op_bytes) ⊎ (opcode ≡ op_continuation)
    → length payload < 65535
    → frames_loop (suc fuel) buf (record {
      alive = true;
      input = arrived (frame_bytes (piece opcode fin payload) ++ rest) later;
      sent = sent;
    })
      ≡ (if fin
          then (
            ok (buf ++ payload),
            record { alive = true; input = arrived rest later; sent = sent },
          )
          else frames_loop fuel
              (buf ++ payload)
              (record { alive = true; input = arrived rest later; sent = sent }))
unfolding frames_loop received on_frame
read_piece fuel opcode fin payload rest buf later sent (inl h) k =
    rw (recv_frame-frame_bytes opcode fin payload rest later (omega (arith, h)) k, h) refl
read_piece fuel opcode fin payload rest buf later sent (inr h) k =
    rw (recv_frame-frame_bytes opcode fin payload rest later (omega (arith, h)) k, h) refl

further :
    (b : Bool) (fs : List Frame) (k : ℕ)
    → b ≡ false
    → length (if b then [] else fs) ≤ k
    → length fs ≤ k
further b fs k e h = subst (λ c. length (if c then [] else fs) ≤ k) e h

loop-send_loop :
    (fuel opcode : ℕ) (n buffer : Bytes) (k : ℕ) (rest buf : Bytes) (later : List Bytes)
    (sent : List Frame)
    → (opcode ≡ op_bytes) ⊎ (opcode ≡ op_continuation)
    → length n ≤ out_size
    → length buffer < fuel
    → length (send_loop fuel opcode n buffer) ≤ k
    → frames_loop k buf (record {
      alive = true;
      input = arrived (wire (send_loop fuel opcode n buffer) ++ rest) later;
      sent = sent;
    })
      ≡ (ok (buf ++ n ++ buffer), record { alive = true; input = arrived rest later; sent = sent })
unfolding send_loop
loop-send_loop zero opcode n buffer k rest buf later sent op small enough long =
    absurd (omega (arith, enough))
loop-send_loop (suc fuel) opcode n buffer zero rest buf later sent op small enough long =
    absurd (omega (arith, long))
loop-send_loop (suc fuel) opcode n buffer (suc k) rest buf later sent op small enough long =
    elim (Bool-cases (is_nil (first_bytes out_size buffer).0)) [
      | inl e ↦
          rw (e, append-nil (frame_bytes (piece opcode true n)))
            (read_piece k opcode true n rest buf later sent op (omega (arith, small))
              ∙ rw (empty_piece 2039 buffer e, append-nil (buf ++ n)))
      | inr e ↦
          let n' = (first_bytes out_size buffer).0 in
          let buffer' = (first_bytes out_size buffer).1 in
          let splits =
            append_assoc (buf ++ n) n' buffer'
            ∙ ap (λ bytes. (buf ++ n) ++ bytes) (first_bytes-splits out_size buffer) in
          rw
            (
              e,
              append_assoc (frame_bytes (piece opcode false n))
                  (wire (send_loop fuel op_continuation n' buffer')) rest,
            )
            (read_piece k opcode false n (wire (send_loop fuel op_continuation n' buffer') ++ rest)
                buf later sent op (omega (arith, small))
              ∙ loop-send_loop fuel op_continuation n' buffer' k rest (buf ++ n) later sent
                  (inr refl) (length-first_bytes out_size buffer)
                  (omega (arith, shorter 2039 buffer e, enough))
                  (further (is_nil n') (send_loop fuel op_continuation n' buffer') k e
                    (omega (arith, long)))
              ∙ ap
                  (λ bytes.
                    (ok bytes, record { alive = true; input = arrived rest later; sent = sent }))
                  splits)
    ]

length-wire : (fs : List Frame) → length fs ≤ length (wire fs)
unfolding frame_bytes
length-wire [] = omega arith
length-wire (f ∷ fs) = omega (
  arith,
  length-append (length_field (length (payload_or_empty f.payload)) ++ payload_or_empty f.payload)
      (wire fs),
  length-wire fs,
)

bytes_left-arrived :
    (bytes : Bytes) (later : List Bytes)
    → bytes_left (arrived bytes later) ≡ length bytes + bytes_left later
bytes_left-arrived [] later = omega arith
bytes_left-arrived (b ∷ bytes) later = refl

-- Where the frames that a message is sent in have arrived together, the message is read back whole,
-- behind what was collected before; nothing is sent meanwhile, and what follows the frames is left.
pub read_frames-send_bytes :
    (payload rest buf : Bytes) (later : List Bytes) (sent : List Frame)
    → read_frames buf (record {
      alive = true;
      input = arrived (wire (send_bytes payload) ++ rest) later;
      sent = sent;
    })
      ≡ (ok (buf ++ payload), record { alive = true; input = arrived rest later; sent = sent })
unfolding read_frames send_bytes
read_frames-send_bytes payload rest buf later sent =
    loop-send_loop (suc (length (first_bytes out_size payload).1)) op_bytes
      (first_bytes out_size payload).0 (first_bytes out_size payload).1
      (suc (bytes_left (arrived (wire (send_bytes payload) ++ rest) later))) rest buf later sent
      (inl refl) (length-first_bytes out_size payload) (omega arith)
      (omega (
        arith,
        length-wire (send_bytes payload),
        length-append (wire (send_bytes payload)) rest,
        bytes_left-arrived (wire (send_bytes payload) ++ rest) later,
      ))
    ∙ ap (λ bytes. (ok bytes, record { alive = true; input = arrived rest later; sent = sent }))
        (append_assoc buf (first_bytes out_size payload).0 (first_bytes out_size payload).1
          ∙ ap (λ bytes. buf ++ bytes) (first_bytes-splits out_size payload))

sends : (payload : Bytes) → 0 < length (send_bytes payload)
unfolding send_bytes send_loop
sends payload = omega arith

fill_once :
    (fuel n : ℕ) (payload : Bytes) (c d : Connection)
    → 0 < fuel
    → n < length payload
    → read_frames [] c ≡ (ok payload, d)
    → fill (suc fuel) (suc n) [] c ≡ (ok payload, d)
unfolding fill filled
fill_once zero n payload c d l h e = absurd (omega (arith, l))
fill_once (suc fuel) n payload c d l h e = rw (empty_first n, e) (rw (full n payload h) refl)
  where
    empty_first : (n : ℕ) → ltb 0 (suc n) ≡ true
    empty_first n = ground arith

    full : (n : ℕ) (payload : Bytes) → n < length payload → ltb (length payload) (suc n) ≡ false
    full n payload h = ground (arith, h)

-- Where the frames that a message is sent in have arrived together, reading some of its bytes, with an empty buffer, gives these
-- bytes; those that follow in the message are kept for the next read, and what follows its frames is
-- left in the socket.
pub read-send_bytes :
    (n : ℕ) (payload rest : Bytes) (later : List Bytes) (sent : List Frame)
    → n < length payload
    → read (suc n) [] (record {
      alive = true;
      input = arrived (wire (send_bytes payload) ++ rest) later;
      sent = sent;
    })
      ≡ (
        ok (first_bytes (suc n) payload),
        record { alive = true; input = arrived rest later; sent = sent },
      )
unfolding read
read-send_bytes n payload rest later sent h =
    let c : Connection = record {
      alive = true;
      input = arrived (wire (send_bytes payload) ++ rest) later;
      sent = sent;
    } in
    ap (cut (suc n)) (
      fill_once (bytes_left (arrived (wire (send_bytes payload) ++ rest) later)) n payload c _
        (omega (
          arith,
          sends payload,
          length-wire (send_bytes payload),
          length-append (wire (send_bytes payload)) rest,
          bytes_left-arrived (wire (send_bytes payload) ++ rest) later,
        ))
        h (read_frames-send_bytes payload rest [] later sent))
