-- ===== src/SocketHandler/Bounds.antt =====
-- How much SocketHandler.read takes.
use mote_broker.Prelude.{
  ℕ, zero, suc, ◌+◌, ◌≤◌, ◌<◌, ◌≡◌, refl, ap, ◌∙◌, sym, true, false, ltb, Bool-cases, inl, inr,
  List, [], ◌∷◌, ◌++◌, length, All, length-append, append_assoc, append-nil, arith,
}
use mathlib.Core.Path.{subst}
use mote_broker.Result.{Result, ok, err, connection_error}
use mote_broker.Protocols.{Bytes}
use mote_broker.WebSocket.Frame
use mote_broker.WebSocket.Frame.{is_nil, recv}
use mote_broker.WebSocket.Handler.RoundTrip.{first_bytes-splits, length-first_bytes}
use mote_broker.SocketHandler.{read_loop, read}

-- all bytes of a stream
abbrev pub bytes_of : List Bytes → Bytes
bytes_of [] = []
bytes_of (packet ∷ stream) = packet ++ bytes_of stream

-- The packets of a stream are not empty.
abbrev pub AreNonEmpty : List Bytes → Type 0
AreNonEmpty stream = All (λ packet. is_nil packet ≡ false) stream

nil_of_is_nil : (bytes : Bytes) → is_nil bytes ≡ true → bytes ≡ []
nil_of_is_nil [] h = refl
nil_of_is_nil (b ∷ bytes) h = cc h

positive_length : (bytes : Bytes) → is_nil bytes ≡ false → 0 < length bytes
positive_length [] h = cc h
positive_length (b ∷ bytes) h = omega arith

recv-bytes_of :
    (size : ℕ) (stream : List Bytes)
    → AreNonEmpty stream
    → ((recv size stream).0 ++ bytes_of (recv size stream).1 ≡ bytes_of stream)
      × AreNonEmpty (recv size stream).1
unfolding recv
recv-bytes_of size [] h = (refl, tt)
recv-bytes_of size (packet ∷ stream) h =
    elim (Bool-cases (is_nil (Frame.first_bytes size packet).1)) [
      | inl e ↦
          let q = nil_of_is_nil (Frame.first_bytes size packet).1 e in
          rw e (
            ap (λ bytes. bytes ++ bytes_of stream)
                (sym (append-nil (Frame.first_bytes size packet).0)
                  ∙ ap (λ bytes. (Frame.first_bytes size packet).0 ++ bytes) (sym q)
                  ∙ first_bytes-splits size packet),
            h.1,
          )
      | inr e ↦ rw e (
        sym (
              append_assoc (Frame.first_bytes size packet).0 (Frame.first_bytes size packet).1
                (bytes_of stream))
            ∙ ap (λ bytes. bytes ++ bytes_of stream) (first_bytes-splits size packet),
        (e, h.1),
      )
    ]

length-recv_stream : (size : ℕ) (stream : List Bytes) → length (recv size stream).0 ≤ size
unfolding recv
length-recv_stream size [] = omega arith
length-recv_stream size (packet ∷ stream) = length-first_bytes size packet

-- The socket answers with nothing only at the end of the stream.
at_end :
    (size : ℕ) (stream : List Bytes)
    → 0 < size
    → AreNonEmpty stream
    → is_nil (recv size stream).0 ≡ true
    → bytes_of stream ≡ []
unfolding recv Frame.first_bytes
at_end size [] l h e = refl
at_end zero (packet ∷ stream) l h e = absurd (omega (arith, l))
at_end (suc size) ([] ∷ stream) l h e = cc (h.0)
at_end (suc size) ((b ∷ packet) ∷ stream) l h e = cc e

-- What a read gives, of the bytes that are there.
abbrev pub IsRead : ℕ → Bytes → Result (Bytes × List Bytes) → Type 0
IsRead size all (err e) = (e ≡ connection_error) × (length all < size)
IsRead size all (ok (got, stream)) =
    (size ≤ length got) × (length got ≤ size + size) × (got ++ bytes_of stream ≡ all)

read_loop-IsRead :
    (fuel size : ℕ) (cached : Bytes) (stream : List Bytes)
    → 0 < fuel
    → size < length cached + fuel
    → length cached ≤ size + size
    → AreNonEmpty stream
    → IsRead size (cached ++ bytes_of stream) (read_loop fuel size cached stream)
unfolding read_loop
read_loop-IsRead zero size cached stream some_fuel enough h packets =
    absurd (omega (arith, some_fuel))
read_loop-IsRead (suc fuel) size cached stream some_fuel enough h packets =
    elim (Bool-cases (ltb (length cached) size)) [
      | inr e ↦ rw e (ground (arith, e), h, refl)
      | inl e ↦
          let less : length cached < size = ground (arith, e) in
          elim (Bool-cases (is_nil (recv size stream).0)) [
            | inl n ↦
                rw (e, n)
                  (
                    refl,
                    rw (at_end size stream (omega (arith, less)) packets n, append-nil cached) less,
                  )
            | inr n ↦
                let (split, packets') = recv-bytes_of size stream packets in
                let len = length-append cached (recv size stream).0 in
                let got = positive_length (recv size stream).0 n in
                rw (e, n)
                  (subst
                    (λ all.
                      IsRead size all
                        (read_loop fuel size (cached ++ (recv size stream).0) (recv size stream).1))
                    (append_assoc cached (recv size stream).0 (bytes_of (recv size stream).1)
                      ∙ ap (λ bytes. cached ++ bytes) split)
                    (read_loop-IsRead fuel size (cached ++ (recv size stream).0)
                      (recv size stream).1 (omega (arith, less, enough))
                      (omega (arith, len, got, enough))
                      (omega (arith, len, less, length-recv_stream size stream)) packets'))
          ]
    ]

-- A read of `size` bytes gives that many at least, and twice as many at most; it loses no bytes: what
-- it gives and what is left are together what was there. It fails, with ConnectionError, only where
-- fewer than `size` bytes are there.
pub read-IsRead :
    (size : ℕ) (stream : List Bytes)
    → AreNonEmpty stream
    → IsRead size (bytes_of stream) (read size stream)
unfolding read
read-IsRead size stream packets =
    read_loop-IsRead (suc size) size [] stream (omega arith) (omega arith) (omega arith) packets
