-- ===== src/Packet/Fields/Types.antt =====
-- The values that Packet.read_payload reads are of the types of their fields, and the bytes that it counts are those that it took.
use mathlib.Core.Path.{subst}
use native.Mathlib.Nat.{add_comm}
use mote_broker.Prelude.{
  ℕ, ◌+◌, ◌-◌, ◌^◌, ◌<◌, ◌≡◌, refl, sym, String, ltb, ==_iff, ◌==◌, Bool-cases, ◌⊎◌, inl, inr, none,
  some, List, [], ◌∷◌, length, arith,
}
use mote_broker.Result.{ok, err, connection_error}
use mote_broker.Protocols.{Bytes}
use mote_broker.WebSocket.Frame.{from_bytes}
use mote_broker.Packet.Fields.{
  read, Value, int, text, raw, FieldType, static_int, packet_id, dynamic_str, dynamic_bytes,
  remaining_bytes, read_int, decode_bytes, decode_str, read_field, read_fields,
}
use mote_broker.Packet.Fields.Taken.{
  AreBytes, IsTaken, taken_none, taken_both, read-cases, from_bytes_bound, skip, skip-taken,
}

-- A value of a field: an integer that the bytes of the field can hold, a text, or bytes, which two bytes of length can count.
abbrev pub HasType : FieldType → Value → Type 0
HasType (static_int size) (int v) = v < 256 ^ size
HasType packet_id (int v) = v < 65536
HasType dynamic_str (text s) = Unit
HasType dynamic_bytes (raw (some bytes)) = (length bytes < 65536) × AreBytes bytes
HasType remaining_bytes (raw none) = Unit
HasType remaining_bytes (raw (some bytes)) = AreBytes bytes
HasType _ _ = ⊥

-- A value for each field.
abbrev pub HaveTypes : List FieldType → List Value → Type 0
HaveTypes [] [] = Unit
HaveTypes (ty ∷ tys) (v ∷ vs) = HasType ty v × HaveTypes tys vs
HaveTypes _ _ = ⊥

-- The bytes that a text or bytes with a length take.
abbrev pub two_bytes : Bytes → ℕ
two_bytes (b ∷ c ∷ input) = 2 + from_bytes 0 (b ∷ c ∷ [])
two_bytes input = 2

-- The bytes that a field takes.
abbrev pub needed : FieldType → ℕ → Bytes → ℕ
needed (static_int size) left input = size
needed packet_id left input = 2
needed dynamic_str left input = two_bytes input
needed dynamic_bytes left input = two_bytes input
needed remaining_bytes left input = left

-- Some field needs more bytes than those before it leave.
abbrev pub IsShort : List FieldType → ℕ → Bytes → Type 0
IsShort [] left input = ⊥
IsShort (ty ∷ tys) left input =
    (length input < needed ty left input)
    ⊎ IsShort tys (left - needed ty left input) (skip (needed ty left input) input)

module _ (decode : Bytes → String) where
  -- What the reader of a field does: the client closes too early, or a value of the type is read.
  abbrev ReadsField : FieldType → ℕ → Bytes → Type 0
  ReadsField ty left input =
      ((read_field decode ty left input ≡ err connection_error)
        × (length input < needed ty left input))
      ⊎ ((v : Value) × (size : ℕ) × (rest : Bytes) × (read_field decode ty left input
            ≡ ok ((v, size), rest))
          × HasType ty v
          × (size ≡ needed ty left input)
          × IsTaken input rest size)

  -- two bytes of a length, and as many bytes as they say
  decoded-cases :
      (input : Bytes)
      → AreBytes input
      → ((read 2 input ≡ err connection_error) × (length input < 2) × (two_bytes input ≡ 2))
        ⊎ ((size : Bytes) × (after : Bytes) × (read 2 input ≡ ok (size, after))
            × (two_bytes input ≡ 2 + from_bytes 0 size)
            × (from_bytes 0 size < 65536)
            × IsTaken input after 2
            × (((read (from_bytes 0 size) after ≡ err connection_error)
                  × (length input < two_bytes input))
                ⊎ ((got : Bytes) × (rest : Bytes) × (read (from_bytes 0 size) after
                      ≡ ok (got, rest))
                    × (length got < 65536)
                    × AreBytes got
                    × IsTaken after rest (from_bytes 0 size))))
  unfolding read
  decoded-cases [] h = inl (refl, omega arith, refl)
  decoded-cases (b ∷ []) h = inl (refl, omega arith, refl)
  decoded-cases (b ∷ c ∷ after) h =
      let size : Bytes = b ∷ c ∷ [] in
      let small : from_bytes 0 size < 65536 = from_bytes_bound size 2 (h.0, (h.1.0, tt)) refl in
      inr (
        size,
        after,
        refl,
        refl,
        small,
        record {
          taken = size;
          whole = refl;
          counted = refl;
          bytes = (h.0, (h.1.0, tt));
          left = h.1.1;
        },
        elim (read-cases (from_bytes 0 size) after h.1.1) [
          | inl (e, short) ↦ inl (e, omega (arith, short))
          | inr (got, rest, e, whole, len, gs, rs) ↦ inr (
            got,
            rest,
            e,
            omega (arith, len, small),
            gs,
            record { taken = got; whole = whole; counted = len; bytes = gs; left = rs },
          )
        ],
      )

  read_field-cases :
      (ty : FieldType) (left : ℕ) (input : Bytes) → AreBytes input → ReadsField ty left input
  unfolding read_field read_int decode_bytes decode_str
  read_field-cases (static_int size) left input h = elim (read-cases size input h) [
    | inl (e, short) ↦ inl (rw e refl, short)
    | inr (got, rest, e, whole, len, gs, rs) ↦ inr (
      int (from_bytes 0 got),
      size,
      rest,
      rw e refl,
      from_bytes_bound got size gs len,
      refl,
      record { taken = got; whole = whole; counted = len; bytes = gs; left = rs },
    )
  ]
  read_field-cases packet_id left input h = elim (decoded-cases input h) [
    | inl (e, short, two) ↦ inl (rw e refl, short)
    | inr (size, after, e, two, small, taken, rest) ↦
        inr (int (from_bytes 0 size), 2, after, rw e refl, small, refl, taken)
  ]
  read_field-cases dynamic_str left input h = elim (decoded-cases input h) [
    | inl (e, short, two) ↦ inl (rw e refl, omega (arith, short, two))
    | inr (size, after, e, two, small, taken, inl (e', short)) ↦ inl (rw (e, e') refl, short)
    | inr (size, after, e, two, small, taken, inr (got, rest, e', bound, gs, taken')) ↦
        elim (Bool-cases (from_bytes 0 size == 0)) [
          | inl z ↦ inr (
            text "",
            2,
            after,
            rw (e, e', z) refl,
            tt,
            omega (arith, two, (==_iff (from_bytes 0 size) 0).0 z),
            taken,
          )
          | inr nz ↦ inr (
            text (decode got),
            from_bytes 0 size + 2,
            rest,
            rw (e, e', nz) refl,
            tt,
            omega (arith, two),
            subst (λ n. IsTaken input rest n) (add_comm 2 (from_bytes 0 size))
                (taken_both input after rest 2 (from_bytes 0 size) taken taken'),
          )
        ]
  ]
  read_field-cases dynamic_bytes left input h = elim (decoded-cases input h) [
    | inl (e, short, two) ↦ inl (rw e refl, omega (arith, short, two))
    | inr (size, after, e, two, small, taken, inl (e', short)) ↦ inl (rw (e, e') refl, short)
    | inr (size, after, e, two, small, taken, inr (got, rest, e', bound, gs, taken')) ↦ inr (
      raw (some got),
      2 + from_bytes 0 size,
      rest,
      rw (e, e') refl,
      (bound, gs),
      sym two,
      taken_both input after rest 2 (from_bytes 0 size) taken taken',
    )
  ]
  read_field-cases remaining_bytes left input h = elim (Bool-cases (ltb left 1)) [
    | inl z ↦ inr (raw none, 0, input, rw z refl, tt, ground (arith, z), taken_none input h)
    | inr nz ↦ elim (read-cases left input h) [
      | inl (e, short) ↦ inl (rw (nz, e) refl, short)
      | inr (got, rest, e, whole, len, gs, rs) ↦ inr (
        raw (some got),
        left,
        rest,
        rw (nz, e) refl,
        gs,
        refl,
        record { taken = got; whole = whole; counted = len; bytes = gs; left = rs },
      )
    ]
  ]

  -- Over a read that gives just the bytes asked for: the loop over the fields of a packet raises a ConnectionError where the client closes before some field has the bytes that it needs. Otherwise it reads a value of the type of each
  -- field; the bytes it counts are then those that it took from the input, and it leaves the rest.
  pub read_fields-HaveTypes :
      (tys : List FieldType) (left : ℕ) (input : Bytes)
      → AreBytes input
      → ((read_fields decode tys left input ≡ err connection_error) × IsShort tys left input)
        ⊎ ((vs : List Value) × (size : ℕ) × (rest : Bytes) × (read_fields decode tys left input
              ≡ ok ((vs, size), rest))
            × HaveTypes tys vs
            × IsTaken input rest size)
  unfolding read_fields
  read_fields-HaveTypes [] left input h = inr ([], 0, input, refl, tt, taken_none input h)
  read_fields-HaveTypes (ty ∷ tys) left input h = elim (read_field-cases ty left input h) [
    | inl (e, short) ↦ inl (rw e refl, inl short)
    | inr (v, size, after, e, typed, counted, taken) ↦
        elim (read_fields-HaveTypes tys (left - size) after taken.left) [
          | inl (e', short) ↦ inl (
            rw (e, e') refl,
            inr (
                subst (λ n. IsShort tys (left - n) (skip n input)) counted
                  (subst (λ r. IsShort tys (left - size) r)
                    (sym (skip-taken input after size taken)) short)),
          )
          | inr (vs, more, rest, e', typed', taken') ↦ inr (
            v ∷ vs,
            size + more,
            rest,
            rw (e, e') refl,
            (typed, typed'),
            taken_both input after rest size more taken taken',
          )
        ]
  ]
