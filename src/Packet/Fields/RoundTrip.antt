-- ===== src/Packet/Fields/RoundTrip.antt =====
-- The fields of a packet are read as they were written.
use mote_broker.Prelude.{
  ℕ, ◌-◌, ◌/◌, ◌%◌, ◌<◌, ◌≡◌, ◌≢◌, refl, ap, ◌∙◌, sym, String, ltb, ◌==◌, ==_iff, Bool-cases, inl,
  inr, none, some, List, [], ◌∷◌, ◌++◌, length, length-append, append_assoc, append-nil, arith,
}
use mathlib.Core.Path.{subst}
use mote_broker.Result.{ok, >>=-eq-ok, ◌>>=◌}
use mote_broker.Protocols.{Bytes}
use mote_broker.WebSocket.Frame.{from_bytes}
use mote_broker.Packet.Fields.{
  read, Value, int, text, raw, FieldType, static_int, packet_id, dynamic_str, remaining_bytes,
  pack_b, pack_h, int_to_bytes, read_int, decode_str, read_field, read_fields, field_to_bytes,
  fields_to_bytes,
}

pub read-append : (bytes rest : Bytes) → read (length bytes) (bytes ++ rest) ≡ ok (bytes, rest)
unfolding read
read-append [] rest = refl
read-append (b ∷ bytes) rest = rw (read-append bytes rest)

nil_of_length : (bytes : Bytes) → length bytes ≡ 0 → bytes ≡ []
nil_of_length [] h = refl
nil_of_length (b ∷ bytes) h = absurd (omega (arith, h))

positive_length : (bytes : Bytes) → bytes ≢ [] → 0 < length bytes
positive_length [] h = absurd (h refl)
positive_length (b ∷ bytes) h = omega arith

pub left_over : (b bs : Bytes) → length (b ++ bs) - length b ≡ length bs
left_over b bs = omega (arith, length-append b bs)

read-pack_h :
    (v : ℕ) (size rest : Bytes)
    → pack_h v ≡ ok size
    → (read 2 (size ++ rest) ≡ ok (size, rest)) × (from_bytes 0 size ≡ v) × (length size ≡ 2)
unfolding pack_h read from_bytes
read-pack_h v size rest h = elim (Bool-cases (ltb v 65536)) [
  | inr e ↦ cc (e, h)
  | inl e ↦
      let q : (v / 256 ∷ v % 256 ∷ []) ≡ size = cc (e, h) in
      subst
        (λ size.
          (read 2 (size ++ rest) ≡ ok (size, rest)) × (from_bytes 0 size ≡ v) × (length size ≡ 2))
        q (refl, omega arith, refl)
]

read_int-int_to_bytes :
    (size v : ℕ) (bytes rest : Bytes)
    → int_to_bytes size v ≡ ok bytes
    → (read_int size (bytes ++ rest) ≡ ok (v, rest)) × (length bytes ≡ size)
unfolding int_to_bytes pack_b read_int read from_bytes
read_int-int_to_bytes size v bytes rest h = elim (Bool-cases (size == 1)) [
  | inl one ↦ elim (Bool-cases (ltb v 256)) [
    | inl e ↦
        let q : (v ∷ []) ≡ bytes = cc (one, e, h) in
        subst (λ bytes. (read_int size (bytes ++ rest) ≡ ok (v, rest)) × (length bytes ≡ size)) q
          (
            rw ((==_iff size 1).0 one) (ap (λ n. ok (n, rest)) (omega arith)),
            sym ((==_iff size 1).0 one),
          )
    | inr e ↦ cc (one, e, h)
  ]
  | inr other ↦ elim (Bool-cases (size == 2)) [
    | inl two ↦
        let (reads, value, len) = read-pack_h v bytes rest (cc (other, two, h)) in
        (rw ((==_iff size 2).0 two, reads, value) refl, len ∙ sym ((==_iff size 2).0 two))
    | inr e ↦ cc (other, e, h)
  ]
]

module _ (encode : String → Bytes) (decode : Bytes → String) where
  -- A value that the field gives back: a text that `decode` takes back, and no empty bytes in the field
  -- of the remaining bytes, which is the last.
  abbrev pub IsReadable : List FieldType → FieldType → Value → Type 0
  IsReadable tys dynamic_str (text s) = decode (encode s) ≡ s
  IsReadable tys remaining_bytes (raw none) = tys ≡ []
  IsReadable tys remaining_bytes (raw (some bytes)) = (tys ≡ []) × (bytes ≢ [])
  IsReadable tys ty v = Unit

  abbrev pub AreReadable : List FieldType → List Value → Type 0
  AreReadable [] vs = Unit
  AreReadable (ty ∷ tys) [] = Unit
  AreReadable (ty ∷ tys) (v ∷ vs) = IsReadable tys ty v × AreReadable tys vs

module _ (encode : String → Bytes) (decode : Bytes → String) (no_bytes : decode [] ≡ "") where
  read_str :
      (s : String) (size rest : Bytes)
      → decode (encode s) ≡ s
      → pack_h (length (encode s)) ≡ ok size
      → decode_str decode ((size ++ encode s) ++ rest) ≡ ok ((s, length (size ++ encode s)), rest)
  unfolding decode_str
  read_str s size rest inverse h =
      let (reads, value, len) = read-pack_h (length (encode s)) size (encode s ++ rest) h in
      rw (append_assoc, reads)
        (rw value (
          rw (read-append (encode s) rest) (elim (Bool-cases (length (encode s) == 0)) [
            | inl e ↦
                let nils : encode s ≡ [] =
                  nil_of_length (encode s) ((==_iff (length (encode s)) 0).0 e) in
                let q : "" ≡ s = sym no_bytes ∙ ap decode (sym nils) ∙ inverse in
                rw (e, nils, append-nil, len) (ap (λ t. ok ((t, 2), rest)) q)
            | inr e ↦
                rw (e, inverse, length-append, len) (ap (λ n. ok ((s, n), rest)) (omega arith))
          ])))

  read_some :
      (b rest : Bytes)
      → b ≢ []
      → read_field decode remaining_bytes (length b) (b ++ rest)
        ≡ ok ((raw (some b), length b), rest)
  unfolding read_field
  read_some b rest h = elim (Bool-cases (ltb (length b) 1)) [
    | inl e ↦ absurd (ground (arith, e, positive_length b h))
    | inr e ↦ rw (e, read-append b rest) refl
  ]

  pub read_field-field_to_bytes :
      (ty : FieldType) (v : Value) (tys : List FieldType) (left : ℕ) (bytes rest : Bytes)
      → IsReadable encode decode tys ty v
      → field_to_bytes encode ty v ≡ ok bytes
      → (tys ≡ [] → left ≡ length bytes)
      → read_field decode ty left (bytes ++ rest) ≡ ok ((v, length bytes), rest)
  unfolding read_field field_to_bytes
  read_field-field_to_bytes (static_int size) (int v) tys left bytes rest h w e =
      let (reads, len) = read_int-int_to_bytes size v bytes rest w in rw (reads, len) refl
  read_field-field_to_bytes packet_id (int v) tys left bytes rest h w e =
      let (reads, value, len) = read-pack_h v bytes rest (unfold int_to_bytes in w) in
      rw (reads, value, len) refl
  read_field-field_to_bytes dynamic_str (text s) tys left bytes rest h w e =
      let (size, packed, q) =
        >>=-eq-ok (pack_h (length (encode s))) (λ size. ok (size ++ encode s)) w in
      let q' : (size ++ encode s) ≡ bytes = cc q in
      subst
        (λ bytes.
          read_field decode dynamic_str left (bytes ++ rest) ≡ ok ((text s, length bytes), rest))
        q' (rw (read_str s size rest h packed) refl)
  read_field-field_to_bytes remaining_bytes (raw none) tys left bytes rest h w e =
      let q : [] ≡ bytes = cc w in
      subst
        (λ bytes.
          left ≡ length bytes
          → read_field decode remaining_bytes left (bytes ++ rest)
            ≡ ok ((raw none, length bytes), rest))
        q (λ zero_left. rw zero_left refl) (e h)
  read_field-field_to_bytes remaining_bytes (raw (some b)) tys left bytes rest h w e =
      let q : b ≡ bytes = cc w in
      subst
        (λ bytes.
          left ≡ length bytes
          → read_field decode remaining_bytes left (bytes ++ rest)
            ≡ ok ((raw (some b), length bytes), rest))
        q (λ all_left. rw all_left (read_some b rest h.1)) (e h.0)
  read_field-field_to_bytes ty v tys left bytes rest h w e = cc w

  no_fields :
      (vs : List Value) (bytes : Bytes) → fields_to_bytes encode [] vs ≡ ok bytes → bytes ≡ []
  unfolding fields_to_bytes
  no_fields [] bytes w = sym (cc w)
  no_fields (v ∷ vs) bytes w = cc w

  -- The fields of a packet are read back as they were written, with the number of their bytes, and what
  -- follows is left. The texts are such that `decode` takes back what `encode` makes of them, and only the
  -- last field may take the remaining bytes, which are None or not empty; `decode` makes the empty text
  -- of no bytes.
  read_fields-fields_to_bytes :
      (tys : List FieldType) (vs : List Value) (bytes rest : Bytes)
      → AreReadable encode decode tys vs
      → fields_to_bytes encode tys vs ≡ ok bytes
      → read_fields decode tys (length bytes) (bytes ++ rest) ≡ ok ((vs, length bytes), rest)
  unfolding read_fields fields_to_bytes
  read_fields-fields_to_bytes [] [] bytes rest h w =
      let q : [] ≡ bytes = cc w in
      subst
        (λ bytes.
          read_fields decode [] (length bytes) (bytes ++ rest) ≡ ok (([], length bytes), rest))
        q refl
  read_fields-fields_to_bytes [] (v ∷ vs) bytes rest h w = cc w
  read_fields-fields_to_bytes (ty ∷ tys) [] bytes rest h w = cc w
  read_fields-fields_to_bytes (ty ∷ tys) (v ∷ vs) bytes rest h w =
      let (b, hb, w') =
        >>=-eq-ok (field_to_bytes encode ty v)
          (λ b. fields_to_bytes encode tys vs >>= λ bytes. ok (b ++ bytes)) w in
      let (bs, hbs, w'') = >>=-eq-ok (fields_to_bytes encode tys vs) (λ bs. ok (b ++ bs)) w' in
      let q : (b ++ bs) ≡ bytes = cc w'' in
      let first = read_field-field_to_bytes ty v tys (length (b ++ bs)) b (bs ++ rest) h.0 hb (λ e.
        rw (no_fields vs bs (ap (λ tys. fields_to_bytes encode tys vs) (sym e) ∙ hbs), append-nil)
          refl) in
      let more = read_fields-fields_to_bytes tys vs bs rest h.1 hbs in
      subst
        (λ bytes.
          read_fields decode (ty ∷ tys) (length bytes) (bytes ++ rest)
          ≡ ok ((v ∷ vs, length bytes), rest))
        q (rw (append_assoc, first) (rw (left_over b bs, more) (rw length-append refl)))
