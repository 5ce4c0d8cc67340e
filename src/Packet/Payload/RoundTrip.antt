-- ===== src/Packet/Payload/RoundTrip.antt =====
-- A payload with a list is read as it was written.
use mathlib.Core.Path.{subst}
use mote_broker.Prelude.{
  ℕ, zero, suc, ◌-◌, ◌≤◌, ◌<◌, ◌≡◌, refl, ap, ◌∙◌, String, true, ltb, some, List, [], ◌∷◌, ◌++◌,
  map, length, length-append, append_assoc, append-nil, All, arith,
}
use mote_broker.Result.{Result, ok, err, >>=-eq-ok, ◌>>=◌}
use mote_broker.Protocols.{Bytes}
use mote_broker.Packet.Fields.{
  Value, int, text, FieldType, static_int, packet_id, dynamic_str, remaining_bytes, pack_b, pack_h,
  int_to_bytes, read_field, read_fields, field_to_bytes, fields_to_bytes,
}
use mote_broker.Packet.Fields.RoundTrip.{
  IsReadable, AreReadable, read_field-field_to_bytes, left_over,
}
use mote_broker.Packet.Payload.{read_list, list_to_bytes, read_rest, read_payload}

pack_h_positive : (v : ℕ) (bytes : Bytes) → pack_h v ≡ ok bytes → 0 < length bytes
unfolding pack_h
pack_h_positive v bytes w = ground arith

int_positive : (size v : ℕ) (bytes : Bytes) → int_to_bytes size v ≡ ok bytes → 0 < length bytes
unfolding int_to_bytes pack_b pack_h
int_positive size v bytes w = ground arith

some_left : (b bs : Bytes) → 0 < length b → ltb 0 (length (b ++ bs)) ≡ true
some_left b bs h = ground (arith, length-append b bs)

-- The types that do not take all that is left.
abbrev pub IsItem : FieldType → Type 0
IsItem remaining_bytes = ⊥
IsItem ty = Unit

module _ (encode : String → Bytes) where
  -- What the fields of objects are written as, one object behind the other.
  abbrev pub items_to_bytes : List FieldType → List (List Value) → Result Bytes
  items_to_bytes tys [] = ok []
  items_to_bytes tys (item ∷ items) = do
    b ← fields_to_bytes encode tys item
    bytes ← items_to_bytes tys items
    ok (b ++ bytes)

  -- A value that is written takes a byte, unless its type takes what is left.
  field_positive :
      (ty : FieldType) (v : Value) (bytes : Bytes)
      → IsItem ty
      → field_to_bytes encode ty v ≡ ok bytes
      → 0 < length bytes
  unfolding field_to_bytes
  field_positive (static_int size) (int v) bytes i w = int_positive size v bytes w
  field_positive packet_id (int v) bytes i w = int_positive 2 v bytes w
  field_positive dynamic_str (text s) bytes i w =
      let (size, packed, q) =
        >>=-eq-ok (pack_h (length (encode s))) (λ size. ok (size ++ encode s)) w in
      let q' : (size ++ encode s) ≡ bytes = cc q in
      omega (
        arith,
        pack_h_positive (length (encode s)) size packed,
        ap length q',
        length-append size (encode s),
      )
  field_positive remaining_bytes v bytes i w = absurd i
  field_positive ty v bytes i w = cc w

  -- The fields of an object that has one take a byte.
  fields_positive :
      (ty : FieldType) (tys : List FieldType) (vs : List Value) (bytes : Bytes)
      → IsItem ty
      → fields_to_bytes encode (ty ∷ tys) vs ≡ ok bytes
      → 0 < length bytes
  unfolding fields_to_bytes
  fields_positive ty tys [] bytes i w = cc w
  fields_positive ty tys (v ∷ vs) bytes i w =
      let (b, hb, w') =
        >>=-eq-ok (field_to_bytes encode ty v)
          (λ b. fields_to_bytes encode tys vs >>= λ bytes. ok (b ++ bytes)) w in
      let (bs, hbs, w'') = >>=-eq-ok (fields_to_bytes encode tys vs) (λ bs. ok (b ++ bs)) w' in
      let q : (b ++ bs) ≡ bytes = cc w'' in
      omega (arith, field_positive ty v b i hb, ap length q, length-append b bs)

module _ (encode : String → Bytes) (decode : Bytes → String) (no_bytes : decode [] ≡ "") where
  item_IsReadable :
      (tys us : List FieldType) (ty : FieldType) (v : Value)
      → IsItem ty
      → IsReadable encode decode tys ty v
      → IsReadable encode decode us ty v
  item_IsReadable tys us remaining_bytes v i h = absurd i
  item_IsReadable tys us dynamic_str (text s) i h = h
  item_IsReadable tys us ty v i h = tt

  read_item :
      (tys : List FieldType) (ty : FieldType) (v : Value) (left : ℕ) (b rest : Bytes)
      → IsItem ty
      → IsReadable encode decode tys ty v
      → field_to_bytes encode ty v ≡ ok b
      → read_field decode ty left (b ++ rest) ≡ ok ((v, length b), rest)
  read_item tys ty v left b rest i h w =
      read_field-field_to_bytes encode decode no_bytes ty v (packet_id ∷ []) left b rest
        (item_IsReadable tys (packet_id ∷ []) ty v i h) w (λ e. cc e)

  -- Without a field that takes what is left, the length that is left does not matter.
  read_object :
      (tys : List FieldType) (vs : List Value) (left : ℕ) (bytes rest : Bytes)
      → All IsItem tys
      → AreReadable encode decode tys vs
      → fields_to_bytes encode tys vs ≡ ok bytes
      → read_fields decode tys left (bytes ++ rest) ≡ ok ((vs, length bytes), rest)
  unfolding read_fields fields_to_bytes
  read_object [] [] left bytes rest i h w =
      let q : [] ≡ bytes = cc w in
      subst (λ bytes. read_fields decode [] left (bytes ++ rest) ≡ ok (([], length bytes), rest)) q
        refl
  read_object [] (v ∷ vs) left bytes rest i h w = cc w
  read_object (ty ∷ tys) [] left bytes rest i h w = cc w
  read_object (ty ∷ tys) (v ∷ vs) left bytes rest i h w =
      let (b, hb, w') =
        >>=-eq-ok (field_to_bytes encode ty v)
          (λ b. fields_to_bytes encode tys vs >>= λ bytes. ok (b ++ bytes)) w in
      let (bs, hbs, w'') = >>=-eq-ok (fields_to_bytes encode tys vs) (λ bs. ok (b ++ bs)) w' in
      let q : (b ++ bs) ≡ bytes = cc w'' in
      let first = read_item tys ty v left b (bs ++ rest) i.0 h.0 hb in
      let more = read_object tys vs (left - length b) bs rest i.1 h.1 hbs in
      subst
        (λ bytes.
          read_fields decode (ty ∷ tys) left (bytes ++ rest) ≡ ok ((v ∷ vs, length bytes), rest))
        q (rw (append_assoc, first) (rw more (rw length-append refl)))

  -- The items of a list are read back as they were written, each with its fields.
  read_list-items_to_bytes :
      (fuel : ℕ) (ty : FieldType) (tys : List FieldType) (items : List (List Value))
      (bytes rest : Bytes)
      → length bytes ≤ fuel
      → All IsItem (ty ∷ tys)
      → All (AreReadable encode decode (ty ∷ tys)) items
      → items_to_bytes encode (ty ∷ tys) items ≡ ok bytes
      → read_list decode fuel (ty ∷ tys) (length bytes) (bytes ++ rest)
        ≡ ok ((items, length bytes), rest)
  unfolding read_list
  read_list-items_to_bytes zero ty tys [] bytes rest l i h w =
      let q : [] ≡ bytes = cc w in
      subst
        (λ bytes.
          read_list decode zero (ty ∷ tys) (length bytes) (bytes ++ rest)
          ≡ ok (([], length bytes), rest))
        q refl
  read_list-items_to_bytes (suc fuel) ty tys [] bytes rest l i h w =
      let q : [] ≡ bytes = cc w in
      subst
        (λ bytes.
          read_list decode (suc fuel) (ty ∷ tys) (length bytes) (bytes ++ rest)
          ≡ ok (([], length bytes), rest))
        q refl
  read_list-items_to_bytes zero ty tys (item ∷ items) bytes rest l i h w =
      let (b, hb, w') =
        >>=-eq-ok (fields_to_bytes encode (ty ∷ tys) item)
          (λ b. items_to_bytes encode (ty ∷ tys) items >>= λ bytes. ok (b ++ bytes)) w in
      let (bs, hbs, w'') =
        >>=-eq-ok (items_to_bytes encode (ty ∷ tys) items) (λ bs. ok (b ++ bs)) w' in
      let q : (b ++ bs) ≡ bytes = cc w'' in
      absurd (
        omega
          (arith, fields_positive encode ty tys item b i.0 hb, length-append b bs, ap length q, l))
  read_list-items_to_bytes (suc fuel) ty tys (item ∷ items) bytes rest l i h w =
      let (b, hb, w') =
        >>=-eq-ok (fields_to_bytes encode (ty ∷ tys) item)
          (λ b. items_to_bytes encode (ty ∷ tys) items >>= λ bytes. ok (b ++ bytes)) w in
      let (bs, hbs, w'') =
        >>=-eq-ok (items_to_bytes encode (ty ∷ tys) items) (λ bs. ok (b ++ bs)) w' in
      let q : (b ++ bs) ≡ bytes = cc w'' in
      let pos = fields_positive encode ty tys item b i.0 hb in
      let len = length-append b bs in
      let first = read_object (ty ∷ tys) item (length (b ++ bs)) b (bs ++ rest) i h.0 hb in
      let more =
        read_list-items_to_bytes fuel ty tys items bs rest (omega (arith, ap length q, len, pos, l))
          i h.1 hbs in
      subst
        (λ bytes.
          read_list decode (suc fuel) (ty ∷ tys) (length bytes) (bytes ++ rest)
          ≡ ok ((item ∷ items, length bytes), rest))
        q
        (rw (append_assoc, some_left b bs pos)
          (rw first (rw (left_over b bs, more) (rw length-append))))

  -- A payload with a list, as those of subscribe, suback and unsubscribe packets, is read back as it was
  -- written: its scalar fields, and its items, of one field or several. The texts are such that `decode`
  -- takes back what `encode` makes of them; `decode` makes the empty text of no bytes. The bytes come from
  -- a read that gives just those asked for.
  pub read_payload-list :
      (heads : List FieldType) (vs : List Value) (ty : FieldType) (tys : List FieldType)
      (items : List (List Value)) (head_bytes item_bytes rest : Bytes)
      → All IsItem heads
      → All IsItem (ty ∷ tys)
      → AreReadable encode decode heads vs
      → All (AreReadable encode decode (ty ∷ tys)) items
      → fields_to_bytes encode heads vs ≡ ok head_bytes
      → items_to_bytes encode (ty ∷ tys) items ≡ ok item_bytes
      → read_payload decode
          (record { heads = heads; list = some (ty ∷ tys) })
          (length (head_bytes ++ item_bytes))
          ((head_bytes ++ item_bytes) ++ rest)
        ≡ ok (((vs, items), length (head_bytes ++ item_bytes)), rest)
  unfolding read_payload read_rest
  read_payload-list heads vs ty tys items hb ib rest i j h k w x =
      let first = read_object heads vs (length (hb ++ ib)) hb (ib ++ rest) i h w in
      let more = read_list-items_to_bytes (length ib) ty tys items ib rest (omega arith) j k x in
      rw (append_assoc, first) (rw (left_over hb ib, more) (rw length-append))

-- An object of one field.
regroup :
    (r m : Result Bytes)
    → (r >>= λ b. m >>= λ bytes. ok (b ++ bytes))
      ≡ ((r >>= λ b. ok (b ++ [])) >>= λ b. m >>= λ bytes. ok (b ++ bytes))
regroup (err e) m = refl
regroup (ok b) m = rw append-nil

-- What is written for a list of values of one type is what is written for objects of one field.
pub list_to_bytes-items_to_bytes :
    (encode : String → Bytes) (ty : FieldType) (vs : List Value)
    → list_to_bytes encode ty vs ≡ items_to_bytes encode (ty ∷ []) (map (λ v. v ∷ []) vs)
unfolding list_to_bytes fields_to_bytes
list_to_bytes-items_to_bytes encode ty [] = refl
list_to_bytes-items_to_bytes encode ty (v ∷ vs) =
    regroup (field_to_bytes encode ty v) (list_to_bytes encode ty vs)
    ∙ ap
        (λ m. (field_to_bytes encode ty v >>= λ b. ok (b ++ [])) >>= λ b.
          m >>= λ bytes. ok (b ++ bytes))
        (list_to_bytes-items_to_bytes encode ty vs)
