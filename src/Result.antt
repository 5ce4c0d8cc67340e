-- ===== src/Result.antt =====
-- Exceptions as values. A method that raises leaves what it wrote before: the state comes back
-- beside the error too.
use mote_broker.Prelude.{◌≡◌, refl, ap, List, [], ◌++◌, append-nil, append_assoc}

-- The exceptions of protocols/exceptions.py, tables/exceptions.py, packet/base_packet.py and servers/handler.py, and those that Python raises.
pub data Error : Type 0 where
  invalid_everything_card : Error
  dynamic_message : Error
  index_error : Error
  key_error : Error
  type_error : Error
  attribute_error : Error
  value_error : Error
  connection_error : Error
  io_error : Error
  struct_error : Error
  too_many_packet_ids : Error
  connection_closed : Error
  unknown_packet : Error
  unexpected_packet : Error
  unknown_operation : Error
  corrupt_model : Error
  packet_mismatch : Error
  syntax_error : Error
  json_error : Error

-- What a call returns, or the exception that it raises.
pub data Result {ℓ} (R : Type ℓ) : Type ℓ where
  err : Error → Result R
  ok : R → Result R

-- An exception ends the body: the rest is not run.
infixl 10 ◌>>=◌
abbrev pub ◌>>=◌ {ℓ κ} : {R : Type ℓ} {S : Type κ} → Result R → (R → Result S) → Result S
err raised >>= rest = err raised
ok value >>= rest = rest value

-- A body that returned had each of its calls return.
pub >>=-eq-ok {ℓ κ} :
    {R : Type ℓ} {S : Type κ} (call : Result R) (rest : R → Result S) {returned : S}
    → (call >>= rest) ≡ ok returned
    → (value : R) × (call ≡ ok value) × (rest value ≡ ok returned)
>>=-eq-ok (err raised) rest q = cc
>>=-eq-ok (ok value) rest q = (value, refl, q)

-- Two results that are lists, one behind the other.
abbrev pub seq {ℓ} : {B : Type ℓ} → Result (List B) → Result (List B) → Result (List B)
seq m n = m >>= λ here. n >>= λ more. ok (here ++ more)

pub ok_nil-seq {ℓ} : {B : Type ℓ} (m : Result (List B)) → seq (ok []) m ≡ m
ok_nil-seq (ok xs) = refl
ok_nil-seq (err e) = refl

pub seq_assoc {ℓ} : {B : Type ℓ} (m n o : Result (List B)) → seq (seq m n) o ≡ seq m (seq n o)
seq_assoc (err e) n o = refl
seq_assoc (ok xs) (err e) o = refl
seq_assoc (ok xs) (ok ys) (err e) = refl
seq_assoc (ok xs) (ok ys) (ok zs) = ap ok (append_assoc xs ys zs)

pub seq-ok_nil {ℓ} : {B : Type ℓ} (m : Result (List B)) → seq m (ok []) ≡ m
seq-ok_nil (ok xs) = ap ok (append-nil xs)
seq-ok_nil (err e) = refl
