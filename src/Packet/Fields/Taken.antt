-- ===== src/Packet/Fields/Taken.antt =====
-- The bytes that a read takes from its input, and the numbers that they hold.
use mathlib.Core.Path.{subst}
use native.Mathlib.Nat.{pow-suc, mul_comm, mul_assoc, mul-le-mul_right}
use mote_broker.Prelude.{
  ℕ, zero, suc, ◌+◌, ◌*◌, ◌^◌, ◌≤◌, ◌<◌, ◌≡◌, refl, sym, ap, ◌∙◌, ◌⊎◌, inl, inr, [], ◌∷◌, ◌++◌,
  length, length-append, append_assoc, All, arith,
}
use mote_broker.Result.{ok, err, connection_error}
use mote_broker.Protocols.{Bytes}
use mote_broker.WebSocket.Frame.{from_bytes}
use mote_broker.Packet.Fields.{read}

-- bytes as numbers below 256
abbrev pub AreBytes : Bytes → Type 0
AreBytes bytes = All (λ b. b < 256) bytes

-- The bytes between the input and what is left of it.
pub record IsTaken (input rest : Bytes) (size : ℕ) : Type 0 where
  pub taken : Bytes
  pub whole : input ≡ taken ++ rest
  pub counted : length taken ≡ size
  pub bytes : AreBytes taken
  pub left : AreBytes rest

pub taken_none : (input : Bytes) → AreBytes input → IsTaken input input 0
taken_none input h = record { taken = []; whole = refl; counted = refl; bytes = tt; left = h }

All-append_left : (a b : Bytes) → AreBytes a → AreBytes b → AreBytes (a ++ b)
All-append_left [] b h k = k
All-append_left (x ∷ a) b h k = (h.0, All-append_left a b h.1 k)

pub taken_both :
    (input after rest : Bytes) (m n : ℕ)
    → IsTaken input after m
    → IsTaken after rest n
    → IsTaken input rest (m + n)
taken_both input after rest m n s t = record {
  taken = s.taken ++ t.taken;
  whole = s.whole ∙ ap (λ r. s.taken ++ r) t.whole ∙ sym (append_assoc s.taken t.taken rest);
  counted = omega (arith, length-append s.taken t.taken, s.counted, t.counted);
  bytes = All-append_left s.taken t.taken s.bytes t.bytes;
  left = t.left;
}

pub read-cases :
    (n : ℕ) (input : Bytes)
    → AreBytes input
    → ((read n input ≡ err connection_error) × (length input < n))
      ⊎ ((got : Bytes) × (rest : Bytes) × (read n input ≡ ok (got, rest))
          × (input ≡ got ++ rest)
          × (length got ≡ n)
          × AreBytes got
          × AreBytes rest)
unfolding read
read-cases zero input h = inr ([], input, refl, refl, refl, tt, h)
read-cases (suc n) [] h = inl (refl, omega arith)
read-cases (suc n) (b ∷ input) h = elim (read-cases n input h.1) [
  | inl (e, short) ↦ inl (rw e refl, omega (arith, short))
  | inr (got, rest, e, whole, len, gs, rs) ↦
      inr (b ∷ got, rest, rw e refl, ap (λ t. b ∷ t) whole, ap suc len, (h.0, gs), rs)
]

below_next : (acc b P : ℕ) → b < 256 → suc (acc * 256 + b) * P ≤ suc acc * (P * 256)
below_next acc b P h =
    rw (mul_comm P 256, sym (mul_assoc (suc acc) 256 P)) (mul-le-mul_right P (omega arith))

from_bytes-lt :
    (acc : ℕ) (bytes : Bytes) → AreBytes bytes → from_bytes acc bytes < suc acc * 256 ^ length bytes
unfolding from_bytes
from_bytes-lt acc [] h = omega arith
from_bytes-lt acc (b ∷ bytes) h =
    let ih = from_bytes-lt (acc * 256 + b) bytes h.1 in
    let step = below_next acc b (256 ^ length bytes) h.0 in
    rw (pow-suc 256 (length bytes)) (omega (arith, ih, step))

pub from_bytes_bound :
    (bytes : Bytes) (n : ℕ) → AreBytes bytes → length bytes ≡ n → from_bytes 0 bytes < 256 ^ n
from_bytes_bound bytes n h e =
    subst (λ m. from_bytes 0 bytes < 256 ^ m) e (omega (arith, from_bytes-lt 0 bytes h))

abbrev pub skip : ℕ → Bytes → Bytes
skip zero input = input
skip (suc n) [] = []
skip (suc n) (b ∷ input) = skip n input

skip-append : (a rest : Bytes) → skip (length a) (a ++ rest) ≡ rest
skip-append [] rest = refl
skip-append (b ∷ a) rest = skip-append a rest

pub skip-taken : (input rest : Bytes) (size : ℕ) → IsTaken input rest size → skip size input ≡ rest
skip-taken input rest size t =
    sym (ap (λ n. skip n input) t.counted)
    ∙ ap (skip (length t.taken)) t.whole
    ∙ skip-append t.taken rest
