-- ===== src/Prelude/Bits.antt =====
-- Masks and shifts on one byte as arithmetic, each checked by evaluation over all bytes.
use mote_broker.Prelude.Tests.{◌==◌, if◌then◌else◌}
use native.Mathlib.Omega.{arith}
use mathlib.Core.Bool.{Bool, true, false}
use Prim.Native.Nat.{bit_and, bit_or, ℕ, zero, suc, ◌+◌, ◌*◌, ◌/◌, ◌%◌, ◌<◌}
use mathlib.Core.Path.{refl, ◌≡◌}

module _ (f g : ℕ → ℕ) where
  unfoldable pub equal_below : ℕ → Bool
  equal_below zero = true
  equal_below (suc n) = if f n == g n then equal_below n else false

  pub equal_below→eq : (n : ℕ) → equal_below n ≡ true → (i : ℕ) → i < n → f i ≡ g i
  unfolding equal_below
  equal_below→eq zero e i h = absurd (omega arith)
  equal_below→eq (suc n) e i h = ground (arith, equal_below→eq n (ground arith) i)

pub bit_and-0x7f : (b : ℕ) → b < 256 → bit_and b 0x7f ≡ b % 128
unfolding equal_below
bit_and-0x7f = equal_below→eq _ _ 256 refl

pub bit_and-0x80 : (b : ℕ) → b < 256 → bit_and b 0x80 ≡ b / 128 * 128
unfolding equal_below
bit_and-0x80 = equal_below→eq _ _ 256 refl

pub bit_or-0x80 : (b : ℕ) → b < 128 → bit_or b 0x80 ≡ b + 128
unfolding equal_below
bit_or-0x80 = equal_below→eq _ _ 128 refl

pub bit_and-0x0f : (b : ℕ) → b < 256 → bit_and b 0x0f ≡ b % 16
unfolding equal_below
bit_and-0x0f = equal_below→eq _ _ 256 refl

pub bit_and-0xf0 : (b : ℕ) → b < 256 → bit_and b 0xf0 ≡ b / 16 * 16
unfolding equal_below
bit_and-0xf0 = equal_below→eq _ _ 256 refl

-- A high and a low half of a byte, put together by `|`.
halves : (i : ℕ) → i < 256 → bit_or (i / 16 * 16) (i % 16) ≡ i
unfolding equal_below
halves = equal_below→eq _ _ 256 refl

pub bit_or-halves : (hi lo : ℕ) → hi < 16 → lo < 16 → bit_or (hi * 16) lo ≡ hi * 16 + lo
bit_or-halves hi lo h l =
    let q : (hi * 16 + lo) / 16 * 16 ≡ hi * 16 = omega arith in
    let r : (hi * 16 + lo) % 16 ≡ lo = omega arith in
    rw (q, r) at (halves (hi * 16 + lo) (omega arith))
