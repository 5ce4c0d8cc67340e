-- ===== src/Prelude/Masks.antt =====
-- `n & 255` at any number, from the digits that `bit_and` stands for.
use Prim.Native.Nat.{ℕ, zero, suc, ◌+◌, ◌*◌, ◌/◌, ◌%◌, ◌≤◌, min, bit_and, digits, bit_and-bitwise}
use mathlib.Core.Path.{◌≡◌, refl}
use native.Mathlib.Omega.{arith}

-- what `bit_and` computes, with a bound on the number of its digits
abbrev common : ℕ → ℕ → ℕ → ℕ
common k a b = digits (λ d. zero) min k a b

-- Any two bounds that are large enough give the same.
common_bounds : (k l a b : ℕ) → a ≤ k → a ≤ l → common k a b ≡ common l a b
common_bounds zero zero a b p q = refl
common_bounds (suc k) zero zero b p q = refl
common_bounds (suc k) zero (suc a) b p q = absurd (omega arith)
common_bounds zero (suc l) zero b p q = refl
common_bounds zero (suc l) (suc a) b p q = absurd (omega arith)
common_bounds (suc k) (suc l) zero b p q = refl
common_bounds (suc k) (suc l) (suc a) b p q =
    omega (arith, common_bounds k l (suc a / 2) (b / 2) (omega arith) (omega arith))

-- The lowest digit, and the others.
lowest : (a b : ℕ) → bit_and a b ≡ bit_and (a / 2) (b / 2) * 2 + min (a % 2) (b % 2)
lowest zero b = omega (arith, bit_and-bitwise 0 b, bit_and-bitwise 0 (b / 2))
lowest (suc a) b = omega (
  arith,
  common_bounds a (suc a / 2) (suc a / 2) (b / 2) (omega arith) (omega arith),
  bit_and-bitwise (suc a) b,
  bit_and-bitwise (suc a / 2) (b / 2),
)

no_digits : (k a : ℕ) → a ≤ k → bit_and a 0 ≡ 0
no_digits k zero h = refl
no_digits zero (suc a) h = absurd (omega arith)
no_digits (suc k) (suc a) h = omega (arith, lowest (suc a) 0, no_digits k (suc a / 2) (omega arith))

-- A mask of ones one digit longer keeps one digit more.
four_ones : (a : ℕ) → bit_and a 15 ≡ a % 16
four_ones a = omega (
  arith,
  lowest a 15,
  lowest (a / 2) 7,
  lowest (a / 2 / 2) 3,
  lowest (a / 2 / 2 / 2) 1,
  no_digits (a / 2 / 2 / 2 / 2) (a / 2 / 2 / 2 / 2) (omega arith),
)

pub bit_and-255 : (a : ℕ) → bit_and a 255 ≡ a % 256
bit_and-255 a = omega (
  arith,
  lowest a 255,
  lowest (a / 2) 127,
  lowest (a / 2 / 2) 63,
  lowest (a / 2 / 2 / 2) 31,
  four_ones (a / 2 / 2 / 2 / 2),
)
