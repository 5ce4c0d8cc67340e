-- ===== src/Prelude/Lists.antt =====
-- Lists measured by native numbers, filtered by Boolean tests, and paths of text nodes.
use Prim.Native.Nat.{ℕ, zero, suc, ◌+◌}
use Prim.Native.String.{String}
use mathlib.Core.Path.{◌≡◌, refl}
use mathlib.Core.Logic.{◌↔◌}
use mathlib.Core.Bool.{Bool, true, false}
use mathlib.Core.Option.{Option, none, some}
use mathlib.Core.List.{List, [], ◌∷◌, ◌++◌}
use native.Mathlib.Omega.{arith}
use text.Mathlib.Text.{◌==◌ as ◌=str=◌}
use text.Mathlib.TextEquality.{eq_iff}
use mote_broker.Prelude.Tests.{if◌then◌else◌}

module _ {ℓ} {A : Type ℓ} where
  abbrev pub length : List A → ℕ
  length [] = 0
  length (x ∷ xs) = suc (length xs)

  abbrev pub get_elem? : List A → ℕ → Option A
  get_elem? [] i = none
  get_elem? (x ∷ xs) zero = some x
  get_elem? (x ∷ xs) (suc i) = get_elem? xs i

  -- The items that pass the test, in their order.
  abbrev pub keep : (A → Bool) → List A → List A
  keep p [] = []
  keep p (x ∷ xs) = if p x then x ∷ keep p xs else keep p xs

  -- Some item passes the test.
  abbrev pub exists : (A → Bool) → List A → Bool
  exists p [] = false
  exists p (x ∷ xs) = if p x then true else exists p xs

  abbrev pub All {κ} : (A → Type κ) → List A → Type κ
  All P [] = Unit
  All P (x ∷ xs) = P x × All P xs

  pub length-append : (xs ys : List A) → length (xs ++ ys) ≡ length xs + length ys
  length-append [] ys = omega arith
  length-append (x ∷ xs) ys = omega (arith, length-append xs ys)

  pub keep-append : (p : A → Bool) (xs ys : List A) → keep p (xs ++ ys) ≡ keep p xs ++ keep p ys
  keep-append p [] ys = refl
  keep-append p (x ∷ xs) ys = ground (arith, keep-append p xs ys)

  pub All-append {κ} : (P : A → Type κ) (xs ys : List A) → All P xs → All P ys → All P (xs ++ ys)
  All-append P [] ys h k = k
  All-append P (x ∷ xs) ys (px, h) k = (px, All-append P xs ys h k)

-- Equality of two paths, node by node.
abbrev pub path_eq : List String → List String → Bool
path_eq [] [] = true
path_eq [] (n ∷ q) = false
path_eq (m ∷ p) [] = false
path_eq (m ∷ p) (n ∷ q) = if m =str= n then path_eq p q else false

pub path_eq_iff : (p q : List String) → (path_eq p q ≡ true) ↔ (p ≡ q)
path_eq_iff [] [] = (λ h. refl, λ h. refl)
path_eq_iff [] (n ∷ q) = (λ h. cc, λ h. cc)
path_eq_iff (m ∷ p) [] = (λ h. cc, λ h. cc)
path_eq_iff (m ∷ p) (n ∷ q) = (
  λ h. ground (arith, eq_iff m n, path_eq_iff p q),
  λ h. ground (arith, eq_iff m n, path_eq_iff p q),
)
