-- ===== src/Prelude/Bits.antt =====
-- Masks of two's complement words: what `x & (2^k - 1)` keeps, for the alignments of the source.
use Prim.Native.Nat.{ℕ, zero, suc, ◌+◌, ◌*◌, ◌/◌, ◌%◌, ◌≤◌, min, bit_and, digits, bit_and-bitwise}
use mathlib.Core.Path.{◌≡◌, refl}
use native.Mathlib.Omega.{arith}

-- The recursion on binary digits that `bit_and` stands for, with its bound on the digits.
abbrev by_digits : ℕ → ℕ → ℕ → ℕ
by_digits bound x m = digits (λ _. zero) min bound x m

by_digits_bound : (k l x m : ℕ) → x ≤ k → x ≤ l → by_digits k x m ≡ by_digits l x m
by_digits_bound zero zero x m p q = refl
by_digits_bound zero (suc l) zero m p q = refl
by_digits_bound zero (suc l) (suc x) m p q = absurd (omega arith)
by_digits_bound (suc k) zero zero m p q = refl
by_digits_bound (suc k) zero (suc x) m p q = absurd (omega arith)
by_digits_bound (suc k) (suc l) zero m p q = refl
by_digits_bound (suc k) (suc l) (suc x) m p q =
    omega (arith, by_digits_bound k l (suc x / 2) (m / 2) (omega arith) (omega arith))

bit_and_low : (x m : ℕ) → bit_and x m ≡ min (x % 2) (m % 2) + 2 * bit_and (x / 2) (m / 2)
bit_and_low zero m = omega (arith, bit_and-bitwise 0 m, bit_and-bitwise 0 (m / 2))
bit_and_low (suc x) m = omega (
  arith,
  bit_and-bitwise (suc x) m,
  bit_and-bitwise (suc x / 2) (m / 2),
  by_digits_bound x (suc x / 2) (suc x / 2) (m / 2) (omega arith) (omega arith),
)

no_mask : (bound x : ℕ) → x ≤ bound → bit_and x 0 ≡ 0
no_mask zero zero h = refl
no_mask zero (suc x) h = absurd (omega arith)
no_mask (suc bound) x h = omega (arith, bit_and_low x 0, no_mask bound (x / 2) (omega arith))

pub bit_and-0 : (x : ℕ) → bit_and x 0 ≡ 0
bit_and-0 x = no_mask x x (omega arith)

pub bit_and-1 : (x : ℕ) → bit_and x 1 ≡ x % 2
bit_and-1 x = omega (arith, bit_and_low x 1, bit_and-0 (x / 2))

pub bit_and-3 : (x : ℕ) → bit_and x 3 ≡ x % 4
bit_and-3 x = omega (arith, bit_and_low x 3, bit_and-1 (x / 2))

pub bit_and-7 : (x : ℕ) → bit_and x 7 ≡ x % 8
bit_and-7 x = omega (arith, bit_and_low x 7, bit_and-3 (x / 2))
