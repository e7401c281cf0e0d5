-- ===== src/Base/Bits.antt =====
-- Facts about `bit_and` and `bit_or`, by their lowest digit and by tables over small ranges.
use Prim.Native.Nat.{
  ℕ, zero, suc, ◌+◌, ◌*◌, ◌/◌, ◌%◌, ◌≤◌, ◌<◌, min, max, bit_and, bit_or, digits, bitwise,
  bit_and-bitwise, bit_or-bitwise,
}
use mathlib.Core.Path.{◌≡◌, refl}
use mathlib.Core.Bool.{Bool, true, ◌&&◌}
use native.Mathlib.Omega.{arith}
use native.Mathlib.Nat.{le_refl}

-- A test of the numbers from 0 on, as many as are asked for.
unfoldable pub passes : (ℕ → Bool) → ℕ → Bool
passes test zero = true
passes test (suc k) = passes test k && test k

pub passes_all : (test : ℕ → Bool) (k i : ℕ) → i < k → passes test k ≡ true → test i ≡ true
unfolding passes
passes_all test zero i less run = absurd (omega arith)
passes_all test (suc k) i less run = ground (arith, passes_all test k i)

-- `digits` gives the same with any fuel that the first number does not exceed.
module _ (base : ℕ → ℕ) (op : ℕ → ℕ → ℕ) where
  enough_digits : (x y k l : ℕ) → x ≤ k → x ≤ l → digits base op k x y ≡ digits base op l x y
  enough_digits zero y zero zero hk hl = refl
  enough_digits zero y zero (suc l) hk hl = refl
  enough_digits zero y (suc k) zero hk hl = refl
  enough_digits zero y (suc k) (suc l) hk hl = refl
  enough_digits (suc x) y zero l hk hl = absurd (omega arith)
  enough_digits (suc x) y (suc k) zero hk hl = absurd (omega arith)
  enough_digits (suc x) y (suc k) (suc l) hk hl =
      let less : suc x / 2 ≤ k = omega arith in
      rw (enough_digits (suc x / 2) (y / 2) k l less (omega arith))

  lowest_digit :
      (x y : ℕ)
      → bitwise base op (suc x) y ≡ op (suc x % 2) (y % 2) + 2 * bitwise base op (suc x / 2) (y / 2)
  lowest_digit x y =
      let half = suc x / 2 in
      omega (arith, enough_digits half (y / 2) x half (omega arith) (omega arith))

pub bit_or_step : (x y : ℕ) → bit_or x y ≡ max (x % 2) (y % 2) + 2 * bit_or (x / 2) (y / 2)
bit_or_step zero y = simp bit_or-bitwise (omega arith)
bit_or_step (suc x) y = simp bit_or-bitwise (lowest_digit (λ d. d) max x y)

pub bit_and_step : (x y : ℕ) → bit_and x y ≡ min (x % 2) (y % 2) + 2 * bit_and (x / 2) (y / 2)
bit_and_step zero y = simp bit_and-bitwise (omega arith)
bit_and_step (suc x) y = simp bit_and-bitwise (lowest_digit (λ d. 0) min x y)

bit_and-le_fuel : (n a b : ℕ) → a ≤ n → bit_and a b ≤ b
bit_and-le_fuel n zero b h = rw (bit_and-bitwise 0 b) (omega arith)
bit_and-le_fuel zero (suc a) b h = absurd (omega arith)
bit_and-le_fuel (suc n) (suc a) b h =
    omega (arith, bit_and_step (suc a) b, bit_and-le_fuel n (suc a / 2) (b / 2) (omega arith))

pub bit_and-le : (a b : ℕ) → bit_and a b ≤ b
bit_and-le a b = bit_and-le_fuel a a b (le_refl a)
