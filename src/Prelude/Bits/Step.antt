-- ===== src/Prelude/Bits/Step.antt =====
-- The lowest binary digit of `bit_and` and `bit_or`, whose meaning `bitwise` counts fuel down.
use Prim.Native.Nat.{
  ℕ, zero, suc, ◌+◌, ◌*◌, ◌/◌, ◌%◌, ◌≤◌, min, max, bit_and, bit_or, digits, bitwise,
}
use Prim.Native.Nat.{bit_and-bitwise, bit_or-bitwise}
use mathlib.Core.Path.{◌≡◌, refl}
use native.Mathlib.Omega.{arith}

module _ (rest_of : ℕ → ℕ) (digit : ℕ → ℕ → ℕ) where
  -- Fuel beyond the first number changes nothing.
  more_fuel :
      (x y fuel more : ℕ)
      → x ≤ fuel
      → fuel ≤ more
      → digits rest_of digit more x y ≡ digits rest_of digit fuel x y
  more_fuel zero y zero zero h l = refl
  more_fuel zero y zero (suc more) h l = refl
  more_fuel zero y (suc fuel) (suc more) h l = refl
  more_fuel zero y (suc fuel) zero h l = refl
  more_fuel (suc x) y zero more h l = absurd (omega arith)
  more_fuel (suc x) y (suc fuel) zero h l = absurd (omega arith)
  more_fuel (suc x) y (suc fuel) (suc more) h l =
      rw (more_fuel (suc x / 2) (y / 2) fuel more (omega arith) (omega arith))

  lowest :
      (x y : ℕ)
      → bitwise rest_of digit (suc x) y
        ≡ bitwise rest_of digit (suc x / 2) (y / 2) * 2 + digit (suc x % 2) (y % 2)
  lowest x y =
      let whole : suc x / 2 ≤ x = omega arith in
      let same : suc x / 2 ≤ suc x / 2 = omega arith in
      omega (arith, more_fuel (suc x / 2) (y / 2) (suc x / 2) x same whole)

pub bit_and_step : (x y : ℕ) → bit_and x y ≡ bit_and (x / 2) (y / 2) * 2 + min (x % 2) (y % 2)
bit_and_step zero y = simp bit_and-bitwise (omega arith)
bit_and_step (suc x) y = simp bit_and-bitwise (lowest (λ y. 0) min x y)

pub bit_or_step : (x y : ℕ) → bit_or x y ≡ bit_or (x / 2) (y / 2) * 2 + max (x % 2) (y % 2)
bit_or_step zero y = simp bit_or-bitwise (omega arith)
bit_or_step (suc x) y = simp bit_or-bitwise (lowest (λ y. y) max x y)
