-- ===== src/Prelude/Rounding.antt =====
-- Rounding up to a multiple of a power of two, as the heaps write it.
use native.Mathlib.Nat.{one-le-pow, mod-lt, div-add-mod, mul_comm, mul-mod_left}
use Prim.Native.Nat.{ℕ, ◌+◌, ◌-◌, ◌*◌, ◌/◌, ◌%◌, ◌^◌, ◌≤◌, ◌<◌, bit_and}
use mathlib.Core.Path.{◌≡◌, ap, ◌∙◌}
use native.Mathlib.Omega.{arith}
use upcie.Prelude.Bits.{
  u64, sub64, bit_not, eq_of_testbit, bit_and-lt, testbit-bit_and, testbit_not, testbit-mask,
  testbit-shl, testbit-shr, testbit-lt, pow-le-pow,
}

-- `(n + alignment - 1) & ~(alignment - 1)` of `uint64_t`.
abbrev pub round_up : ℕ → ℕ → ℕ
round_up n alignment = bit_and (sub64 (u64 (n + alignment)) 1) (bit_not (sub64 alignment 1))

-- Clearing the low bits.
bit_and-not_mask :
    (k x : ℕ) → k < 64 → x < 2 ^ 64 → bit_and x (bit_not (2 ^ k - 1)) ≡ x / 2 ^ k * 2 ^ k
bit_and-not_mask k x h l =
    let mask : 2 ^ k - 1 < 2 ^ 64 = omega (arith, pow-le-pow k 63 (omega arith)) in
    let below : x / 2 ^ k * 2 ^ k < 2 ^ 64 =
      omega (arith, div-add-mod x (2 ^ k), mul_comm (2 ^ k) (x / 2 ^ k)) in
    eq_of_testbit 64 (bit_and x (bit_not (2 ^ k - 1))) (x / 2 ^ k * 2 ^ k)
      (bit_and-lt 64 x (bit_not (2 ^ k - 1)) l) below
      λ i p. ground (
        arith,
        testbit-bit_and x (bit_not (2 ^ k - 1)) i,
        testbit_not 64 (2 ^ k - 1) i mask p,
        testbit-mask k i,
        testbit-shl (x / 2 ^ k) k i,
        testbit-shr x k (i - k),
        testbit-lt x i,
      )

module _ (n k : ℕ) (h : k < 64) (room : n + 2 ^ k < 2 ^ 64) where
  some_alignment : 1 ≤ 2 ^ k
  some_alignment = one-le-pow k 2 (omega arith)

  round_up_lem : round_up n (2 ^ k) ≡ (n + 2 ^ k - 1) / 2 ^ k * 2 ^ k
  round_up_lem =
      let before : sub64 (u64 (n + 2 ^ k)) 1 ≡ n + 2 ^ k - 1 = omega (arith, some_alignment) in
      let mask : sub64 (2 ^ k) 1 ≡ 2 ^ k - 1 = omega (arith, some_alignment) in
      rw (before, mask) (bit_and-not_mask k (n + 2 ^ k - 1) h (omega arith))

  pub round_up-ge : n ≤ round_up n (2 ^ k)
  round_up-ge = omega (
    arith,
    round_up_lem,
    div-add-mod (n + 2 ^ k - 1) (2 ^ k),
    mul_comm (2 ^ k) ((n + 2 ^ k - 1) / 2 ^ k),
    mod-lt (n + 2 ^ k - 1) some_alignment,
    some_alignment,
  )

  pub round_up-le : round_up n (2 ^ k) ≤ n + 2 ^ k - 1
  round_up-le = omega (
    arith,
    round_up_lem,
    div-add-mod (n + 2 ^ k - 1) (2 ^ k),
    mul_comm (2 ^ k) ((n + 2 ^ k - 1) / 2 ^ k),
  )

  pub round_up-mod : round_up n (2 ^ k) % 2 ^ k ≡ 0
  round_up-mod =
      ap (λ (t : ℕ). t % 2 ^ k) round_up_lem ∙ mul-mod_left ((n + 2 ^ k - 1) / 2 ^ k) (2 ^ k)
