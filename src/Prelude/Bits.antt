-- ===== src/Prelude/Bits.antt =====
-- Bits of unsigned words: the C operators on `uint64_t` as arithmetic, and the laws of `&`, `|`,
-- `~` and the shifts, by the value of each bit.
mod Step
pub use Step.{bit_and_step, bit_or_step}
use Prim.Native.Nat.{
  ℕ, zero, suc, ◌+◌, ◌-◌, ◌*◌, ◌/◌, ◌%◌, ◌^◌, ◌≤◌, ◌<◌, min, max, bit_and, bit_or,
}
use Prim.Native.Nat.{bit_and-bitwise, bit_or-bitwise}
use mathlib.Core.Path.{◌≡◌, refl, sym, ap, ap₂, ◌∙◌}
use native.Mathlib.Nat.{pow-suc, one-le-pow, div-div-eq-div-mul, div-add-mod, mod-lt}
use native.Mathlib.Nat.{
  mul-add-mod_self_left, mod-eq_of_lt, mul-one, one-mul, add-zero, sub-zero, pow-le-pow_right,
}
use native.Mathlib.Decide.{dec_lt}
use mathlib.Core.Logic.{◌≢◌}
use native.Mathlib.Omega.{arith}
use upcie.Prelude.Tests.{ltb, ◌==◌, if◌then◌else◌}

-- `UINT64_MAX`, also `SIZE_MAX`.
abbrev pub uint64_max : ℕ
uint64_max = 2 ^ 64 - 1

-- The conversions to the unsigned types.
abbrev pub u8 : ℕ → ℕ
u8 n = n % 2 ^ 8

abbrev pub u16 : ℕ → ℕ
u16 n = n % 2 ^ 16

abbrev pub u32 : ℕ → ℕ
u32 n = n % 2 ^ 32

abbrev pub u64 : ℕ → ℕ
u64 n = n % 2 ^ 64

-- `a - b` of `uint64_t`.
abbrev pub sub64 : ℕ → ℕ → ℕ
sub64 a b = u64 (a + 2 ^ 64 - b)

-- `x >> k`, `x << k` and `~x` of `uint64_t`; the shifts at `k < 64`.
abbrev pub shr : ℕ → ℕ → ℕ
shr x k = x / 2 ^ k

abbrev pub shl : ℕ → ℕ → ℕ
shl x k = u64 (x * 2 ^ k)

abbrev pub bit_not : ℕ → ℕ
bit_not x = uint64_max - x

-- Bit `i` of a number.
pub testbit : ℕ → ℕ → ℕ
testbit x zero = x % 2
testbit x (suc i) = testbit (x / 2) i

-- Halving a remainder by an even number.
half-mod : (x m : ℕ) → 0 < m → (x % (2 * m)) / 2 ≡ (x / 2) % m
half-mod x m h =
    let r : ℕ = x % (2 * m) in
    let q : ℕ = x / (2 * m) in
    let halved : x / 2 ≡ m * q + r / 2 = omega (arith, div-add-mod x (2 * m)) in
    let small : r / 2 < m = omega (arith, mod-lt x {m = 2 * m} (omega arith)) in
    rw (halved, mul-add-mod_self_left m q (r / 2), mod-eq_of_lt small) refl

pow-double : (k : ℕ) → 2 ^ suc k ≡ 2 * 2 ^ k
pow-double k = omega (arith, pow-suc 2 k)

pub pow-add : (a b : ℕ) → 2 ^ (a + b) ≡ 2 ^ a * 2 ^ b
pow-add zero b = let none_more : 0 + b ≡ b = omega arith in rw none_more (omega arith)
pow-add (suc a) b =
    let index : suc a + b ≡ suc (a + b) = omega arith in
    rw (index, pow-double (a + b), pow-double a, pow-add a b) (omega arith)

pub pow-le-pow : (i j : ℕ) → i ≤ j → 2 ^ i ≤ 2 ^ j
pow-le-pow i j h = pow-le-pow_right {n = 2} (omega arith) {i = i} {j = j} h

pub testbit-lt : (x i : ℕ) → testbit x i < 2
unfolding testbit
testbit-lt x zero = omega arith
testbit-lt x (suc i) = testbit-lt (x / 2) i

pub testbit-bit_and : (a b i : ℕ) → testbit (bit_and a b) i ≡ min (testbit a i) (testbit b i)
unfolding testbit
testbit-bit_and a b zero = omega (arith, bit_and_step a b)
testbit-bit_and a b (suc i) =
    let halved : bit_and a b / 2 ≡ bit_and (a / 2) (b / 2) = omega (arith, bit_and_step a b) in
    rw halved (testbit-bit_and (a / 2) (b / 2) i)

pub testbit-bit_or : (a b i : ℕ) → testbit (bit_or a b) i ≡ max (testbit a i) (testbit b i)
unfolding testbit
testbit-bit_or a b zero = omega (arith, bit_or_step a b)
testbit-bit_or a b (suc i) =
    let halved : bit_or a b / 2 ≡ bit_or (a / 2) (b / 2) = omega (arith, bit_or_step a b) in
    rw halved (testbit-bit_or (a / 2) (b / 2) i)

pub testbit_zero : (i : ℕ) → testbit 0 i ≡ 0
unfolding testbit
testbit_zero zero = refl
testbit_zero (suc i) = testbit_zero i

testbit_one : (i : ℕ) → testbit 1 i ≡ (if i == 0 then 1 else 0)
unfolding testbit
testbit_one zero = refl
testbit_one (suc i) = ground (arith, testbit_zero i)

pub testbit-shr : (x k i : ℕ) → testbit (x / 2 ^ k) i ≡ testbit x (k + i)
testbit-shr x zero i = ap₂ testbit (omega arith) (omega arith)
testbit-shr x (suc k) i =
    let split : x / 2 ^ suc k ≡ x / 2 / 2 ^ k =
      rw (pow-double k) (sym (div-div-eq-div-mul x 2 (2 ^ k))) in
    let carried : testbit x (suc (k + i)) ≡ testbit (x / 2) (k + i) = unfold testbit in refl in
    let index : suc k + i ≡ suc (k + i) = omega arith in
    rw (split, index, carried) (testbit-shr (x / 2) k i)

pub testbit-mod : (x k i : ℕ) → testbit (x % 2 ^ k) i ≡ (if ltb i k then testbit x i else 0)
unfolding testbit
testbit-mod x zero i =
    let gone : x % 2 ^ 0 ≡ 0 = omega arith in rw gone (ground (arith, testbit_zero i))
testbit-mod x (suc k) zero =
    let pos : 1 ≤ 2 ^ k = one-le-pow k 2 (omega arith) in
    rw (pow-double k) (ground (arith, div-add-mod x (2 * 2 ^ k)))
testbit-mod x (suc k) (suc i) =
    let pos : 1 ≤ 2 ^ k = one-le-pow k 2 (omega arith) in
    rw (pow-double k, half-mod x (2 ^ k) pos, testbit-mod (x / 2) k i) (ground arith)

pub testbit-shl : (x k i : ℕ) → testbit (x * 2 ^ k) i ≡ (if ltb i k then 0 else testbit x (i - k))
unfolding testbit
testbit-shl x zero i =
    ground (arith, ap (λ (t : ℕ). testbit t i) (mul-one x), ap (testbit x) (sub-zero i))
testbit-shl x (suc k) zero = ground (arith, ap (λ (t : ℕ). x * t) (pow-double k))
testbit-shl x (suc k) (suc i) =
    let halved : x * 2 ^ suc k / 2 ≡ x * 2 ^ k =
      omega (arith, ap (λ (t : ℕ). x * t) (pow-double k)) in
    let index : suc i - suc k ≡ i - k = omega arith in
    rw index (rw (halved, testbit-shl x k i) (ground arith))

-- The complement within `k` bits.
pub testbit_not : (k x i : ℕ) → x < 2 ^ k → i < k → testbit (2 ^ k - 1 - x) i ≡ 1 - testbit x i
unfolding testbit
testbit_not zero x i h p = absurd (omega arith)
testbit_not (suc k) x zero h p = omega (arith, pow-double k)
testbit_not (suc k) x (suc i) h p =
    let halved : (2 ^ suc k - 1 - x) / 2 ≡ 2 ^ k - 1 - x / 2 = omega (arith, pow-double k) in
    rw halved (testbit_not k (x / 2) i (omega (arith, pow-double k)) (omega arith))

-- A number below `2 ^ k` is given by its low `k` bits.
pub eq_of_testbit :
    (k a b : ℕ) → a < 2 ^ k → b < 2 ^ k → ((i : ℕ) → i < k → testbit a i ≡ testbit b i) → a ≡ b
unfolding testbit
eq_of_testbit zero a b p q h = omega arith
eq_of_testbit (suc k) a b p q h =
    let halves : a / 2 ≡ b / 2 =
      eq_of_testbit k (a / 2) (b / 2) (omega (arith, pow-double k)) (omega (arith, pow-double k))
        (λ i l. h (suc i) (omega arith)) in
    let low : a % 2 ≡ b % 2 = h 0 (omega arith) in omega arith

-- No bit of a number below `2 ^ k` stands at `k` or above.
pub testbit_above : (k x i : ℕ) → x < 2 ^ k → k ≤ i → testbit x i ≡ 0
unfolding testbit
testbit_above zero x i h p = let none_left : x ≡ 0 = omega arith in rw none_left (testbit_zero i)
testbit_above (suc k) x zero h p = absurd (omega arith)
testbit_above (suc k) x (suc i) h p =
    testbit_above k (x / 2) i (omega (arith, pow-double k)) (omega arith)

-- `2 ^ k - 1` has the low `k` bits and no other.
pub testbit-mask : (k i : ℕ) → testbit (2 ^ k - 1) i ≡ (if ltb i k then 1 else 0)
testbit-mask k i = elim (dec_lt i k) [
  | yes p ↦ ground (arith, testbit_not k 0 i (one-le-pow k 2 (omega arith)) p, testbit_zero i)
  | no p ↦ ground (
    arith,
    one-le-pow k 2 (omega arith),
    testbit_above k (2 ^ k - 1) i (omega (arith, one-le-pow k 2)) (omega arith),
  )
]

bit_and-zero_below : (n x : ℕ) → x ≤ n → bit_and x 0 ≡ 0
bit_and-zero_below n zero h = omega (arith, bit_and-bitwise 0 0)
bit_and-zero_below zero (suc x) h = absurd (omega arith)
bit_and-zero_below (suc n) (suc x) h =
    omega (arith, bit_and_step (suc x) 0, bit_and-zero_below n (suc x / 2) (omega arith))

bit_and-zero : (x : ℕ) → bit_and x 0 ≡ 0
bit_and-zero x = bit_and-zero_below x x (omega arith)

-- `&` and `|` stay within the width of their operands.
pub bit_and-lt : (k a b : ℕ) → a < 2 ^ k → bit_and a b < 2 ^ k
bit_and-lt zero a b h =
    let none_left : a ≡ 0 = omega arith in rw none_left (omega (arith, bit_and-bitwise 0 b))
bit_and-lt (suc k) a b h = omega (
  arith,
  pow-double k,
  bit_and_step a b,
  bit_and-lt k (a / 2) (b / 2) (omega (arith, pow-double k)),
)

pub bit_or-lt : (k a b : ℕ) → a < 2 ^ k → b < 2 ^ k → bit_or a b < 2 ^ k
bit_or-lt zero a b h l =
    let left : a ≡ 0 = omega arith in
    let right : b ≡ 0 = omega arith in rw (left, right) (omega (arith, bit_or-bitwise 0 0))
bit_or-lt (suc k) a b h l =
    let below : bit_or (a / 2) (b / 2) < 2 ^ k =
      bit_or-lt k (a / 2) (b / 2) (omega (arith, pow-double k)) (omega (arith, pow-double k)) in
    omega (arith, pow-double k, bit_or_step a b)

-- A low mask takes the remainder.
pub bit_and-mask : (k x : ℕ) → bit_and x (2 ^ k - 1) ≡ x % 2 ^ k
bit_and-mask zero x = omega (arith, bit_and-zero x)
bit_and-mask (suc k) x =
    let m : ℕ = 2 ^ k in
    let pos : 1 ≤ m = one-le-pow k 2 (omega arith) in
    let mask : (2 * m - 1) / 2 ≡ m - 1 = omega arith in
    let step : bit_and x (2 * m - 1) ≡ bit_and (x / 2) (m - 1) * 2 + min (x % 2) 1 =
      rw (← mask) (omega (arith, bit_and_step x (2 * m - 1))) in
    rw pow-double
      (omega (arith, step, bit_and-mask k (x / 2), half-mod x m pos, div-add-mod x (2 * m)))

-- A single bit, `1ULL << k`.
pub testbit_power : (k i : ℕ) → testbit (2 ^ k) i ≡ (if i == k then 1 else 0)
testbit_power k i =
    ground
      (arith, ap (λ (t : ℕ). testbit t i) (one-mul (2 ^ k)), testbit-shl 1 k i, testbit_one (i - k))

-- `(x >> k) & 1` is bit `k`.
pub bit_and-shr-one : (x k : ℕ) → bit_and (x / 2 ^ k) 1 ≡ testbit x k
unfolding testbit
bit_and-shr-one x k = bit_and-mask 1 (x / 2 ^ k) ∙ testbit-shr x k 0 ∙ ap (testbit x) (add-zero k)

-- `x & (1 << k)` is zero exactly when bit `k` is not set.
pub bit_and-power_zero : (x k : ℕ) → x < 2 ^ 64 → testbit x k ≡ 0 → bit_and x (2 ^ k) ≡ 0
bit_and-power_zero x k fits h =
    eq_of_testbit 64 (bit_and x (2 ^ k)) 0 (bit_and-lt 64 x (2 ^ k) fits) (omega arith)
      λ i l. ground (arith, testbit-bit_and x (2 ^ k) i, testbit_power k i, testbit_zero i)

pub bit_and-power_ne_zero : (x k : ℕ) → testbit x k ≢ 0 → bit_and x (2 ^ k) ≢ 0
bit_and-power_ne_zero x k h e =
    let bit : testbit (bit_and x (2 ^ k)) k ≡ 0 = rw e (testbit_zero k) in
    h (ground (arith, testbit-bit_and x (2 ^ k) k, testbit_power k k, testbit-lt x k))
