-- ===== src/Prelude/Blocks.antt =====
-- Numbers counted in blocks: multiples, and remainders of successors.
use native.Mathlib.Nat.{mod-lt, mod-eq_of_lt, mul-add-mod_self_left, mul-add-div, div-eq_of_lt}
use native.Mathlib.Nat.{div-add-mod, mod_self, mul-lt-mul_of_pos_left, mul-le-mul_left}
use Prim.Native.Nat.{ℕ, suc, ◌+◌, ◌*◌, ◌/◌, ◌%◌, ◌≤◌, ◌<◌}
use mathlib.Core.Path.{◌≡◌, refl, ap, sym, ◌∙◌}
use native.Mathlib.Omega.{arith}

module _ (n : ℕ) (n-pos : 1 ≤ n) where
  pub suc-mod_inside : (p : ℕ) → p % n + 1 < n → (p + 1) % n ≡ p % n + 1
  suc-mod_inside p h =
      let split : p + 1 ≡ n * (p / n) + (p % n + 1) = omega (arith, div-add-mod p n) in
      rw (split, mul-add-mod_self_left n (p / n) (p % n + 1)) (mod-eq_of_lt h)

  pub suc-mod_wrap : (p : ℕ) → p % n + 1 ≡ n → (p + 1) % n ≡ 0
  suc-mod_wrap p h =
      let split : p + 1 ≡ n * (p / n) + n = omega (arith, div-add-mod p n) in
      rw (split, mul-add-mod_self_left n (p / n) n) (mod_self n)

module _ (m : ℕ) (m-pos : 1 ≤ m) (n : ℕ) (n-pos : 1 ≤ n) where
  -- A multiple of `m`, within blocks of `m * n`.
  pub mul-mod-mul : (p : ℕ) → (m * p) % (m * n) ≡ m * (p % n)
  mul-mod-mul p =
      let low : m * (p % n) < m * n = mul-lt-mul_of_pos_left (mod-lt p n-pos) m-pos in
      let split : m * p ≡ m * n * (p / n) + m * (p % n) =
        omega (arith, ap (λ (t : ℕ). m * t) (div-add-mod p n)) in
      rw (split, mul-add-mod_self_left (m * n) (p / n) (m * (p % n))) (mod-eq_of_lt low)

  -- The same of a number within a multiple.
  pub mul-add-mod-mul : (p r : ℕ) → r < m → (m * p + r) % (m * n) ≡ m * (p % n) + r
  mul-add-mod-mul p r h =
      let low : m * suc (p % n) ≤ m * n = mul-le-mul_left m (mod-lt p n-pos) in
      let split : m * p + r ≡ m * n * (p / n) + (m * (p % n) + r) =
        omega (arith, ap (λ (t : ℕ). m * t) (div-add-mod p n)) in
      rw (split, mul-add-mod_self_left (m * n) (p / n) (m * (p % n) + r))
        (mod-eq_of_lt (omega arith))

module _ (n : ℕ) (n-pos : 1 ≤ n) (o d : ℕ) (inside : o % n + d < n) where
  split : o + d ≡ n * (o / n) + (o % n + d)
  split = omega (arith, div-add-mod o n)

  -- A step that stays in its block.
  pub add-div_inside : (o + d) / n ≡ o / n
  add-div_inside =
      rw (split, mul-add-div n-pos (o / n) (o % n + d), div-eq_of_lt inside) (omega arith)

  pub add-mod_inside : (o + d) % n ≡ o % n + d
  add-mod_inside = rw (split, mul-add-mod_self_left n (o / n) (o % n + d)) (mod-eq_of_lt inside)

-- A remainder by a multiple of `m` has the same remainder by `m`.
pub mod-mul-mod : (m n x : ℕ) → x % (m * n) % m ≡ x % m
mod-mul-mod m n x =
    let split : x ≡ m * (n * (x / (m * n))) + x % (m * n) = omega (arith, div-add-mod x (m * n)) in
    sym (ap (λ (t : ℕ). t % m) split ∙ mul-add-mod_self_left m (n * (x / (m * n))) (x % (m * n)))

pub add-mod_multiple : (m n base x : ℕ) → base % (m * n) ≡ 0 → (base + x) % m ≡ x % m
add-mod_multiple m n base x h =
    let split : base + x ≡ m * (n * (base / (m * n))) + x =
      omega (arith, h, div-add-mod base (m * n)) in
    rw (split, mul-add-mod_self_left m (n * (base / (m * n))) x) refl
