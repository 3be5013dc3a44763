-- ===== src/Mmio/Memory.antt =====
-- 64-bit accesses at registers that hold what is written to them.
use native.Mathlib.Nat.{mod-le}
use upcie.Prelude.{
  ℕ, ◌+◌, ◌-◌, ◌*◌, ◌/◌, ◌%◌, ◌^◌, ◌<◌, ◌≤◌, ◌≡◌, ◌==◌, refl, arith, bit_and, bit_or, if◌then◌else◌,
  ap₂, ap, ◌∙◌,
}
use upcie.Prelude.Bits.{
  u32, u64, shl, eq_of_testbit, testbit-bit_or, testbit-mod, testbit-shl, testbit-shr, bit_and-mask,
  bit_or-lt,
}
use upcie.Mmio.{Device, mmio_read64, mmio_write64}

-- A register file that keeps what is written and whose reads have no effect, as the NVMe
-- specification has it of the read-write properties that the code sets up.
pub record IsMemory {S : Type 0} (d : Device S) : Type 0 where
  pub keeps : (a : ℕ) (s : S) → (d.read32 a s).1 ≡ s
  pub written :
      (a b v : ℕ) (s : S)
      → (d.read32 b (d.write32 a v s)).0 ≡ (if b == a then v else (d.read32 b s).0)

-- The two parts of a word put together again.
pub join_parts : (k x : ℕ) → k < 64 → x < 2 ^ 64 → bit_or (shl (x / 2 ^ k) k) (x % 2 ^ k) ≡ x
join_parts k x p h =
    let below : x % 2 ^ k < 2 ^ 64 = omega (arith, mod-le x (2 ^ k)) in
    eq_of_testbit 64 (bit_or (shl (x / 2 ^ k) k) (x % 2 ^ k)) x
      (bit_or-lt 64 (shl (x / 2 ^ k) k) (x % 2 ^ k) (omega arith) below) h
      λ i l. ground (
        arith,
        testbit-bit_or (shl (x / 2 ^ k) k) (x % 2 ^ k) i,
        testbit-mod (x / 2 ^ k * 2 ^ k) 64 i,
        testbit-shl (x / 2 ^ k) k i,
        testbit-shr x k (i - k),
        testbit-mod x k i,
      )

pub join_halves : (x : ℕ) → x < 2 ^ 64 → bit_or (shl (x / 2 ^ 32) 32) (x % 2 ^ 32) ≡ x
join_halves x h = join_parts 32 x (omega arith) h

module _ {S : Type 0} (d : Device S) (m : IsMemory d) (region offset : ℕ)
    (in_bar : region + offset + 8 ≤ 2 ^ 64) (offset_fits : offset + 8 ≤ 2 ^ 32) where
  low_address : u64 (region + u32 (offset + 0)) ≡ region + offset
  low_address = omega arith

  high_address : u64 (region + u32 (offset + 4)) ≡ region + offset + 4
  high_address = omega arith

  -- A 64-bit read in terms of the 32-bit registers.
  pub mmio_read64-halves :
      (s : S)
      → (mmio_read64 d region offset s).0
        ≡ bit_or (shl (d.read32 (region + offset + 4) s).0 32) (d.read32 (region + offset) s).0
  mmio_read64-halves s =
      let lo : ℕ = u64 (region + u32 (offset + 0)) in
      let hi : ℕ = u64 (region + u32 (offset + 4)) in
      let halves : bit_or (shl (d.read32 hi (d.read32 lo s).1).0 32) (d.read32 lo s).0
          ≡ bit_or (shl (d.read32 (region + offset + 4) s).0 32) (d.read32 (region + offset) s).0 =
        rw (low_address, high_address, m.keeps (region + offset) s) refl in
      halves

  -- The 32-bit registers after a 64-bit write.
  pub mmio_write64-halves :
      (b val : ℕ) (s : S)
      → val < 2 ^ 64
      → (d.read32 b (mmio_write64 d region offset val s)).0 ≡ (
          if b == region + offset + 4
          then val / 2 ^ 32
          else if b == region + offset
          then val % 2 ^ 32
          else (d.read32 b s).0)
  mmio_write64-halves b val s h =
      let lo : u32 (bit_and val 0xFFFFFFFF) ≡ val % 2 ^ 32 = omega (arith, bit_and-mask 32 val) in
      let hi : u32 (val / 2 ^ 32) ≡ val / 2 ^ 32 = omega arith in
      let after : S =
        d.write32 (u64 (region + u32 (offset + 4))) (u32 (val / 2 ^ 32))
          (d.write32 (u64 (region + u32 (offset + 0))) (u32 (bit_and val 0xFFFFFFFF)) s) in
      let read : (d.read32 b after).0 ≡ (
          if b == region + offset + 4
          then val / 2 ^ 32
          else if b == region + offset
          then val % 2 ^ 32
          else (d.read32 b s).0) =
        rw (low_address, high_address, lo, hi)
          (m.written (region + offset + 4) b (val / 2 ^ 32)
              (d.write32 (region + offset) (val % 2 ^ 32) s)
            ∙ ap (λ (t : ℕ). if b == region + offset + 4 then val / 2 ^ 32 else t)
                (m.written (region + offset) b (val % 2 ^ 32) s)) in
      read

  -- A 64-bit value that is written to a register reads back.
  pub mmio_read64-mmio_write64 :
      (val : ℕ) (s : S)
      → val < 2 ^ 64
      → (mmio_read64 d region offset (mmio_write64 d region offset val s)).0 ≡ val
  mmio_read64-mmio_write64 val s h =
      let after : S = mmio_write64 d region offset val s in
      let lo : (d.read32 (region + offset) after).0 ≡ val % 2 ^ 32 =
        ground (arith, mmio_write64-halves (region + offset) val s h) in
      let hi : (d.read32 (region + offset + 4) after).0 ≡ val / 2 ^ 32 =
        ground (arith, mmio_write64-halves (region + offset + 4) val s h) in
      mmio_read64-halves after ∙ ap₂ (λ (a b : ℕ). bit_or (shl a 32) b) hi lo ∙ join_halves val h
