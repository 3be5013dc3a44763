-- ===== src/Nvme/Registers/Admin.antt =====
-- The admin queue and the enable bit, at registers that keep what is written to them.
use upcie.Prelude.{
  ℕ, ◌+◌, ◌-◌, ◌*◌, ◌/◌, ◌%◌, ◌^◌, ◌<◌, ◌≤◌, ◌≡◌, ◌==◌, refl, arith, ap, ap₂, sym, ◌∙◌, bit_and,
  bit_or, if◌then◌else◌,
}
use upcie.Prelude.Bits.{
  u32, u64, shl, bit_and-mask, bit_and_step, bit_or_step, eq_of_testbit, bit_or-lt, testbit-bit_or,
  testbit_zero,
}
use upcie.Mmio.{Device, mmio_read64, mmio_write64}
use upcie.Mmio.Memory.{IsMemory, mmio_read64-halves, mmio_write64-halves, join_halves, join_parts}
use upcie.Nvme.Registers.{
  aq_setup, cc_read, cc_enable, cc_disable, reg_aqa, reg_asq, reg_acq, reg_cc,
}

-- A number beside itself.
twice : (x : ℕ) → x < 2 ^ 12 → bit_or (u32 (x * 2 ^ 16)) x ≡ x * 2 ^ 16 + x
twice x h =
    let y : ℕ = x * 2 ^ 16 + x in
    let high : shl (y / 2 ^ 16) 16 ≡ u32 (x * 2 ^ 16) = omega arith in
    let low : y % 2 ^ 16 ≡ x = omega arith in
    sym (ap₂ bit_or high low) ∙ join_parts 16 y (omega arith) (omega arith)

clear_lowest : (cc : ℕ) → cc < 2 ^ 32 → bit_and cc 0xFFFFFFFE ≡ cc - cc % 2
clear_lowest cc h = omega (arith, bit_and_step cc 0xFFFFFFFE, bit_and-mask 31 (cc / 2))

set_lowest : (cc : ℕ) → cc < 2 ^ 32 → bit_or cc 0x1 ≡ cc - cc % 2 + 1
set_lowest cc h =
    let half : ℕ = cc / 2 in
    let same : bit_or half 0 ≡ half =
      eq_of_testbit 32 (bit_or half 0) half (bit_or-lt 32 half 0 (omega arith) (omega arith))
        (omega arith) λ i l. omega (arith, testbit-bit_or half 0 i, testbit_zero i) in
    omega (arith, bit_or_step cc 1, same)

module _ {S : Type 0} (d : Device S) (m : IsMemory d) (bar0 : ℕ)
    (in_bar : bar0 + 0x1000 ≤ 2 ^ 64) where
  module _ (asq acq aqsize : ℕ) (s : S) (h : asq < 2 ^ 64) (l : acq < 2 ^ 64) where
    abbrev after_asq : S
    after_asq = mmio_write64 d bar0 reg_asq asq s

    abbrev after_acq : S
    after_acq = mmio_write64 d bar0 reg_acq acq after_asq

    abbrev aqa : ℕ
    aqa = bit_or (u32 (u32 (aqsize + 2 ^ 32 - 1) * 2 ^ 16)) (u32 (aqsize + 2 ^ 32 - 1))

    -- A register once the setup is done.
    read_after :
        (k : ℕ)
        → k < 0x1000
        → (d.read32 (bar0 + k) (aq_setup d bar0 asq acq aqsize s)).0 ≡ (
            if k == 0x24
            then aqa
            else if k == 0x34
            then acq / 2 ^ 32
            else if k == 0x30
            then acq % 2 ^ 32
            else if k == 0x2C
            then asq / 2 ^ 32
            else if k == 0x28
            then asq % 2 ^ 32
            else (d.read32 (bar0 + k) s).0)
    read_after k p =
        let at : u64 (bar0 + 0x24) ≡ bar0 + 0x24 = omega arith in
        let last : (d.read32 (bar0 + k) (d.write32 (u64 (bar0 + 0x24)) aqa after_acq)).0
            ≡ (if bar0 + k == bar0 + 0x24 then aqa else (d.read32 (bar0 + k) after_acq).0) =
          rw at (m.written (bar0 + 0x24) (bar0 + k) aqa after_acq) in
        let second =
          mmio_write64-halves d m bar0 0x30 (omega arith) (omega arith) (bar0 + k) acq after_asq
            l in
        let first =
          mmio_write64-halves d m bar0 0x28 (omega arith) (omega arith) (bar0 + k) asq s h in
        ground (arith, last, second, first)

    -- After the setup of admin queues of `aqsize` entries ASQ and ACQ read as the addresses given, and
    -- both size fields of AQA as `aqsize - 1`, the zero-based size of the specification.
    pub aq_setup_lem :
        1 ≤ aqsize
        → aqsize ≤ 4096
        → ((mmio_read64 d bar0 reg_asq (aq_setup d bar0 asq acq aqsize s)).0 ≡ asq)
          × ((mmio_read64 d bar0 reg_acq (aq_setup d bar0 asq acq aqsize s)).0 ≡ acq)
          × ((d.read32 (bar0 + reg_aqa) (aq_setup d bar0 asq acq aqsize s)).0 % 2 ^ 12 ≡ aqsize - 1)
          × ((d.read32 (bar0 + reg_aqa) (aq_setup d bar0 asq acq aqsize s)).0 / 2 ^ 16 % 2 ^ 12
              ≡ aqsize - 1)
    aq_setup_lem p q =
        let done_all : S = aq_setup d bar0 asq acq aqsize s in
        let asq_lo = read_after 0x28 (omega arith) in
        let asq_hi : (d.read32 (bar0 + 0x28 + 4) done_all).0 ≡ asq / 2 ^ 32 =
          read_at 0x28 4 0x2C refl (read_after 0x2C (omega arith)) in
        let acq_hi : (d.read32 (bar0 + 0x30 + 4) done_all).0 ≡ acq / 2 ^ 32 =
          read_at 0x30 4 0x34 refl (read_after 0x34 (omega arith)) in
        let size : u32 (aqsize + 2 ^ 32 - 1) ≡ aqsize - 1 = omega arith in
        let joined : aqa ≡ (aqsize - 1) * 2 ^ 16 + (aqsize - 1) =
          rw size (twice (aqsize - 1) (omega arith)) in
        (
          mmio_read64-halves d m bar0 0x28 (omega arith) (omega arith) done_all
              ∙ ap₂ (λ (a b : ℕ). bit_or (shl a 32) b) asq_hi asq_lo
              ∙ join_halves asq h,
          mmio_read64-halves d m bar0 0x30 (omega arith) (omega arith) done_all
              ∙ ap₂ (λ (a b : ℕ). bit_or (shl a 32) b) acq_hi (read_after 0x30 (omega arith))
              ∙ join_halves acq l,
          ap (λ (v : ℕ). v % 2 ^ 12) (read_after 0x24 (omega arith) ∙ joined) ∙ omega arith,
          ap (λ (v : ℕ). v / 2 ^ 16 % 2 ^ 12) (read_after 0x24 (omega arith) ∙ joined)
              ∙ omega arith,
        )
      where
        read_at :
            (a b k : ℕ) {v : ℕ}
            → a + b ≡ k
            → (d.read32 (bar0 + k) (aq_setup d bar0 asq acq aqsize s)).0 ≡ v
            → (d.read32 (bar0 + a + b) (aq_setup d bar0 asq acq aqsize s)).0 ≡ v
        read_at a b k e r = let same : bar0 + a + b ≡ bar0 + k = omega arith in rw same r

  -- Disabling clears the lowest bit of CC, enabling sets it, and neither changes another bit.
  pub cc_enable-cc_disable :
      (s : S) (cc : ℕ)
      → cc < 2 ^ 32
      → (cc_read d bar0 s).0 ≡ cc
      → ((cc_read d bar0 (cc_disable d bar0 s)).0 ≡ cc - cc % 2)
        × ((cc_read d bar0 (cc_enable d bar0 s)).0 ≡ cc - cc % 2 + 1)
  cc_enable-cc_disable s cc h e =
      let at : u64 (bar0 + reg_cc) ≡ bar0 + reg_cc = omega arith in
      let written : (v : ℕ) (t : S)
          → (d.read32 (u64 (bar0 + reg_cc)) (d.write32 (u64 (bar0 + reg_cc)) v t)).0 ≡ v =
        λ v t. ground (arith, m.written (u64 (bar0 + reg_cc)) (u64 (bar0 + reg_cc)) v t) in
      (
        written (bit_and (cc_read d bar0 s).0 0xFFFFFFFE) (cc_read d bar0 s).1
            ∙ ap (λ (c : ℕ). bit_and c 0xFFFFFFFE) e
            ∙ clear_lowest cc h,
        written (bit_or (cc_read d bar0 s).0 0x1) (cc_read d bar0 s).1
            ∙ ap (λ (c : ℕ). bit_or c 0x1) e
            ∙ set_lowest cc h,
      )
