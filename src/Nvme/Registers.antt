-- ===== src/Nvme/Registers.antt =====
-- include/upcie/nvme/nvme_mmio.h: the controller's registers in BAR0.
pub mod Admin
pub mod Wait
use upcie.Prelude.{
  ℕ, zero, suc, ◌+◌, ◌-◌, ◌*◌, ◌^◌, ◌==◌, if◌then◌else◌, bit_and, bit_or, ℤ, pos, neg, etimedout,
}
use upcie.Prelude.Bits.{u32}
use upcie.Mmio.{Device, mmio_read32, mmio_write32, mmio_read64, mmio_write64}

abbrev pub reg_cap : ℕ
reg_cap = 0x00

abbrev pub reg_cc : ℕ
reg_cc = 0x14

abbrev pub reg_csts : ℕ
reg_csts = 0x1C

abbrev pub reg_aqa : ℕ
reg_aqa = 0x24

abbrev pub reg_asq : ℕ
reg_asq = 0x28

abbrev pub reg_acq : ℕ
reg_acq = 0x30

-- `a - b` of `uint32_t`.
abbrev sub32 : ℕ → ℕ → ℕ
sub32 a b = u32 (a + 2 ^ 32 - b)

module _ {S : Type 0} (d : Device S) where
  abbrev pub aq_setup : ℕ → ℕ → ℕ → ℕ → S → S
  aq_setup bar0 asq acq aqsize s =
      let aqa = bit_or (u32 (sub32 aqsize 1 * 2 ^ 16)) (sub32 aqsize 1) in
      let s = mmio_write64 d bar0 reg_asq asq s in
      let s = mmio_write64 d bar0 reg_acq acq s in mmio_write32 d bar0 reg_aqa aqa s

  abbrev pub cc_read : ℕ → S → ℕ × S
  cc_read bar0 s = mmio_read32 d bar0 reg_cc s

  abbrev pub cap_read : ℕ → S → ℕ × S
  cap_read bar0 s = mmio_read64 d bar0 reg_cap s

  abbrev pub csts_read : ℕ → S → ℕ × S
  csts_read bar0 s = mmio_read32 d bar0 reg_csts s

  abbrev pub cc_write : ℕ → ℕ → S → S
  cc_write bar0 cc s = mmio_write32 d bar0 reg_cc cc s

  abbrev pub cc_enable : ℕ → S → S
  cc_enable bar0 s = let (cc, s) = cc_read bar0 s in cc_write bar0 (bit_or cc 0x1) s

  abbrev pub cc_disable : ℕ → S → S
  cc_disable bar0 s = let (cc, s) = cc_read bar0 s in cc_write bar0 (bit_and cc 0xFFFFFFFE) s

  -- One round of the waits: CSTS as it is read, and the state after it.
  unfoldable pub csts_wait_until : ℕ → ℕ → ℕ → S → ℤ × S
  csts_wait_until rdy mmio zero s = (neg (pos etimedout), s)
  csts_wait_until rdy mmio (suc left) s =
      let (csts, s) = csts_read mmio s in
      let rest = csts_wait_until rdy mmio left (d.usleep 1000 s) in
      if bit_and csts 0x1 == rdy then (pos 0, s) else rest

  unfoldable pub csts_wait_until_ready : ℕ → ℕ → S → ℤ × S
  csts_wait_until_ready mmio timeout_ms s = csts_wait_until 0x1 mmio timeout_ms s

  unfoldable pub csts_wait_until_not_ready : ℕ → ℕ → S → ℤ × S
  csts_wait_until_not_ready mmio timeout_ms s = csts_wait_until 0x0 mmio timeout_ms s
