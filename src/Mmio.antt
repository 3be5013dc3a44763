-- ===== src/Mmio.antt =====
-- include/upcie/mmio.h: accesses to the registers of a device, and the device as a parameter.
pub mod Memory
pub mod Sample
mod Tests
use upcie.Prelude.{ℕ, ◌+◌, bit_and, bit_or, List}
use upcie.Prelude.Bits.{u32, u64, shl, shr}
use upcie.Nvme.Command.{NvmeCommand, NvmeCompletion}

-- What the code uses of the device and of the DMA memory that it shares: 32-bit accesses to its
-- registers by address, the passing of time, the queues and PRP lists in memory, and `memset` to 0 of such
-- memory, by its address and size. `S` is the
-- state of the device and of this memory. An entry of a queue is read and written as a whole.
pub record Device (S : Type 0) : Type 0 where
  pub read32 : ℕ → S → ℕ × S
  pub write32 : ℕ → ℕ → S → S
  pub usleep : ℕ → S → S
  pub load_cqe : ℕ → ℕ → S → NvmeCompletion
  pub store_sqe : ℕ → ℕ → NvmeCommand → S → S
  pub store_prps : ℕ → List ℕ → S → S
  pub zero_memory : ℕ → ℕ → S → S

module _ {S : Type 0} (d : Device S) where
  abbrev pub mmio_read32 : ℕ → ℕ → S → ℕ × S
  mmio_read32 region offset s = d.read32 (u64 (region + offset)) s

  abbrev pub mmio_write32 : ℕ → ℕ → ℕ → S → S
  mmio_write32 region offset value s = d.write32 (u64 (region + offset)) value s

  abbrev pub mmio_read64 : ℕ → ℕ → S → ℕ × S
  mmio_read64 region offset s =
      let (lo, s) = mmio_read32 region (u32 (offset + 0)) s in
      let (hi, s) = mmio_read32 region (u32 (offset + 4)) s in (bit_or (shl hi 32) lo, s)

  abbrev pub mmio_write64 : ℕ → ℕ → ℕ → S → S
  mmio_write64 region offset val s =
      let s = mmio_write32 region (u32 (offset + 0)) (u32 (bit_and val 0xFFFFFFFF)) s in
      mmio_write32 region (u32 (offset + 4)) (u32 (shr val 32)) s
