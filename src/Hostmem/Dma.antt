-- ===== src/Hostmem/Dma.antt =====
-- include/upcie/hostmem_dma.h: the physical address of a virtual one.
pub mod Translate
pub mod Memory
use upcie.Prelude.{ℕ, ◌+◌, bit_and, get_elem?, Outcome, ◌>>=◌, read, done}
use upcie.Prelude.Bits.{shr, sub64, u64}
use upcie.Hostmem.Types.{HostmemHeap}

unfoldable pub hostmem_dma_v2p : HostmemHeap → ℕ → Outcome ℕ
hostmem_dma_v2p heap virt = do
  let offset = sub64 virt heap.memory.virt
  let hpage_idx = shr offset heap.config.hugepgsz_shift
  let in_hpage_offset = bit_and offset (sub64 heap.config.hugepgsz 1)
  phys ← read (get_elem? heap.phys_lut hpage_idx)
  done (u64 (phys + in_hpage_offset))
