-- ===== src/Hostmem/Dma/Translate.antt =====
-- Translation in terms of offsets into the heap, for a heap whose table is in order.
use mathlib.Core.Option
use native.Mathlib.Nat.{div-lt_iff_lt-mul, mod-lt, one-le-pow}
use upcie.Prelude.{
  ℕ, ◌+◌, ◌-◌, ◌*◌, ◌/◌, ◌%◌, ◌^◌, ◌≤◌, ◌<◌, ◌≡◌, arith, some, done, get_elem?, length,
  get_elem?-some, ap,
}
use upcie.Prelude.Bits.{bit_and-mask, sub64, pow-le-pow}
use upcie.Hostmem.Types.{HostmemHeap}
use upcie.Hostmem.Dma.{hostmem_dma_v2p}

-- A heap whose sizes are powers of two, whose memory is aligned to hugepages and has an entry for
-- each of them, each the address of a physical hugepage. Addresses of user space lie below 2 ^ 63.
pub record IsMapped (heap : HostmemHeap) : Type 0 where
  pub page_shift : heap.config.pagesize ≡ 2 ^ heap.config.pagesize_shift
  pub huge_shift : heap.config.hugepgsz ≡ 2 ^ heap.config.hugepgsz_shift
  pub shifts : heap.config.pagesize_shift ≤ heap.config.hugepgsz_shift
  pub int_shift : heap.config.hugepgsz_shift < 31
  pub entries : length heap.phys_lut ≡ heap.nphys
  pub covered : heap.memory.size ≡ heap.nphys * heap.config.hugepgsz
  pub aligned : heap.memory.virt % heap.config.hugepgsz ≡ 0
  pub below : heap.memory.virt + heap.memory.size < 2 ^ 63
  pub phys :
      (k : ℕ) {base : ℕ}
      → get_elem? heap.phys_lut k ≡ some base
      → (base % heap.config.hugepgsz ≡ 0) × (base + heap.config.hugepgsz ≤ 2 ^ 64)

-- The physical address at an offset into the heap.
abbrev pub phys_at : HostmemHeap → ℕ → ℕ
phys_at heap offset =
    Option.get_or (get_elem? heap.phys_lut (offset / heap.config.hugepgsz)) 0
    + offset % heap.config.hugepgsz

module _ {heap : HostmemHeap} (m : IsMapped heap) where
  open heap.config use {pagesize, hugepgsz, hugepgsz_shift}

  pub hugepgsz-pos : 1 ≤ heap.config.hugepgsz
  hugepgsz-pos = omega (arith, m.huge_shift, one-le-pow heap.config.hugepgsz_shift 2)

  hugepgsz-lt : heap.config.hugepgsz ≤ 2 ^ 30
  hugepgsz-lt =
      omega
        (arith, m.huge_shift, pow-le-pow heap.config.hugepgsz_shift 30 (omega (arith, m.int_shift)))

  pub entry_at :
      (k : ℕ)
      → k < heap.nphys
      → get_elem? heap.phys_lut k ≡ some (Option.get_or (get_elem? heap.phys_lut k) 0)
  entry_at k h =
      let found = get_elem?-some heap.phys_lut k (omega (arith, m.entries)) in
      ground (arith, found.1)

  pub hpage_idx-lt :
      (offset : ℕ) → offset < heap.memory.size → offset / heap.config.hugepgsz < heap.nphys
  hpage_idx-lt offset h = (div-lt_iff_lt-mul hugepgsz-pos).1 (omega (arith, m.covered))

  pub in_hpage-lt : (offset : ℕ) → offset % heap.config.hugepgsz < heap.config.hugepgsz
  in_hpage-lt offset = mod-lt offset hugepgsz-pos

  -- Translation succeeds at every address of the heap.
  pub hostmem_dma_v2p-phys_at :
      (offset : ℕ)
      → offset < heap.memory.size
      → hostmem_dma_v2p heap (heap.memory.virt + offset) ≡ done (phys_at heap offset)
  unfolding hostmem_dma_v2p
  hostmem_dma_v2p-phys_at offset h =
      let wraps : sub64 (heap.memory.virt + offset) heap.memory.virt ≡ offset =
        omega (arith, m.below) in
      let mask : sub64 heap.config.hugepgsz 1 ≡ 2 ^ heap.config.hugepgsz_shift - 1 =
        omega (arith, hugepgsz-pos, hugepgsz-lt, m.huge_shift) in
      let k : ℕ = offset / heap.config.hugepgsz in
      let found = entry_at k (hpage_idx-lt offset h) in
      let sized = m.phys k found in
      rw (wraps, mask, bit_and-mask, ← m.huge_shift, found)
        (ap done (omega (arith, sized.1, in_hpage-lt offset)))
