-- ===== src/Gpu/Translate.antt =====
-- Translation on the heap in GPU memory. It has the layout of the hugepage heap, with device pages for
-- hugepages, and the translation without checks shifts and masks where that one divides.
use upcie.Prelude.{
  ℕ, ◌+◌, ◌-◌, ◌/◌, ◌^◌, ◌≤◌, ◌<◌, ◌≡◌, ◌⊎◌, refl, arith, ap, sym, ◌∙◌, inl, inr, true, [], pos,
  neg, einval, done, ltb,
}
use upcie.Prelude.Bits.{sub64, bit_and-mask, pow-le-pow}
use upcie.Os.{shared}
use upcie.Hostmem.Types.{HostmemHeap}
use upcie.Hostmem.Dma.{hostmem_dma_v2p}
use upcie.Hostmem.Dma.Translate.{
  IsMapped, phys_at, hostmem_dma_v2p-phys_at, entry_at, hpage_idx-lt, hugepgsz-pos, in_hpage-lt,
}
use upcie.Hostmem.Heap.Vtp.{virt_to_phys-hostmem_dma_v2p}
use upcie.Gpu.Types.{CudamemHeap}
use upcie.Gpu.Heap.{virt_to_phys, vtp}

-- A hugepage heap of the same layout.
abbrev pub as_host : CudamemHeap → HostmemHeap
as_host heap = record {
  memory = record { fd = pos 0; virt = heap.vaddr; size = heap.size; phys = 0; path = shared [] };
  freelist = [];
  config = record {
    memfd_flags = 0;
    backend = 0;
    count = 0;
    pagesize = heap.config.pagesize;
    pagesize_shift = heap.config.pagesize_shift;
    hugepgsz = heap.config.device_pagesize;
    hugepgsz_shift = heap.config.device_pagesize_shift;
  };
  nphys = heap.nphys;
  phys_lut = heap.phys_lut;
}

virt_to_phys-as_host :
    (heap : CudamemHeap) (virt phys : ℕ)
    → virt_to_phys heap virt phys ≡ upcie.Hostmem.Heap.virt_to_phys (as_host heap) virt phys
unfolding virt_to_phys upcie.Hostmem.Heap.virt_to_phys
virt_to_phys-as_host heap virt phys = refl

module _ (heap : CudamemHeap) (m : IsMapped (as_host heap)) where
  pub vtp-phys_at :
      (offset : ℕ)
      → offset < heap.size
      → vtp heap (heap.vaddr + offset) ≡ done (phys_at (as_host heap) offset)
  unfolding vtp
  vtp-phys_at offset h =
      let wraps : sub64 (heap.vaddr + offset) heap.vaddr ≡ offset = omega (arith, m.below) in
      let mask : sub64 heap.config.device_pagesize 1 ≡ 2 ^ heap.config.device_pagesize_shift - 1 =
        omega (
          arith,
          hugepgsz-pos m,
          m.huge_shift,
          pow-le-pow heap.config.device_pagesize_shift 30 (omega (arith, m.int_shift)),
        ) in
      let k : ℕ = offset / heap.config.device_pagesize in
      let found = entry_at m k (hpage_idx-lt m offset h) in
      let sized = m.phys k found in
      let in_table : ltb k heap.nphys ≡ true = ground (arith, hpage_idx-lt m offset h) in
      rw (wraps, mask, bit_and-mask, ← m.huge_shift, in_table, found)
        (ap done (omega (arith, sized.1, in_hpage-lt m offset)))

  pub vtp-hostmem_dma_v2p :
      (virt : ℕ)
      → heap.vaddr ≤ virt
      → virt < heap.vaddr + heap.size
      → vtp heap virt ≡ hostmem_dma_v2p (as_host heap) virt
  vtp-hostmem_dma_v2p virt from below =
      let at : heap.vaddr + (virt - heap.vaddr) ≡ virt = omega (arith, from) in
      let inside : virt - heap.vaddr < heap.size = omega (arith, from, below) in
      ap (vtp heap) (sym at)
      ∙ vtp-phys_at (virt - heap.vaddr) inside
      ∙ sym (hostmem_dma_v2p-phys_at m (virt - heap.vaddr) inside)
      ∙ ap (hostmem_dma_v2p (as_host heap)) at

  -- At every address of a heap whose device pages each have an entry in its table, and which does not
  -- start at address 0, the translation with checks and the one without agree; outside of the heap the
  -- former returns -EINVAL and leaves what it was given.
  pub gpu_virt_to_phys-vtp :
      (virt phys : ℕ)
      → 1 ≤ heap.vaddr
      → virt < 2 ^ 64
      → ((address : ℕ) × (heap.vaddr ≤ virt)
          × (virt < heap.vaddr + heap.size)
          × (virt_to_phys heap virt phys ≡ done (pos 0, address))
          × (vtp heap virt ≡ done address))
        ⊎ (((virt < heap.vaddr) ⊎ (heap.vaddr + heap.size ≤ virt))
            × (virt_to_phys heap virt phys ≡ done (neg (pos einval), phys)))
  gpu_virt_to_phys-vtp virt phys some_address fits =
      elim (virt_to_phys-hostmem_dma_v2p m virt phys some_address fits) [
        | inl (address, from, below, checked, asserted, unchecked) ↦ inl (
          address,
          from,
          below,
          virt_to_phys-as_host heap virt phys ∙ checked,
          vtp-hostmem_dma_v2p virt from below ∙ unchecked,
        )
        | inr (outside, refused) ↦ inr (outside, virt_to_phys-as_host heap virt phys ∙ refused)
      ]
