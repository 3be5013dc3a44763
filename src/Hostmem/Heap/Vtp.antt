-- ===== src/Hostmem/Heap/Vtp.antt =====
-- The translations that check the address, against the one that does not.
use mathlib.Core.Option
use upcie.Prelude.{
  ℕ, ◌+◌, ◌-◌, ◌/◌, ◌^◌, ◌≤◌, ◌<◌, ◌≡◌, ◌⊎◌, arith, ap, pos, neg, einval, done, some, get_elem?,
  inl, inr, dec_lt, ◌==◌, ◌||◌, ltb, leb, true, false,
}
use upcie.Prelude.Bits.{sub64, u64}
use upcie.Hostmem.Types.{HostmemHeap}
use upcie.Hostmem.Dma.{hostmem_dma_v2p}
use upcie.Hostmem.Dma.Translate.{
  IsMapped, phys_at, hostmem_dma_v2p-phys_at, hugepgsz-pos, hpage_idx-lt, entry_at, in_hpage-lt,
}
use upcie.Hostmem.Heap.{virt_to_phys, vtp}

module _ {heap : HostmemHeap} (m : IsMapped heap) (virt phys : ℕ) where
  -- An address outside of the heap.
  outside :
      (virt < heap.memory.virt) ⊎ (heap.memory.virt + heap.memory.size ≤ virt)
      → virt_to_phys heap virt phys ≡ done (neg (pos einval), phys)
  unfolding virt_to_phys
  outside which =
      let top : u64 (heap.memory.virt + heap.memory.size) ≡ heap.memory.virt + heap.memory.size =
        omega (arith, m.below) in
      rw top (elim which [ inl below ↦ ground arith | inr above ↦ ground arith ])

  module _ (some_address : 1 ≤ heap.memory.virt) (h : heap.memory.virt ≤ virt)
      (l : virt < heap.memory.virt + heap.memory.size) where
    abbrev offset : ℕ
    offset = virt - heap.memory.virt

    offset_eq : sub64 virt heap.memory.virt ≡ offset
    offset_eq = omega (arith, m.below)

    offset-lt : offset < heap.memory.size
    offset-lt = omega arith

    entry :
        get_elem? heap.phys_lut (offset / heap.config.hugepgsz)
        ≡ some (Option.get_or (get_elem? heap.phys_lut (offset / heap.config.hugepgsz)) 0)
    entry = entry_at m (offset / heap.config.hugepgsz) (hpage_idx-lt m offset offset-lt)

    no_wrap : u64 (phys_at heap offset) ≡ phys_at heap offset
    no_wrap =
        let sized = m.phys (offset / heap.config.hugepgsz) entry in
        omega (arith, sized.1, in_hpage-lt m offset)

    nonzero : (heap.config.hugepgsz == 0) ≡ false
    nonzero = ground (arith, hugepgsz-pos m)

    in_table : ltb (offset / heap.config.hugepgsz) heap.nphys ≡ true
    in_table = ground (arith, hpage_idx-lt m offset offset-lt)

    not_past : leb heap.nphys (offset / heap.config.hugepgsz) ≡ false
    not_past = ground (arith, hpage_idx-lt m offset offset-lt)

    accepted :
        (virt == 0
          || (ltb virt heap.memory.virt || leb (u64 (heap.memory.virt + heap.memory.size)) virt))
        ≡ false
    accepted =
        let top : u64 (heap.memory.virt + heap.memory.size) ≡ heap.memory.virt + heap.memory.size =
          omega (arith, m.below) in
        rw top (ground arith)

    checked : virt_to_phys heap virt phys ≡ done (pos 0, phys_at heap offset)
    unfolding virt_to_phys
    checked =
        rw (accepted, nonzero, offset_eq, not_past, entry) (ap (λ (a : ℕ). done (pos 0, a)) no_wrap)

    asserted : vtp heap virt ≡ done (phys_at heap offset)
    unfolding vtp
    asserted = rw (nonzero, offset_eq, in_table, entry) (ap done no_wrap)

    unchecked : hostmem_dma_v2p heap virt ≡ done (phys_at heap offset)
    unchecked =
        let at : heap.memory.virt + offset ≡ virt = omega arith in
        rw at at (hostmem_dma_v2p-phys_at m offset offset-lt)

  -- At every address of a mapped heap that does not start at address 0 the three translations agree;
  -- outside of the heap `hostmem_heap_block_virt_to_phys` returns -EINVAL and leaves what it was
  -- given.
  pub virt_to_phys-hostmem_dma_v2p :
      1 ≤ heap.memory.virt
      → virt < 2 ^ 64
      → ((address : ℕ) × (heap.memory.virt ≤ virt)
          × (virt < heap.memory.virt + heap.memory.size)
          × (virt_to_phys heap virt phys ≡ done (pos 0, address))
          × (vtp heap virt ≡ done address)
          × (hostmem_dma_v2p heap virt ≡ done address))
        ⊎ (((virt < heap.memory.virt) ⊎ (heap.memory.virt + heap.memory.size ≤ virt))
            × (virt_to_phys heap virt phys ≡ done (neg (pos einval), phys)))
  virt_to_phys-hostmem_dma_v2p some_address fits = elim (dec_lt virt heap.memory.virt) [
    | yes below ↦ inr (inl below, outside (inl below))
    | no h ↦ elim (dec_lt virt (heap.memory.virt + heap.memory.size)) [
      | yes l ↦
          let from : heap.memory.virt ≤ virt = omega arith in
          inl (
            phys_at heap (virt - heap.memory.virt),
            from,
            l,
            checked some_address from l,
            asserted some_address from l,
            unchecked some_address from l,
          )
      | no above ↦
          let past : heap.memory.virt + heap.memory.size ≤ virt = omega arith in
          inr (inr past, outside (inr past))
    ]
  ]
