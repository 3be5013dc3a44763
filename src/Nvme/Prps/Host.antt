-- ===== src/Nvme/Prps/Host.antt =====
-- The PRP builders on the hugepage heap, as nvme_request.h has them.
use mathlib.Core.Option
use native.Mathlib.Nat.{zero-mod}
use upcie.Prelude.{
  ℕ, ◌+◌, ◌-◌, ◌*◌, ◌/◌, ◌%◌, ◌^◌, ◌≤◌, ◌<◌, ◌≡◌, ap, arith, Outcome, done, some, get_elem?, sym,
  ◌∙◌,
}
use upcie.Prelude.Bits.{pow-add}
use upcie.Prelude.Blocks.{add-div_inside, add-mod_inside, mod-mul-mod, add-mod_multiple}
use upcie.Hostmem.Types.{HostmemHeap}
use upcie.Hostmem.Dma.{hostmem_dma_v2p}
use upcie.Hostmem.Dma.Translate.{
  IsMapped, phys_at, hostmem_dma_v2p-phys_at, hugepgsz-pos, in_hpage-lt, hpage_idx-lt, entry_at,
}
use upcie.Nvme.Command.{NvmeCommand}
use upcie.Nvme.Request.{NvmeRequest}
use upcie.Nvme.Prps.{DmaWindow, Prepared, prep_contig}
use upcie.Nvme.Prps.Window.{IsLawful}
use upcie.Nvme.Prps.Device.{pages_of, device_address}
use upcie.Nvme.Prps.Found.{device_address-prep_contig}

-- The heap as the builders use it.
abbrev pub host_window : HostmemHeap → DmaWindow
host_window heap = record {
  virt = heap.memory.virt;
  span = heap.config.hugepgsz;
  pagesize = heap.config.pagesize;
  pagesize_shift = heap.config.pagesize_shift;
  translate = hostmem_dma_v2p heap;
}

unfoldable pub prep_command_prps_contig :
    NvmeRequest → HostmemHeap → ℕ → ℕ → NvmeCommand → Outcome Prepared
prep_command_prps_contig request heap dbuf dbuf_nbytes cmd =
    prep_contig (host_window heap) request.prp_addr dbuf dbuf_nbytes cmd

module _ {heap : HostmemHeap} (m : IsMapped heap) where
  abbrev hugepgsz : ℕ
  hugepgsz = heap.config.hugepgsz

  abbrev pagesize : ℕ
  pagesize = heap.config.pagesize

  abbrev extra : ℕ
  extra = heap.config.hugepgsz_shift - heap.config.pagesize_shift

  shift_sum : heap.config.pagesize_shift + extra ≡ heap.config.hugepgsz_shift
  shift_sum = omega (arith, m.shifts)

  -- A hugepage in pages.
  huge_pages : hugepgsz ≡ pagesize * 2 ^ extra
  huge_pages =
      m.huge_shift
      ∙ ap (λ (k : ℕ). 2 ^ k) (sym shift_sum)
      ∙ pow-add heap.config.pagesize_shift extra
      ∙ ap (λ (t : ℕ). t * 2 ^ extra) (sym m.page_shift)

  phys_runs_on :
      (offset d : ℕ)
      → offset % hugepgsz + d < hugepgsz
      → phys_at heap (offset + d) ≡ phys_at heap offset + d
  phys_runs_on offset d h =
      rw
        (
          add-div_inside hugepgsz (hugepgsz-pos m) offset d h,
          add-mod_inside hugepgsz (hugepgsz-pos m) offset d h,
        )
        (omega arith)

  phys_at-lt : (offset : ℕ) → offset < heap.memory.size → phys_at heap offset < 2 ^ 64
  phys_at-lt offset h = omega (
    arith,
    (m.phys (offset / hugepgsz) (entry_at m (offset / hugepgsz) (hpage_idx-lt m offset h))).1,
    in_hpage-lt m offset,
  )

  mod_page : (n : ℕ) → n % hugepgsz % pagesize ≡ n % pagesize
  mod_page n = rw huge_pages (mod-mul-mod pagesize (2 ^ extra) n)

  phys_aligned :
      (offset : ℕ) → offset < heap.memory.size → phys_at heap offset % pagesize ≡ offset % pagesize
  phys_aligned offset h =
      let k : ℕ = offset / hugepgsz in
      let base : ℕ = Option.get_or (get_elem? heap.phys_lut k) 0 in
      let whole : base % (pagesize * 2 ^ extra) ≡ 0 =
        rw (← huge_pages) (m.phys k (entry_at m k (hpage_idx-lt m offset h))).0 in
      add-mod_multiple pagesize (2 ^ extra) base (offset % hugepgsz) whole ∙ mod_page offset

  pub host_window-IsLawful : IsLawful (host_window heap) heap.memory.size
  host_window-IsLawful = record {
    phys = phys_at heap;
    extra_shift = extra;
    page_shift = m.page_shift;
    span_pages = huge_pages;
    span_power = rw shift_sum m.huge_shift;
    span_max = omega (arith, shift_sum, m.int_shift);
    aligned =
        sym (mod_page heap.memory.virt)
        ∙ ap (λ (t : ℕ). t % pagesize) m.aligned
        ∙ zero-mod pagesize;
    below = m.below;
    translates = hostmem_dma_v2p-phys_at m;
    runs_on = λ offset d inside h. phys_runs_on offset d h;
    phys-lt = phys_at-lt;
    phys_aligned = phys_aligned;
  }

-- For a buffer inside a mapped heap that spans at most 513 pages, the builder returns fields from
-- which the controller computes, for every byte of the buffer, the address that
-- `hostmem_dma_v2p` gives of that byte.
pub device_address-prep_command_prps_contig :
    (request : NvmeRequest) (heap : HostmemHeap) (offset nbytes j : ℕ) (cmd : NvmeCommand)
    → IsMapped heap
    → offset + nbytes ≤ heap.memory.size
    → pages_of heap.config.pagesize (offset % heap.config.pagesize) nbytes ≤ 513
    → j < nbytes
    → (prepared : Prepared) × (address : ℕ) × (prep_command_prps_contig request heap
          (heap.memory.virt + offset)
          nbytes
          cmd
        ≡ done prepared)
      × (device_address heap.config.pagesize request.prp_addr prepared nbytes j ≡ some address)
      × (hostmem_dma_v2p heap (heap.memory.virt + offset + j) ≡ done address)
unfolding prep_command_prps_contig
device_address-prep_command_prps_contig request heap offset nbytes j cmd m fits short h =
    device_address-prep_contig (host_window-IsLawful m) request.prp_addr offset nbytes cmd
      (omega arith) fits j h short
