-- ===== src/Gpu/Requests/Contig.antt =====
-- The contiguous builder on the heap in GPU memory. It is the loop of nvme_request.h over another
-- translation, with device pages for hugepages.
use upcie.Prelude.{ℕ, ◌+◌, ◌%◌, ◌≤◌, ◌<◌, ◌≡◌, arith, Outcome, done, some, ◌∙◌}
use upcie.Hostmem.Dma.Translate.{IsMapped}
use upcie.Nvme.Command.{NvmeCommand}
use upcie.Nvme.Request.{NvmeRequest}
use upcie.Nvme.Prps.{DmaWindow, Prepared, prep_contig}
use upcie.Nvme.Prps.Window.{IsLawful}
use upcie.Nvme.Prps.Device.{pages_of, device_address}
use upcie.Nvme.Prps.Found.{device_address-prep_contig}
use upcie.Nvme.Prps.Host.{host_window-IsLawful}
use upcie.Gpu.Types.{CudamemHeap}
use upcie.Gpu.Heap.{vtp}
use upcie.Gpu.Translate.{as_host, vtp-hostmem_dma_v2p}

unfoldable pub prp_retranslate_cuda : CudamemHeap → ℕ → Outcome ℕ
prp_retranslate_cuda heap virt = vtp heap virt

-- The heap as the builder uses it.
abbrev pub gpu_window : CudamemHeap → DmaWindow
gpu_window heap = record {
  virt = heap.vaddr;
  span = heap.config.device_pagesize;
  pagesize = heap.config.pagesize;
  pagesize_shift = heap.config.pagesize_shift;
  translate = prp_retranslate_cuda heap;
}

unfoldable pub prep_command_prps_contig_cuda :
    NvmeRequest → CudamemHeap → ℕ → ℕ → NvmeCommand → Outcome Prepared
prep_command_prps_contig_cuda request heap dbuf dbuf_nbytes cmd =
    prep_contig (gpu_window heap) request.prp_addr dbuf dbuf_nbytes cmd

gpu_window-IsLawful :
    (heap : CudamemHeap) → IsMapped (as_host heap) → IsLawful (gpu_window heap) heap.size
unfolding prp_retranslate_cuda
gpu_window-IsLawful heap m =
    let l = host_window-IsLawful m in
    record {
      phys = l.phys;
      extra_shift = l.extra_shift;
      page_shift = l.page_shift;
      span_pages = l.span_pages;
      span_power = l.span_power;
      span_max = l.span_max;
      aligned = l.aligned;
      below = l.below;
      translates = λ offset h.
          vtp-hostmem_dma_v2p heap m (heap.vaddr + offset) (omega arith) (omega (arith, h))
          ∙ l.translates offset h;
      runs_on = l.runs_on;
      phys-lt = l.phys-lt;
      phys_aligned = l.phys_aligned;
    }

-- For a buffer inside a heap in GPU memory, whose device pages each have an entry in its table, that
-- spans at most 513 pages, the builder returns fields from which the controller computes, for every
-- byte of the buffer, the address that `cudamem_heap_block_vtp` gives of that byte.
pub device_address-prep_command_prps_contig_cuda :
    (request : NvmeRequest) (heap : CudamemHeap) (offset nbytes j : ℕ) (cmd : NvmeCommand)
    → IsMapped (as_host heap)
    → offset + nbytes ≤ heap.size
    → pages_of heap.config.pagesize (offset % heap.config.pagesize) nbytes ≤ 513
    → j < nbytes
    → (prepared : Prepared) × (address : ℕ) × (prep_command_prps_contig_cuda request heap
          (heap.vaddr + offset)
          nbytes
          cmd
        ≡ done prepared)
      × (device_address heap.config.pagesize request.prp_addr prepared nbytes j ≡ some address)
      × (vtp heap (heap.vaddr + offset + j) ≡ done address)
unfolding prep_command_prps_contig_cuda prp_retranslate_cuda
device_address-prep_command_prps_contig_cuda request heap offset nbytes j cmd m fits short h =
    device_address-prep_contig (gpu_window-IsLawful heap m) request.prp_addr offset nbytes cmd
      (omega arith) fits j h short
