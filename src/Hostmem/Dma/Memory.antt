-- ===== src/Hostmem/Dma/Memory.antt =====
-- include/upcie/hostmem_dma.h: allocation and release of DMA-capable memory.
use upcie.Prelude.{ℕ, ◌==◌, ◌||◌, if◌then◌else◌, einval, Outcome, done}
use upcie.Hostmem.Types.{HostmemHeap, Alloced}
use upcie.Hostmem.Heap.{block_free}
use upcie.Hostmem.Heap.Alloc.{refused, alloc, alloc_aligned, alloc_array}

unfoldable pub hostmem_dma_free : HostmemHeap → ℕ → Outcome HostmemHeap
hostmem_dma_free heap ptr = block_free heap ptr

unfoldable pub hostmem_dma_malloc : HostmemHeap → ℕ → Outcome Alloced
hostmem_dma_malloc heap size = if size == 0 then done (refused heap einval) else alloc heap size

unfoldable pub hostmem_dma_malloc_aligned : HostmemHeap → ℕ → ℕ → Outcome Alloced
hostmem_dma_malloc_aligned heap size alignment = alloc_aligned heap size alignment

unfoldable pub hostmem_dma_alloc_array : HostmemHeap → ℕ → ℕ → Outcome Alloced
hostmem_dma_alloc_array heap elem_count elem_size =
    if elem_size == 0 || elem_count == 0
    then done (refused heap einval)
    else alloc_array heap elem_count elem_size
