-- ===== src/Gpu/Dma.antt =====
-- include/upcie/cudamem_dma.h: the interface of the heap in GPU memory.
use upcie.Prelude.{ℕ, ◌==◌, ◌||◌, if◌then◌else◌, Bool, einval, Outcome, done}
use upcie.Gpu.Types.{CudamemHeap}
use upcie.Hostmem.Types.{Alloced}
use upcie.Gpu.Heap.{refused, block_free, alloc_array, alloc_aligned, alloc, vtp}

unfoldable pub dma_free : CudamemHeap → ℕ → CudamemHeap
dma_free heap ptr = block_free heap ptr

unfoldable pub dma_malloc : CudamemHeap → (ℕ → Bool) → ℕ → Outcome Alloced
dma_malloc heap malloc size =
    if size == 0 then done (refused heap einval) else alloc heap malloc size

unfoldable pub dma_malloc_aligned : CudamemHeap → (ℕ → Bool) → ℕ → ℕ → Outcome Alloced
dma_malloc_aligned heap malloc size alignment = alloc_aligned heap malloc size alignment

unfoldable pub dma_alloc_array : CudamemHeap → (ℕ → Bool) → ℕ → ℕ → Outcome Alloced
dma_alloc_array heap malloc elem_count elem_size =
    if elem_size == 0 || elem_count == 0
    then done (refused heap einval)
    else alloc_array heap malloc elem_count elem_size

unfoldable pub dma_v2p : CudamemHeap → ℕ → Outcome ℕ
dma_v2p heap virt = vtp heap virt
