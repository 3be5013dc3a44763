-- ===== src/Gpu/Types.antt =====
-- The structs of cudamem_config.h and cudamem_heap.h. A block of the heap is described outside of the
-- memory, by an address, which is the field `addr` here and `vaddr` in C, a size, and a flag.
use upcie.Prelude.{ℕ, List}
use upcie.Hostmem.Types.{HeapBlock}

-- `struct cudamem_config`.
pub record CudamemConfig : Type 0 where
  pub pagesize : ℕ
  pub pagesize_shift : ℕ
  pub device_pagesize : ℕ
  pub device_pagesize_shift : ℕ
  pub device_memsize : ℕ
  pub bar1_size : ℕ
  pub alloc_granularity : ℕ
  pub alloc_granularity_shift : ℕ

-- `struct cudamem_heap_block`, without the link: a list is a list.
abbrev pub CudamemHeapBlock : Type 0
CudamemHeapBlock = HeapBlock

-- `struct cudamem_heap`, without the handle of its dma-buf.
pub record CudamemHeap : Type 0 where
  pub vaddr : ℕ
  pub freelist : List CudamemHeapBlock
  pub config : CudamemConfig
  pub size : ℕ
  pub nphys : ℕ
  pub phys_lut : List ℕ
