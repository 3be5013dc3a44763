-- ===== src/Gpu/Hip.antt =====
-- include/upcie/hipmem_config.h, hipmem_heap.h, hipmem_dma.h, hipmem_mapping.h and
-- nvme/nvme_request_hip.h: the functions for HIP, which have the text of those for CUDA but for names.
-- Where they call the runtime, it is a parameter of both.
use upcie.Hostmem.Types.{Alloced}
use upcie.Prelude.{ℕ, ◌*◌, Bool, List, Option, ℤ, Outcome}
use upcie.Nvme.Command.{NvmeCommand}
use upcie.Nvme.Request.{NvmeRequest}
use upcie.Nvme.Prps.{Prepared}
use upcie.Nvme.Prps.Iov.{Iovec}
use upcie.Gpu.Types.{CudamemConfig, CudamemHeapBlock, CudamemHeap}
use upcie.Gpu.Heap
use upcie.Gpu.Heap.Init
use upcie.Prelude.Rounding.{round_up}
use upcie.Gpu.Dma
use upcie.Gpu.Mapping
use upcie.Gpu.Mapping.{Registry, Registration}
use upcie.Gpu.Populate.{chunk_populate, Populated, Runtime}
use upcie.Gpu.Requests.Contig.{prp_retranslate_cuda, prep_command_prps_contig_cuda}
use upcie.Gpu.Requests.Iov.{prep_command_prps_iov_cuda}
use upcie.Gpu.Requests.Mapped.{prep_contig_mapped, prep_iov_mapped}

abbrev pub HipmemConfig : Type 0
HipmemConfig = CudamemConfig

abbrev pub HipmemHeapBlock : Type 0
HipmemHeapBlock = CudamemHeapBlock

abbrev pub HipmemHeap : Type 0
HipmemHeap = CudamemHeap

-- The size is rounded up to 2 MiB first.
unfoldable pub hipmem_heap_init :
    Init.HeapRuntime → ℕ → HipmemConfig → Outcome (ℤ × Option HipmemHeap)
hipmem_heap_init runtime size config =
    Init.heap_init runtime (round_up size (2 * 1024 * 1024)) config

abbrev pub hipmem_heap_block_free : HipmemHeap → ℕ → HipmemHeap
hipmem_heap_block_free = Heap.block_free

abbrev pub hipmem_heap_block_alloc_array_aligned :
    HipmemHeap → (ℕ → Bool) → ℕ → ℕ → ℕ → Outcome Alloced
hipmem_heap_block_alloc_array_aligned = Heap.alloc_array_aligned

abbrev pub hipmem_heap_block_alloc_array : HipmemHeap → (ℕ → Bool) → ℕ → ℕ → Outcome Alloced
hipmem_heap_block_alloc_array = Heap.alloc_array

abbrev pub hipmem_heap_block_alloc_aligned : HipmemHeap → (ℕ → Bool) → ℕ → ℕ → Outcome Alloced
hipmem_heap_block_alloc_aligned = Heap.alloc_aligned

abbrev pub hipmem_heap_block_alloc : HipmemHeap → (ℕ → Bool) → ℕ → Outcome Alloced
hipmem_heap_block_alloc = Heap.alloc

abbrev pub hipmem_heap_contains : HipmemHeap → ℕ → Bool
hipmem_heap_contains = Heap.heap_contains

abbrev pub hipmem_heap_block_virt_to_phys : HipmemHeap → ℕ → ℕ → Outcome (ℤ × ℕ)
hipmem_heap_block_virt_to_phys = Heap.virt_to_phys

abbrev pub hipmem_heap_block_vtp : HipmemHeap → ℕ → Outcome ℕ
hipmem_heap_block_vtp = Heap.vtp

abbrev pub hipmem_dma_free : HipmemHeap → ℕ → HipmemHeap
hipmem_dma_free = Dma.dma_free

abbrev pub hipmem_dma_malloc : HipmemHeap → (ℕ → Bool) → ℕ → Outcome Alloced
hipmem_dma_malloc = Dma.dma_malloc

abbrev pub hipmem_dma_malloc_aligned : HipmemHeap → (ℕ → Bool) → ℕ → ℕ → Outcome Alloced
hipmem_dma_malloc_aligned = Dma.dma_malloc_aligned

abbrev pub hipmem_dma_alloc_array : HipmemHeap → (ℕ → Bool) → ℕ → ℕ → Outcome Alloced
hipmem_dma_alloc_array = Dma.dma_alloc_array

abbrev pub hipmem_dma_v2p : HipmemHeap → ℕ → Outcome ℕ
hipmem_dma_v2p = Dma.dma_v2p

abbrev pub hipmem_mapping_registry_init : HipmemConfig → Bool → Bool → ℤ × Option Registry
hipmem_mapping_registry_init = Mapping.registry_init

abbrev pub hipmem_mapping_chunk_deref : Registry → ℕ → ℕ → Outcome Registry
hipmem_mapping_chunk_deref = Mapping.chunk_deref

abbrev pub hipmem_mapping_clear : Registry → Outcome Registry
hipmem_mapping_clear = Mapping.clear

abbrev pub hipmem_mapping_registry_term : Registry → Outcome Registry
hipmem_mapping_registry_term = Mapping.registry_term

abbrev pub hipmem_mapping_chunk_populate : Runtime → HipmemConfig → ℕ → Outcome Populated
hipmem_mapping_chunk_populate = chunk_populate

abbrev pub hipmem_mapping_add :
    (ℕ → ℕ → Outcome Populated) → Bool → Registry → ℕ → ℕ → Outcome (ℤ × Registry)
hipmem_mapping_add = Mapping.add

abbrev pub hipmem_mapping_remove : Registry → ℕ → Outcome (ℤ × Registry)
hipmem_mapping_remove = Mapping.remove

abbrev pub hipmem_mapping_virt_to_phys : Registry → ℕ → ℕ → ℤ × ℕ
hipmem_mapping_virt_to_phys = Mapping.virt_to_phys

abbrev pub prp_retranslate_hip : HipmemHeap → ℕ → Outcome ℕ
prp_retranslate_hip = prp_retranslate_cuda

abbrev pub prep_command_prps_contig_hip :
    NvmeRequest → HipmemHeap → ℕ → ℕ → NvmeCommand → Outcome Prepared
prep_command_prps_contig_hip = prep_command_prps_contig_cuda

abbrev pub prep_command_prps_iov_hip :
    NvmeRequest → HipmemHeap → List Iovec → NvmeCommand → Outcome Prepared
prep_command_prps_iov_hip = prep_command_prps_iov_cuda

abbrev pub prep_command_prps_contig_hip_mapped :
    ℕ → Registry → HipmemConfig → ℕ → ℕ → NvmeCommand → ℤ × Prepared
prep_command_prps_contig_hip_mapped = prep_contig_mapped

abbrev pub prep_command_prps_iov_hip_mapped :
    ℕ → Registry → HipmemConfig → List Iovec → NvmeCommand → Outcome (ℤ × Prepared)
prep_command_prps_iov_hip_mapped = prep_iov_mapped
