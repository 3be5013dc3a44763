-- ===== src/Gpu/Tests.antt =====
-- A heap in GPU memory and a registry, to evaluate the functions on.
use upcie.Prelude.{
  pos, ℕ, zero, suc, ◌+◌, ◌*◌, ◌%◌, ◌^◌, ◌≤◌, ◌<◌, ◌≡◌, ◌⊎◌, refl, arith, Bool, true, false, List,
  [], ◌∷◌, some, none, get_elem?, done,
}
use upcie.Prelude.Bits.{sub64}
use upcie.Hostmem.Types.{Alloced, HeapBlock}
use upcie.Hostmem.Dma.Translate.{IsMapped}
use upcie.Hostmem.Heap.Tiles.{Tiles, last, more, allocated}
use upcie.Nvme.Command.{zero_command}
use upcie.Nvme.Request.{NvmeRequest}
use upcie.Nvme.Prps.{Prepared}
use upcie.Nvme.Prps.Device.{device_address}
use upcie.Gpu.Types.{CudamemConfig, CudamemHeap}
use upcie.Gpu.Heap.{alloc_array_aligned, alloc_list, alloc_loop, rounds, place, block_free, vtp}
use upcie.Gpu.Heap.Init.{HeapRuntime, SetUp, heap_init, heap_init-SetUp}
use upcie.Gpu.Heap.Place.{Good}
use upcie.Gpu.Heap.Array.{args_of, Refused, alloc_array_aligned-Good}
use upcie.Gpu.Heap.Free.{Released, gpu_block_free-Released}
use upcie.Gpu.Heap.RoundTrip.{block_free-alloc_array_aligned}
use upcie.Gpu.Translate.{as_host}
use upcie.Gpu.Requests.Contig.{
  prep_command_prps_contig_cuda, device_address-prep_command_prps_contig_cuda,
}

abbrev config : CudamemConfig
config = record {
  pagesize = 4096;
  pagesize_shift = 12;
  device_pagesize = 65536;
  device_pagesize_shift = 16;
  device_memsize = 8589934592;
  bar1_size = 8589934592;
  alloc_granularity = 2097152;
  alloc_granularity_shift = 21;
}

-- An allocated block of a page, and the free rest of two device pages.
abbrev used : HeapBlock
used = record { addr = 4294967296; size = 4096; free = false }

abbrev rest : HeapBlock
rest = record { addr = 4294971392; size = 126976; free = true }

abbrev heap : CudamemHeap
heap = record {
  vaddr = 4294967296;
  freelist = used ∷ rest ∷ [];
  config = config;
  size = 131072;
  nphys = 2;
  phys_lut = 1073741824 ∷ 1342177280 ∷ [];
}

tiled : Tiles 0 4295098368 used (rest ∷ [])
tiled = more used rest [] refl (omega arith) (last rest refl)

abbrev always : ℕ → Bool
always calls = true

-- Three pages from the start of the free block on.
allocated_page :
    alloc_array_aligned heap always 3 4096 4096
    ≡ done (record {
      ptr = some 4294971392;
      errno = none;
      list =
          used
          ∷ record { addr = 4294971392; size = 12288; free = false }
          ∷ record { addr = 4294983680; size = 114688; free = true }
          ∷ [];
    })
unfolding alloc_array_aligned alloc_list alloc_loop rounds place
allocated_page = refl

alloc_array_aligned-Good_example :
    (r : Alloced) × (alloc_array_aligned heap always 3 4096 (2 ^ 12) ≡ done r)
    × ((Refused 65536 3 4096 × (r.ptr ≡ none) × (r.list ≡ heap.freelist))
        ⊎ (Good (args_of heap always 3 4096 (2 ^ 12)) 4295098368 used (rest ∷ []) r
            × ((p i : ℕ)
                → r.ptr ≡ some p
                → i < 3
                → (sub64 p 4294967296 + i * 4096) % 65536 + 4096 ≤ 65536)))
alloc_array_aligned-Good_example =
    alloc_array_aligned-Good heap always 3 4096 12 (omega arith) (omega arith) (omega arith)
      (omega arith) (omega arith) 4295098368 used (rest ∷ []) (omega arith) refl tiled

gpu_block_free-Released_example :
    Released heap 4295098368 4294967296 4294967296 (block_free heap 4294967296)
gpu_block_free-Released_example =
    gpu_block_free-Released heap 4295098368 4294967296 used (rest ∷ []) (omega arith) (λ e. cc) refl
      tiled

block_free-alloc_array_aligned_example :
    (first : HeapBlock) × (after : List HeapBlock) × ((block_free
        (record heap {
          freelist =
              used
              ∷ record { addr = 4294971392; size = 12288; free = false }
              ∷ record { addr = 4294983680; size = 114688; free = true }
              ∷ [];
        })
        4294971392).freelist
      ≡ first ∷ after)
    × (first.addr ≡ 4294967296)
    × Tiles 0 4295098368 first after
    × (allocated (first ∷ after) ≡ allocated (used ∷ rest ∷ []))
block_free-alloc_array_aligned_example =
    block_free-alloc_array_aligned heap always 3 4096 12 4295098368 4294971392 used (rest ∷ [])
      (record {
        ptr = some 4294971392;
        errno = none;
        list =
            used
            ∷ record { addr = 4294971392; size = 12288; free = false }
            ∷ record { addr = 4294983680; size = 114688; free = true }
            ∷ [];
      })
      (omega arith) (omega arith) (omega arith) (omega arith) (omega arith) (omega arith) refl tiled
      allocated_page refl (λ e. cc)

heap-IsMapped : IsMapped (as_host heap)
heap-IsMapped = record {
  page_shift = refl;
  huge_shift = refl;
  shifts = omega arith;
  int_shift = omega arith;
  entries = refl;
  covered = refl;
  aligned = refl;
  below = omega arith;
  phys = entry;
}
  where
    entry :
        (k : ℕ) {base : ℕ}
        → get_elem? (1073741824 ∷ 1342177280 ∷ []) k ≡ some base
        → (base % 65536 ≡ 0) × (base + 65536 ≤ 18446744073709551616)
    entry zero e = ground (arith, e)
    entry (suc zero) e = ground (arith, e)
    entry (suc (suc k)) e = ground (arith, e)

abbrev request : NvmeRequest
request = record { cid = 0; user = 0; prp_addr = 20480; prp = 0 }

-- A transfer across the end of the first device page.
device_address-prep_command_prps_contig_cuda_example :
    (prepared : Prepared) × (address : ℕ) × (prep_command_prps_contig_cuda request heap
        (4294967296 + 57444)
        12288
        zero_command
      ≡ done prepared)
    × (device_address 4096 request.prp_addr prepared 12288 9000 ≡ some address)
    × (vtp heap (4294967296 + 57444 + 9000) ≡ done address)
device_address-prep_command_prps_contig_cuda_example =
    device_address-prep_command_prps_contig_cuda request heap 57444 12288 9000 zero_command
      heap-IsMapped (omega arith) (omega arith) (omega arith)

-- A driver that gives memory at 4 GiB and a dma-buf of one run.
abbrev runtime : HeapRuntime
runtime = record {
  mem_alloc = λ size. (pos 0, 4294967296);
  handle = λ vaddr size. (pos 0, 7);
  attach =
      λ fd. (pos 0, record { fd = fd; pages = record { addr = 1073741824; len = 131072 } ∷ [] });
  malloc_freelist = true;
  calloc_lut = true;
}

heap_init-SetUp_example : SetUp runtime 131072 config (heap_init runtime 131072 config)
heap_init-SetUp_example = heap_init-SetUp runtime 131072 config (omega arith)
