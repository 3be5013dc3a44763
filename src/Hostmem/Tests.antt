-- ===== src/Hostmem/Tests.antt =====
-- Heaps and hugepages at the sample system.
use upcie.Prelude.{◌+◌, ◌<◌, ◌≢◌, ◌⊎◌, none, ◌≡◌, ◌%◌, ◌*◌, refl, arith, inr, pos, true, done}
use upcie.Os.Sample.{Sys, sample_os, sample_view, sample_os-IsOs, idle}
use upcie.Hostmem.Types.{HostmemConfig, Alloced}
use upcie.Hostmem.Sample.{config, large, large-IsHeap}
use upcie.Hostmem.Heap.Alloc.{alloc_array}
use upcie.Hostmem.Heap.Allocate.{NoneFit}
use upcie.Hostmem.Heap.RoundTrip.{IsHeap, Grown, with_list, alloc_array-Outcomes}
use upcie.Hostmem.Hugepage.{Allocation, zero_hugepage, hugepage_alloc}
use upcie.Hostmem.Hugepage.Held.{Allocated, hugepage_alloc-Allocated}
use upcie.Hostmem.Heap.Init.{HeapSetUp, heap_init}
use upcie.Hostmem.Heap.SetUp.{SetUp, heap_init-Held}

alloc_array-Outcomes_example :
    (r : Alloced) × (alloc_array large 3 4096 ≡ done r)
    × IsHeap (with_list large r.list)
    × Grown large (3 * 4096) r
    × ((r.ptr ≢ none)
        ⊎ (((2097152 < 4096) ⊎ ((2097152 < 3 * 4096) × (2097152 % 4096 ≢ 0)))
            ⊎ NoneFit (3 * 4096 + 4096) r.list))
alloc_array-Outcomes_example =
    alloc_array-Outcomes large-IsHeap 3 4096 (omega arith) (omega arith) (omega arith)

-- Files below hugetlbfs.
abbrev below_hugetlbfs : HostmemConfig
below_hugetlbfs = record config { backend = 2 }

hugepage_alloc-Allocated_example :
    (r : Allocation Sys) × (hugepage_alloc sample_os 4194304 zero_hugepage below_hugetlbfs idle
      ≡ done r)
    × Allocated sample_os sample_view 4194304 below_hugetlbfs idle r
    × ((r.err ≢ pos 0) ⊎ (4194304 % 2097152 ≡ 0))
hugepage_alloc-Allocated_example =
    hugepage_alloc-Allocated sample_os-IsOs 4194304 zero_hugepage below_hugetlbfs idle (omega arith)
      (omega arith) (inr refl)

heap_init-Held_example :
    (r : HeapSetUp Sys) × (heap_init sample_os true 4194304 below_hugetlbfs idle ≡ done r)
    × SetUp sample_os sample_view 4194304 below_hugetlbfs idle r
heap_init-Held_example =
    heap_init-Held sample_os-IsOs 4194304 below_hugetlbfs idle (omega arith) (omega arith)
      (inr refl) (omega arith) (omega arith)
