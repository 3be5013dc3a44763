-- ===== src/Hostmem/Heap/Init.antt =====
-- include/upcie/hostmem_heap.h: setting up the heap and tearing it down.
use upcie.Prelude.{
  ℕ, zero, suc, ◌+◌, ◌*◌, ◌/◌, if◌then◌else◌, neb, Bool, true, List, [], ◌∷◌, ℤ, pos, neg, enomem,
  is_zero, Outcome, done, fault, ◌>>=◌, read, get_elem?,
}
use upcie.Prelude.Bits.{u64}
use upcie.Os.{Os}
use upcie.Hostmem.Types.{HostmemConfig, HostmemHeap}
use upcie.Hostmem.Pagemap.{pagemap_virt_to_phys}
use upcie.Hostmem.Hugepage.{Allocation, hugepage_alloc, hugepage_free, zero_hugepage}

-- What the set-up leaves.
pub record HeapSetUp (S : Type 0) : Type 0 where
  pub err : ℤ
  pub heap : HostmemHeap
  pub sys : S

-- The loop over the table, with `left` entries to go: the first error or 0, and the entries.
pub record Lut (S : Type 0) : Type 0 where
  pub err : ℤ
  pub entries : List ℕ
  pub sys : S

-- `memset` of the struct to 0, with the configuration.
abbrev pub zero_heap : HostmemConfig → HostmemHeap
zero_heap config = record {
  memory = zero_hugepage;
  freelist = [];
  config = config;
  nphys = 0;
  phys_lut = [];
}

module _ {S : Type 0} (os : Os S) where
  unfoldable pub fill_lut : ℕ → ℕ → ℕ → ℕ → S → Lut S
  fill_lut virt hugepgsz zero i s = record { err = pos 0; entries = []; sys = s }
  fill_lut virt hugepgsz (suc left) i s =
      let found = pagemap_virt_to_phys os (u64 (virt + i * hugepgsz)) 0 s in
      let rest = fill_lut virt hugepgsz left (i + 1) found.2 in
      if is_zero found.0
      then record rest { entries = found.1 ∷ rest.entries }
      else record { err = found.0; entries = []; sys = found.2 }

  -- The memory of the table is freed, too.
  unfoldable pub heap_term : HostmemHeap → S → HostmemHeap × S
  heap_term heap s =
      let (memory, s) = hugepage_free os heap.memory heap.config s in
      (record heap { memory = memory }, s)

  abbrev pub undone : ℤ → HostmemHeap → S → HeapSetUp S
  undone err heap s = record { err = err; heap = (heap_term heap s).0; sys = (heap_term heap s).1 }

  -- What follows the loop.
  unfoldable pub with_lut : HostmemHeap → Lut S → Outcome (HeapSetUp S)
  with_lut heap lut =
      if is_zero lut.err
      then (do
        first ← read (get_elem? lut.entries 0)
        let heap : HostmemHeap = record heap { phys_lut = lut.entries }
        if neb heap.memory.phys first
            then done (undone (neg (pos enomem)) heap lut.sys)
            else done (record { err = pos 0; heap = heap; sys = lut.sys }))
      else done (undone lut.err heap lut.sys)

  -- The table of a heap with one free block. Its memory is not checked for NULL.
  unfoldable pub with_table : Bool → HostmemHeap → S → Outcome (HeapSetUp S)
  unfolding with_lut
  with_table calloc heap s =
      if calloc
      then with_lut heap (fill_lut heap.memory.virt heap.config.hugepgsz heap.nphys 0 s)
      else fault

  -- What follows the allocation.
  unfoldable pub with_memory : Bool → ℕ → HostmemHeap → Allocation S → Outcome (HeapSetUp S)
  unfolding with_table
  with_memory calloc size heap a =
      if is_zero a.err
      then with_table calloc
          (record heap {
            memory = a.hugepage;
            config = a.config;
            freelist = record { addr = a.hugepage.virt; size = size; free = true } ∷ [];
            nphys = size / a.config.hugepgsz;
          })
          a.sys
      else done (record {
        err = a.err;
        heap = record heap { memory = a.hugepage; config = a.config };
        sys = a.sys;
      })

  unfoldable pub heap_init : Bool → ℕ → HostmemConfig → S → Outcome (HeapSetUp S)
  unfolding with_memory
  heap_init calloc size config s = do
    a ← hugepage_alloc os size zero_hugepage config s
    with_memory calloc size (zero_heap config) a
