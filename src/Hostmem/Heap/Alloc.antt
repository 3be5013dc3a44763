-- ===== src/Hostmem/Heap/Alloc.antt =====
-- include/upcie/hostmem_heap.h: allocation. The description of a block stands `alignment` bytes below
-- the memory that the block gives.

use mathlib.Core.Option
use upcie.Prelude.{
  ℕ, zero, suc, ◌+◌, ◌*◌, ◌/◌, ◌%◌, ◌==◌, ◌&&◌, ◌||◌, ltb, leb, neb, if◌then◌else◌, Bool, true,
  false, List, [], ◌∷◌, Option, some, none, einval, enomem, Outcome, done, fault, ◌>>◌, assert,
}
use upcie.Prelude.Bits.{uint64_max, sub64, u64}
use upcie.Prelude.Rounding.{round_up}
use upcie.Hostmem.Types.{HeapBlock, HostmemHeap, Alloced}

-- `sizeof(struct hostmem_heap_block)`, on a 64-bit machine.
abbrev pub sizeof_block : ℕ
sizeof_block = 24

-- The values that the loop reads besides the list.
pub record HeapArgs : Type 0 where
  pub virt : ℕ
  pub hugepgsz : ℕ
  pub alignment : ℕ
  pub elem_size : ℕ
  pub total_size : ℕ

module _ (args : HeapArgs) where
  open args use {virt, hugepgsz, alignment, elem_size, total_size}

  abbrev pub hpage_remaining : HeapBlock → ℕ
  hpage_remaining block = sub64 hugepgsz (sub64 block.addr virt % hugepgsz)

  abbrev pub disalignment : HeapBlock → ℕ
  disalignment block = sub64 (hpage_remaining block) alignment % elem_size

  -- `block->free && block->size >= (total_size + alignment)`.
  abbrev pub fits : HeapBlock → Bool
  fits block = block.free && leb (u64 (total_size + alignment)) block.size

  -- Elements would lie across the end of a hugepage.
  abbrev pub straddles : HeapBlock → Bool
  straddles block =
      ltb (hpage_remaining block) (u64 (total_size + alignment)) && neb (disalignment block) 0

  -- The block that is made behind the first `used` bytes of a block.
  abbrev pub newblock : ℕ → HeapBlock → HeapBlock
  newblock used block = record {
    addr = u64 (u64 (block.addr + alignment) + used);
    size = sub64 (sub64 block.size alignment) used;
    free = true;
  }

  -- `errno = ENOMEM` behind the loop.
  abbrev pub failed : List HeapBlock → Alloced
  failed list = record { ptr = none; errno = some enomem; list = list }

  -- The result of a later round, behind a block that this one leaves.
  abbrev pub behind : HeapBlock → Option Alloced → Option Alloced
  behind block = Option.map λ (r : Alloced). record r { list = block ∷ r.list }

  -- The allocation of a block; what is left of it is split off if it has room for a description.
  unfoldable pub place : HeapBlock → List HeapBlock → Alloced
  place block rest = record {
    ptr = some (u64 (block.addr + alignment));
    errno = none;
    list =
        if ltb sizeof_block (newblock total_size block).size
        then record block { size = total_size; free = false } ∷ newblock total_size block ∷ rest
        else record block { free = false } ∷ rest;
  }

  -- The loop, on fuel; `none` is a loop that has not ended.
  unfoldable pub alloc_loop : ℕ → HeapBlock → List HeapBlock → Option Alloced
  unfolding place
  alloc_loop zero block rest = none
  alloc_loop (suc fuel) block rest = elim (fits block) [
    | true ↦ elim (straddles block) [
      | true ↦
          behind (record block { size = disalignment block })
            (alloc_loop fuel (newblock (disalignment block) block) rest)
      | false ↦ some (place block rest)
    ]
    | false ↦ elim rest [
      | [] ↦ some (failed (block ∷ []))
      | ◌∷◌ next rest' ↦ behind block (alloc_loop fuel next rest')
    ]
  ]

-- Rounds that are enough for a list: one for each block, and one for each of their bytes.
unfoldable pub rounds : HeapBlock → List HeapBlock → ℕ
rounds block [] = block.size + 1
rounds block (next ∷ rest) = let after = rounds next rest in block.size + 1 + after

unfoldable pub ended : Option Alloced → Outcome Alloced
ended none = fault
ended (some r) = done r

-- An allocation from a list of blocks; with no block, the loop ends at once.
unfoldable pub alloc_list : HeapArgs → List HeapBlock → Outcome Alloced
unfolding ended
alloc_list args [] = done (failed args [])
alloc_list args (block ∷ rest) = ended (alloc_loop args (rounds block rest) block rest)

-- NULL, with the list as it was.
abbrev pub refused : HostmemHeap → ℕ → Alloced
refused heap code = record { ptr = none; errno = some code; list = heap.freelist }

-- An element size of 0 is a division by it.
unfoldable pub alloc_array_aligned : HostmemHeap → ℕ → ℕ → ℕ → Outcome Alloced
alloc_array_aligned heap elem_count elem_size alignment =
    let total_size = u64 (elem_count * elem_size) in
    let args : HeapArgs = record {
      virt = heap.memory.virt;
      hugepgsz = heap.config.hugepgsz;
      alignment = alignment;
      elem_size = elem_size;
      total_size = total_size;
    } in
    if elem_size == 0
    then fault
    else if ltb (uint64_max / elem_size) elem_count
    then done (refused heap einval)
    else (do
      assert (ltb sizeof_block alignment)
      if ltb heap.config.hugepgsz elem_size
            || (ltb heap.config.hugepgsz total_size && neb (heap.config.hugepgsz % elem_size) 0)
          then done (refused heap enomem)
          else alloc_list args heap.freelist)

unfoldable pub alloc_array : HostmemHeap → ℕ → ℕ → Outcome Alloced
alloc_array heap elem_count elem_size =
    alloc_array_aligned heap elem_count elem_size heap.config.pagesize

unfoldable pub alloc_aligned : HostmemHeap → ℕ → ℕ → Outcome Alloced
alloc_aligned heap size alignment =
    let total_size = round_up size heap.config.pagesize in
    alloc_array_aligned heap (total_size / heap.config.pagesize) heap.config.pagesize alignment

unfoldable pub alloc : HostmemHeap → ℕ → Outcome Alloced
alloc heap size = alloc_aligned heap size heap.config.pagesize
