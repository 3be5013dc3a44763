-- ===== src/Gpu/Heap.antt =====
-- include/upcie/cudamem_heap.h and hipmem_heap.h: the heap in GPU memory. The list of blocks is not
-- empty once the heap is initialised, and a loop over it takes the first block apart from the rest.
pub mod Place
pub mod Alloc
pub mod Elements
pub mod Array
pub mod Mark
pub mod Free
pub mod RoundTrip
pub mod Init
use mathlib.Core.Option
use upcie.Prelude.{
  ℕ, zero, suc, ◌+◌, ◌*◌, ◌/◌, ◌%◌, ◌==◌, ◌&&◌, ◌||◌, not, ltb, leb, neb, if◌then◌else◌, bit_and,
  Bool, true, false, List, [], ◌∷◌, Option, some, none, ℤ, pos, neg, einval, enomem, Outcome, done,
  fault, ◌>>=◌, ◌>>◌, assert, read, get_elem?,
}
use upcie.Prelude.Bits.{uint64_max, sub64, u64, bit_not, shr}
use upcie.Prelude.Rounding.{round_up}
use upcie.Hostmem.Types.{HeapBlock, Alloced}
use upcie.Gpu.Types.{CudamemConfig, CudamemHeapBlock, CudamemHeap}

-- `block->size += tmp->size`.
unfoldable pub absorb : CudamemHeapBlock → CudamemHeapBlock → CudamemHeapBlock
absorb block next = record block { size = u64 (block.size + next.size) }

abbrev pub free_if : Bool → CudamemHeapBlock → CudamemHeapBlock
free_if hit block = if hit then record block { free = true } else block

-- The loop of `cudamem_heap_block_free`, and what follows it at the last block.
unfoldable pub free_loop : ℕ → CudamemHeapBlock → List CudamemHeapBlock → List CudamemHeapBlock
free_loop vaddr block [] = free_if (block.addr == vaddr) block ∷ []
free_loop vaddr block (next ∷ rest) =
    let marked = free_if (block.addr == vaddr) block in
    let after = free_if (not (block.addr == vaddr) && next.addr == vaddr) next in
    elim (marked.free && after.free) [
      | true ↦ free_loop vaddr (absorb marked after) rest
      | false ↦ marked ∷ free_loop vaddr after rest
    ]

unfoldable pub free_list : ℕ → List CudamemHeapBlock → List CudamemHeapBlock
free_list vaddr [] = []
free_list vaddr (block ∷ rest) = free_loop vaddr block rest

unfoldable pub block_free : CudamemHeap → ℕ → CudamemHeap
block_free heap ptr =
    if ptr == 0 then heap else record heap { freelist = free_list ptr heap.freelist }

-- The arguments of the loop: the heap's address and page size, the size of an element and of all,
-- and which of the calls to malloc in it succeed.
pub record AllocArgs : Type 0 where
  pub base : ℕ
  pub device_pagesize : ℕ
  pub elem_size : ℕ
  pub total_size : ℕ
  pub malloc : ℕ → Bool

module _ (args : AllocArgs) where
  open args use {base, device_pagesize, elem_size, total_size, malloc}

  abbrev pub dpage_remaining : CudamemHeapBlock → ℕ
  dpage_remaining block = sub64 device_pagesize (sub64 block.addr base % device_pagesize)

  abbrev pub disalignment : CudamemHeapBlock → ℕ
  disalignment block = dpage_remaining block % elem_size

  -- `block->free && block->size >= total_size`.
  abbrev pub fits : CudamemHeapBlock → Bool
  fits block = block.free && leb total_size block.size

  -- An element would lie across the end of a device page.
  abbrev pub straddles : CudamemHeapBlock → Bool
  straddles block = ltb (dpage_remaining block) total_size && neb (disalignment block) 0

  -- The part of a block after its first `used` bytes.
  abbrev pub remainder : ℕ → CudamemHeapBlock → CudamemHeapBlock
  remainder used block = record {
    addr = u64 (block.addr + used);
    size = sub64 block.size used;
    free = true;
  }

  abbrev pub failed : List CudamemHeapBlock → Alloced
  failed list = record { ptr = none; errno = some enomem; list = list }

  -- The result of a later round, behind a block that this one leaves.
  abbrev pub behind : CudamemHeapBlock → Option Alloced → Option Alloced
  behind block = Option.map λ (r : Alloced). record r { list = block ∷ r.list }

  -- The allocation of a block, of which the rest is split off.
  unfoldable pub place : ℕ → CudamemHeapBlock → List CudamemHeapBlock → Alloced
  place calls block rest =
      if neb (sub64 block.size total_size) 0
      then if malloc calls
        then record {
          ptr = some block.addr;
          errno = none;
          list =
              record block { size = total_size; free = false } ∷ remainder total_size block ∷ rest;
        }
        else failed (block ∷ rest)
      else record {
        ptr = some block.addr;
        errno = none;
        list = record block { free = false } ∷ rest;
      }

  -- The loop, on fuel; `calls` counts the calls to malloc. `none` is a loop that has not ended.
  unfoldable pub alloc_loop : ℕ → ℕ → CudamemHeapBlock → List CudamemHeapBlock → Option Alloced
  unfolding place
  alloc_loop zero calls block rest = none
  alloc_loop (suc fuel) calls block rest = elim (fits block) [
    | true ↦ elim (straddles block) [
      | true ↦ elim (malloc calls) [
        | true ↦
            behind (record block { size = disalignment block })
              (alloc_loop fuel (calls + 1) (remainder (disalignment block) block) rest)
        | false ↦ some (failed (block ∷ rest))
      ]
      | false ↦ some (place calls block rest)
    ]
    | false ↦ elim rest [
      | [] ↦ some (failed (block ∷ []))
      | ◌∷◌ next rest' ↦ behind block (alloc_loop fuel calls next rest')
    ]
  ]

-- Rounds that are enough for a list: one for each block, and one for each of their bytes.
unfoldable pub rounds : CudamemHeapBlock → List CudamemHeapBlock → ℕ
rounds block [] = block.size + 1
rounds block (next ∷ rest) = let after = rounds next rest in block.size + 1 + after

-- An allocation from a list of blocks; with no block, the loop ends at once.
unfoldable pub alloc_list : AllocArgs → List CudamemHeapBlock → Outcome Alloced
alloc_list args [] = done (record { ptr = none; errno = some enomem; list = [] })
alloc_list args (block ∷ rest) = ended (alloc_loop args (rounds block rest + 1) 0 block rest)
  where
    ended : Option Alloced → Outcome Alloced
    ended none = fault
    ended (some r) = done r

-- NULL, with the list as it was.
abbrev pub refused : CudamemHeap → ℕ → Alloced
refused heap code = record { ptr = none; errno = some code; list = heap.freelist }

unfoldable pub alloc_array_aligned : CudamemHeap → (ℕ → Bool) → ℕ → ℕ → ℕ → Outcome Alloced
alloc_array_aligned heap malloc elem_count elem_size alignment =
    let total_size = u64 (elem_count * elem_size) in
    let args : AllocArgs = record {
      base = heap.vaddr;
      device_pagesize = heap.config.device_pagesize;
      elem_size = elem_size;
      total_size = round_up total_size alignment;
      malloc = malloc;
    } in
    if elem_size == 0
    then fault
    else if ltb (uint64_max / elem_size) elem_count
    then done (refused heap einval)
    else if ltb heap.config.device_pagesize elem_size
        || (ltb heap.config.device_pagesize total_size
            && neb (heap.config.device_pagesize % elem_size) 0)
    then done (refused heap enomem)
    else alloc_list args heap.freelist

unfoldable pub alloc_array : CudamemHeap → (ℕ → Bool) → ℕ → ℕ → Outcome Alloced
alloc_array heap malloc elem_count elem_size =
    alloc_array_aligned heap malloc elem_count elem_size heap.config.pagesize

unfoldable pub alloc_aligned : CudamemHeap → (ℕ → Bool) → ℕ → ℕ → Outcome Alloced
alloc_aligned heap malloc size alignment =
    let total_size = round_up size heap.config.pagesize in
    alloc_array_aligned heap malloc (total_size / heap.config.pagesize) heap.config.pagesize
      alignment

unfoldable pub alloc : CudamemHeap → (ℕ → Bool) → ℕ → Outcome Alloced
alloc heap malloc size = alloc_aligned heap malloc size heap.config.pagesize

unfoldable pub heap_contains : CudamemHeap → ℕ → Bool
heap_contains heap virt = leb heap.vaddr virt && ltb virt (u64 (heap.vaddr + heap.size))

-- No pointer but `virt` is null; `phys` is what the result pointer leads to before the call. A device
-- page size of 0 is a division by it.
unfoldable pub virt_to_phys : CudamemHeap → ℕ → ℕ → Outcome (ℤ × ℕ)
virt_to_phys heap virt phys =
    let offset = sub64 virt heap.vaddr in
    let page_idx = offset / heap.config.device_pagesize in
    if virt == 0 || (ltb virt heap.vaddr || leb (u64 (heap.vaddr + heap.size)) virt)
    then done (neg (pos einval), phys)
    else if heap.config.device_pagesize == 0
    then fault
    else if leb heap.nphys page_idx
    then done (neg (pos einval), phys)
    else (do
      base ← read (get_elem? heap.phys_lut page_idx)
      done (pos 0, u64 (base + offset % heap.config.device_pagesize)))

unfoldable pub vtp : CudamemHeap → ℕ → Outcome ℕ
vtp heap virt = do
  let offset = sub64 virt heap.vaddr
  let page_idx = shr offset heap.config.device_pagesize_shift
  assert (ltb page_idx heap.nphys)
  base ← read (get_elem? heap.phys_lut page_idx)
  done (u64 (base + bit_and offset (sub64 heap.config.device_pagesize 1)))
