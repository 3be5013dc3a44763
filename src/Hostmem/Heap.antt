-- ===== src/Hostmem/Heap.antt =====
-- include/upcie/hostmem_heap.h: releasing a block of the heap, and translating addresses in it. The
-- list of blocks, whose descriptions stand in the heap's own memory, is a list of blocks with their
-- addresses.
pub mod Vtp
pub mod Tiles
pub mod Free
pub mod Inserted
pub mod Alloc
pub mod Allocate
pub mod Owned
pub mod RoundTrip
pub mod Init
pub mod SetUp
mod Tests
use upcie.Prelude.{
  ℕ, ◌+◌, ◌/◌, ◌%◌, ◌==◌, ◌&&◌, ◌||◌, ltb, leb, if◌then◌else◌, Bool, true, false, List, [], ◌∷◌,
  Option, some, none, ℤ, pos, neg, einval, Outcome, done, fault, ◌>>=◌, ◌>>◌, assert, read,
  get_elem?,
}
use upcie.Prelude.Bits.{sub64, u64}
use upcie.Hostmem.Types.{HeapBlock, HostmemHeap}

-- `block->free = 1` at the block with this address; a pointer to no block is a write that the model
-- does not follow.
unfoldable pub mark_free : ℕ → List HeapBlock → Outcome (List HeapBlock)
mark_free addr [] = fault
mark_free addr (block ∷ rest) =
    let after = mark_free addr rest in
    if block.addr == addr
    then done (record block { free = true } ∷ rest)
    else (do rest ← after; done (block ∷ rest))

-- A free block with the free block after it.
unfoldable pub merge : ℕ → HeapBlock → HeapBlock → HeapBlock
merge alignment block next = record block { size = u64 (block.size + u64 (alignment + next.size)) }

-- The walk over the list, from a block and those after it on.
unfoldable pub coalesce : ℕ → HeapBlock → List HeapBlock → List HeapBlock
coalesce alignment block [] = block ∷ []
coalesce alignment block (next ∷ rest) = elim (block.free && next.free) [
  | true ↦ coalesce alignment (merge alignment block next) rest
  | false ↦ block ∷ coalesce alignment next rest
]

unfoldable pub coalesce_list : ℕ → List HeapBlock → List HeapBlock
coalesce_list alignment [] = []
coalesce_list alignment (block ∷ rest) = coalesce alignment block rest

unfoldable pub block_free : HostmemHeap → ℕ → Outcome HostmemHeap
block_free heap ptr = if ptr == 0 then done heap else (do
  marked ← mark_free (sub64 ptr heap.config.pagesize) heap.freelist
  done (record heap { freelist = coalesce_list heap.config.pagesize marked }))

-- No pointer but `virt` is null; `phys` is what the result pointer leads to before the call. A hugepage size of 0 is a division by it.
unfoldable pub virt_to_phys : HostmemHeap → ℕ → ℕ → Outcome (ℤ × ℕ)
virt_to_phys heap virt phys =
    let offset = sub64 virt heap.memory.virt in
    let hpage_idx = offset / heap.config.hugepgsz in
    if virt == 0
      || (ltb virt heap.memory.virt || leb (u64 (heap.memory.virt + heap.memory.size)) virt)
    then done (neg (pos einval), phys)
    else if heap.config.hugepgsz == 0
    then fault
    else if leb heap.nphys hpage_idx
    then done (neg (pos einval), phys)
    else (do
      base ← read (get_elem? heap.phys_lut hpage_idx)
      done (pos 0, u64 (base + offset % heap.config.hugepgsz)))

unfoldable pub vtp : HostmemHeap → ℕ → Outcome ℕ
vtp heap virt =
    let offset = sub64 virt heap.memory.virt in
    let hpage_idx = offset / heap.config.hugepgsz in
    if heap.config.hugepgsz == 0 then fault else (do
      assert (ltb hpage_idx heap.nphys)
      base ← read (get_elem? heap.phys_lut hpage_idx)
      done (u64 (base + offset % heap.config.hugepgsz)))
