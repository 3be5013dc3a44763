-- ===== src/Hostmem/Heap/Free.antt =====
-- Releasing a block of a heap that its blocks tile.
use upcie.Prelude.{
  ℕ, zero, suc, ◌+◌, ◌^◌, ◌≤◌, ◌<◌, ◌≡◌, ◌==◌, Bool, true, false, refl, arith, ap, sym, ◌∙◌, inl,
  inr, List, [], ◌∷◌, done, some, get_elem?, if◌then◌else◌, Bool-cases, ◌||◌,
}
use upcie.Prelude.Bits.{sub64}
use upcie.Hostmem.Types.{HeapBlock, HostmemHeap}
use upcie.Hostmem.Heap.{mark_free, coalesce_list, block_free}
use upcie.Hostmem.Heap.Tiles.{Tiles, last, more, IsCoalesced, allocated, end-le, coalesce-Coalesced}

-- The blocks of a list but those at an address.
unfoldable pub without : ℕ → List HeapBlock → List HeapBlock
without addr [] = []
without addr (block ∷ rest) =
    let after = without addr rest in if block.addr == addr then after else block ∷ after

-- The first block of a list, taken off it if it starts at the address.
pub without-head :
    (addr : ℕ) (block : HeapBlock) (rest : List HeapBlock)
    → without addr (allocated (block ∷ rest)) ≡ (
        if block.free || block.addr == addr
        then without addr (allocated rest)
        else block ∷ without addr (allocated rest))
unfolding without allocated
without-head addr block rest = elim (Bool-cases block.free) [
  | inl free ↦ rw free refl
  | inr used ↦ rw used refl
]

-- A test that fails beside another.
pub no_test :
    (x test : Bool) (block : HeapBlock) (l : List HeapBlock)
    → test ≡ false
    → (if x || test then l else block ∷ l) ≡ (if x then l else block ∷ l)
no_test true test block l e = refl
no_test false test block l e = rw e refl

-- No block of a tiling starts below its first.
pub without-below :
    {alignment end : ℕ} (addr : ℕ) (block : HeapBlock) (rest : List HeapBlock)
    → addr < block.addr
    → Tiles alignment end block rest
    → without addr (allocated (block ∷ rest)) ≡ allocated (block ∷ rest)
unfolding without allocated
without-below addr block [] h (last _ e) = ground (arith, h)
without-below addr block (next ∷ rest) h (more _ _ _ e below t) =
    let after = without-below addr next rest (omega (arith, h, below)) t in
    let apart : (block.addr == addr) ≡ false = ground (arith, h) in
    without-head addr block (next ∷ rest)
    ∙ ap (λ l. if block.free || block.addr == addr then l else block ∷ l) after
    ∙ no_test block.free (block.addr == addr) block (allocated (next ∷ rest)) apart

-- The blocks after the first start above it, and those found in a tiling no lower than it.
pub without-rest :
    {alignment end : ℕ} (addr : ℕ) (block : HeapBlock) (rest : List HeapBlock)
    → block.addr ≡ addr
    → Tiles alignment end block rest
    → without addr (allocated rest) ≡ allocated rest
unfolding without allocated
without-rest addr block [] same (last _ e) = refl
without-rest addr block (next ∷ rest) same (more _ _ _ e below t) =
    without-below addr next rest (omega (arith, below, same)) t

found-le :
    {alignment end : ℕ} (i : ℕ) (found block : HeapBlock) (rest : List HeapBlock)
    → get_elem? (block ∷ rest) i ≡ some found
    → Tiles alignment end block rest
    → block.addr ≤ found.addr
found-le zero found block rest at t =
    let same : block ≡ found = cc in omega (arith, ap (λ (b : HeapBlock). b.addr) same)
found-le (suc i) found block [] at t = absurd (nothing i at)
  where
    nothing : (i : ℕ) → ¬ (get_elem? {A = HeapBlock} [] i ≡ some found)
    nothing i q = cc
found-le (suc i) found block (next ∷ rest) at (more _ _ _ e below t) =
    omega (arith, below, found-le i found next rest at t)

-- A block found in a tiling ends where the tiling does, or before.
pub found-end :
    {alignment end : ℕ} (i : ℕ) (found block : HeapBlock) (rest : List HeapBlock)
    → get_elem? (block ∷ rest) i ≡ some found
    → Tiles alignment end block rest
    → found.addr + found.size ≤ end
found-end zero found block rest at t =
    let same : block ≡ found = cc in
    omega (
      arith,
      end-le block rest t,
      ap (λ (b : HeapBlock). b.addr) same,
      ap (λ (b : HeapBlock). b.size) same,
    )
found-end (suc i) found block [] at t = absurd (nothing i at)
  where
    nothing : (i : ℕ) → ¬ (get_elem? {A = HeapBlock} [] i ≡ some found)
    nothing i q = cc
found-end (suc i) found block (next ∷ rest) at (more _ _ _ e below t) =
    found-end i found next rest at t

-- The description of a block says nothing of its place.
pub freed-Tiles :
    {alignment end : ℕ} (block : HeapBlock) (rest : List HeapBlock)
    → Tiles alignment end block rest
    → Tiles alignment end (record block { free = true }) rest
freed-Tiles block [] (last _ e) = last (record block { free = true }) e
freed-Tiles block (next ∷ rest) (more _ _ _ e below t) =
    more (record block { free = true }) next rest e below t

-- What marking leaves: the same blocks, with the one at the address free.
record Marked (alignment end addr : ℕ) (block : HeapBlock) (rest : List HeapBlock) : Type 0 where
  head : HeapBlock
  tail : List HeapBlock
  returns : mark_free addr (block ∷ rest) ≡ done (head ∷ tail)
  starts : head.addr ≡ block.addr
  sized : head.size ≡ block.size
  tiles : Tiles alignment end head tail
  gone : allocated (head ∷ tail) ≡ without addr (allocated (block ∷ rest))

mark_free-Marked :
    {alignment end addr : ℕ} (i : ℕ) {found : HeapBlock} (block : HeapBlock) (rest : List HeapBlock)
    → get_elem? (block ∷ rest) i ≡ some found
    → found.addr ≡ addr
    → Tiles alignment end block rest
    → Marked alignment end addr block rest
unfolding mark_free allocated
mark_free-Marked {addr = addr} zero {found = found} block rest at e t =
    let same : block ≡ found = cc in
    let here : block.addr ≡ addr = ap (λ (b : HeapBlock). b.addr) same ∙ e in
    let test : (block.addr == addr) ≡ true = ground (arith, here) in
    record {
      head = record block { free = true };
      tail = rest;
      returns = rw test refl;
      starts = refl;
      sized = refl;
      tiles = freed-Tiles block rest t;
      gone =
          sym (without-rest addr block rest here t)
          ∙ sym (without-head addr block rest ∙ ground (arith, here));
    }
mark_free-Marked {addr = addr} (suc i) {found = found} block [] at e t = absurd (nothing i at)
  where
    nothing : (i : ℕ) → ¬ (get_elem? {A = HeapBlock} [] i ≡ some found)
    nothing i q = cc
mark_free-Marked {addr = addr} (suc i) {found = found} block (next ∷ rest) at e
      (more _ _ _ p below t) =
    let c = mark_free-Marked i next rest at e t in
    let test : (block.addr == addr) ≡ false =
      ground (arith, e, below, found-le i found next rest at t) in
    record {
      head = block;
      tail = c.head ∷ c.tail;
      returns = rw (test, c.returns) refl;
      starts = refl;
      sized = refl;
      tiles = more block c.head c.tail (p ∙ sym c.starts) (omega (arith, below, c.starts)) c.tiles;
      gone =
          ap (λ l. if block.free then l else block ∷ l) c.gone
          ∙ sym (
              no_test block.free (block.addr == addr) block (without addr (allocated (next ∷ rest)))
                test)
          ∙ sym (without-head addr block (next ∷ rest));
    }

-- What releasing a block leaves: a heap with the same memory tiled, no two free blocks side by
-- side, and the allocated blocks of before but the one released.
pub record Released (heap : HostmemHeap) (end addr : ℕ) (start : ℕ) (heap' : HostmemHeap)
    : Type 0 where
  pub first : HeapBlock
  pub rest : List HeapBlock
  pub list : heap'.freelist ≡ first ∷ rest
  pub starts : first.addr ≡ start
  pub tiles : Tiles heap.config.pagesize end first rest
  pub coalesced : IsCoalesced first rest
  pub gone : allocated (first ∷ rest) ≡ without addr (allocated heap.freelist)
  pub kept : heap' ≡ record heap { freelist = first ∷ rest }

-- The pointer to the memory of any block of a heap that its blocks tile, below 2 ^ 64, can be
-- released: the blocks then tile the same memory, no two free ones side by side, and the allocated
-- blocks are those of before but the one released.
pub block_free-Released :
    (heap : HostmemHeap) (end i : ℕ) (first found : HeapBlock) (rest : List HeapBlock)
    → 1 ≤ heap.config.pagesize
    → end < 2 ^ 64
    → heap.freelist ≡ first ∷ rest
    → Tiles heap.config.pagesize end first rest
    → get_elem? (first ∷ rest) i ≡ some found
    → found.addr + heap.config.pagesize < 2 ^ 64
    → (heap' : HostmemHeap) × (block_free heap (found.addr + heap.config.pagesize) ≡ done heap')
      × Released heap end found.addr first.addr heap'
unfolding block_free coalesce_list
block_free-Released heap end i first found rest a h list t at fits =
    let m = mark_free-Marked i first rest at refl t in
    let c = coalesce-Coalesced heap.config.pagesize end m.head m.tail h m.tiles in
    let pointer : sub64 (found.addr + heap.config.pagesize) heap.config.pagesize ≡ found.addr =
      omega arith in
    let given : (found.addr + heap.config.pagesize == 0) ≡ false = ground arith in
    (
      record heap { freelist = c.head ∷ c.tail },
      rw (given, pointer, list, m.returns, c.returns) refl,
      record {
        first = c.head;
        rest = c.tail;
        list = refl;
        starts = c.starts ∙ m.starts;
        tiles = c.tiles;
        coalesced = c.coalesced;
        gone = c.same ∙ m.gone ∙ ap (λ l. without found.addr (allocated l)) (sym list);
        kept = refl;
      },
    )
