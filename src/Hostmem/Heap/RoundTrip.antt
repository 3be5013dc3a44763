-- ===== src/Hostmem/Heap/RoundTrip.antt =====
-- The heap as the memory that is allocated from it: what an allocation adds, and what a release takes
-- away.
use native.Mathlib.Nat.{le-div_iff_mul-le, mul-le-mul_left}
use upcie.Prelude.{
  ℕ, Option, dec_lt, ◌≢◌, suc, ◌+◌, ◌*◌, ◌/◌, ◌%◌, ◌^◌, ◌≤◌, ◌<◌, ◌≡◌, ◌==◌, ◌||◌, ◌&&◌, ltb, neb,
  Bool, Bool-cases, true, false, refl, arith, ap, sym, ◌∙◌, subst, inl, inr, ◌⊎◌, List, ◌∷◌, some,
  none, done, enomem,
}
use upcie.Prelude.Bits.{u64, uint64_max}
use upcie.Hostmem.Types.{HeapBlock, HostmemHeap, Alloced}
use upcie.Hostmem.Heap.{block_free}
use upcie.Hostmem.Heap.Tiles.{Tiles, allocated}
use upcie.Hostmem.Heap.Free.{without, block_free-Released, found-end}
use upcie.Hostmem.Heap.Inserted.{Inserted, without-Inserted}
use upcie.Hostmem.Heap.Owned.{Has, Has-allocated}
use upcie.Hostmem.Heap.Alloc.{
  HeapArgs, sizeof_block, alloc_list, refused, rounds, alloc_array_aligned, alloc_array, ended,
}
use upcie.Hostmem.Heap.Allocate.{NoneFit, Good, alloc_loop-Good}

-- Where the memory of a heap ends.
abbrev pub heap_end : HostmemHeap → ℕ
heap_end heap = heap.memory.virt + heap.memory.size

-- A heap that its blocks tile, below 2 ^ 63 as user space is, with pages of an `int` that have room for a
-- description.
pub record IsHeap (heap : HostmemHeap) : Type 0 where
  pub first : HeapBlock
  pub rest : List HeapBlock
  pub list : heap.freelist ≡ first ∷ rest
  pub starts : first.addr ≡ heap.memory.virt
  pub tiles : Tiles heap.config.pagesize (heap_end heap) first rest
  pub below : heap_end heap < 2 ^ 63
  pub described : sizeof_block < heap.config.pagesize
  pub int_page : heap.config.pagesize < 2 ^ 31

-- The blocks that are allocated from a heap.
abbrev pub owned : HostmemHeap → List HeapBlock
owned heap = allocated heap.freelist

abbrev pub with_list : HostmemHeap → List HeapBlock → HostmemHeap
with_list heap list = record heap { freelist = list }

-- What an allocation of `bytes` leaves: no pointer, an errno and the blocks of before, or a pointer to
-- the bytes in a new block among them.
abbrev pub Grown : HostmemHeap → ℕ → Alloced → Type 0
Grown heap bytes r =
    ((r.ptr ≡ none) × ((code : ℕ) × (r.errno ≡ some (suc code))) × (allocated r.list ≡ owned heap))
    ⊎ ((fresh : HeapBlock) × (r.ptr ≡ some (fresh.addr + heap.config.pagesize))
        × (bytes ≤ fresh.size)
        × (heap.memory.virt ≤ fresh.addr)
        × (fresh.addr + heap.config.pagesize + bytes ≤ heap_end heap)
        × Inserted fresh (owned heap) (allocated r.list))

module _ {heap : HostmemHeap} (v : IsHeap heap) where
  refused-Grown :
      (bytes code : ℕ)
      → IsHeap (with_list heap (refused heap (suc code)).list)
        × Grown heap bytes (refused heap (suc code))
  refused-Grown bytes code = (v, inl (refl, (code, refl), refl))

  -- The allocation of an array of at least one element of at least one byte, on a heap in order.
  module _ (count size : ℕ) (some_count : 1 ≤ count) (some_size : 1 ≤ size)
      (small : count * size < 2 ^ 63) where
    abbrev args : HeapArgs
    args = record {
      virt = heap.memory.virt;
      hugepgsz = heap.config.hugepgsz;
      alignment = heap.config.pagesize;
      elem_size = size;
      total_size = count * size;
    }

    size-le : size ≤ count * size
    size-le = omega (arith, mul-le-mul_left size some_count)

    -- From what the loop leaves.
    Good-Grown :
        (r : Alloced)
        → Good args (heap_end heap) v.first v.rest r
        → IsHeap (with_list heap r.list)
          × Grown heap (count * size) r
          × ((r.ptr ≢ none) ⊎ NoneFit (count * size + heap.config.pagesize) r.list)
    Good-Grown r g =
        let now : allocated r.list ≡ allocated (g.head ∷ g.tail) = ap (λ l. allocated l) g.list in
        let was : owned heap ≡ allocated (v.first ∷ v.rest) = ap (λ l. allocated l) v.list in
        (
          record {
            first = g.head;
            rest = g.tail;
            list = g.list;
            starts = g.starts ∙ v.starts;
            tiles = g.tiles;
            below = v.below;
            described = v.described;
            int_page = v.int_page;
          },
          elim g.outcome [
            | inl (null, code, same, small) ↦ inl (null, (11, code), now ∙ same ∙ sym was)
            | inr (fresh, given, used, enough, above, inside, ins) ↦ inr (
              fresh,
              given,
              enough,
              omega (arith, above, v.starts),
              inside,
              record {
                before = ins.before;
                after = ins.after;
                old_split = was ∙ ins.old_split;
                new_split = now ∙ ins.new_split;
              },
            )
          ],
          elim g.outcome [
            | inl (null, code, same, small) ↦
                inr
                  (subst (λ l. NoneFit (count * size + heap.config.pagesize) l) (sym g.list) small)
            | inr (fresh, given, _, _, _, _, _) ↦ inl (λ e. some_ne (sym given ∙ e))
          ],
        )
      where
        some_ne : {n : ℕ} → ◌≢◌ {A = Option ℕ} (some n) none
        some_ne e = cc

    refuses : Bool
    refuses =
        ltb heap.config.hugepgsz size
        || (ltb heap.config.hugepgsz (u64 (count * size)) && neb (heap.config.hugepgsz % size) 0)

    total_eq : u64 (count * size) ≡ count * size
    total_eq = omega (arith, small)

    some_size_test : (size == 0) ≡ false
    some_size_test = ground (arith, some_size)

    no_overflow : ltb (uint64_max / size) count ≡ false
    no_overflow =
        let le : count ≤ uint64_max / size =
          (le-div_iff_mul-le some_size).1 (omega (arith, small)) in
        ground (arith, le)

    asserted : ltb sizeof_block heap.config.pagesize ≡ true
    asserted = ground (arith, v.described)

    when_refused : refuses ≡ true → alloc_array heap count size ≡ done (refused heap enomem)
    unfolding alloc_array alloc_array_aligned refuses
    when_refused e = rw (some_size_test, no_overflow, asserted, e) refl

    when_accepted : refuses ≡ false → alloc_array heap count size ≡ alloc_list args heap.freelist
    unfolding alloc_array alloc_array_aligned refuses
    when_accepted e = rw (some_size_test, no_overflow, asserted, e, total_eq) refl

    -- The refusal of the sizes: an element larger than a hugepage, or an array larger than one whose
    -- elements do not divide it.
    abbrev Refused : Type 0
    Refused =
        (heap.config.hugepgsz < size)
        ⊎ ((heap.config.hugepgsz < count * size) × (heap.config.hugepgsz % size ≢ 0))

    refuses-Refused : refuses ≡ true → Refused
    unfolding refuses
    refuses-Refused e = elim (dec_lt heap.config.hugepgsz size) [
      | yes large ↦ inl large
      | no not_large ↦
          inr (ground (arith, e, not_large, total_eq), λ q. ground (arith, e, not_large, q))
    ]

    -- The allocation of an array of at least one element of at least one byte, of fewer than 2 ^ 63
    -- bytes, on a heap in order returns and leaves the heap in order: with NULL, an errno and the
    -- allocated blocks of before, or with a pointer to memory of the array's size inside the heap, in
    -- one allocated block more. NULL comes only if an element is larger than a hugepage, the array is
    -- larger than one and its elements do not divide it, or no free block that is left has room for
    -- the array and a page.
    pub alloc_array-Outcomes :
        (r : Alloced) × (alloc_array heap count size ≡ done r)
        × IsHeap (with_list heap r.list)
        × Grown heap (count * size) r
        × ((r.ptr ≢ none) ⊎ (Refused ⊎ NoneFit (count * size + heap.config.pagesize) r.list))
    unfolding alloc_list ended
    alloc_array-Outcomes = elim (Bool-cases refuses) [
      | inl e ↦
          let (kept, grown) = refused-Grown (count * size) 11 in
          (refused heap enomem, when_refused e, kept, grown, inr (inl (refuses-Refused e)))
      | inr e ↦
          let below : heap_end heap < 2 ^ 64 = omega (arith, v.below) in
          let described : 1 ≤ heap.config.pagesize = omega (arith, v.described) in
          let room : count * size + heap.config.pagesize < 2 ^ 64 =
            omega (arith, small, v.int_page) in
          let (r, returns, good) =
            alloc_loop-Good args below some_size size-le described room (rounds v.first v.rest)
              v.first v.rest (omega arith) v.tiles in
          let (kept, grown, exhausted) = Good-Grown r good in
          (
            r,
            when_accepted e ∙ ap (λ l. alloc_list args l) v.list ∙ (rw returns refl),
            kept,
            grown,
            elim exhausted [ inl given ↦ inl given | inr small ↦ inr (inr small) ],
          )
    ]

    pub alloc_array-Grown :
        (r : Alloced) × (alloc_array heap count size ≡ done r)
        × IsHeap (with_list heap r.list)
        × Grown heap (count * size) r
    alloc_array-Grown =
        let (r, returns, kept, grown, _) = alloc_array-Outcomes in (r, returns, kept, grown)

  -- The release of a block by the pointer to its memory.
  pub block_free-Shrunk :
      (addr : ℕ)
      → Has addr (owned heap)
      → (list : List HeapBlock) × (block_free heap (addr + heap.config.pagesize)
          ≡ done (with_list heap list))
        × IsHeap (with_list heap list)
        × (allocated list ≡ without addr (owned heap))
  block_free-Shrunk addr has =
      let (i, found, at, e) =
        Has-allocated addr (v.first ∷ v.rest) (subst (λ l. Has addr (allocated l)) v.list has) in
      let inside = found-end i found v.first v.rest at v.tiles in
      let (heap', returns, f) =
        block_free-Released heap (heap_end heap) i v.first found v.rest (omega (arith, v.described))
          (omega (arith, v.below)) v.list v.tiles at (omega (arith, v.below, inside, v.int_page)) in
      (
        f.first ∷ f.rest,
        ap (λ (a : ℕ). block_free heap (a + heap.config.pagesize)) (sym e)
            ∙ returns
            ∙ ap done f.kept,
        record {
          first = f.first;
          rest = f.rest;
          list = refl;
          starts = f.starts ∙ v.starts;
          tiles = f.tiles;
          below = v.below;
          described = v.described;
          int_page = v.int_page;
        },
        f.gone ∙ ap (λ (a : ℕ). without a (owned heap)) e,
      )

-- A block put in and taken out.
pub without-grown :
    (heap : HostmemHeap) {list old : List HeapBlock} {fresh : HeapBlock}
    → IsHeap (with_list heap list)
    → Inserted fresh old (allocated list)
    → without fresh.addr (allocated list) ≡ old
without-grown heap {list = list} {fresh = fresh} v ins =
    ap (λ l. without fresh.addr (allocated l)) v.list
    ∙ without-Inserted v.first v.rest v.tiles (record {
      before = ins.before;
      after = ins.after;
      old_split = ins.old_split;
      new_split = ap (λ l. allocated l) (sym v.list) ∙ ins.new_split;
    })
