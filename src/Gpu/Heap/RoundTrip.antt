-- ===== src/Gpu/Heap/RoundTrip.antt =====
-- An array that is allocated and released again.
use upcie.Prelude.{
  ℕ, ◌+◌, ◌*◌, ◌^◌, ◌≤◌, ◌<◌, ◌≡◌, ◌≢◌, Bool, ap, sym, ◌∙◌, inl, inr, List, ◌∷◌, some, none, done,
}
use upcie.Hostmem.Types.{Alloced, HeapBlock}
use upcie.Hostmem.Heap.Tiles.{Tiles, allocated}
use upcie.Hostmem.Heap.Free.{without}
use upcie.Gpu.Types.{CudamemHeap}
use upcie.Gpu.Heap.{alloc_array_aligned, block_free}
use upcie.Hostmem.Heap.Inserted.{without-Inserted}
use upcie.Gpu.Heap.Array.{alloc_array_aligned-Good}
use upcie.Gpu.Heap.Free.{gpu_block_free-Released}

-- A successful allocation of an array of at least one element of at least one byte, of which the
-- bytes and the alignment, a power of two, add up to less than 2 ^ 64, on a heap that its blocks
-- tile, below 2 ^ 64, with a 64-bit device page size, at an address other than 0: released again,
-- it leaves the same memory tiled, with the allocated blocks of before.
pub block_free-alloc_array_aligned :
    (heap : CudamemHeap) (malloc : ℕ → Bool) (count size k end p : ℕ) (block : HeapBlock)
    (rest : List HeapBlock) (r : Alloced)
    → 1 ≤ count
    → 1 ≤ size
    → k < 64
    → count * size + 2 ^ k < 2 ^ 64
    → heap.config.device_pagesize < 2 ^ 64
    → end < 2 ^ 64
    → heap.freelist ≡ block ∷ rest
    → Tiles 0 end block rest
    → alloc_array_aligned heap malloc count size (2 ^ k) ≡ done r
    → r.ptr ≡ some p
    → p ≢ 0
    → (first : HeapBlock) × (after : List HeapBlock) × ((block_free
          (record heap { freelist = r.list })
          p).freelist
        ≡ first ∷ after)
      × (first.addr ≡ block.addr)
      × Tiles 0 end first after
      × (allocated (first ∷ after) ≡ allocated (block ∷ rest))
block_free-alloc_array_aligned heap malloc count size k end p block rest r some_count some_size
      shift room page below list t returns at some_address =
    let (r', returns', which) =
      alloc_array_aligned-Good heap malloc count size k some_count some_size shift room page end
        block rest below list t in
    let same : r' ≡ r = done_inj (sym returns' ∙ returns) in
    elim which [
      | inl (_, null, _) ↦ absurd (no_pointer p (sym null ∙ ap (λ (x : Alloced). x.ptr) same ∙ at))
      | inr (good, _) ↦
          let f =
            gpu_block_free-Released (record heap { freelist = r.list }) end p good.head good.tail
              below some_address (ap (λ (x : Alloced). x.list) (sym same) ∙ good.list) good.tiles in
          elim good.outcome [
            | inl (null, _, _) ↦
                absurd (no_pointer p (sym null ∙ ap (λ (x : Alloced). x.ptr) same ∙ at))
            | inr (q, found, ins, _) ↦
                let there : q ≡ p = some_inj (sym found ∙ ap (λ (x : Alloced). x.ptr) same ∙ at) in
                (
                  f.first,
                  f.rest,
                  f.list,
                  f.starts ∙ good.starts,
                  f.tiles,
                  f.gone
                      ∙ ap (λ l. without p (allocated l))
                          (ap (λ (x : Alloced). x.list) (sym same) ∙ good.list)
                      ∙ ap (λ (a : ℕ). without a (allocated (good.head ∷ good.tail))) (sym there)
                      ∙ without-Inserted good.head good.tail good.tiles ins,
                )
          ]
    ]
  where
    no_pointer : (p : ℕ) → ¬ (none ≡ some p)
    no_pointer p e = cc

    some_inj : {a b : ℕ} → some a ≡ some b → a ≡ b
    some_inj e = cc

    done_inj : {a b : Alloced} → done a ≡ done b → a ≡ b
    done_inj e = cc
