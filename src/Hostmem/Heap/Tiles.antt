-- ===== src/Hostmem/Heap/Tiles.antt =====
-- The blocks tile the heap, before and after a block is released.
use upcie.Prelude.{
  ℕ, ◌+◌, ◌^◌, ◌≤◌, ◌<◌, ◌≡◌, ◌&&◌, Bool-cases, true, false, refl, arith, ap, sym, ◌∙◌, inl, inr,
  List, [], ◌∷◌, if◌then◌else◌,
}
use upcie.Hostmem.Types.{HeapBlock}
use upcie.Hostmem.Heap.{merge, coalesce}

-- From a block on, each block ends where the next begins: `alignment` bytes for the description of a
-- block and then its `size` bytes. The size of the last one counts its description too, as
-- `hostmem_heap_init` sets it, and it ends at `end`.
pub data Tiles (alignment end : ℕ) : HeapBlock → List HeapBlock → Type 0 where
  last : (block : HeapBlock) → block.addr + block.size ≡ end → Tiles alignment end block []
  more :
      (block next : HeapBlock) (rest : List HeapBlock)
      → block.addr + alignment + block.size ≡ next.addr
      → block.addr < next.addr
      → Tiles alignment end next rest
      → Tiles alignment end block (next ∷ rest)

-- No two blocks that follow each other are free.
pub data IsCoalesced : HeapBlock → List HeapBlock → Type 0 where
  one : (block : HeapBlock) → IsCoalesced block []
  cons :
      (block next : HeapBlock) (rest : List HeapBlock)
      → (block.free && next.free) ≡ false
      → IsCoalesced next rest
      → IsCoalesced block (next ∷ rest)

-- The blocks that are allocated, in order.
unfoldable pub allocated : List HeapBlock → List HeapBlock
allocated [] = []
allocated (block ∷ rest) = let after = allocated rest in if block.free then after else block ∷ after

-- A tiling ends above where it begins.
pub end-le :
    {alignment end : ℕ} (block : HeapBlock) (rest : List HeapBlock)
    → Tiles alignment end block rest
    → block.addr + block.size ≤ end
end-le block [] (last _ e) = omega arith
end-le block (next ∷ rest) (more _ _ _ e _ t) = omega (arith, e, end-le next rest t)

-- Two free blocks made one, in front of the blocks that follow.
merge-size :
    (alignment end : ℕ) (block next : HeapBlock) (rest : List HeapBlock)
    → end < 2 ^ 64
    → block.addr + alignment + block.size ≡ next.addr
    → Tiles alignment end next rest
    → (merge alignment block next).size ≡ block.size + alignment + next.size
unfolding merge
merge-size alignment end block next rest h e t = omega (arith, h, e, end-le next rest t)

pub merge-Tiles :
    (alignment end : ℕ) (block next : HeapBlock) (rest : List HeapBlock)
    → end < 2 ^ 64
    → block.addr + alignment + block.size ≡ next.addr
    → block.addr < next.addr
    → Tiles alignment end next rest
    → Tiles alignment end (merge alignment block next) rest
unfolding merge
merge-Tiles alignment end block next [] h e below (last _ p) =
    last (merge alignment block next)
      (omega (arith, e, p, merge-size alignment end block next [] h e (last next p)))
merge-Tiles alignment end block next (third ∷ rest) h e below (more _ _ _ p above t) =
    more (merge alignment block next) third rest
      (omega (
        arith,
        e,
        p,
        merge-size alignment end block next (third ∷ rest) h e (more next third rest p above t),
      ))
      (omega (arith, below, above)) t

-- The two branches of the walk.
coalesce-merge :
    (alignment : ℕ) (block next : HeapBlock) (rest : List HeapBlock)
    → (block.free && next.free) ≡ true
    → coalesce alignment block (next ∷ rest) ≡ coalesce alignment (merge alignment block next) rest
unfolding coalesce
coalesce-merge alignment block next rest both = ground (arith, both)

coalesce_keep :
    (alignment : ℕ) (block next : HeapBlock) (rest : List HeapBlock)
    → (block.free && next.free) ≡ false
    → coalesce alignment block (next ∷ rest) ≡ block ∷ coalesce alignment next rest
unfolding coalesce
coalesce_keep alignment block next rest apart = ground (arith, apart)

-- What the walk makes of a list: the head of the result and what follows.
pub record Coalesced (alignment end : ℕ) (block : HeapBlock) (rest : List HeapBlock) : Type 0 where
  pub head : HeapBlock
  pub tail : List HeapBlock
  pub returns : coalesce alignment block rest ≡ head ∷ tail
  pub starts : head.addr ≡ block.addr
  pub freedom : head.free ≡ block.free
  pub tiles : Tiles alignment end head tail
  pub coalesced : IsCoalesced head tail
  pub same : allocated (head ∷ tail) ≡ allocated (block ∷ rest)

-- The walk over a tiling of memory below 2 ^ 64 tiles the same memory with the same allocated
-- blocks, and leaves no two free blocks side by side.
pub coalesce-Coalesced :
    (alignment end : ℕ) (block : HeapBlock) (rest : List HeapBlock)
    → end < 2 ^ 64
    → Tiles alignment end block rest
    → Coalesced alignment end block rest
unfolding coalesce allocated
coalesce-Coalesced alignment end block [] h t = record {
  head = block;
  tail = [];
  returns = refl;
  starts = refl;
  freedom = refl;
  tiles = t;
  coalesced = one block;
  same = refl;
}
coalesce-Coalesced alignment end block (next ∷ rest) h (more _ _ _ e below t) =
    elim (Bool-cases (block.free && next.free)) [
      | inl both ↦
          let c =
            coalesce-Coalesced alignment end (merge alignment block next) rest h
              (merge-Tiles alignment end block next rest h e below t) in
          let first_free : block.free ≡ true = ground (arith, both) in
          let second_free : next.free ≡ true = ground (arith, both) in
          record {
            head = c.head;
            tail = c.tail;
            returns = coalesce-merge alignment block next rest both ∙ c.returns;
            starts = c.starts ∙ (unfold merge in refl);
            freedom = c.freedom ∙ (unfold merge in refl);
            tiles = c.tiles;
            coalesced = c.coalesced;
            same = c.same ∙ (unfold merge in rw (first_free, second_free) refl);
          }
      | inr apart ↦
          let c = coalesce-Coalesced alignment end next rest h t in
          record {
            head = block;
            tail = c.head ∷ c.tail;
            returns = coalesce_keep alignment block next rest apart ∙ ap (λ l. block ∷ l) c.returns;
            starts = refl;
            freedom = refl;
            tiles =
                more block c.head c.tail (e ∙ sym c.starts) (omega (arith, below, c.starts))
                  c.tiles;
            coalesced = cons block c.head c.tail (rw c.freedom apart) c.coalesced;
            same = ap (λ l. if block.free then l else block ∷ l) c.same;
          }
    ]
