-- ===== src/Gpu/Heap/Mark.antt =====
-- Marking a block as free, and making one block of two.
use upcie.Prelude.{
  ℕ, ◌≡◌, ◌==◌, ◌||◌, Bool, true, false, refl, arith, ap, sym, ◌∙◌, List, ◌∷◌, if◌then◌else◌,
}
use upcie.Hostmem.Types.{HeapBlock}
use upcie.Hostmem.Heap.{merge}
use upcie.Hostmem.Heap.Tiles.{Tiles, allocated}
use upcie.Hostmem.Heap.Free.{without, without-head, freed-Tiles}
use upcie.Gpu.Heap.{absorb, free_if}

pub absorb-merge : (block next : HeapBlock) → absorb block next ≡ merge 0 block next
unfolding absorb merge
absorb-merge block next = ap (λ (n : ℕ). record block { size = n }) (omega arith)

pub absorb-addr : (block next : HeapBlock) → (absorb block next).addr ≡ block.addr
unfolding absorb
absorb-addr block next = refl

pub absorb-free : (block next : HeapBlock) → (absorb block next).free ≡ block.free
unfolding absorb
absorb-free block next = refl

pub free_if_free :
    (hit : Bool) (block : HeapBlock) → block.free ≡ true → (free_if hit block).free ≡ true
free_if_free true block e = refl
free_if_free false block e = e

pub allocated-cons :
    (block : HeapBlock) (l m : List HeapBlock)
    → allocated l ≡ m
    → allocated (block ∷ l) ≡ (if block.free then m else block ∷ m)
unfolding allocated
allocated-cons block l m e = ap (λ l. if block.free then l else block ∷ l) e

pub free_if-Tiles :
    {end : ℕ} (hit : Bool) (block : HeapBlock) (rest : List HeapBlock)
    → Tiles 0 end block rest
    → Tiles 0 end (free_if hit block) rest
free_if-Tiles true block rest t = freed-Tiles block rest t
free_if-Tiles false block rest t = t

pub free_if-addr : (hit : Bool) (block : HeapBlock) → (free_if hit block).addr ≡ block.addr
free_if-addr true block = refl
free_if-addr false block = refl

pub free_if-size : (hit : Bool) (block : HeapBlock) → (free_if hit block).size ≡ block.size
free_if-size true block = refl
free_if-size false block = refl

pub free_if_hit : (hit : Bool) (block : HeapBlock) → hit ≡ true → (free_if hit block).free ≡ true
free_if_hit true block e = refl
free_if_hit false block e = cc

-- A mark that the address calls for changes nothing of the blocks elsewhere.
pub free_if-without :
    (addr : ℕ) (hit : Bool) (block : HeapBlock) (rest : List HeapBlock)
    → (hit ≡ true → (block.addr == addr) ≡ true)
    → without addr (allocated (free_if hit block ∷ rest)) ≡ without addr (allocated (block ∷ rest))
unfolding allocated
free_if-without addr false block rest h = refl
free_if-without addr true block rest h =
    sym (without-head addr block rest ∙ by_test block.free (block.addr == addr) (h refl))
  where
    by_test :
        (x y : Bool)
        → y ≡ true
        → (if x || y then without addr (allocated rest) else block ∷ without addr (allocated rest))
          ≡ without addr (allocated rest)
    by_test true y e = refl
    by_test false y e = rw e refl
