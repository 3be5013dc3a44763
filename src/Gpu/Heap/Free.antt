-- ===== src/Gpu/Heap/Free.antt =====
-- Releasing a block of a heap that its blocks tile.
use upcie.Prelude.{
  ℕ, ◌+◌, ◌^◌, ◌<◌, ◌≡◌, ◌≢◌, ◌==◌, ◌&&◌, ◌||◌, not, Bool, true, false, refl, arith, ap, sym, ◌∙◌,
  subst, inl, inr, List, [], ◌∷◌, if◌then◌else◌, Bool-cases,
}
use upcie.Hostmem.Types.{HeapBlock}
use upcie.Hostmem.Heap.Tiles.{Tiles, more, IsCoalesced, one, cons, allocated, merge-Tiles}
use upcie.Hostmem.Heap.Free.{without, without-head, no_test}
use upcie.Gpu.Types.{CudamemHeap}
use upcie.Gpu.Heap.{absorb, free_if, free_loop, free_list, block_free}
use upcie.Hostmem.Heap.Inserted.{allocated_free}
use upcie.Gpu.Heap.Mark.{
  absorb-merge, absorb-addr, absorb-free, free_if_free, allocated-cons, free_if-Tiles, free_if-addr,
  free_if-size, free_if-without,
}

module _ (vaddr : ℕ) where
  -- The block and the one after it, as a round of the loop marks them.
  abbrev marked : HeapBlock → HeapBlock
  marked block = free_if (block.addr == vaddr) block

  abbrev after : HeapBlock → HeapBlock → HeapBlock
  after block next = free_if (not (block.addr == vaddr) && next.addr == vaddr) next

  free_loop-absorb :
      (block next : HeapBlock) (rest : List HeapBlock)
      → ((marked block).free && (after block next).free) ≡ true
      → free_loop vaddr block (next ∷ rest)
        ≡ free_loop vaddr (absorb (marked block) (after block next)) rest
  unfolding free_loop
  free_loop-absorb block next rest both = ground (arith, both)

  free_loop_keep :
      (block next : HeapBlock) (rest : List HeapBlock)
      → ((marked block).free && (after block next).free) ≡ false
      → free_loop vaddr block (next ∷ rest) ≡ marked block ∷ free_loop vaddr (after block next) rest
  unfolding free_loop
  free_loop_keep block next rest apart = ground (arith, apart)

  -- The next round finds a block as this one marked it.
  after-marked :
      (block next : HeapBlock)
      → block.addr < next.addr
      → (marked (after block next)).free ≡ (after block next).free
  after-marked block next above =
      by_tests (block.addr == vaddr) (next.addr == vaddr) next refl apart
    where
      apart : ((block.addr == vaddr) && (next.addr == vaddr)) ≡ false
      apart = ground (arith, above)

      by_tests :
          (x y : Bool) (next : HeapBlock)
          → y ≡ (next.addr == vaddr)
          → (x && y) ≡ false
          → (marked (free_if (not x && y) next)).free ≡ (free_if (not x && y) next).free
      by_tests true true next e a = cc
      by_tests true false next e a = rw (← e) refl
      by_tests false true next e a = rw (← e) refl
      by_tests false false next e a = rw (← e) refl

  -- What the loop leaves.
  pub record Freed (end : ℕ) (block : HeapBlock) (rest : List HeapBlock) : Type 0 where
    pub head : HeapBlock
    pub tail : List HeapBlock
    pub returns : free_loop vaddr block rest ≡ head ∷ tail
    pub starts : head.addr ≡ block.addr
    pub freedom : head.free ≡ (marked block).free
    pub tiles : Tiles 0 end head tail
    pub coalesced : IsCoalesced head tail
    pub gone : allocated (head ∷ tail) ≡ without vaddr (allocated (block ∷ rest))

  -- A block that its mark frees is at the address or was free before.
  marked-without :
      (block : HeapBlock) (rest : List HeapBlock)
      → without vaddr (allocated (marked block ∷ rest)) ≡ without vaddr (allocated (block ∷ rest))
  marked-without block rest = free_if-without vaddr (block.addr == vaddr) block rest (λ h. h)

  after-without :
      (block next : HeapBlock) (rest : List HeapBlock)
      → without vaddr (allocated (after block next ∷ rest))
        ≡ without vaddr (allocated (next ∷ rest))
  after-without block next rest =
      free_if-without vaddr (not (block.addr == vaddr) && next.addr == vaddr) next rest
        (λ h. ground (arith, h))

  -- A marked block stays among the allocated ones unless it is free.
  marked-allocated :
      (block : HeapBlock) (rest : List HeapBlock)
      → without vaddr (allocated (block ∷ rest)) ≡ (
          if (marked block).free
          then without vaddr (allocated rest)
          else marked block ∷ without vaddr (allocated rest))
  marked-allocated block rest =
      sym (marked-without block rest)
      ∙ without-head vaddr (marked block) rest
      ∙ by_tests (block.addr == vaddr)
          (ap (λ (a : ℕ). a == vaddr) (free_if-addr (block.addr == vaddr) block))
    where
      by_tests :
          (x : Bool)
          → ((free_if x block).addr == vaddr) ≡ x
          → (if (free_if x block).free || (free_if x block).addr == vaddr
              then without vaddr (allocated rest)
              else free_if x block ∷ without vaddr (allocated rest))
            ≡ (if (free_if x block).free
                then without vaddr (allocated rest)
                else free_if x block ∷ without vaddr (allocated rest))
      by_tests true e = refl
      by_tests false e =
          no_test block.free (block.addr == vaddr) block (without vaddr (allocated rest)) e

  -- Two blocks that the round finds free, made one.
  absorbed-without :
      (block next : HeapBlock) (rest : List HeapBlock)
      → (marked block).free ≡ true
      → (after block next).free ≡ true
      → without vaddr (allocated (absorb (marked block) (after block next) ∷ rest))
        ≡ without vaddr (allocated (block ∷ next ∷ rest))
  absorbed-without block next rest first_free second_free =
      ap (λ l. without vaddr l)
        (allocated_free (absorb (marked block) (after block next)) rest
            (absorb-free (marked block) (after block next) ∙ first_free)
          ∙ sym (allocated_free (after block next) rest second_free))
      ∙ after-without block next rest
      ∙ sym (marked-allocated block (next ∷ rest) ∙ rw first_free refl)

  -- The loop over a tiling of memory below 2 ^ 64.
  free_loop-Freed :
      {end : ℕ} (block : HeapBlock) (rest : List HeapBlock)
      → end < 2 ^ 64
      → Tiles 0 end block rest
      → Freed end block rest
  free_loop-Freed block [] h t = record {
    head = marked block;
    tail = [];
    returns = unfold free_loop in refl;
    starts = free_if-addr (block.addr == vaddr) block;
    freedom = refl;
    tiles = free_if-Tiles (block.addr == vaddr) block [] t;
    coalesced = one (marked block);
    gone =
        allocated-cons (marked block) [] (without vaddr (allocated []))
          (unfold allocated without in refl)
        ∙ sym (marked-allocated block []);
  }
  free_loop-Freed {end = end} block (next ∷ rest) h (more _ _ _ e above t) =
      let here = free_if-addr (block.addr == vaddr) block in
      let there = free_if-addr (not (block.addr == vaddr) && next.addr == vaddr) next in
      let t' : Tiles 0 end (after block next) rest =
        free_if-Tiles (not (block.addr == vaddr) && next.addr == vaddr) next rest t in
      let adjacent : (marked block).addr + 0 + (marked block).size ≡ (after block next).addr =
        omega (arith, here, there, e, free_if-size (block.addr == vaddr) block) in
      let order : (marked block).addr < (after block next).addr =
        omega (arith, here, there, above) in
      elim (Bool-cases ((marked block).free && (after block next).free)) [
        | inl both ↦
            let joined : HeapBlock = absorb (marked block) (after block next) in
            let c = free_loop-Freed joined rest h (
              subst (λ b. Tiles 0 end b rest) (sym (absorb-merge (marked block) (after block next)))
                (merge-Tiles 0 end (marked block) (after block next) rest h adjacent order t')) in
            let first_free : (marked block).free ≡ true = ground (arith, both) in
            let joined_free : joined.free ≡ true =
              absorb-free (marked block) (after block next) ∙ first_free in
            let second_free : (after block next).free ≡ true = ground (arith, both) in
            record {
              head = c.head;
              tail = c.tail;
              returns = free_loop-absorb block next rest both ∙ c.returns;
              starts = c.starts ∙ absorb-addr (marked block) (after block next) ∙ here;
              freedom =
                  c.freedom
                  ∙ free_if_free (joined.addr == vaddr) joined joined_free
                  ∙ sym first_free;
              tiles = c.tiles;
              coalesced = c.coalesced;
              gone = c.gone ∙ absorbed-without block next rest first_free second_free;
            }
        | inr apart ↦
            let c = free_loop-Freed (after block next) rest h t' in
            record {
              head = marked block;
              tail = c.head ∷ c.tail;
              returns = free_loop_keep block next rest apart ∙ ap (λ l. marked block ∷ l) c.returns;
              starts = here;
              freedom = refl;
              tiles =
                  more (marked block) c.head c.tail (adjacent ∙ sym c.starts)
                    (omega (arith, order, c.starts)) c.tiles;
              coalesced =
                  cons (marked block) c.head c.tail
                    (rw (c.freedom, after-marked block next above) apart) c.coalesced;
              gone =
                  allocated-cons (marked block) (c.head ∷ c.tail) _
                    (c.gone ∙ after-without block next rest)
                  ∙ sym (marked-allocated block (next ∷ rest));
            }
      ]

-- What releasing a block leaves: a heap with the same memory tiled, no two free blocks side by side,
-- and the allocated blocks of before but the one released.
pub record Released (heap : CudamemHeap) (end vaddr : ℕ) (start : ℕ) (heap' : CudamemHeap)
    : Type 0 where
  pub first : HeapBlock
  pub rest : List HeapBlock
  pub list : heap'.freelist ≡ first ∷ rest
  pub starts : first.addr ≡ start
  pub tiles : Tiles 0 end first rest
  pub coalesced : IsCoalesced first rest
  pub gone : allocated (first ∷ rest) ≡ without vaddr (allocated heap.freelist)

-- Any address but 0 can be released on a heap that its blocks tile, below 2 ^ 64: the blocks then tile
-- the same memory, no two free ones side by side, and the allocated blocks are those of before but the
-- one at the address, if there is one.
pub gpu_block_free-Released :
    (heap : CudamemHeap) (end vaddr : ℕ) (block : HeapBlock) (rest : List HeapBlock)
    → end < 2 ^ 64
    → vaddr ≢ 0
    → heap.freelist ≡ block ∷ rest
    → Tiles 0 end block rest
    → Released heap end vaddr block.addr (block_free heap vaddr)
unfolding block_free free_list
gpu_block_free-Released heap end vaddr block rest h some_address list t =
    let c = free_loop-Freed vaddr block rest h t in
    let returns : block_free heap vaddr ≡ record heap { freelist = free_list vaddr heap.freelist } =
      ground (arith, some_address) in
    subst (λ x. Released heap end vaddr block.addr x) (sym returns)
      (record {
        first = c.head;
        rest = c.tail;
        list = ap (free_list vaddr) list ∙ c.returns;
        starts = c.starts;
        tiles = c.tiles;
        coalesced = c.coalesced;
        gone = c.gone ∙ ap (λ l. without vaddr (allocated l)) (sym list);
      })
