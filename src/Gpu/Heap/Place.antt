-- ===== src/Gpu/Heap/Place.antt =====
-- The block that an allocation takes: what it makes of a list of blocks that tile the heap.
use upcie.Prelude.{
  ℕ, ◌+◌, ◌^◌, ◌≤◌, ◌<◌, ◌≡◌, neb, Bool, Bool-cases, true, false, refl, arith, ap, sym, subst, inl,
  inr, ◌⊎◌, List, [], ◌∷◌, some, none, enomem, ℕ_discrete,
}
use upcie.Prelude.Bits.{sub64}
use upcie.Hostmem.Types.{HeapBlock, Alloced}
use upcie.Hostmem.Heap.Tiles.{Tiles, last, more, allocated, end-le}
use upcie.Hostmem.Heap.Inserted.{Inserted, allocated_free}
use upcie.Gpu.Heap.{AllocArgs, place, fits, straddles, remainder, failed}

-- What an allocation from the list of `block` and `rest` leaves: a tiling of the same memory, with the
-- allocated blocks of before, and, if it succeeds, one more of the size asked for, in which no
-- element lies across the end of a device page.
pub record Good (args : AllocArgs) (end : ℕ) (block : HeapBlock) (rest : List HeapBlock)
    (r : Alloced) : Type 0 where
  pub head : HeapBlock
  pub tail : List HeapBlock
  pub list : r.list ≡ head ∷ tail
  pub starts : head.addr ≡ block.addr
  pub tiles : Tiles 0 end head tail
  pub outcome :
      ((r.ptr ≡ none)
        × (r.errno ≡ some enomem)
        × (allocated (head ∷ tail) ≡ allocated (block ∷ rest)))
      ⊎ ((p : ℕ) × (r.ptr ≡ some p)
          × Inserted
              (record { addr = p; size = args.total_size; free = false })
              (allocated (block ∷ rest))
              (allocated (head ∷ tail))
          × (straddles args (record { addr = p; size = args.total_size; free = false }) ≡ false))

module _ (args : AllocArgs) {end : ℕ} (below : end < 2 ^ 64) (some_elem : 1 ≤ args.elem_size)
    (one_fits : args.elem_size ≤ args.total_size) where
  -- What is left of a block still ends where the block did.
  pub remainder-Tiles :
      (used : ℕ) (block : HeapBlock) (rest : List HeapBlock)
      → used < block.size
      → Tiles 0 end block rest
      → Tiles 0 end (remainder args used block) rest
  remainder-Tiles used block [] h (last _ e) =
      last (remainder args used block) (omega (arith, h, e))
  remainder-Tiles used block (next ∷ rest) h (more _ _ _ e above t) =
      let reach : next.addr ≤ end = omega (arith, end-le next rest t) in
      more (remainder args used block) next rest (omega (arith, h, e, reach))
        (omega (arith, h, e, reach)) t

  pub remainder-addr :
      (used : ℕ) (block : HeapBlock) (rest : List HeapBlock)
      → used < block.size
      → Tiles 0 end block rest
      → (remainder args used block).addr ≡ block.addr + used
  remainder-addr used block rest h t = omega (arith, h, end-le block rest t)

  -- A block cut short, with what is left of it after it.
  pub cut-Tiles :
      (used : ℕ) (block : HeapBlock) (rest : List HeapBlock) (mark : Bool)
      → 1 ≤ used
      → used < block.size
      → Tiles 0 end block rest
      → Tiles 0 end (record block { size = used; free = mark }) (remainder args used block ∷ rest)
  cut-Tiles used block rest mark p h t =
      let at = remainder-addr used block rest h t in
      more (record block { size = used; free = mark }) (remainder args used block) rest
        (omega (arith, at)) (omega (arith, at, p)) (remainder-Tiles used block rest h t)

  pub marked-Tiles :
      (block : HeapBlock) (rest : List HeapBlock) (mark : Bool)
      → Tiles 0 end block rest
      → Tiles 0 end (record block { free = mark }) rest
  marked-Tiles block [] mark (last _ e) = last (record block { free = mark }) e
  marked-Tiles block (next ∷ rest) mark (more _ _ _ e above t) =
      more (record block { free = mark }) next rest e above t

  -- A loop that stops without a block.
  pub failed-Good :
      (block : HeapBlock) (rest : List HeapBlock)
      → Tiles 0 end block rest
      → Good args end block rest (failed args (block ∷ rest))
  failed-Good block rest t = record {
    head = block;
    tail = rest;
    list = refl;
    starts = refl;
    tiles = t;
    outcome = inl (refl, refl, refl);
  }

  pub place-Good :
      (calls : ℕ) (block : HeapBlock) (rest : List HeapBlock)
      → Tiles 0 end block rest
      → fits args block ≡ true
      → straddles args block ≡ false
      → Good args end block rest (place args calls block rest)
  unfolding place allocated
  place-Good calls block rest t fit inside =
      let free : block.free ≡ true = ground (arith, fit) in
      let room : args.total_size ≤ block.size = ground (arith, fit) in
      let size : block.size < 2 ^ 64 = omega (arith, end-le block rest t) in
      elim (ℕ_discrete block.size args.total_size) [
        | yes whole ↦
            let none_left : neb (sub64 block.size args.total_size) 0 ≡ false =
              ground (arith, whole, size) in
            let returns : place args calls block rest ≡ record {
              ptr = some block.addr;
              errno = none;
              list = record block { free = false } ∷ rest;
            } =
              rw none_left refl in
            subst (λ r. Good args end block rest r) (sym returns)
              (record {
                head = record block { free = false };
                tail = rest;
                list = refl;
                starts = refl;
                tiles = marked-Tiles block rest false t;
                outcome = inr (
                  block.addr,
                  refl,
                  record {
                    before = [];
                    after = allocated rest;
                    old_split = allocated_free block rest free;
                    new_split =
                        ap
                          (λ (n : ℕ).
                            record { addr = block.addr; size = n; free = false } ∷ allocated rest)
                          whole;
                  },
                  inside,
                );
              })
        | no more_room ↦ elim (Bool-cases (args.malloc calls)) [
          | inl given ↦
              let some_left : neb (sub64 block.size args.total_size) 0 ≡ true =
                ground (arith, more_room, size, room) in
              let returns : place args calls block rest ≡ record {
                ptr = some block.addr;
                errno = none;
                list =
                    record block { size = args.total_size; free = false }
                    ∷ remainder args args.total_size block
                    ∷ rest;
              } =
                rw (some_left, given) refl in
              subst (λ r. Good args end block rest r) (sym returns)
                (record {
                  head = record block { size = args.total_size; free = false };
                  tail = remainder args args.total_size block ∷ rest;
                  list = refl;
                  starts = refl;
                  tiles =
                      cut-Tiles args.total_size block rest false
                        (omega (arith, some_elem, one_fits)) (omega (arith, room, more_room)) t;
                  outcome = inr (
                    block.addr,
                    refl,
                    record {
                      before = [];
                      after = allocated rest;
                      old_split = allocated_free block rest free;
                      new_split = refl;
                    },
                    inside,
                  );
                })
          | inr refused ↦
              let some_left : neb (sub64 block.size args.total_size) 0 ≡ true =
                ground (arith, more_room, size, room) in
              let returns : place args calls block rest ≡ failed args (block ∷ rest) =
                rw (some_left, refused) refl in
              subst (λ r. Good args end block rest r) (sym returns) (failed-Good block rest t)
        ]
      ]
