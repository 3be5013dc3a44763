-- ===== src/Hostmem/Heap/Allocate.antt =====
-- An allocation from a heap that its blocks tile.
use native.Mathlib.Nat.{mod-lt}
use upcie.Prelude.{
  ℕ, zero, suc, ◌+◌, ◌-◌, ◌%◌, ◌^◌, ◌≤◌, ◌<◌, ◌≡◌, ltb, Bool, Bool-cases, true, false, refl, arith,
  ap, sym, subst, ◌∙◌, inl, inr, ◌⊎◌, List, [], ◌∷◌, some, none, if◌then◌else◌, enomem,
}
use upcie.Hostmem.Types.{HeapBlock, Alloced}
use upcie.Hostmem.Heap.Tiles.{Tiles, last, more, allocated, end-le}
use upcie.Hostmem.Heap.Inserted.{Inserted, Inserted-if, if_true, allocated_free}
use upcie.Hostmem.Heap.Alloc.{
  HeapArgs, sizeof_block, hpage_remaining, disalignment, fits, straddles, newblock, failed, behind,
  place, alloc_loop, rounds,
}

-- What an allocation from the list of `block` and `rest` leaves: a tiling of the same memory, with the
-- allocated blocks of before, and, if it succeeds, one more, which has room for what was asked for.
-- No free block among these has so many bytes.
pub data NoneFit (bytes : ℕ) : List HeapBlock → Type 0 where
  none_left : NoneFit bytes []
  too_small :
      (block : HeapBlock) (rest : List HeapBlock)
      → (block.free ≡ false) ⊎ (block.size < bytes)
      → NoneFit bytes rest
      → NoneFit bytes (block ∷ rest)

pub record Good (args : HeapArgs) (end : ℕ) (block : HeapBlock) (rest : List HeapBlock)
    (r : Alloced) : Type 0 where
  pub head : HeapBlock
  pub tail : List HeapBlock
  pub list : r.list ≡ head ∷ tail
  pub starts : head.addr ≡ block.addr
  pub tiles : Tiles args.alignment end head tail
  pub outcome :
      ((r.ptr ≡ none)
        × (r.errno ≡ some enomem)
        × (allocated (head ∷ tail) ≡ allocated (block ∷ rest))
        × NoneFit (args.total_size + args.alignment) (head ∷ tail))
      ⊎ ((fresh : HeapBlock) × (r.ptr ≡ some (fresh.addr + args.alignment))
          × (fresh.free ≡ false)
          × (args.total_size ≤ fresh.size)
          × (block.addr ≤ fresh.addr)
          × (fresh.addr + args.alignment + args.total_size ≤ end)
          × Inserted fresh (allocated (block ∷ rest)) (allocated (head ∷ tail)))

module _ (args : HeapArgs) {end : ℕ} (below : end < 2 ^ 64) (some_elem : 1 ≤ args.elem_size)
    (one_fits : args.elem_size ≤ args.total_size) (described : 1 ≤ args.alignment)
    (room : args.total_size + args.alignment < 2 ^ 64) where
  newblock-addr :
      (used : ℕ) (block : HeapBlock) (rest : List HeapBlock)
      → args.alignment + used ≤ block.size
      → Tiles args.alignment end block rest
      → (newblock args used block).addr ≡ block.addr + args.alignment + used
  newblock-addr used block rest h t = omega (arith, h, below, end-le block rest t)

  newblock-size :
      (used : ℕ) (block : HeapBlock) (rest : List HeapBlock)
      → args.alignment + used ≤ block.size
      → Tiles args.alignment end block rest
      → (newblock args used block).size + args.alignment + used ≡ block.size
  newblock-size used block rest h t = omega (arith, h, below, end-le block rest t)

  -- What is left of a block still ends where the block did.
  newblock-Tiles :
      (used : ℕ) (block : HeapBlock) (rest : List HeapBlock)
      → args.alignment + used ≤ block.size
      → Tiles args.alignment end block rest
      → Tiles args.alignment end (newblock args used block) rest
  newblock-Tiles used block [] h (last _ e) =
      let at = newblock-addr used block [] h (last block e) in
      let sized = newblock-size used block [] h (last block e) in
      last (newblock args used block) (omega (arith, at, sized, e))
  newblock-Tiles used block (next ∷ rest) h (more _ _ _ e above t) =
      let at = newblock-addr used block (next ∷ rest) h (more block next rest e above t) in
      let sized = newblock-size used block (next ∷ rest) h (more block next rest e above t) in
      more (newblock args used block) next rest (omega (arith, at, sized, e))
        (omega (arith, at, sized, e, described)) t

  -- A block cut short, with what is left of it after it.
  cut-Tiles :
      (used : ℕ) (block : HeapBlock) (rest : List HeapBlock) (mark : Bool)
      → args.alignment + used ≤ block.size
      → Tiles args.alignment end block rest
      → Tiles args.alignment end
          (record block { size = used; free = mark })
          (newblock args used block ∷ rest)
  cut-Tiles used block rest mark h t =
      let at = newblock-addr used block rest h t in
      more (record block { size = used; free = mark }) (newblock args used block) rest
        (omega (arith, at)) (omega (arith, at, described)) (newblock-Tiles used block rest h t)

  taken-Tiles :
      (block : HeapBlock) (rest : List HeapBlock)
      → Tiles args.alignment end block rest
      → Tiles args.alignment end (record block { free = false }) rest
  taken-Tiles block [] (last _ e) = last (record block { free = false }) e
  taken-Tiles block (next ∷ rest) (more _ _ _ e above t) =
      more (record block { free = false }) next rest e above t

  -- A loop that stops without a block.
  failed-Good :
      (block : HeapBlock) (rest : List HeapBlock)
      → Tiles args.alignment end block rest
      → NoneFit (args.total_size + args.alignment) (block ∷ rest)
      → Good args end block rest (failed args (block ∷ rest))
  failed-Good block rest t small = record {
    head = block;
    tail = rest;
    list = refl;
    starts = refl;
    tiles = t;
    outcome = inl (refl, refl, refl, small);
  }

  fits-gt :
      (block : HeapBlock)
      → fits args block ≡ false
      → (block.free ≡ false) ⊎ (block.size < args.total_size + args.alignment)
  fits-gt block small = elim (Bool-cases block.free) [
    | inl free ↦ inr (ground (arith, small, free, room))
    | inr held ↦ inl held
  ]

  fits-le :
      (block : HeapBlock) → fits args block ≡ true → args.total_size + args.alignment ≤ block.size
  fits-le block fit = ground (arith, fit, room)

  -- The block given, of one size or the other.
  given-Good :
      (block : HeapBlock) (rest tail : List HeapBlock) (size : ℕ)
      → Tiles args.alignment end block rest
      → fits args block ≡ true
      → args.total_size ≤ size
      → Tiles args.alignment end (record block { size = size; free = false }) tail
      → allocated tail ≡ allocated rest
      → Good args end block rest (record {
        ptr = some (block.addr + args.alignment);
        errno = none;
        list = record block { size = size; free = false } ∷ tail;
      })
  unfolding allocated
  given-Good block rest tail size t fit enough tiles same =
      let free : block.free ≡ true = ground (arith, fit) in
      record {
        head = record block { size = size; free = false };
        tail = tail;
        list = refl;
        starts = refl;
        tiles = tiles;
        outcome = inr (
          record block { size = size; free = false },
          refl,
          refl,
          enough,
          omega arith,
          omega (arith, fits-le block fit, end-le block rest t),
          record {
            before = [];
            after = allocated rest;
            old_split = allocated_free block rest free;
            new_split = ap (λ l. record block { size = size; free = false } ∷ l) same;
          },
        );
      }

  place-Good :
      (block : HeapBlock) (rest : List HeapBlock)
      → Tiles args.alignment end block rest
      → fits args block ≡ true
      → Good args end block rest (place args block rest)
  unfolding place
  place-Good block rest t fit =
      let roomy = fits-le block fit in
      let at : (block.addr + args.alignment) % 2 ^ 64 ≡ block.addr + args.alignment =
        omega (arith, roomy, below, end-le block rest t) in
      elim (Bool-cases (ltb sizeof_block (newblock args args.total_size block).size)) [
        | inl split ↦
            let returns : place args block rest ≡ record {
              ptr = some (block.addr + args.alignment);
              errno = none;
              list =
                  record block { size = args.total_size; free = false }
                  ∷ newblock args args.total_size block
                  ∷ rest;
            } =
              rw (split, at) refl in
            subst (λ r. Good args end block rest r) (sym returns)
              (given-Good block rest (newblock args args.total_size block ∷ rest) args.total_size t
                fit (omega arith)
                (cut-Tiles args.total_size block rest false (omega (arith, roomy)) t)
                (allocated_free (newblock args args.total_size block) rest refl))
        | inr whole ↦
            let returns : place args block rest ≡ record {
              ptr = some (block.addr + args.alignment);
              errno = none;
              list = record block { free = false } ∷ rest;
            } =
              rw (whole, at) refl in
            subst (λ r. Good args end block rest r) (sym returns)
              (given-Good block rest rest block.size t fit (omega (arith, roomy))
                (taken-Tiles block rest t) refl)
      ]

  -- A block that stays in front of what a later round leaves.
  behind-Good :
      (block front next : HeapBlock) (rest old : List HeapBlock) (r : Alloced)
      → front.addr ≡ block.addr
      → block.addr + args.alignment + front.size ≡ next.addr
      → ((l : List HeapBlock)
          → allocated (front ∷ l) ≡ (if block.free then allocated l else block ∷ allocated l))
      → allocated (block ∷ old)
        ≡ (if block.free then allocated (next ∷ rest) else block ∷ allocated (next ∷ rest))
      → (front.free ≡ false) ⊎ (front.size < args.total_size + args.alignment)
      → Good args end next rest r
      → Good args end block old (record r { list = front ∷ r.list })
  behind-Good block front next rest old r at follows mine ours small g = record {
    head = front;
    tail = g.head ∷ g.tail;
    list = ap (λ l. front ∷ l) g.list;
    starts = at;
    tiles =
        more front g.head g.tail (omega (arith, at, follows, g.starts))
          (omega (arith, at, follows, g.starts, described)) g.tiles;
    outcome = elim g.outcome [
      | inl (null, code, same, all) ↦ inl (
        null,
        code,
        mine (g.head ∷ g.tail) ∙ ap (λ l. if block.free then l else block ∷ l) same ∙ sym ours,
        too_small front (g.head ∷ g.tail) small all,
      )
      | inr (fresh, given, used, enough, above, inside, ins) ↦ inr (
        fresh,
        given,
        used,
        enough,
        omega (arith, above, follows),
        inside,
        let kept = Inserted-if block.free block ins in
            record {
              before = kept.before;
              after = kept.after;
              old_split = ours ∙ kept.old_split;
              new_split = mine (g.head ∷ g.tail) ∙ kept.new_split;
            },
      )
    ];
  }

  rounds-pos : (block : HeapBlock) (rest : List HeapBlock) → 1 ≤ rounds block rest
  unfolding rounds
  rounds-pos block [] = omega arith
  rounds-pos block (next ∷ rest) = omega arith

  rounds-lt :
      (block smaller : HeapBlock) (rest : List HeapBlock)
      → smaller.size < block.size
      → rounds smaller rest < rounds block rest
  unfolding rounds
  rounds-lt block smaller [] h = omega (arith, h)
  rounds-lt block smaller (next ∷ rest) h = omega (arith, h)

  -- The branches of a round.
  module _ (fuel : ℕ) (block : HeapBlock) where
    round_skip :
        (rest : List HeapBlock)
        → fits args block ≡ true
        → straddles args block ≡ true
        → alloc_loop args (suc fuel) block rest
          ≡ behind args
              (record block { size = disalignment args block })
              (alloc_loop args fuel (newblock args (disalignment args block) block) rest)
    unfolding alloc_loop
    round_skip rest fit across = ground (arith, fit, across)

    round-place :
        (rest : List HeapBlock)
        → fits args block ≡ true
        → straddles args block ≡ false
        → alloc_loop args (suc fuel) block rest ≡ some (place args block rest)
    unfolding alloc_loop
    round-place rest fit inside = ground (arith, fit, inside)

    round_end :
        fits args block ≡ false
        → alloc_loop args (suc fuel) block [] ≡ some (failed args (block ∷ []))
    unfolding alloc_loop
    round_end small = ground (arith, small)

    round_next :
        (next : HeapBlock) (rest : List HeapBlock)
        → fits args block ≡ false
        → alloc_loop args (suc fuel) block (next ∷ rest)
          ≡ behind args block (alloc_loop args fuel next rest)
    unfolding alloc_loop
    round_next next rest small = ground (arith, small)

  -- A round that passes a block by.
  next_round :
      (fuel : ℕ) (block : HeapBlock) (rest : List HeapBlock)
      → fits args block ≡ false
      → rounds block rest ≤ suc fuel
      → Tiles args.alignment end block rest
      → ((next : HeapBlock) (later : List HeapBlock)
          → rounds next later ≤ fuel
          → Tiles args.alignment end next later
          → (r : Alloced) × (alloc_loop args fuel next later ≡ some r) × Good args end next later r)
      → (r : Alloced) × (alloc_loop args (suc fuel) block rest ≡ some r)
        × Good args end block rest r
  unfolding rounds allocated
  next_round fuel block [] small enough t ih = (
    failed args (block ∷ []),
    round_end fuel block small,
    failed-Good block [] t (too_small block [] (fits-gt block small) none_left),
  )
  next_round fuel block (next ∷ rest) small enough (more _ _ _ e above t) ih =
      let (r, returns, g) = ih next rest (omega (arith, enough)) t in
      (
        record r { list = block ∷ r.list },
        round_next fuel block next rest small ∙ ap (behind args block) returns,
        behind-Good block block next rest (next ∷ rest) r refl e (λ l. refl) refl
            (fits-gt block small) g,
      )

  -- The loop ends within the rounds given, with a good result.
  pub alloc_loop-Good :
      (fuel : ℕ) (block : HeapBlock) (rest : List HeapBlock)
      → rounds block rest ≤ fuel
      → Tiles args.alignment end block rest
      → (r : Alloced) × (alloc_loop args fuel block rest ≡ some r) × Good args end block rest r
  alloc_loop-Good zero block rest enough t = absurd (omega (arith, rounds-pos block rest, enough))
  alloc_loop-Good (suc fuel) block rest enough t = elim (Bool-cases (fits args block)) [
    | inl fit ↦ elim (Bool-cases (straddles args block)) [
      | inl across ↦
          let used : ℕ = disalignment args block in
          let free : block.free ≡ true = ground (arith, fit) in
          let roomy = fits-le block fit in
          let less : args.alignment + used ≤ block.size = omega (
            arith,
            roomy,
            one_fits,
            mod-lt ((hpage_remaining args block + 2 ^ 64 - args.alignment) % 2 ^ 64) some_elem,
          ) in
          let at = newblock-addr used block rest less t in
          let sized = newblock-size used block rest less t in
          let (r, e, g) =
            alloc_loop-Good fuel (newblock args used block) rest
              (omega (
                arith,
                enough,
                rounds-lt block (newblock args used block) rest (omega (arith, sized, described)),
              ))
              (newblock-Tiles used block rest less t) in
          (
            record r { list = record block { size = used } ∷ r.list },
            round_skip fuel block rest fit across
                ∙ (ap (behind args (record block { size = used })) e),
            behind-Good block (record block { size = used }) (newblock args used block) rest rest r
                refl (omega (arith, at))
                (λ l. allocated_free (record block { size = used }) l free ∙ sym (if_true _ _ free))
                (allocated_free block rest free
                  ∙ sym (if_true _ _ free ∙ allocated_free (newblock args used block) rest refl))
                (inr (
                  omega (
                    arith,
                    one_fits,
                    mod-lt ((hpage_remaining args block + 2 ^ 64 - args.alignment) % 2 ^ 64)
                        some_elem,
                  )))
                g,
          )
      | inr inside ↦ (
        place args block rest,
        round-place fuel block rest fit inside,
        place-Good block rest t fit,
      )
    ]
    | inr small ↦
        next_round fuel block rest small enough t
          (λ next later h u. alloc_loop-Good fuel next later h u)
  ]
