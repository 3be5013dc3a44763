-- ===== src/Gpu/Heap/Alloc.antt =====
-- An allocation from a heap that its blocks tile.
use native.Mathlib.Nat.{mod-lt}
use upcie.Prelude.{
  ℕ, zero, suc, ◌+◌, ◌^◌, ◌≤◌, ◌<◌, ◌≡◌, Bool-cases, true, false, refl, arith, ap, sym, ◌∙◌, inl,
  inr, List, [], ◌∷◌, some, if◌then◌else◌,
}
use upcie.Hostmem.Types.{Alloced, HeapBlock}
use upcie.Hostmem.Heap.Tiles.{Tiles, more, allocated, end-le}
use upcie.Gpu.Heap.{
  AllocArgs, alloc_loop, place, rounds, dpage_remaining, disalignment, fits, straddles, remainder,
  failed, behind,
}
use upcie.Hostmem.Heap.Inserted.{Inserted-if, if_true, allocated_free}
use upcie.Gpu.Heap.Place.{Good, remainder-addr, remainder-Tiles, failed-Good, place-Good}

module _ (args : AllocArgs) {end : ℕ} (below : end < 2 ^ 64) (some_elem : 1 ≤ args.elem_size)
    (one_fits : args.elem_size ≤ args.total_size) where
  -- A block that stays in front of what a later round leaves.
  behind-Good :
      (block front next : HeapBlock) (rest old : List HeapBlock) (r : Alloced)
      → front.addr ≡ block.addr
      → block.addr + front.size ≡ next.addr
      → block.addr < next.addr
      → ((l : List HeapBlock)
          → allocated (front ∷ l) ≡ (if block.free then allocated l else block ∷ allocated l))
      → allocated (block ∷ old)
        ≡ (if block.free then allocated (next ∷ rest) else block ∷ allocated (next ∷ rest))
      → Good args end next rest r
      → Good args end block old (record r { list = front ∷ r.list })
  behind-Good block front next rest old r at follows above mine ours g = record {
    head = front;
    tail = g.head ∷ g.tail;
    list = ap (λ l. front ∷ l) g.list;
    starts = at;
    tiles =
        more front g.head g.tail (omega (arith, at, follows, g.starts))
          (omega (arith, at, above, g.starts)) g.tiles;
    outcome = elim g.outcome [
      | inl (null, code, same) ↦ inl (
        null,
        code,
        mine (g.head ∷ g.tail) ∙ ap (λ l. if block.free then l else block ∷ l) same ∙ sym ours,
      )
      | inr (p, some_p, ins, inside) ↦ inr (
        p,
        some_p,
        let kept = Inserted-if block.free block ins in
            record {
              before = kept.before;
              after = kept.after;
              old_split = ours ∙ kept.old_split;
              new_split = mine (g.head ∷ g.tail) ∙ kept.new_split;
            },
        inside,
      )
    ];
  }

  -- The branches of a round.
  module _ (fuel calls : ℕ) (block : HeapBlock) where
    round_skip :
        (rest : List HeapBlock)
        → fits args block ≡ true
        → straddles args block ≡ true
        → args.malloc calls ≡ true
        → alloc_loop args (suc fuel) calls block rest
          ≡ behind args
              (record block { size = disalignment args block })
              (alloc_loop args fuel
                (calls + 1)
                (remainder args (disalignment args block) block)
                rest)
    unfolding alloc_loop
    round_skip rest fit across given = ground (arith, fit, across, given)

    round_refused :
        (rest : List HeapBlock)
        → fits args block ≡ true
        → straddles args block ≡ true
        → args.malloc calls ≡ false
        → alloc_loop args (suc fuel) calls block rest ≡ some (failed args (block ∷ rest))
    unfolding alloc_loop
    round_refused rest fit across no_memory = ground (arith, fit, across, no_memory)

    round-place :
        (rest : List HeapBlock)
        → fits args block ≡ true
        → straddles args block ≡ false
        → alloc_loop args (suc fuel) calls block rest ≡ some (place args calls block rest)
    unfolding alloc_loop
    round-place rest fit inside = ground (arith, fit, inside)

    round_end :
        fits args block ≡ false
        → alloc_loop args (suc fuel) calls block [] ≡ some (failed args (block ∷ []))
    unfolding alloc_loop
    round_end small = ground (arith, small)

    round_next :
        (next : HeapBlock) (rest : List HeapBlock)
        → fits args block ≡ false
        → alloc_loop args (suc fuel) calls block (next ∷ rest)
          ≡ behind args block (alloc_loop args fuel calls next rest)
    unfolding alloc_loop
    round_next next rest small = ground (arith, small)

  rounds-pos : (block : HeapBlock) (rest : List HeapBlock) → 1 ≤ rounds block rest
  unfolding rounds
  rounds-pos block [] = omega arith
  rounds-pos block (next ∷ rest) = omega arith

  rounds-lt :
      (block smaller : HeapBlock) (rest : List HeapBlock)
      → smaller.size < block.size
      → rounds smaller rest < rounds block rest
  unfolding rounds
  rounds-lt block smaller [] h = omega (arith, h)
  rounds-lt block smaller (next ∷ rest) h = omega (arith, h)

  -- A round that passes a block by.
  next_round :
      (fuel calls : ℕ) (block : HeapBlock) (rest : List HeapBlock)
      → fits args block ≡ false
      → Tiles 0 end block rest
      → rounds block rest ≤ suc fuel
      → ((next : HeapBlock) (later : List HeapBlock)
          → rounds next later ≤ fuel
          → Tiles 0 end next later
          → (r : Alloced) × (alloc_loop args fuel calls next later ≡ some r)
            × Good args end next later r)
      → (r : Alloced) × (alloc_loop args (suc fuel) calls block rest ≡ some r)
        × Good args end block rest r
  unfolding rounds allocated
  next_round fuel calls block [] small t enough ih = (
    failed args (block ∷ []),
    round_end fuel calls block small,
    failed-Good args below some_elem one_fits block [] t,
  )
  next_round fuel calls block (next ∷ rest) small (more _ _ _ e above t) enough ih =
      let (r, returns, g) = ih next rest (omega (arith, enough)) t in
      (
        record r { list = block ∷ r.list },
        round_next fuel calls block next rest small ∙ ap (behind args block) returns,
        behind-Good block block next rest (next ∷ rest) r refl (omega (arith, e)) above (λ l. refl)
            refl g,
      )

  -- The loop ends within the rounds given, with a good result.
  pub alloc_loop-Good :
      (fuel calls : ℕ) (block : HeapBlock) (rest : List HeapBlock)
      → rounds block rest ≤ fuel
      → Tiles 0 end block rest
      → (r : Alloced) × (alloc_loop args fuel calls block rest ≡ some r)
        × Good args end block rest r
  alloc_loop-Good zero calls block rest enough t =
      absurd (omega (arith, rounds-pos block rest, enough))
  alloc_loop-Good (suc fuel) calls block rest enough t = elim (Bool-cases (fits args block)) [
    | inl fit ↦ elim (Bool-cases (straddles args block)) [
      | inl across ↦ elim (Bool-cases (args.malloc calls)) [
        | inl given ↦
            let used : ℕ = disalignment args block in
            let free : block.free ≡ true = ground (arith, fit) in
            let room : args.total_size ≤ block.size = ground (arith, fit) in
            let some_used : 1 ≤ used = ground (arith, across) in
            let less : used < block.size =
              omega (arith, room, one_fits, mod-lt (dpage_remaining args block) some_elem) in
            let at = remainder-addr args below some_elem one_fits used block rest less t in
            let fewer : (remainder args used block).size < block.size =
              omega (arith, end-le block rest t, less, some_used) in
            let (r, e, g) =
              alloc_loop-Good fuel (calls + 1) (remainder args used block) rest
                (omega (arith, enough, rounds-lt block (remainder args used block) rest fewer))
                (remainder-Tiles args below some_elem one_fits used block rest less t) in
            (
              record r { list = record block { size = used } ∷ r.list },
              round_skip fuel calls block rest fit across given
                  ∙ ap (behind args (record block { size = used })) e,
              behind-Good block (record block { size = used }) (remainder args used block) rest rest
                  r refl (omega (arith, at)) (omega (arith, at, some_used))
                  (λ l.
                    allocated_free (record block { size = used }) l free ∙ sym (if_true _ _ free))
                  (allocated_free block rest free
                    ∙ sym (if_true _ _ free ∙ allocated_free (remainder args used block) rest refl))
                  g,
            )
        | inr no_memory ↦ (
          failed args (block ∷ rest),
          round_refused fuel calls block rest fit across no_memory,
          failed-Good args below some_elem one_fits block rest t,
        )
      ]
      | inr inside ↦ (
        place args calls block rest,
        round-place fuel calls block rest fit inside,
        place-Good args below some_elem one_fits calls block rest t fit inside,
      )
    ]
    | inr small ↦
        next_round fuel calls block rest small t enough
          (λ next rest h u. alloc_loop-Good fuel calls next rest h u)
  ]
