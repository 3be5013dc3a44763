-- ===== src/Gpu/Heap/Array.antt =====
-- The allocation of an array on a heap that its blocks tile.
use upcie.Prelude.{
  ℕ, ◌+◌, ◌-◌, ◌*◌, ◌/◌, ◌%◌, ◌^◌, ◌≤◌, ◌<◌, ◌≡◌, ◌≢◌, ◌==◌, ◌&&◌, ◌||◌, ltb, neb, Bool, Bool-cases,
  true, false, refl, arith, ap, sym, subst, ◌∙◌, inl, inr, ◌⊎◌, List, ◌∷◌, some, none, done, enomem,
  dec_lt, ℕ_discrete,
}
use native.Mathlib.Nat.{mod-lt, le-div_iff_mul-le, mul-le-mul_left}
use upcie.Prelude.Bits.{u64, sub64, uint64_max}
use upcie.Prelude.Rounding.{round_up, round_up-ge}
use upcie.Hostmem.Types.{Alloced, HeapBlock}
use upcie.Hostmem.Heap.Tiles.{Tiles}
use upcie.Gpu.Types.{CudamemHeap}
use upcie.Gpu.Heap.{
  AllocArgs, rounds, straddles, refused, alloc_list, dpage_remaining, alloc_array_aligned,
}
use upcie.Gpu.Heap.Place.{Good}
use upcie.Gpu.Heap.Alloc.{alloc_loop-Good}
use upcie.Gpu.Heap.Elements.{element_inside}

-- The arguments of the loop in the allocation of `count` elements of `size` bytes.
abbrev pub args_of : CudamemHeap → (ℕ → Bool) → ℕ → ℕ → ℕ → AllocArgs
args_of heap malloc count size alignment = record {
  base = heap.vaddr;
  device_pagesize = heap.config.device_pagesize;
  elem_size = size;
  total_size = round_up (count * size) alignment;
  malloc = malloc;
}

-- The sizes that are refused: an element larger than a device page, or an array larger than one of
-- elements that do not divide it.
abbrev pub Refused : ℕ → ℕ → ℕ → Type 0
Refused page count size = (page < size) ⊎ ((page < count * size) × (page % size ≢ 0))

module _ (heap : CudamemHeap) (malloc : ℕ → Bool) (count size k : ℕ) (some_count : 1 ≤ count)
    (some_size : 1 ≤ size) (small_shift : k < 64) (room : count * size + 2 ^ k < 2 ^ 64)
    (small_page : heap.config.device_pagesize < 2 ^ 64) where
  abbrev page : ℕ
  page = heap.config.device_pagesize

  abbrev args : AllocArgs
  args = args_of heap malloc count size (2 ^ k)

  total-ge : count * size ≤ args.total_size
  total-ge = round_up-ge (count * size) k small_shift room

  size-le : size ≤ count * size
  size-le = omega (arith, mul-le-mul_left size some_count)

  -- What the sizes that are accepted fulfil.
  divides_page : ¬ Refused page count size → (page % size ≡ 0) ⊎ (count * size ≤ page)
  divides_page accepted = elim (dec_lt page (count * size)) [
    | no short ↦ inr (omega arith)
    | yes long ↦ elim (ℕ_discrete (page % size) 0) [
      | yes whole ↦ inl whole
      | no apart ↦ absurd (accepted (inr (long, apart)))
    ]
  ]

  size_fits : ¬ Refused page count size → size ≤ page
  size_fits accepted = elim (dec_lt page size) [
    | yes long ↦ absurd (accepted (inl long))
    | no fits ↦ omega arith
  ]

  -- The rest of the device page, in the test and in the arithmetic.
  rest_of_page :
      (fresh : HeapBlock)
      → 1 ≤ page
      → dpage_remaining args fresh ≡ page - sub64 fresh.addr heap.vaddr % page
  rest_of_page fresh some_page =
      omega (arith, mod-lt (sub64 fresh.addr heap.vaddr) some_page, small_page)

  -- A block that passes the test of the loop holds the elements as they should be.
  inside-elements :
      (fresh : HeapBlock)
      → ¬ Refused page count size
      → straddles args fresh ≡ false
      → (i : ℕ) → i < count
      → (sub64 fresh.addr heap.vaddr + i * size) % page + size ≤ page
  inside-elements fresh accepted inside i h =
      let some_page : 1 ≤ page = omega (arith, size_fits accepted, some_size) in
      let offset : ℕ = sub64 fresh.addr heap.vaddr in
      let remaining = rest_of_page fresh some_page in
      element_inside page size count offset some_size (size_fits accepted)
        (elim (dec_lt (dpage_remaining args fresh) args.total_size) [
          | no one_page ↦
              inl (omega (arith, total-ge, remaining, one_page, mod-lt offset some_page))
          | yes over ↦ inr (
            ap (λ (t : ℕ). t % size) (sym remaining) ∙ ground (arith, inside, over),
            divides_page accepted,
          )
        ])
        i h

  -- The tests on the sizes.
  abbrev refuses : Bool
  refuses = ltb page size || (ltb page (u64 (count * size)) && neb (page % size) 0)

  total_eq : u64 (count * size) ≡ count * size
  total_eq = omega (arith, room)

  refuses-true : refuses ≡ true → Refused page count size
  refuses-true e = elim (dec_lt page size) [
    | yes long ↦ inl long
    | no fits ↦ inr (ground (arith, e, fits, total_eq), ground (arith, e, fits))
  ]

  refuses-false : refuses ≡ false → ¬ Refused page count size
  refuses-false e (inl long) = ground (arith, e, long)
  refuses-false e (inr (long, apart)) = ground (arith, e, long, apart, total_eq)

  some_size_test : (size == 0) ≡ false
  some_size_test = ground (arith, some_size)

  no_overflow : ltb (uint64_max / size) count ≡ false
  no_overflow =
      let le : count ≤ uint64_max / size = (le-div_iff_mul-le some_size).1 (omega (arith, room)) in
      ground (arith, le)

  when_refused :
      refuses ≡ true
      → alloc_array_aligned heap malloc count size (2 ^ k) ≡ done (refused heap enomem)
  unfolding alloc_array_aligned
  when_refused e = rw (some_size_test, no_overflow, e) refl

  when_accepted :
      refuses ≡ false
      → alloc_array_aligned heap malloc count size (2 ^ k) ≡ alloc_list args heap.freelist
  unfolding alloc_array_aligned
  when_accepted e = rw (some_size_test, no_overflow, e, total_eq) refl

  -- The elements of the block that a good result adds.
  elements-Good :
      {end : ℕ} (block : HeapBlock) (rest : List HeapBlock) (r : Alloced)
      → Good args end block rest r
      → ¬ Refused page count size
      → (p i : ℕ) → r.ptr ≡ some p
      → i < count
      → (sub64 p heap.vaddr + i * size) % page + size ≤ page
  elements-Good block rest r good accepted p i at h = elim good.outcome [
    | inl (null, _, _) ↦ absurd (no_pointer p (sym null ∙ at))
    | inr (q, found, _, inside) ↦
        let same : q ≡ p = some_inj (sym found ∙ at) in
        subst (λ (a : ℕ). (sub64 a heap.vaddr + i * size) % page + size ≤ page) same
          (inside-elements (record { addr = q; size = args.total_size; free = false }) accepted
            inside i h)
  ]
    where
      no_pointer : (p : ℕ) → ¬ (none ≡ some p)
      no_pointer p e = cc

      some_inj : {a b : ℕ} → some a ≡ some b → a ≡ b
      some_inj e = cc

  -- The allocation of an array of at least one element of at least one byte, of which the bytes
  -- and the alignment, a power of two, add up to less than 2 ^ 64, on a heap that its blocks tile,
  -- below 2 ^ 64, with a 64-bit device page size: either the sizes are refused and nothing
  -- changes, or the blocks tile the same memory, and the allocated ones are those of before and,
  -- on success, one more that holds the array, no element of which lies across the end of a device
  -- page.
  pub alloc_array_aligned-Good :
      (end : ℕ) (block : HeapBlock) (rest : List HeapBlock)
      → end < 2 ^ 64
      → heap.freelist ≡ block ∷ rest
      → Tiles 0 end block rest
      → (r : Alloced) × (alloc_array_aligned heap malloc count size (2 ^ k) ≡ done r)
        × ((Refused page count size × (r.ptr ≡ none) × (r.list ≡ heap.freelist))
            ⊎ (Good args end block rest r
                × ((p i : ℕ)
                    → r.ptr ≡ some p
                    → i < count
                    → (sub64 p heap.vaddr + i * size) % page + size ≤ page)))
  unfolding alloc_list
  alloc_array_aligned-Good end block rest below list t = elim (Bool-cases refuses) [
    | inl e ↦ (refused heap enomem, when_refused e, inl (refuses-true e, refl, refl))
    | inr e ↦
        let accepted = refuses-false e in
        let (r, returns, good) =
          alloc_loop-Good args below some_size (omega (arith, size-le, total-ge))
            (rounds block rest + 1) 0 block rest (omega arith) t in
        (
          r,
          when_accepted e ∙ ap (λ l. alloc_list args l) list ∙ (rw returns refl),
          inr (good, λ p i at h. elements-Good block rest r good accepted p i at h),
        )
  ]
