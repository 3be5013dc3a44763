-- ===== src/Hostmem/Heap/SetUp.antt =====
-- What the set-up of a heap holds of the system, and what tearing it down gives back.
use native.Mathlib.Nat.{div-add-mod, mul_comm}
use upcie.Prelude.{
  ℕ, zero, suc, ◌+◌, ◌*◌, ◌/◌, ◌%◌, ◌^◌, ◌<◌, ◌≤◌, ◌≡◌, ◌≢◌, ◌⊎◌, refl, arith, ap, inl, inr, neb,
  Bool-cases, true, false, List, [], ◌∷◌, length, ℤ, pos, negsuc, neg, enomem, is_zero, done,
  get_elem?-some,
}
use upcie.Prelude.Bits.{u64}
use upcie.Os.{Os}
use upcie.Os.Held.{View, IsOs, Balanced, Balanced-refl, Balanced-trans}
use upcie.Hostmem.Types.{HostmemConfig, HostmemHeap}
use upcie.Hostmem.Pagemap.{pagemap_virt_to_phys, pagemap_virt_to_phys-Balanced}
use upcie.Hostmem.Hugepage.{
  Allocation, backend_memfd, backend_hugetlbfs, hugepage_alloc, hugepage_free, zero_hugepage,
}
use upcie.Hostmem.Hugepage.Held.{Returned, Allocated, failed, allocated, hugepage_alloc-Allocated}
use upcie.Hostmem.Heap.Tiles.{last, allocated as allocated_blocks}
use upcie.Hostmem.Heap.Alloc.{sizeof_block}
use upcie.Hostmem.Heap.RoundTrip.{IsHeap, owned}
use upcie.Hostmem.Heap.Init.{
  HeapSetUp, Lut, fill_lut, heap_term, undone, with_lut, with_table, with_memory, zero_heap,
  heap_init,
}

by_err : (e : ℤ) → is_zero e ≡ false → e ≢ pos 0
by_err e b q = ground (arith, ap is_zero q, b)

zero_err : (e : ℤ) → is_zero e ≡ true → e ≡ pos 0
zero_err (pos zero) q = refl
zero_err (pos (suc n)) q = cc
zero_err (negsuc n) q = cc

-- What the set-up of a heap of `size` bytes leaves: an error of the allocation and no descriptor and
-- mapping; a later error and, besides, no file below hugetlbfs; or a heap in order from which nothing
-- is allocated, with an entry for each hugepage, whose tearing down leaves none of them.
pub data SetUp {S : Type 0} (os : Os S) (h : View S) (size : ℕ) (config : HostmemConfig) (s : S)
    (r : HeapSetUp S) : Type 0 where
  refused :
      (hugepage_alloc os size zero_hugepage config s
        ≡ done
            (record { err = r.err; hugepage = r.heap.memory; config = r.heap.config; sys = r.sys }))
      → r.err ≢ pos 0
      → Balanced h s r.sys
      → SetUp os h size config s r
  torn_down : r.err ≢ pos 0 → Returned h config s r.sys → SetUp os h size config s r
  ready :
      r.err ≡ pos 0
      → IsHeap r.heap
      → r.heap.memory.size ≡ size
      → owned r.heap ≡ []
      → length r.heap.phys_lut ≡ r.heap.nphys
      → r.heap.nphys * r.heap.config.hugepgsz ≡ size
      → Returned h config s (heap_term os r.heap r.sys).1
      → SetUp os h size config s r

module _ {S : Type 0} {os : Os S} {h : View S} (o : IsOs os h) where
  fill_lut-Balanced :
      (virt hugepgsz left i : ℕ) (s : S)
      → Balanced h s (fill_lut os virt hugepgsz left i s).sys
        × ((fill_lut os virt hugepgsz left i s).err ≡ pos 0
            → length (fill_lut os virt hugepgsz left i s).entries ≡ left)
  unfolding fill_lut
  fill_lut-Balanced virt hugepgsz zero i s = (Balanced-refl s, λ e. refl)
  fill_lut-Balanced virt hugepgsz (suc left) i s =
      let found = pagemap_virt_to_phys os (u64 (virt + i * hugepgsz)) 0 s in
      let same = pagemap_virt_to_phys-Balanced o (u64 (virt + i * hugepgsz)) 0 s in
      let (kept, sized) = fill_lut-Balanced virt hugepgsz left (i + 1) found.2 in
      elim (Bool-cases (is_zero found.0)) [
        | inl ok ↦ rw ok (Balanced-trans same kept, λ e. ap suc (sized e))
        | inr bad ↦ rw bad (same, λ e. absurd (by_err found.0 bad e))
      ]

  -- The heap with its one block, before the table is there.
  module _ (heap : HostmemHeap) (size : ℕ) (config : HostmemConfig) (s t : S)
      (released : (u : S)
        → Balanced h t u
        → Returned h config s (hugepage_free os heap.memory heap.config u).1)
      (sized : heap.memory.size ≡ size)
      (list : heap.freelist ≡ record { addr = heap.memory.virt; size = size; free = true } ∷ [])
      (below : heap.memory.virt + size < 2 ^ 63) (some_size : 1 ≤ size)
      (whole : heap.nphys * heap.config.hugepgsz ≡ size)
      (described : sizeof_block < heap.config.pagesize)
      (int_page : heap.config.pagesize < 2 ^ 31) where
    -- Tearing down reads nothing of the table.
    term-Returned :
        (entries : List ℕ) (u : S)
        → Balanced h t u
        → Returned h config s (heap_term os (record heap { phys_lut = entries }) u).1
    unfolding heap_term
    term-Returned entries u b = released u b

    some_entry : 1 ≤ heap.nphys
    some_entry = at_least heap.nphys whole
      where
        at_least : (n : ℕ) → n * heap.config.hugepgsz ≡ size → 1 ≤ n
        at_least zero e = absurd (omega (arith, e, some_size))
        at_least (suc n) e = omega arith

    with_lut-SetUp :
        (lut : Lut S)
        → Balanced h t lut.sys
        → (lut.err ≡ pos 0 → length lut.entries ≡ heap.nphys)
        → (r : HeapSetUp S) × (with_lut os heap lut ≡ done r) × SetUp os h size config s r
    unfolding with_lut allocated_blocks
    with_lut-SetUp lut kept counted = elim (Bool-cases (is_zero lut.err)) [
      | inr bad ↦ (
        undone os lut.err heap lut.sys,
        rw bad refl,
        torn_down (λ e. by_err lut.err bad e) (term-Returned heap.phys_lut lut.sys kept),
      )
      | inl ok ↦
          let full : length lut.entries ≡ heap.nphys = counted (zero_err lut.err ok) in
          let (first, at) = get_elem?-some lut.entries 0 (omega (arith, full, some_entry)) in
          elim (Bool-cases (neb heap.memory.phys first)) [
            | inl differ ↦ (
              undone os (neg (pos enomem)) (record heap { phys_lut = lut.entries }) lut.sys,
              rw (ok, at, differ) refl,
              torn_down (λ e. cc) (term-Returned lut.entries lut.sys kept),
            )
            | inr agree ↦ (
              record { err = pos 0; heap = record heap { phys_lut = lut.entries }; sys = lut.sys },
              rw (ok, at, agree) refl,
              ready refl
                  (record {
                    first = record { addr = heap.memory.virt; size = size; free = true };
                    rest = [];
                    list = list;
                    starts = refl;
                    tiles =
                        last (record { addr = heap.memory.virt; size = size; free = true })
                          (omega (arith, sized));
                    below = omega (arith, sized, below);
                    described = described;
                    int_page = int_page;
                  })
                  sized (ap (λ l. allocated_blocks l) list) full whole
                  (term-Returned lut.entries lut.sys kept),
            )
          ]
    ]

  -- The set-up of a heap of at least a byte, with a backend of the two, a hugepage size of at least a
  -- byte and pages that have room for a description of a block, where there is memory for the table
  -- and over a system whose calls do as POSIX says, returns: with the error of the allocation of
  -- hugepages and the open descriptors and mappings of before; with a later error, these, and no
  -- file left below hugetlbfs, if this is the backend; or with 0 and a heap in order of this
  -- size, from which nothing is allocated, with an entry for each hugepage. Tearing it down leaves
  -- the open descriptors and mappings of before, and no file below hugetlbfs.
  pub heap_init-Held :
      (size : ℕ) (config : HostmemConfig) (s : S)
      → 1 ≤ size
      → 1 ≤ config.hugepgsz
      → (config.backend ≡ backend_memfd) ⊎ (config.backend ≡ backend_hugetlbfs)
      → sizeof_block < config.pagesize
      → config.pagesize < 2 ^ 31
      → (r : HeapSetUp S) × (heap_init os true size config s ≡ done r) × SetUp os h size config s r
  unfolding heap_init with_memory with_table
  heap_init-Held size config s some_size huge backend described int_page =
      let (a, returns, held, divides) =
        hugepage_alloc-Allocated o size zero_hugepage config s some_size huge backend in
      by_held a returns held divides
    where
      by_held :
          (a : Allocation S)
          → hugepage_alloc os size zero_hugepage config s ≡ done a
          → Allocated os h size config s a
          → (a.err ≢ pos 0) ⊎ (size % config.hugepgsz ≡ 0)
          → (r : HeapSetUp S) × (heap_init os true size config s ≡ done r)
            × SetUp os h size config s r
      by_held a returns (failed err kept) divides = elim (Bool-cases (is_zero a.err)) [
        | inl ok ↦ absurd (err (zero_err a.err ok))
        | inr bad ↦ (
          record {
            err = a.err;
            heap = record (zero_heap config) { memory = a.hugepage; config = a.config };
            sys = a.sys;
          },
          rw (returns, bad) refl,
          refused returns err kept,
        )
      ]
      by_held a returns (allocated err sized some_virt below kept named released) divides =
          let ok : is_zero a.err ≡ true = ap is_zero err in
          let page : a.config.pagesize ≡ config.pagesize =
            ap (λ (c : HostmemConfig). c.pagesize) kept in
          let huge_page : a.config.hugepgsz ≡ config.hugepgsz =
            ap (λ (c : HostmemConfig). c.hugepgsz) kept in
          let multiple : size % config.hugepgsz ≡ 0 = elim divides [
            | inl fails ↦ absurd (fails err)
            | inr e ↦ e
          ] in
          let whole : size / a.config.hugepgsz * a.config.hugepgsz ≡ size = rw huge_page (
            omega (
              arith,
              multiple,
              div-add-mod size config.hugepgsz,
              mul_comm config.hugepgsz (size / config.hugepgsz),
            )) in
          let heap : HostmemHeap = record (zero_heap config) {
            memory = a.hugepage;
            config = a.config;
            freelist = record { addr = a.hugepage.virt; size = size; free = true } ∷ [];
            nphys = size / a.config.hugepgsz;
          } in
          let lut : Lut S = fill_lut os a.hugepage.virt a.config.hugepgsz heap.nphys 0 a.sys in
          let (same, counted) =
            fill_lut-Balanced a.hugepage.virt a.config.hugepgsz heap.nphys 0 a.sys in
          let (r, ends, set) =
            with_lut-SetUp heap size config s a.sys released sized refl below some_size whole
              (omega (arith, page, described)) (omega (arith, page, int_page)) lut same counted in
          (r, rw (returns, ok) ends, set)
