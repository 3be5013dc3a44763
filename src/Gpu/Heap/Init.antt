-- ===== src/Gpu/Heap/Init.antt =====
-- Setting up the heap in GPU memory: one free block, and the table of the device pages.
use upcie.Prelude.{
  ℕ, zero, suc, ◌+◌, ◌/◌, ◌≤◌, ◌≡◌, ◌≢◌, ◌==◌, ◌⊎◌, inl, inr, refl, arith, ap, sym, subst, Bool,
  Bool-cases, true, false, not, if◌then◌else◌, List, [], ◌∷◌, length, Option, some, none, ℤ, pos,
  negsuc, neg, einval, enomem, Outcome, done, fault, ℕ_discrete,
}
use upcie.Hostmem.Types.{HeapBlock}
use upcie.Hostmem.Heap.Tiles.{Tiles, last}
use upcie.Gpu.Types.{CudamemConfig, CudamemHeap}
use upcie.Gpu.Dmabuf.{Dmabuf, get_lut, all_addresses, get_lut-all_addresses}

-- What the set-up calls: the driver's allocation and its handle of a dma-buf, each with an error,
-- `dmabuf_attach`, and which of the two allocations in host memory succeed.
pub record HeapRuntime : Type 0 where
  pub mem_alloc : ℕ → ℤ × ℕ
  pub handle : ℕ → ℕ → ℤ × ℕ
  pub attach : ℕ → ℤ × Dmabuf
  pub malloc_freelist : Bool
  pub calloc_lut : Bool

-- The end of the set-up, with the table or -EINVAL.
unfoldable pub with_lut : ℕ → ℕ → CudamemConfig → Option (List ℕ) → ℤ × Option CudamemHeap
with_lut vaddr size config none = (neg (pos einval), none)
with_lut vaddr size config (some lut) = (
  pos 0,
  some (record {
    vaddr = vaddr;
    freelist = record { addr = vaddr; size = size; free = true } ∷ [];
    config = config;
    size = size;
    nphys = size / config.device_pagesize;
    phys_lut = lut;
  }),
)

-- What follows the attachment, the handle and the allocation.
unfoldable pub after_attach :
    HeapRuntime → ℕ → ℕ → CudamemConfig → ℤ × Dmabuf → Outcome (ℤ × Option CudamemHeap)
after_attach runtime vaddr size config (pos zero, dmabuf) =
    if config.device_pagesize == 0
    then fault
    else if not runtime.calloc_lut
    then done (neg (pos enomem), none)
    else done (
        with_lut vaddr size config
          (get_lut dmabuf (size / config.device_pagesize) config.device_pagesize))
after_attach runtime vaddr size config (err, dmabuf) = done (err, none)

unfoldable pub after_handle :
    HeapRuntime → ℕ → ℕ → CudamemConfig → ℤ × ℕ → Outcome (ℤ × Option CudamemHeap)
after_handle runtime vaddr size config (pos zero, dmabuf_fd) =
    if not runtime.malloc_freelist
    then done (neg (pos enomem), none)
    else after_attach runtime vaddr size config (runtime.attach dmabuf_fd)
after_handle runtime vaddr size config (err, dmabuf_fd) = done (err, none)

unfoldable pub after_alloc :
    HeapRuntime → ℕ → CudamemConfig → ℤ × ℕ → Outcome (ℤ × Option CudamemHeap)
after_alloc runtime size config (pos zero, vaddr) =
    after_handle runtime vaddr size config (runtime.handle vaddr size)
after_alloc runtime size config (err, vaddr) = done (err, none)

-- `cudamem_heap_init`: the error, and the heap if there is none. After an error nothing of it is used.
unfoldable pub heap_init : HeapRuntime → ℕ → CudamemConfig → Outcome (ℤ × Option CudamemHeap)
heap_init runtime size config = after_alloc runtime size config (runtime.mem_alloc size)

-- A heap that is one free block, with an entry for each device page.
pub record IsFresh (size : ℕ) (config : CudamemConfig) (heap : CudamemHeap) : Type 0 where
  pub block : HeapBlock
  pub list : heap.freelist ≡ block ∷ []
  pub free : block.free ≡ true
  pub starts : block.addr ≡ heap.vaddr
  pub sized : heap.size ≡ size
  pub configured : heap.config ≡ config
  pub tiles : Tiles 0 (heap.vaddr + size) block []
  pub entries : length heap.phys_lut ≡ size / config.device_pagesize
  pub counted : heap.nphys ≡ size / config.device_pagesize

module _ (runtime : HeapRuntime) (size : ℕ) where
  -- What the calls gave where each of them succeeded.
  pub record Acquired (vaddr : ℕ) (dmabuf : Dmabuf) : Type 0 where
    pub fd : ℕ
    pub allocates : runtime.mem_alloc size ≡ (pos 0, vaddr)
    pub handles : runtime.handle vaddr size ≡ (pos 0, fd)
    pub lists : runtime.malloc_freelist ≡ true
    pub attaches : runtime.attach fd ≡ (pos 0, dmabuf)
    pub tabulates : runtime.calloc_lut ≡ true

  -- The first step that fails, behind the ones that succeed, and its error.
  pub data FirstFailure (config : CudamemConfig) (err : ℤ) : Type 0 where
    no_memory : (runtime.mem_alloc size).0 ≡ err → FirstFailure config err
    no_handle :
        (vaddr : ℕ)
        → runtime.mem_alloc size ≡ (pos 0, vaddr)
        → (runtime.handle vaddr size).0 ≡ err
        → FirstFailure config err
    no_list :
        (vaddr fd : ℕ)
        → runtime.mem_alloc size ≡ (pos 0, vaddr)
        → runtime.handle vaddr size ≡ (pos 0, fd)
        → runtime.malloc_freelist ≡ false
        → err ≡ neg (pos enomem)
        → FirstFailure config err
    no_dmabuf :
        (vaddr fd : ℕ)
        → runtime.mem_alloc size ≡ (pos 0, vaddr)
        → runtime.handle vaddr size ≡ (pos 0, fd)
        → runtime.malloc_freelist ≡ true
        → (runtime.attach fd).0 ≡ err
        → FirstFailure config err
    no_table :
        (vaddr fd : ℕ) (dmabuf : Dmabuf)
        → runtime.mem_alloc size ≡ (pos 0, vaddr)
        → runtime.handle vaddr size ≡ (pos 0, fd)
        → runtime.malloc_freelist ≡ true
        → runtime.attach fd ≡ (pos 0, dmabuf)
        → runtime.calloc_lut ≡ false
        → err ≡ neg (pos enomem)
        → FirstFailure config err
    other_pages :
        (vaddr : ℕ) (dmabuf : Dmabuf)
        → Acquired vaddr dmabuf
        → length (all_addresses config.device_pagesize dmabuf.pages) ≢ size / config.device_pagesize
        → err ≡ neg (pos einval)
        → FirstFailure config err

  -- What a set-up returns: a heap at the address that was allocated, with the table of the dma-buf, or
  -- the error of the first step that failed.
  abbrev pub SetUp : CudamemConfig → Outcome (ℤ × Option CudamemHeap) → Type 0
  SetUp config result =
      ((heap : CudamemHeap) × (dmabuf : Dmabuf) × (result ≡ done (pos 0, some heap))
        × Acquired heap.vaddr dmabuf
        × (heap.phys_lut ≡ all_addresses config.device_pagesize dmabuf.pages)
        × IsFresh size config heap)
      ⊎ ((err : ℤ) × (err ≢ pos 0) × (result ≡ done (err, none)) × FirstFailure config err)

module _ (runtime : HeapRuntime) (size : ℕ) (config : CudamemConfig)
    (some_size : 1 ≤ config.device_pagesize) where
  abbrev Result : Outcome (ℤ × Option CudamemHeap) → Type 0
  Result result = SetUp runtime size config result

  with_lut-SetUp :
      (vaddr : ℕ) (dmabuf : Dmabuf)
      → Acquired runtime size vaddr dmabuf
      → Result (
          done (
            with_lut vaddr size config
              (get_lut dmabuf (size / config.device_pagesize) config.device_pagesize)))
  unfolding with_lut
  with_lut-SetUp vaddr dmabuf got =
      let lut =
        get_lut-all_addresses dmabuf (size / config.device_pagesize) config.device_pagesize in
      elim (ℕ_discrete (length (all_addresses config.device_pagesize dmabuf.pages))
        (size / config.device_pagesize)) [
          | yes full ↦
              let test : (length (all_addresses config.device_pagesize dmabuf.pages)
                    == size / config.device_pagesize)
                  ≡ true =
                ground (arith, full) in
              inl (
                record {
                  vaddr = vaddr;
                  freelist = record { addr = vaddr; size = size; free = true } ∷ [];
                  config = config;
                  size = size;
                  nphys = size / config.device_pagesize;
                  phys_lut = all_addresses config.device_pagesize dmabuf.pages;
                },
                dmabuf,
                rw (lut, test) refl,
                got,
                refl,
                record {
                  block = record { addr = vaddr; size = size; free = true };
                  list = refl;
                  free = refl;
                  starts = refl;
                  sized = refl;
                  configured = refl;
                  tiles = last (record { addr = vaddr; size = size; free = true }) refl;
                  entries = full;
                  counted = refl;
                },
              )
          | no short ↦
              let test : (length (all_addresses config.device_pagesize dmabuf.pages)
                    == size / config.device_pagesize)
                  ≡ false =
                ground (arith, short) in
              inr (
                neg (pos einval),
                (λ e. cc),
                rw (lut, test) refl,
                other_pages vaddr dmabuf got short refl,
              )
        ]

  module _ (vaddr : ℕ) (allocates : runtime.mem_alloc size ≡ (pos 0, vaddr)) where
    module _ (fd : ℕ) (handles : runtime.handle vaddr size ≡ (pos 0, fd))
        (lists : runtime.malloc_freelist ≡ true) where
      after_attach-SetUp :
          (result : ℤ × Dmabuf)
          → runtime.attach fd ≡ result
          → Result (after_attach runtime vaddr size config result)
      unfolding after_attach with_lut
      after_attach-SetUp (pos zero, dmabuf) attaches =
          let test : (config.device_pagesize == 0) ≡ false = ground (arith, some_size) in
          let table : Outcome (ℤ × Option CudamemHeap) = done (
            with_lut vaddr size config
              (get_lut dmabuf (size / config.device_pagesize) config.device_pagesize)) in
          let by_memory : Bool → Type 0 = λ b. Result (
            if config.device_pagesize == 0
            then fault
            else if not b
            then done (neg (pos enomem), none)
            else table) in
          elim (Bool-cases runtime.calloc_lut) [
            | inl given ↦ subst by_memory (sym given) (
                rw test (
                  with_lut-SetUp vaddr dmabuf (record {
                    fd = fd;
                    allocates = allocates;
                    handles = handles;
                    lists = lists;
                    attaches = attaches;
                    tabulates = given;
                  })))
            | inr none_left ↦ subst by_memory (sym none_left) (
                rw test (
                  inr (
                    neg (pos enomem),
                    (λ e. cc),
                    refl,
                    no_table vaddr fd dmabuf allocates handles lists attaches none_left refl,
                  )))
          ]
      after_attach-SetUp (pos (suc n), dmabuf) attaches = inr (
        pos (suc n),
        (λ e. cc),
        refl,
        no_dmabuf vaddr fd allocates handles lists (ap (λ (r : ℤ × Dmabuf). r.0) attaches),
      )
      after_attach-SetUp (negsuc n, dmabuf) attaches = inr (
        negsuc n,
        (λ e. cc),
        refl,
        no_dmabuf vaddr fd allocates handles lists (ap (λ (r : ℤ × Dmabuf). r.0) attaches),
      )

    after_handle-SetUp :
        (result : ℤ × ℕ)
        → runtime.handle vaddr size ≡ result
        → Result (after_handle runtime vaddr size config result)
    unfolding after_handle
    after_handle-SetUp (pos zero, fd) handles =
        let by_memory : Bool → Type 0 = λ b. Result (
          if not b
          then done (neg (pos enomem), none)
          else after_attach runtime vaddr size config (runtime.attach fd)) in
        elim (Bool-cases runtime.malloc_freelist) [
          | inl given ↦
              subst by_memory (sym given)
                (after_attach-SetUp fd handles given (runtime.attach fd) refl)
          | inr none_left ↦ subst by_memory (sym none_left) (
              inr (
                neg (pos enomem),
                (λ e. cc),
                refl,
                no_list vaddr fd allocates handles none_left refl,
              ))
        ]
    after_handle-SetUp (pos (suc n), fd) handles =
        inr (
          pos (suc n),
          (λ e. cc),
          refl,
          no_handle vaddr allocates (ap (λ (r : ℤ × ℕ). r.0) handles),
        )
    after_handle-SetUp (negsuc n, fd) handles =
        inr (negsuc n, (λ e. cc), refl, no_handle vaddr allocates (ap (λ (r : ℤ × ℕ). r.0) handles))

  after_alloc-SetUp :
      (result : ℤ × ℕ)
      → runtime.mem_alloc size ≡ result
      → Result (after_alloc runtime size config result)
  unfolding after_alloc
  after_alloc-SetUp (pos zero, vaddr) e =
      after_handle-SetUp vaddr e (runtime.handle vaddr size) refl
  after_alloc-SetUp (pos (suc n), vaddr) e =
      inr (pos (suc n), (λ e. cc), refl, no_memory (ap (λ (r : ℤ × ℕ). r.0) e))
  after_alloc-SetUp (negsuc n, vaddr) e =
      inr (negsuc n, (λ e. cc), refl, no_memory (ap (λ (r : ℤ × ℕ). r.0) e))

  -- Setting up a heap with device pages of at least a byte ends with the error of the first step that
  -- fails, which is not 0, and no heap, or, if the driver and the host memory gave all that was asked
  -- for, with 0 and a heap at the address that the driver allocated, which is one free block of the
  -- size asked for, tiles that memory, and has the addresses of the dma-buf in its table, one for
  -- each device page.
  pub heap_init-SetUp : Result (heap_init runtime size config)
  unfolding heap_init
  heap_init-SetUp = after_alloc-SetUp (runtime.mem_alloc size) refl
