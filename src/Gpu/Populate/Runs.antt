-- ===== src/Gpu/Populate/Runs.antt =====
-- What populating a chunk promises: pages that lie one after the other.
use upcie.Prelude.{
  ℕ, zero, suc, ◌+◌, ◌*◌, ◌≤◌, ◌≡◌, ◌≢◌, ◌==◌, ◌⊎◌, Bool-cases, true, false, refl, arith, ap, sym,
  ◌∙◌, inl, inr, ℤ, pos, negsuc, neg, einval, enomem, eio, eopnotsupp, List, [], ◌∷◌, length,
  get_elem?, Option, some, none, Outcome, done, ℕ_discrete,
}
use upcie.Prelude.Bits.{u64, shr}
use upcie.Gpu.Types.{CudamemConfig}
use upcie.Gpu.Dmabuf.{Dmabuf, get_lut, all_addresses, get_lut-all_addresses}
use upcie.Gpu.Populate.{
  Runtime, Populated, populated, failed, is_contiguous, populate_from, attached, with_handle,
  chunk_populate,
}

is_contiguous-at :
    (pagesize base i : ℕ) (l : List ℕ) (k : ℕ) {a : ℕ}
    → is_contiguous pagesize base i l ≡ true
    → get_elem? l k ≡ some a
    → a ≡ u64 (base + u64 ((i + k) * pagesize))
unfolding is_contiguous
is_contiguous-at pagesize base i [] k h at = cc
is_contiguous-at pagesize base i (x ∷ l) zero h at =
    let same : x ≡ u64 (base + u64 (i * pagesize)) = ground (arith, h) in
    let start : i + 0 ≡ i = omega arith in rw start (here at ∙ same)
  where
    here : {x a : ℕ} → some x ≡ some a → a ≡ x
    here e = cc
is_contiguous-at pagesize base i (x ∷ l) (suc k) h at =
    let next : i + 1 + k ≡ i + suc k = omega arith in
    let later : is_contiguous pagesize base (i + 1) l ≡ true = ground (arith, h) in
    is_contiguous-at pagesize base (i + 1) l k later at
    ∙ ap (λ (t : ℕ). u64 (base + u64 (t * pagesize))) next

-- The pages of a chunk lie one after the other from an address on.
pub record IsRun (nphys pagesize base : ℕ) (attach : Dmabuf) : Type 0 where
  pub full : length (all_addresses pagesize attach.pages) ≡ nphys
  pub first : get_elem? (all_addresses pagesize attach.pages) 0 ≡ some base
  pub run :
      (k : ℕ) {a : ℕ}
      → get_elem? (all_addresses pagesize attach.pages) (suc k) ≡ some a
      → a ≡ u64 (base + u64 (suc k * pagesize))

-- What populating comes to.
abbrev pub Populates : ℕ → ℕ → Outcome Populated → Type 0
Populates nphys pagesize result =
    ((base : ℕ) × (attach : Dmabuf) × (result ≡ done (populated base attach))
      × IsRun nphys pagesize base attach)
    ⊎ ((err : ℤ) × (err ≢ pos 0) × (result ≡ done (failed err)))

module _ (nphys pagesize : ℕ) (some_page : 1 ≤ nphys) where
  from_lut :
      (attach : Dmabuf) (l : List ℕ)
      → all_addresses pagesize attach.pages ≡ l
      → length l ≡ nphys
      → Populates nphys pagesize (populate_from pagesize attach (some l))
  unfolding populate_from
  from_lut attach [] e full = absurd (omega (arith, some_page, full))
  from_lut attach (base ∷ rest) e full = elim (Bool-cases (is_contiguous pagesize base 1 rest)) [
    | inl run ↦ inl (
      base,
      attach,
      rw run refl,
      record {
        full = ap length e ∙ full;
        first = ap (λ l. get_elem? l 0) e;
        run = λ k at.
            let next : 1 + k ≡ suc k = omega arith in
            is_contiguous-at pagesize base 1 rest k run (ap (λ l. get_elem? l (suc k)) (sym e) ∙ at)
            ∙ ap (λ (t : ℕ). u64 (base + u64 (t * pagesize))) next;
      },
    )
    | inr broken ↦ inr (neg (pos eopnotsupp), (λ e. cc), rw broken refl)
  ]

  from_attach :
      (attach : Dmabuf)
      → Populates nphys pagesize (populate_from pagesize attach (get_lut attach nphys pagesize))
  unfolding populate_from
  from_attach attach =
      let lut = get_lut-all_addresses attach nphys pagesize in
      elim (ℕ_discrete (length (all_addresses pagesize attach.pages)) nphys) [
        | yes full ↦
            let test : (length (all_addresses pagesize attach.pages) == nphys) ≡ true =
              ground (arith, full) in
            rw (lut, test) (from_lut attach (all_addresses pagesize attach.pages) refl full)
        | no short ↦
            let test : (length (all_addresses pagesize attach.pages) == nphys) ≡ false =
              ground (arith, short) in
            rw (lut, test) (inr (neg (pos einval), (λ e. cc), refl))
      ]

module _ (config : CudamemConfig) (some_size : 1 ≤ config.pagesize)
    (some_page : 1 ≤ shr config.alloc_granularity config.pagesize_shift) where
  abbrev nphys : ℕ
  nphys = shr config.alloc_granularity config.pagesize_shift

  attached-Populates :
      (result : ℤ × Dmabuf) → Populates nphys config.pagesize (attached config result)
  unfolding attached
  attached-Populates (pos zero, attach) =
      let test : (config.pagesize == 0) ≡ false = ground (arith, some_size) in
      rw test (from_attach nphys config.pagesize some_page attach)
  attached-Populates (pos (suc n), attach) = inr (pos (suc n), (λ e. cc), refl)
  attached-Populates (negsuc n, attach) = inr (negsuc n, (λ e. cc), refl)

  with_handle-Populates :
      (runtime : Runtime) (handle : Option ℕ)
      → Populates nphys config.pagesize (with_handle runtime config handle)
  unfolding with_handle
  with_handle-Populates runtime none = inr (neg (pos eio), (λ e. cc), refl)
  with_handle-Populates runtime (some fd) = attached-Populates (runtime.attach fd)

-- Populating a chunk of at least one page ends with an errno or with an address and a dma-buf whose
-- pages are as many as the chunk has and lie one after the other from the address on.
pub chunk_populate-Populates :
    (runtime : Runtime) (config : CudamemConfig) (chunk_va : ℕ)
    → 1 ≤ config.pagesize
    → 1 ≤ shr config.alloc_granularity config.pagesize_shift
    → Populates
        (shr config.alloc_granularity config.pagesize_shift)
        config.pagesize
        (chunk_populate runtime config chunk_va)
unfolding chunk_populate with_handle
chunk_populate-Populates runtime config chunk_va some_size some_page =
    elim (Bool-cases runtime.calloc) [
      | inl given ↦ rw given (
          with_handle-Populates config some_size some_page runtime
            (runtime.handle chunk_va config.alloc_granularity))
      | inr none_left ↦ rw none_left (inr (neg (pos enomem), (λ e. cc), refl))
    ]
