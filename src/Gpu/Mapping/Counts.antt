-- ===== src/Gpu/Mapping/Counts.antt =====
-- The counts of all the chunks: each is the number of registrations that hold the chunk.
use upcie.Prelude.{
  ℕ, ◌+◌, ◌≤◌, ◌≡◌, refl, arith, ap, sym, ◌∙◌, subst, done, List, [], ◌∷◌, length, All,
}
use upcie.Gpu.Mapping.{
  Registry, Registration, deref_range, first_chunk, chunk_cnt, clear, clear_list,
}
use upcie.Gpu.Mapping.Counted.{Counted, IsFrame}
use upcie.Gpu.Mapping.Loops.{inside, recount, chunk_deref-Counted}

-- 1 if a registration holds a chunk, and how many of a list do.
abbrev pub holds : ℕ → ℕ → Registration → ℕ → ℕ
holds gran_shift mask m =
    inside (first_chunk gran_shift m.vaddr) (chunk_cnt gran_shift mask m.vaddr m.size)

abbrev pub holders : ℕ → ℕ → List Registration → ℕ → ℕ
holders gran_shift mask [] j = 0
holders gran_shift mask (m ∷ next) j = holders gran_shift mask next j + holds gran_shift mask m j

-- A registration within the tables.
abbrev pub IsWithin : ℕ → ℕ → ℕ → Registration → Type 0
IsWithin gran_shift mask capacity m =
    first_chunk gran_shift m.vaddr + chunk_cnt gran_shift mask m.vaddr m.size ≤ capacity

-- A registry of which the counts are those of a list, and a registry in order.
pub record HasCounts (base_of : ℕ → ℕ) (r : Registry) (l : List Registration) : Type 0 where
  pub counted : (j : ℕ) → Counted base_of r j (holders r.gran_shift r.gran_mask l j)
  pub within : All (IsWithin r.gran_shift r.gran_mask r.lut_capacity) l

abbrev pub IsCounted : (ℕ → ℕ) → Registry → Type 0
IsCounted base_of r = HasCounts base_of r r.list

pub holders-le : (s mask : ℕ) (l : List Registration) (j : ℕ) → holders s mask l j ≤ length l
holders-le s mask [] j = omega arith
holders-le s mask (m ∷ next) j =
    let one : holds s mask m j ≤ 1 = ground arith in omega (arith, holders-le s mask next j, one)

module _ (base_of : ℕ → ℕ) where
  -- The tables of a registry after a loop.
  pub framed :
      (r r' : Registry) (l : List Registration)
      → IsFrame r r'
      → All (IsWithin r.gran_shift r.gran_mask r.lut_capacity) l
      → ((j : ℕ) → Counted base_of r' j (holders r.gran_shift r.gran_mask l j))
      → HasCounts base_of r' l
  framed r r' l f within counted = record {
    counted = λ j. recount base_of (same_holders j) (counted j);
    within =
        subst (λ (s : ℕ). All (IsWithin s r'.gran_mask r'.lut_capacity) l) (sym f.gran_shift)
          (subst (λ (m : ℕ). All (IsWithin r.gran_shift m r'.lut_capacity) l) (sym f.gran_mask)
            (subst (λ (c : ℕ). All (IsWithin r.gran_shift r.gran_mask c) l) (sym f.lut_capacity)
              within));
  }
    where
      same_holders :
          (j : ℕ) → holders r.gran_shift r.gran_mask l j ≡ holders r'.gran_shift r'.gran_mask l j
      same_holders j =
          ap (λ (s : ℕ). holders s r.gran_mask l j) (sym f.gran_shift)
          ∙ ap (λ (m : ℕ). holders r'.gran_shift m l j) (sym f.gran_mask)

  -- The list of a registry says nothing of its tables.
  pub relisted :
      (r : Registry) (l k : List Registration)
      → HasCounts base_of r l
      → HasCounts base_of (record r { list = k }) l
  relisted r l k h = record {
    counted = λ j. let c = h.counted j in record { count = c.count; idle = c.idle; live = c.live };
    within = h.within;
  }

  -- The release of a registration, within the tables.
  pub deref_range-HasCounts :
      (m : Registration) (l : List Registration) (r : Registry)
      → HasCounts base_of r (m ∷ l)
      → (r' : Registry) × (deref_range r m ≡ done r') × HasCounts base_of r' l × IsFrame r r'
  deref_range-HasCounts m l r h =
      let (r', returns, after, f) =
        chunk_deref-Counted base_of (chunk_cnt r.gran_shift r.gran_mask m.vaddr m.size)
          (first_chunk r.gran_shift m.vaddr) r (holders r.gran_shift r.gran_mask l) h.within.0
          h.counted in
      (r', returns, framed r r' l f h.within.1 after, f)

  clear_list-HasCounts :
      (l : List Registration) (r : Registry)
      → HasCounts base_of r l
      → (r' : Registry) × (clear_list r l ≡ done r') × (r'.list ≡ []) × HasCounts base_of r' []
  unfolding clear_list
  clear_list-HasCounts [] r h = (record r { list = [] }, refl, refl, relisted r [] [] h)
  clear_list-HasCounts (m ∷ next) r h =
      let (r1, returns, after, f) = deref_range-HasCounts m next r h in
      let (r2, returns', empty, idle) = clear_list-HasCounts next r1 after in
      (r2, rw returns returns', empty, idle)

  -- Clearing a registry in order ends, and leaves no registration, no reference, no address and no
  -- dma-buf.
  pub clear-IsCounted :
      (r : Registry)
      → IsCounted base_of r
      → (r' : Registry) × (clear r ≡ done r') × (r'.list ≡ []) × ((j : ℕ) → Counted base_of r' j 0)
  unfolding clear
  clear-IsCounted r h =
      let (r', returns, empty, idle) = clear_list-HasCounts r.list r h in
      (r', returns, empty, idle.counted)
