-- ===== src/Gpu/Mapping/Remove.antt =====
-- Removing a registration from a registry in order.
use upcie.Prelude.{
  ℕ, ◌≡◌, ◌≢◌, ◌==◌, ◌⊎◌, true, false, refl, arith, inl, inr, ℕ_discrete, done, ℤ, pos, neg, einval,
  List, [], ◌∷◌, ◌++◌, ap, All, some, none,
}
use upcie.Gpu.Mapping.{Registry, Registration, find, remove}
use upcie.Gpu.Mapping.Loops.{recount}
use upcie.Gpu.Mapping.Counts.{
  holders, IsWithin, HasCounts, IsCounted, relisted, deref_range-HasCounts,
}

-- The first registration at a key, taken out of a list.
pub record IsTakenOut (key : ℕ) (l others : List Registration) : Type 0 where
  pub before : List Registration
  pub taken : Registration
  pub after : List Registration
  pub was : l ≡ before ++ (taken ∷ after)
  pub left : others ≡ before ++ after
  pub at : taken.vaddr ≡ key
  pub earlier : All (λ (m : Registration). m.vaddr ≢ key) before

-- What the search finds: a registration at the key, and the others.
record IsFound (key : ℕ) (l : List Registration) (m : Registration) (others : List Registration)
    : Type 0 where
  finds : find key l ≡ some (m, others)
  at : m.vaddr ≡ key
  out : IsTakenOut key l others
  same : (s mask j : ℕ) → holders s mask l j ≡ holders s mask (m ∷ others) j
  within : (s mask c : ℕ) → All (IsWithin s mask c) l → All (IsWithin s mask c) (m ∷ others)

find-IsFound :
    (key : ℕ) (l : List Registration)
    → ((find key l ≡ none) × All (λ (m : Registration). m.vaddr ≢ key) l)
      ⊎ ((m : Registration) × (others : List Registration) × IsFound key l m others)
unfolding find
find-IsFound key [] = inl (refl, tt)
find-IsFound key (m ∷ next) = elim (ℕ_discrete m.vaddr key) [
  | yes here ↦ inr (
    m,
    next,
    record {
      finds = let test : (m.vaddr == key) ≡ true = ground (arith, here) in rw test refl;
      at = here;
      out = record {
        before = [];
        taken = m;
        after = next;
        was = refl;
        left = refl;
        at = here;
        earlier = tt;
      };
      same = λ s mask j. refl;
      within = λ s mask c w. w;
    },
  )
  | no other ↦
      let test : (m.vaddr == key) ≡ false = ground (arith, other) in
      elim (find-IsFound key next) [
        | inl (e, absent) ↦ inl (rw (test, e) refl, (other, absent))
        | inr (found, others, f) ↦ inr (
          found,
          m ∷ others,
          record {
            finds = rw (test, f.finds) refl;
            at = f.at;
            out = record {
              before = m ∷ f.out.before;
              taken = f.out.taken;
              after = f.out.after;
              was = ap (λ t. m ∷ t) f.out.was;
              left = ap (λ t. m ∷ t) f.out.left;
              at = f.out.at;
              earlier = (other, f.out.earlier);
            };
            same = λ s mask j. omega (arith, f.same s mask j);
            within = λ s mask c w. let k = f.within s mask c w.1 in (k.0, (w.0, k.1));
          },
        )
      ]
]

module _ (base_of : ℕ → ℕ) where
  -- Removing an address from a registry in order ends, on each branch, with a registry in order: with
  -- -EINVAL and the same registry if no registration begins there, and else with 0 and the
  -- registrations of before but the first that begins there.
  pub remove-IsCounted :
      (r : Registry) (vaddr : ℕ)
      → IsCounted base_of r
      → (err : ℤ) × (r' : Registry) × (remove r vaddr ≡ done (err, r'))
        × IsCounted base_of r'
        × (((err ≡ neg (pos einval))
              × (r' ≡ r)
              × All (λ (m : Registration). m.vaddr ≢ vaddr) r.list)
            ⊎ ((err ≡ pos 0) × IsTakenOut vaddr r.list r'.list))
  unfolding remove
  remove-IsCounted r vaddr h = elim (find-IsFound vaddr r.list) [
    | inl (e, absent) ↦ (neg (pos einval), r, rw e refl, h, inl (refl, refl, absent))
    | inr (m, others, f) ↦
        let k : HasCounts base_of r (m ∷ others) = record {
          counted = λ j. recount base_of (f.same r.gran_shift r.gran_mask j) (h.counted j);
          within = f.within r.gran_shift r.gran_mask r.lut_capacity h.within;
        } in
        let (r', returns, after, _) = deref_range-HasCounts base_of m others r k in
        (
          pos 0,
          record r' { list = others },
          rw (f.finds, returns) refl,
          relisted base_of r' others others after,
          inr (refl, f.out),
        )
  ]
