-- ===== src/Gpu/Mapping/RoundTrip.antt =====
-- A registration that is added and removed again.
use upcie.Prelude.{
  ℕ, ◌+◌, ◌^◌, ◌≤◌, ◌<◌, ◌≡◌, ◌==◌, true, Bool, refl, arith, ap, sym, ◌∙◌, subst, inl, inr, Outcome,
  done, ℤ, pos, List, ◌∷◌, length, some,
}
use upcie.Gpu.Mapping.{Registry, Registration, add, find, remove}
use upcie.Gpu.Populate.{Populated}
use upcie.Gpu.Mapping.Counted.{Delivers}
use upcie.Gpu.Mapping.Add.{add-IsCounted}
use upcie.Gpu.Mapping.Counts.{holders, IsCounted, HasCounts, deref_range-HasCounts, relisted}

find_here : (m : Registration) (l : List Registration) → find m.vaddr (m ∷ l) ≡ some (m, l)
unfolding find
find_here m l = let test : (m.vaddr == m.vaddr) ≡ true = ground arith in rw test refl

-- An addition at a 64-bit address that succeeded, on a registry in order with fewer than 2 ^ 32
-- registrations and chunks of at least two bytes, where the driver gives each chunk one address or
-- an error: the removal of its address succeeds, and leaves a registry in order with the
-- registrations of before, in which each chunk has the references of before.
pub remove-add :
    (base_of : ℕ → ℕ) (populate : ℕ → ℕ → Outcome Populated) (given : Bool) (r r' : Registry)
    (vaddr nbytes : ℕ)
    → IsCounted base_of r
    → 1 ≤ r.gran_shift
    → vaddr < 2 ^ 64
    → length r.list + 1 < 2 ^ 32
    → ((k : ℕ) → Delivers base_of r.gran_shift (populate k))
    → add populate given r vaddr nbytes ≡ done (pos 0, r')
    → (r'' : Registry) × (remove r' vaddr ≡ done (pos 0, r''))
      × IsCounted base_of r''
      × (r''.list ≡ r.list)
      × ((j : ℕ) → (r''.lut_meta j).rc ≡ (r.lut_meta j).rc)
unfolding remove
remove-add base_of populate given r r' vaddr nbytes h some_shift fits few delivers added =
    let (err, r1, returns, counted, shift, mask, which) =
      add-IsCounted base_of populate r vaddr nbytes h some_shift fits few delivers given in
    let same_err : err ≡ pos 0 = first_inj (sym returns ∙ added) in
    let same : r1 ≡ r' = second_inj (sym returns ∙ added) in
    elim which [
      | inl (ne, _) ↦ absurd (ne same_err)
      | inr (_, list) ↦
          let m : Registration = record { vaddr = vaddr; size = nbytes } in
          let k : HasCounts base_of r' (m ∷ r.list) =
            subst (λ x. HasCounts base_of x (m ∷ r.list)) same
              (subst (λ l. HasCounts base_of r1 l) list counted) in
          let list' : r'.list ≡ m ∷ r.list = ap (λ (x : Registry). x.list) (sym same) ∙ list in
          let (r2, returns', after, f) = deref_range-HasCounts base_of m r.list r' k in
          let found : find vaddr r'.list ≡ some (m, r.list) =
            ap (λ l. find vaddr l) list' ∙ find_here m r.list in
          (
            record r2 { list = r.list },
            rw (found, returns') refl,
            relisted base_of r2 r.list r.list after,
            refl,
            λ j.
                (after.counted j).count
                ∙ ap (λ (s : ℕ). holders s r2.gran_mask r.list j)
                    (f.gran_shift ∙ ap (λ (x : Registry). x.gran_shift) (sym same) ∙ shift)
                ∙ ap (λ (s : ℕ). holders r.gran_shift s r.list j)
                    (f.gran_mask ∙ ap (λ (x : Registry). x.gran_mask) (sym same) ∙ mask)
                ∙ sym (h.counted j).count,
          )
    ]
  where
    first_inj :
        {a b : ℤ} {x y : Registry}
        → ◌≡◌ {A = Outcome (ℤ × Registry)} (done (a, x)) (done (b, y))
        → a ≡ b
    first_inj e = cc

    second_inj :
        {a b : ℤ} {x y : Registry}
        → ◌≡◌ {A = Outcome (ℤ × Registry)} (done (a, x)) (done (b, y))
        → x ≡ y
    second_inj e = cc
