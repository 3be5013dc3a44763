-- ===== src/Gpu/Mapping/Loops.antt =====
-- The loops over the chunks of a range: each chunk of it loses or gains one reference.
use upcie.Prelude.{
  ℕ, zero, suc, ◌+◌, ◌^◌, ◌≤◌, ◌<◌, ◌≡◌, ◌≢◌, ◌&&◌, ◌⊎◌, ltb, leb, if◌then◌else◌, false, refl,
  arith, ap, sym, ◌∙◌, subst, inl, inr, ℕ_discrete, Outcome, done, ℤ, pos,
}
use upcie.Gpu.Mapping.{Registry, deref_one, chunk_deref, bumped, stuck, bump_loop}
use upcie.Gpu.Populate.{Populated}
use upcie.Gpu.Mapping.Counted.{
  Counted, IsFrame, same-IsFrame, IsFrame-trans, deref_one-Counted, deref_one-other,
  deref_one-IsFrame, Delivers, bump_one-Bumps,
}

-- 1 for the chunks of a range, 0 for the others.
abbrev pub inside : ℕ → ℕ → ℕ → ℕ
inside first cnt j = if leb first j && ltb j (first + cnt) then 1 else 0

module _ (base_of : ℕ → ℕ) where
  pub recount :
      {r : Registry} {j : ℕ} {a b : ℕ} → a ≡ b → Counted base_of r j a → Counted base_of r j b
  recount {r = r} {j = j} e c = subst (λ (n : ℕ). Counted base_of r j n) e c

  deref_step :
      (r : Registry) (idx left : ℕ)
      → idx < r.lut_capacity
      → chunk_deref r idx (suc left) ≡ chunk_deref (deref_one r idx) (idx + 1) left
  unfolding chunk_deref
  deref_step r idx left h =
      let room : leb r.lut_capacity idx ≡ false = ground (arith, h) in rw room refl

  -- Within the tables the release of a range ends, and takes one reference from each chunk of it.
  pub chunk_deref-Counted :
      (cnt idx : ℕ) (r : Registry) (n : ℕ → ℕ)
      → idx + cnt ≤ r.lut_capacity
      → ((j : ℕ) → Counted base_of r j (n j + inside idx cnt j))
      → (r' : Registry) × (chunk_deref r idx cnt ≡ done r')
        × ((j : ℕ) → Counted base_of r' j (n j))
        × IsFrame r r'
  unfolding chunk_deref
  chunk_deref-Counted zero idx r n h counted =
      (r, refl, λ j. recount (ground arith) (counted j), same-IsFrame r)
  chunk_deref-Counted (suc cnt) idx r n h counted =
      let f = deref_one-IsFrame base_of r idx in
      let (r', returns, after, g) =
        chunk_deref-Counted cnt (idx + 1) (deref_one r idx) n (omega (arith, f.lut_capacity, h))
          λ j. elim (ℕ_discrete j idx) [
            | yes here ↦
                subst
                  (λ (i : ℕ). Counted base_of (deref_one r idx) i (n i + inside (idx + 1) cnt i))
                  (sym here)
                  (recount (ground arith) (
                    deref_one-Counted base_of r idx (n idx) (recount (ground arith) (counted idx))))
            | no other ↦
                deref_one-other base_of r idx j (n j + inside (idx + 1) cnt j) other
                  (recount (ground (arith, other)) (counted j))
          ] in
      (r', deref_step r idx cnt (omega (arith, h)) ∙ returns, after, IsFrame-trans f g)

  module _ (populate : ℕ → ℕ → Outcome Populated) (first : ℕ) (n : ℕ → ℕ)
      (small : (j : ℕ) → n j + 1 < 2 ^ 32) where
    -- What the loop of an addition leaves: one reference more in the range, or an error and the counts
    -- of before.
    abbrev pub Looped : Registry → ℕ → ℕ → Type 0
    Looped r cnt left =
        ((r' : Registry) × (bump_loop populate r first cnt left ≡ done (bumped r'))
          × ((j : ℕ) → Counted base_of r' j (n j + inside first (cnt + left) j))
          × IsFrame r r')
        ⊎ ((err : ℤ) × (err ≢ pos 0)
            × (r' : Registry) × (bump_loop populate r first cnt left ≡ done (stuck err r'))
            × ((j : ℕ) → Counted base_of r' j (n j))
            × IsFrame r r')

    pub bump_loop-Looped :
        (left cnt : ℕ) (r : Registry)
        → first + (cnt + left) ≤ r.lut_capacity
        → ((k : ℕ) → Delivers base_of r.gran_shift (populate k))
        → ((j : ℕ) → Counted base_of r j (n j + inside first cnt j))
        → Looped r cnt left
    unfolding bump_loop
    bump_loop-Looped zero cnt r h delivers counted =
        inl (r, refl, λ j. recount (ground arith) (counted j), same-IsFrame r)
    bump_loop-Looped (suc left) cnt r h delivers counted =
        let idx : ℕ = first + cnt in
        let none_yet : inside first cnt idx ≡ 0 = ground arith in
        elim (bump_one-Bumps base_of r idx (n idx) (recount (omega (arith, none_yet)) (counted idx))
          (omega (arith, small idx)) (populate cnt) (omega (arith, h)) (delivers cnt)) [
            | inl (r1, e, b) ↦
                let one_more : n idx + inside first (cnt + 1) idx ≡ suc (n idx) = ground arith in
                let counted' : (j : ℕ) → Counted base_of r1 j (n j + inside first (cnt + 1) j) =
                  λ j. elim (ℕ_discrete j idx) [
                    | yes here ↦
                        subst (λ (i : ℕ). Counted base_of r1 i (n i + inside first (cnt + 1) i))
                          (sym here) (recount (sym one_more) b.here)
                    | no other ↦
                        recount (ground (arith, other))
                          (b.elsewhere j (n j + inside first cnt j) other (counted j))
                  ] in
                let step : bump_loop populate r first cnt (suc left)
                    ≡ bump_loop populate r1 first (cnt + 1) left =
                  rw e refl in
                let total : cnt + 1 + left ≡ cnt + suc left = omega arith in
                elim (bump_loop-Looped left (cnt + 1) r1 (omega (arith, b.frame.lut_capacity, h))
                  (λ k.
                    subst (λ (s : ℕ). Delivers base_of s (populate k)) (sym b.frame.gran_shift)
                      (delivers k))
                  counted') [
                    | inl (r', returns, after, g) ↦ inl (
                      r',
                      step ∙ returns,
                      λ j. recount (ap (λ (c : ℕ). n j + inside first c j) total) (after j),
                      IsFrame-trans b.frame g,
                    )
                    | inr (err, ne, r', returns, after, g) ↦
                        inr (err, ne, r', step ∙ returns, after, IsFrame-trans b.frame g)
                  ]
            | inr (err, ne, e) ↦
                let (r', returns, after, f) =
                  chunk_deref-Counted cnt first r n (omega (arith, h)) counted in
                inr (err, ne, r', rw (e, returns) refl, after, f)
          ]
