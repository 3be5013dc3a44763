-- ===== src/Pci/Largest.antt =====
-- The largest BAR.
use upcie.Prelude.{
  ℕ, zero, suc, ◌+◌, ◌≤◌, ◌<◌, ◌≡◌, ◌⊎◌, inl, inr, refl, arith, ap, sym, subst, ◌∙◌, dec_lt,
  ℕ_discrete, Bool, true, false, List, ℤ, pos, neg, enoent, ltb, if◌then◌else◌, Bool-cases,
}
use upcie.Os.{Os}
use upcie.Pci.{bar_size, is_minus_enoent, largest_from, bar_largest_size, pci_nbars}

module _ {S : Type 0} (os : Os S) (bdf : List ℕ) (s : S) where
  -- No BAR of these ids has a size.
  abbrev IsMissing : ℕ → Type 0
  IsMissing id = (err : ℤ) × (bar_size os bdf id s ≡ inl err) × (is_minus_enoent err ≡ true)

  -- What the loop passes by: a BAR that is missing, or one with a size.
  abbrev Passes : ℕ → Type 0
  Passes id = IsMissing id ⊎ ((size : ℕ) × (bar_size os bdf id s ≡ inr size))

  abbrev AllPass : ℕ → ℕ → Type 0
  AllPass id end = (i : ℕ) → id ≤ i → i < end → Passes i

  -- The first of `left` ids from `id` on with another error than -ENOENT, and this error.
  abbrev pub FailsAt : ℕ → ℕ → ℤ → Type 0
  FailsAt left id err =
      (i : ℕ) × (id ≤ i)
      × (i < id + left)
      × (bar_size os bdf i s ≡ inl err)
      × (is_minus_enoent err ≡ false)
      × AllPass id i

  -- One id more in front.
  pass_one : (id end : ℕ) → Passes id → AllPass (id + 1) end → AllPass id end
  pass_one id end here later i a b = elim (ℕ_discrete id i) [
    | yes same ↦ subst (λ (k : ℕ). Passes k) same here
    | no apart ↦ later i (omega (arith, a, apart)) b
  ]

  -- What is found of these ids, where sizes up to `largest` were found before.
  pub data Found (left id largest : ℕ) (found : Bool) : ℤ ⊎ ℕ → Type 0 where
    fails : (err : ℤ) → FailsAt left id err → Found left id largest found (inl err)
    missing :
        found ≡ false
        → ((i : ℕ) → id ≤ i → i < id + left → IsMissing i)
        → Found left id largest found (inl (neg (pos enoent)))
    sized :
        (size : ℕ)
        → largest ≤ size
        → ((i size' : ℕ) → id ≤ i → i < id + left → bar_size os bdf i s ≡ inr size' → size' ≤ size)
        → AllPass id (id + left)
        → (((found ≡ true) × (size ≡ largest))
            ⊎ ((i : ℕ) × (id ≤ i) × (i < id + left) × (bar_size os bdf i s ≡ inr size)))
        → Found left id largest found (inr size)

  -- A round, by what the size of the BAR is.
  module _ (left id largest : ℕ) (found : Bool) where
    round_sized :
        (bar : ℕ)
        → bar_size os bdf id s ≡ inr bar
        → largest_from os bdf (suc left) id largest found s
          ≡ largest_from os bdf left (id + 1) (if ltb largest bar then bar else largest) true s
    unfolding largest_from
    round_sized bar e = ground (arith, e)

    round_missing :
        (err : ℤ)
        → bar_size os bdf id s ≡ inl err
        → is_minus_enoent err ≡ true
        → largest_from os bdf (suc left) id largest found s
          ≡ largest_from os bdf left (id + 1) largest found s
    unfolding largest_from
    round_missing err e none = ground (arith, e, none)

    round_fails :
        (err : ℤ)
        → bar_size os bdf id s ≡ inl err
        → is_minus_enoent err ≡ false
        → largest_from os bdf (suc left) id largest found s ≡ inl err
    unfolding largest_from
    round_fails err e other = ground (arith, e, other)

    -- What a later round finds, behind a BAR that is missing.
    after_missing :
        (err : ℤ) (r : ℤ ⊎ ℕ)
        → bar_size os bdf id s ≡ inl err
        → is_minus_enoent err ≡ true
        → Found left (id + 1) largest found r
        → Found (suc left) id largest found r
    after_missing err _ e none (fails other (i, a, b, at, test, pass)) =
        fails other
          (i, omega (arith, a), omega (arith, b), at, test, pass_one id i (inl (err, e, none)) pass)
    after_missing err _ e none (missing start all) = missing start (λ i a b.
        elim (ℕ_discrete i id) [
          | yes here ↦ (err, ap (λ (k : ℕ). bar_size os bdf k s) here ∙ e, none)
          | no later ↦ all i (omega (arith, a, later)) (omega (arith, b))
        ])
    after_missing err _ e none (sized size above top pass at) =
        sized size above
          (λ i size' a b q. elim (ℕ_discrete i id) [
            | yes here ↦ absurd (differ (sym q ∙ ap (λ (k : ℕ). bar_size os bdf k s) here ∙ e))
            | no later ↦ top i size' (omega (arith, a, later)) (omega (arith, b)) q
          ])
          (pass_one id (id + suc left) (inl (err, e, none)) (λ i a b. pass i a (omega (arith, b))))
          (elim at [
            | inl before ↦ inl before
            | inr (i, a, b, q) ↦ inr (i, omega (arith, a), omega (arith, b), q)
          ])
      where
        differ : {size : ℕ} → ¬ (inr size ≡ inl err)
        differ e = cc

    -- Behind a BAR with a size.
    after_sized :
        (bar : ℕ) (r : ℤ ⊎ ℕ)
        → bar_size os bdf id s ≡ inr bar
        → Found left (id + 1) (if ltb largest bar then bar else largest) true r
        → (found ≡ false → largest ≡ 0)
        → Found (suc left) id largest found r
    after_sized bar _ e (fails other (i, a, b, at, test, pass)) start =
        fails other
          (i, omega (arith, a), omega (arith, b), at, test, pass_one id i (inr (bar, e)) pass)
    after_sized bar _ e (missing start' all) start = cc
    after_sized bar _ e (sized size above top pass at) start =
        let bar-le : bar ≤ size = ground (arith, above) in
        sized size (ground (arith, above))
          (λ i size' a b q. elim (ℕ_discrete i id) [
            | yes here ↦
                let same : bar ≡ size' =
                  inr_inj (sym e ∙ sym (ap (λ (k : ℕ). bar_size os bdf k s) here) ∙ q) in
                omega (arith, same, bar-le)
            | no later ↦ top i size' (omega (arith, a, later)) (omega (arith, b)) q
          ])
          (pass_one id (id + suc left) (inr (bar, e)) (λ i a b. pass i a (omega (arith, b))))
          (elim at [
            | inl (_, same) ↦ elim (dec_lt largest bar) [
              | yes more ↦
                  let this : bar ≡ size = ground (arith, same, more) in
                  inr (id, omega arith, omega arith, e ∙ ap inr this)
              | no less ↦ elim (Bool-cases found) [
                | inl before ↦ inl (before, ground (arith, same, less))
                | inr first ↦
                    let this : bar ≡ size = ground (arith, same, less, start first) in
                    inr (id, omega arith, omega arith, e ∙ ap inr this)
              ]
            ]
            | inr (i, a, b, q) ↦ inr (i, omega (arith, a), omega (arith, b), q)
          ])
      where
        inr_inj : {a b : ℕ} → ◌≡◌ {A = ℤ ⊎ ℕ} (inr a) (inr b) → a ≡ b
        inr_inj e = cc

  largest_from-Found :
      (left id largest : ℕ) (found : Bool)
      → ((found ≡ false) → largest ≡ 0)
      → Found left id largest found (largest_from os bdf left id largest found s)
  largest_from-Found zero id largest true start =
      unfold largest_from in
      sized largest (omega arith) (λ i size' a b e. absurd (omega arith))
        (λ i a b. absurd (omega arith)) (inl (refl, refl))
  largest_from-Found zero id largest false start =
      unfold largest_from in missing refl (λ i a b. absurd (omega arith))
  largest_from-Found (suc left) id largest found start =
      by_size (bar_size os bdf id s) refl (largest_from-Found left (id + 1))
    where
      by_size :
          (r : ℤ ⊎ ℕ)
          → bar_size os bdf id s ≡ r
          → ((largest' : ℕ) (found' : Bool)
              → ((found' ≡ false) → largest' ≡ 0)
              → Found left
                  (id + 1)
                  largest'
                  found'
                  (largest_from os bdf left (id + 1) largest' found' s))
          → Found (suc left) id largest found (largest_from os bdf (suc left) id largest found s)
      by_size (inr bar) e ih =
          subst (λ r. Found (suc left) id largest found r)
            (sym (round_sized left id largest found bar e))
            (after_sized left id largest found bar _ e
              (ih (if ltb largest bar then bar else largest) true (λ q. cc)) start)
      by_size (inl err) e ih = elim (Bool-cases (is_minus_enoent err)) [
        | inl none ↦
            subst (λ r. Found (suc left) id largest found r)
              (sym (round_missing left id largest found err e none))
              (after_missing left id largest found err _ e none (ih largest found start))
        | inr other ↦
            subst (λ r. Found (suc left) id largest found r)
              (sym (round_fails left id largest found err e other))
              (fails err (id, omega arith, omega arith, e, other, λ i a b. absurd (omega arith)))
      ]

  -- `pci_bar_largest_size` returns the error of the first of the six BARs that gives another one than
  -- -ENOENT; if there is none, -ENOENT if all of them are missing, and else the size of a BAR that
  -- no other exceeds.
  pub bar_largest_size-Found : Found pci_nbars 0 0 false (bar_largest_size os bdf s)
  unfolding bar_largest_size
  bar_largest_size-Found = largest_from-Found pci_nbars 0 0 false (λ e. refl)
