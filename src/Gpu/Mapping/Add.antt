-- ===== src/Gpu/Mapping/Add.antt =====
-- Adding a registration to a registry in order.
use upcie.Prelude.{
  ℕ, zero, suc, ◌+◌, ◌/◌, ◌^◌, ◌≤◌, ◌<◌, ◌≡◌, ◌≢◌, ◌==◌, ◌||◌, bit_and, ◌⊎◌, Bool, Bool-cases, true,
  false, ltb, refl, arith, ap, sym, subst, inl, inr, Outcome, done, ℤ, pos, neg, einval, enomem,
  ◌∷◌, length,
}
use native.Mathlib.Nat.{div-lt_iff_lt-mul, one-le-pow, mul-le-mul_left}
use upcie.Prelude.Bits.{u64, pow-le-pow}
use upcie.Gpu.Mapping.{Registry, Registration, first_chunk, chunk_cnt, add}
use upcie.Gpu.Populate.{Populated}
use upcie.Gpu.Mapping.Counted.{Delivers}
use upcie.Gpu.Mapping.Loops.{inside, recount, bump_loop-Looped}
use upcie.Gpu.Mapping.Counts.{holders, HasCounts, IsCounted, holders-le, framed, relisted}

module _ (base_of : ℕ → ℕ) where
  module _ (populate : ℕ → ℕ → Outcome Populated) (r : Registry) (vaddr nbytes : ℕ)
      (h : IsCounted base_of r) (some_shift : 1 ≤ r.gran_shift) (fits : vaddr < 2 ^ 64)
      (few : length r.list + 1 < 2 ^ 32)
      (delivers : (k : ℕ) → Delivers base_of r.gran_shift (populate k)) where
    abbrev first : ℕ
    first = first_chunk r.gran_shift vaddr

    abbrev cnt : ℕ
    cnt = chunk_cnt r.gran_shift r.gran_mask vaddr nbytes

    -- What an addition returns: an errno and the registrations of before, or one more.
    abbrev pub Added : Bool → Type 0
    Added given =
        (err : ℤ) × (r' : Registry) × (add populate given r vaddr nbytes ≡ done (err, r'))
        × IsCounted base_of r'
        × (r'.gran_shift ≡ r.gran_shift)
        × (r'.gran_mask ≡ r.gran_mask)
        × (((err ≢ pos 0) × (r'.list ≡ r.list))
            ⊎ ((err ≡ pos 0) × (r'.list ≡ record { vaddr = vaddr; size = nbytes } ∷ r.list)))

    errno : (n : ℕ) → 1 ≤ n → neg (pos n) ≢ pos 0
    errno zero l e = absurd (omega (arith, l))
    errno (suc n) l e = cc

    -- The sum of the chunk index and the count does not wrap.
    shifted : (x : ℕ) → x < 2 ^ 64 → x / 2 ^ r.gran_shift < 2 ^ 63
    shifted x l =
        (div-lt_iff_lt-mul (one-le-pow r.gran_shift 2 (omega arith))).1
          (omega (arith, l, mul-le-mul_left (2 ^ 63) (pow-le-pow 1 r.gran_shift some_shift)))

    fits_tables : ltb r.lut_capacity (u64 (first + cnt)) ≡ false → first + cnt ≤ r.lut_capacity
    fits_tables room =
        let sum : u64 (first + cnt) ≡ first + cnt = omega (
          arith,
          shifted vaddr fits,
          shifted (u64 (u64 (bit_and vaddr r.gran_mask + nbytes) + r.gran_mask)) (omega arith),
        ) in
        ground (arith, room, sum)

    accepted :
        (vaddr == 0 || nbytes == 0) ≡ false
        → ltb r.lut_capacity (u64 (first + cnt)) ≡ false
        → Added true
    unfolding add
    accepted some_bytes room =
        let within = fits_tables room in
        let start : 0 + cnt ≡ cnt = omega arith in
        elim (bump_loop-Looped base_of populate first (holders r.gran_shift r.gran_mask r.list)
          (λ j. omega (arith, few, holders-le r.gran_shift r.gran_mask r.list j)) cnt 0 r
          (omega (arith, within)) delivers (λ j. recount base_of (ground arith) (h.counted j))) [
            | inl (r', returns, after, f) ↦
                let m : Registration = record { vaddr = vaddr; size = nbytes } in
                (
                  pos 0,
                  record r' { list = m ∷ r'.list },
                  rw (some_bytes, room, returns) refl,
                  relisted base_of r' (m ∷ r'.list) (m ∷ r'.list) (
                      subst (λ l. HasCounts base_of r' (m ∷ l)) (sym f.list)
                        (framed base_of r r' (m ∷ r.list) f (within, h.within)
                          λ j.
                            recount base_of
                              (ap
                                (λ (c : ℕ).
                                  holders r.gran_shift r.gran_mask r.list j + inside first c j)
                                start)
                              (after j))),
                  f.gran_shift,
                  f.gran_mask,
                  inr (refl, ap (λ l. m ∷ l) f.list),
                )
            | inr (err, ne, r', returns, after, f) ↦ (
              err,
              r',
              rw (some_bytes, room, returns) refl,
              subst (λ l. HasCounts base_of r' l) (sym f.list)
                  (framed base_of r r' r.list f h.within after),
              f.gran_shift,
              f.gran_mask,
              inl (ne, f.list),
            )
          ]

    by_memory :
        (given : Bool)
        → (vaddr == 0 || nbytes == 0) ≡ false
        → ltb r.lut_capacity (u64 (first + cnt)) ≡ false
        → Added given
    unfolding add
    by_memory true some_bytes room = accepted some_bytes room
    by_memory false some_bytes room = (
      neg (pos enomem),
      r,
      rw (some_bytes, room) refl,
      h,
      refl,
      refl,
      inl (errno enomem (omega arith), refl),
    )

    -- An addition at a 64-bit address to a registry in order with fewer than 2 ^ 32 registrations
    -- and chunks of at least two bytes, where the driver gives each chunk one address or an error,
    -- ends on each branch with a registry in order: with an errno and the registrations of before,
    -- also if populating fails after some chunks, or with the one added.
    pub add-IsCounted : (given : Bool) → Added given
    unfolding add
    add-IsCounted given = elim (Bool-cases (vaddr == 0 || nbytes == 0)) [
      | inl empty ↦ (
        neg (pos einval),
        r,
        rw empty refl,
        h,
        refl,
        refl,
        inl (errno einval (omega arith), refl),
      )
      | inr some_bytes ↦ elim (Bool-cases (ltb r.lut_capacity (u64 (first + cnt)))) [
        | inl over ↦ (
          neg (pos einval),
          r,
          rw (some_bytes, over) refl,
          h,
          refl,
          refl,
          inl (errno einval (omega arith), refl),
        )
        | inr room ↦ by_memory given some_bytes room
      ]
    ]
