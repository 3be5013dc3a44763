-- ===== src/Gpu/Mapping/Resolve.antt =====
-- The translation through a registry in order.
use native.Mathlib.Nat.{
  div-lt_iff_lt-mul, le-div_iff_mul-le, one-le-pow, mod-lt, div-add-mod, mul-add-div,
}
use upcie.Prelude.{
  ℕ, suc, ◌+◌, ◌-◌, ◌*◌, ◌/◌, ◌%◌, ◌^◌, ◌≤◌, ◌<◌, ◌≡◌, ◌≢◌, ◌==◌, ◌⊎◌, Bool-cases, true, false, leb,
  refl, arith, ap, sym, ◌∙◌, subst, inl, inr, pos, neg, einval, List, [], ◌∷◌, All, get_elem?, some,
  ℕ_discrete,
}
use upcie.Prelude.Bits.{u64, bit_and-mask}
use upcie.Gpu.Mapping.{Registry, Registration, first_chunk, chunk_cnt, virt_to_phys}
use upcie.Gpu.Mapping.Counts.{holds, holders, IsWithin, IsCounted}

-- A chunk and a registration have a byte in common; the range of a registration does not wrap.
abbrev pub Touches : ℕ → Registration → ℕ → Type 0
Touches s m j = (j * 2 ^ s < m.vaddr + m.size) × (m.vaddr < (j + 1) * 2 ^ s)

abbrev pub IsRange : ℕ → Registration → Type 0
IsRange s m = m.vaddr + m.size + 2 ^ s < 2 ^ 64

module _ (s : ℕ) where
  chunk-pos : 1 ≤ 2 ^ s
  chunk-pos = one-le-pow s 2 (omega arith)

  -- The end of the chunks of a registration.
  past_last :
      (m : Registration)
      → IsRange s m
      → first_chunk s m.vaddr + chunk_cnt s (2 ^ s - 1) m.vaddr m.size
        ≡ (m.vaddr + m.size + 2 ^ s - 1) / 2 ^ s
  past_last m range =
      let offset : ℕ = m.vaddr % 2 ^ s in
      let low = mod-lt m.vaddr chunk-pos in
      let parts = div-add-mod m.vaddr (2 ^ s) in
      let plain : u64 (u64 (offset + m.size) + (2 ^ s - 1)) ≡ offset + m.size + (2 ^ s - 1) =
        omega (arith, range, low, parts, chunk-pos) in
      let whole : 2 ^ s * (m.vaddr / 2 ^ s) + (offset + m.size + (2 ^ s - 1))
          ≡ m.vaddr + m.size + 2 ^ s - 1 =
        omega (arith, parts, chunk-pos) in
      rw (bit_and-mask, plain, ← whole)
        (sym (mul-add-div chunk-pos (m.vaddr / 2 ^ s) (offset + m.size + (2 ^ s - 1))))

  -- The chunks of a registration are those that touch it.
  module _ (m : Registration) (j : ℕ) (range : IsRange s m) where
    last_chunk :
        j < first_chunk s m.vaddr + chunk_cnt s (2 ^ s - 1) m.vaddr m.size
        → j * 2 ^ s < m.vaddr + m.size
    last_chunk h =
        let below : (j + 1) * 2 ^ s ≤ m.vaddr + m.size + 2 ^ s - 1 =
          (le-div_iff_mul-le chunk-pos).0 (omega (arith, h, past_last m range)) in
        omega (arith, below, chunk-pos)

    holds-Touches : holds s (2 ^ s - 1) m j ≡ 1 → Touches s m j
    holds-Touches h =
        let from : first_chunk s m.vaddr ≤ j = ground (arith, h) in
        let to : j < first_chunk s m.vaddr + chunk_cnt s (2 ^ s - 1) m.vaddr m.size =
          ground (arith, h) in
        (last_chunk to, (div-lt_iff_lt-mul chunk-pos).0 (omega (arith, from)))

    Touches-holds : Touches s m j → holds s (2 ^ s - 1) m j ≡ 1
    Touches-holds (before_end, after_start) =
        let from : first_chunk s m.vaddr < j + 1 = (div-lt_iff_lt-mul chunk-pos).1 after_start in
        let to : j + 1 ≤ (m.vaddr + m.size + 2 ^ s - 1) / 2 ^ s =
          (le-div_iff_mul-le chunk-pos).1 (omega (arith, before_end, chunk-pos)) in
        ground (arith, from, to, past_last m range)

  -- Whether one of the registrations touches a chunk.
  holders-Touches :
      (l : List Registration) (j capacity : ℕ)
      → All (IsRange s) l
      → All (IsWithin s (2 ^ s - 1) capacity) l
      → ((i : ℕ) × (m : Registration) × (get_elem? l i ≡ some m)
          × Touches s m j
          × (1 ≤ holders s (2 ^ s - 1) l j)
          × (j < capacity))
        ⊎ (All (λ (m : Registration). ¬ Touches s m j) l × (holders s (2 ^ s - 1) l j ≡ 0))
  holders-Touches [] j capacity r w = inr (tt, refl)
  holders-Touches (m ∷ l) j capacity (range, ranges) (within, withins) =
      elim (ℕ_discrete (holds s (2 ^ s - 1) m j) 1) [
        | yes one ↦
            let to : j < first_chunk s m.vaddr + chunk_cnt s (2 ^ s - 1) m.vaddr m.size =
              ground (arith, one) in
            inl (
              0,
              m,
              refl,
              holds-Touches m j range one,
              omega (arith, one),
              omega (arith, to, within),
            )
        | no other ↦
            let none_here : holds s (2 ^ s - 1) m j ≡ 0 = ground (arith, other) in
            elim (holders-Touches l j capacity ranges withins) [
              | inl (i, found, at, touches, some_holder, below) ↦
                  inl (suc i, found, at, touches, omega (arith, some_holder), below)
              | inr (untouched, none_later) ↦ inr (
                (λ t. other (Touches-holds m j range t), untouched),
                omega (arith, none_here, none_later),
              )
            ]
      ]

-- In a registry in order, of which no chunk has the address 0, the mask is that of the chunk size
-- and no registration reaches the last chunk of the address space, an address other than 0
-- translates exactly if its chunk touches a registration, to the address of the chunk and the
-- offset into it; otherwise the result is -EINVAL and what the call was given stays.
pub virt_to_phys-IsCounted :
    (base_of : ℕ → ℕ) (r : Registry) (virt phys : ℕ)
    → IsCounted base_of r
    → ((j : ℕ) → base_of j ≢ 0)
    → r.gran_mask ≡ 2 ^ r.gran_shift - 1
    → All (IsRange r.gran_shift) r.list
    → virt ≢ 0
    → ((i : ℕ) × (m : Registration) × (get_elem? r.list i ≡ some m)
        × Touches r.gran_shift m (virt / 2 ^ r.gran_shift)
        × (virt_to_phys r virt phys
            ≡ (pos 0, u64 (base_of (virt / 2 ^ r.gran_shift) + virt % 2 ^ r.gran_shift))))
      ⊎ (All (λ (m : Registration). ¬ Touches r.gran_shift m (virt / 2 ^ r.gran_shift)) r.list
          × (virt_to_phys r virt phys ≡ (neg (pos einval), phys)))
unfolding virt_to_phys
virt_to_phys-IsCounted base_of r virt phys h nonzero mask ranges some_address =
    let j : ℕ = virt / 2 ^ r.gran_shift in
    let c = h.counted j in
    let count_eq : holders r.gran_shift r.gran_mask r.list j
        ≡ holders r.gran_shift (2 ^ r.gran_shift - 1) r.list j =
      ap (λ (m : ℕ). holders r.gran_shift m r.list j) mask in
    let within =
      subst (λ (m : ℕ). All (IsWithin r.gran_shift m r.lut_capacity) r.list) mask h.within in
    let given : (virt == 0) ≡ false = ground (arith, some_address) in
    elim (holders-Touches r.gran_shift r.list j r.lut_capacity ranges within) [
      | inl (i, m, at, touches, some_holder, below) ↦
          let room : leb r.lut_capacity j ≡ false = ground (arith, below) in
          let base : r.lut_phys j ≡ base_of j = c.live (omega (arith, count_eq, some_holder)) in
          let mapped : (r.lut_phys j == 0) ≡ false = ground (arith, base, nonzero j) in
          inl (i, m, at, touches, rw (given, room, mapped, base, mask, bit_and-mask) refl)
      | inr (untouched, no_holder) ↦
          let base : r.lut_phys j ≡ 0 = (c.idle (count_eq ∙ no_holder)).0 in
          let unmapped : (r.lut_phys j == 0) ≡ true = ground (arith, base) in
          inr (
            untouched,
            elim (Bool-cases (leb r.lut_capacity j)) [
              | inl over ↦ rw (given, over) refl
              | inr room ↦ rw (given, room, unmapped) refl
            ],
          )
    ]
