-- ===== src/Gpu/Heap/Elements.antt =====
-- The elements of an array that was allocated: none lies across the end of a device page.
use native.Mathlib.Nat.{mod-lt, div-add-mod, mul-le-mul_left, mod-eq_of_lt, mul-add-mod_self_left}
use upcie.Prelude.{
  ℕ, zero, suc, ◌+◌, ◌-◌, ◌*◌, ◌/◌, ◌%◌, ◌≤◌, ◌<◌, ◌≡◌, ◌⊎◌, inl, inr, arith, ap, ◌∙◌, dec_lt,
}
use upcie.Prelude.Blocks.{mul-mod-mul, add-mod_inside}

-- An array of `count` elements of `size` bytes at an offset, in pages of `page`: either it ends in the
-- page it begins in, or the rest of this page is a whole number of elements, and so is a page, or the
-- array is no longer than a page.
module _ (page size count offset : ℕ) (some_size : 1 ≤ size) (size_fits : size ≤ page)
    (starts : (offset % page + count * size ≤ page)
      ⊎ (((page - offset % page) % size ≡ 0) × ((page % size ≡ 0) ⊎ (count * size ≤ page)))) where
  some_page : 1 ≤ page
  some_page = omega (arith, some_size, size_fits)

  -- An element within the page that the array begins in.
  first_page :
      (i : ℕ) → offset % page + i * size + size ≤ page → (offset + i * size) % page + size ≤ page
  first_page i h =
      let at = add-mod_inside page some_page offset (i * size) (omega (arith, some_size, h)) in
      omega (arith, at, h)

  -- An element behind that page.
  later_page :
      (i : ℕ)
      → (page - offset % page) % size ≡ 0
      → (page % size ≡ 0) ⊎ (count * size ≤ page)
      → i < count
      → (page - offset % page) / size ≤ i
      → (offset + i * size) % page + size ≤ page
  later_page i whole which h past =
      let q : ℕ = (page - offset % page) / size in
      let j : ℕ = i - q in
      let filled : size * q ≡ page - offset % page =
        omega (arith, whole, div-add-mod (page - offset % page) size) in
      let sum : i * size ≡ size * q + size * j =
        ap (λ (t : ℕ). t * size) (back q i past) ∙ omega arith in
      let at : offset + i * size ≡ page * (offset / page + 1) + size * j =
        omega (arith, sum, filled, div-add-mod offset page, mod-lt offset some_page) in
      let read : (offset + i * size) % page ≡ (size * j) % page =
        ap (λ (t : ℕ). t % page) at ∙ mul-add-mod_self_left page (offset / page + 1) (size * j) in
      elim which [
        | inl divides ↦
            let m : ℕ = page / size in
            let parts : page ≡ size * m = omega (arith, divides, div-add-mod page size) in
            let some_parts : 1 ≤ m = one_part m parts in
            let wrapped : (size * j) % page ≡ size * (j % m) =
              ap (λ (t : ℕ). (size * j) % t) parts ∙ mul-mod-mul size some_size m some_parts j in
            omega (arith, read, wrapped, parts, mul-le-mul_left size (mod-lt j some_parts))
        | inr short ↦
            let below : size * j + size ≤ page =
              omega (arith, sum, short, mul-le-mul_left size h) in
            let small : (size * j) % page ≡ size * j =
              mod-eq_of_lt (omega (arith, below, some_size)) in
            omega (arith, read, small, below)
      ]
    where
      back : (a b : ℕ) → a ≤ b → b ≡ a + (b - a)
      back a b l = omega arith

      one_part : (m : ℕ) → page ≡ size * m → 1 ≤ m
      one_part zero e = absurd (omega (arith, some_page, e))
      one_part (suc m) e = omega arith

  pub element_inside : (i : ℕ) → i < count → (offset + i * size) % page + size ≤ page
  element_inside i h = elim starts [
    | inl one_page ↦ first_page i (omega (arith, one_page, mul-le-mul_left size h))
    | inr (whole, which) ↦ elim (dec_lt i ((page - offset % page) / size)) [
      | yes early ↦ first_page i (
          omega (
            arith,
            mod-lt offset some_page,
            div-add-mod (page - offset % page) size,
            mul-le-mul_left size early,
          ))
      | no late ↦ later_page i whole which h (omega arith)
    ]
  ]
