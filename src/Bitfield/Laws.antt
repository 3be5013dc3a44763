-- ===== src/Bitfield/Laws.antt =====
-- What reading and writing a bitfield give: the arithmetic of a read, and how reads see writes.
use native.Mathlib.Nat.{mod-lt, div-le_self, one-le-pow, add-sub_cancel_left}
use upcie.Prelude.{ℕ, ◌+◌, ◌/◌, ◌%◌, ◌^◌, ◌≤◌, ◌<◌, ◌≡◌, arith, ◌⊎◌, bit_and, ap}
use upcie.Prelude.Bits.{pow-le-pow, bit_and-lt, testbit, testbit-shr, testbit-mod, eq_of_testbit}
use upcie.Bitfield.{bitfield_mask, bitfield_get, bitfield_set}
use upcie.Bitfield.Bits.{testbit-bitfield_get, testbit-bitfield_set, bitfield_set-lt}

module _ (offset width : ℕ) (fits : offset + width ≤ 64) where
  pub bitfield_get-lt : (val : ℕ) → val < 2 ^ 64 → bitfield_get val offset width < 2 ^ 64
  unfolding bitfield_get
  bitfield_get-lt val h =
      let m : ℕ = bitfield_mask offset width in
      omega (arith, div-le_self (bit_and val m) (2 ^ offset), bit_and-lt 64 val m h)

  mod-pow-lt : (n : ℕ) → n % 2 ^ width < 2 ^ 64
  mod-pow-lt n =
      omega
        (arith, mod-lt n {m = 2 ^ width} (one-le-pow width 2 (omega arith)), pow-le-pow width 64)

  -- Reading a field of a 64-bit word gives its `width` bits from `offset` on as a number.
  pub bitfield_get_lem :
      (val : ℕ) → val < 2 ^ 64 → bitfield_get val offset width ≡ val / 2 ^ offset % 2 ^ width
  bitfield_get_lem val h =
      eq_of_testbit 64 (bitfield_get val offset width) (val / 2 ^ offset % 2 ^ width)
        (bitfield_get-lt val h) (mod-pow-lt (val / 2 ^ offset))
        λ i l. ground (
          arith,
          testbit-bitfield_get offset width fits val i,
          testbit-mod (val / 2 ^ offset) width i,
          testbit-shr val offset i,
        )

  -- A field reads back as the low `width` bits of what was written to it.
  pub bitfield_get-bitfield_set :
      (val field : ℕ)
      → val < 2 ^ 64
      → bitfield_get (bitfield_set val offset width field) offset width ≡ field % 2 ^ width
  bitfield_get-bitfield_set val field h =
      eq_of_testbit 64 (bitfield_get (bitfield_set val offset width field) offset width)
        (field % 2 ^ width)
        (bitfield_get-lt (bitfield_set val offset width field)
          (bitfield_set-lt offset width fits val field h))
        (mod-pow-lt field)
        λ i l. ground (
          arith,
          testbit-bitfield_get offset width fits (bitfield_set val offset width field) i,
          testbit-bitfield_set offset width fits val field (offset + i),
          testbit-mod field width i,
          ap (testbit field) (add-sub_cancel_left offset i),
        )

-- A write to one field leaves every field apart from it as it was.
pub bitfield_get-bitfield_set_apart :
    (offset width other other_width : ℕ)
    → offset + width ≤ 64
    → other + other_width ≤ 64
    → (offset + width ≤ other) ⊎ (other + other_width ≤ offset)
    → (val field : ℕ) → val < 2 ^ 64
    → bitfield_get (bitfield_set val offset width field) other other_width
      ≡ bitfield_get val other other_width
bitfield_get-bitfield_set_apart offset width other other_width fits other_fits apart val field h =
    eq_of_testbit 64 (bitfield_get (bitfield_set val offset width field) other other_width)
      (bitfield_get val other other_width)
      (bitfield_get-lt other other_width other_fits (bitfield_set val offset width field)
        (bitfield_set-lt offset width fits val field h))
      (bitfield_get-lt other other_width other_fits val h)
      λ i l. ground (
        arith,
        testbit-bitfield_get other other_width other_fits (bitfield_set val offset width field) i,
        testbit-bitfield_get other other_width other_fits val i,
        testbit-bitfield_set offset width fits val field (other + i),
      )
