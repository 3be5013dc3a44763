-- ===== src/Bitfield/Bits.antt =====
-- What each bit of a mask, of a field read and of a word written is.
use native.Mathlib.Nat.{one-le-pow, mod-lt}
use upcie.Prelude.{
  ℕ, ◌+◌, ◌-◌, ◌*◌, ◌^◌, ◌≤◌, ◌<◌, bit_and, ◌≡◌, arith, ◌&&◌, ltb, leb, ◌==◌, if◌then◌else◌, dec_lt,
  Bool-cases, inl, inr,
}
use upcie.Prelude.Bits.{shl, sub64, bit_not, testbit}
use upcie.Prelude.Bits.{
  pow-le-pow, testbit-lt, testbit-bit_and, testbit-bit_or, testbit-shr, testbit-mod, testbit-shl,
  testbit-mask, testbit_not, testbit_above, bit_and-lt, bit_or-lt,
}
use upcie.Bitfield.{bitfield_mask, bitfield_get, bitfield_set}

module _ (offset width : ℕ) (fits : offset + width ≤ 64) where
  pub bitfield_mask-lt : bitfield_mask offset width < 2 ^ 64
  unfolding bitfield_mask
  bitfield_mask-lt = ground arith

  -- The mask before it is moved to its place.
  low_mask : width < 64 → sub64 (shl 1 width) 1 ≡ 2 ^ width - 1
  low_mask h =
      let below : 2 ^ width ≤ 2 ^ 63 = pow-le-pow width 63 (omega arith) in
      omega (arith, one-le-pow width 2)

  pub testbit-bitfield_mask :
      (i : ℕ)
      → i < 64
      → testbit (bitfield_mask offset width) i
        ≡ (if leb offset i && ltb i (offset + width) then 1 else 0)
  unfolding bitfield_mask
  testbit-bitfield_mask i h = elim (Bool-cases (width == 64)) [
    | inl all ↦ rw all (ground (arith, testbit-mask 64 i))
    | inr part ↦
        rw (part, low_mask (ground arith))
          (ground (
            arith,
            testbit-mod ((2 ^ width - 1) * 2 ^ offset) 64 i,
            testbit-shl (2 ^ width - 1) offset i,
            testbit-mask width (i - offset),
          ))
  ]

  -- Bit `i` of a field read is bit `offset + i` of the word.
  pub testbit-bitfield_get :
      (val i : ℕ)
      → testbit (bitfield_get val offset width) i
        ≡ (if ltb i width then testbit val (offset + i) else 0)
  unfolding bitfield_get
  testbit-bitfield_get val i = elim (dec_lt (offset + i) 64) [
    | yes p ↦ ground (
      arith,
      testbit-shr (bit_and val (bitfield_mask offset width)) offset i,
      testbit-bit_and val (bitfield_mask offset width) (offset + i),
      testbit-bitfield_mask (offset + i) p,
      testbit-lt val (offset + i),
    )
    | no p ↦ ground (
      arith,
      testbit-shr (bit_and val (bitfield_mask offset width)) offset i,
      testbit-bit_and val (bitfield_mask offset width) (offset + i),
      testbit_above 64 (bitfield_mask offset width) (offset + i) bitfield_mask-lt,
    )
  ]

  -- Writing a field changes the bits of the field and no other.
  pub testbit-bitfield_set :
      (val field i : ℕ)
      → i < 64
      → testbit (bitfield_set val offset width field) i ≡ (
          if leb offset i && ltb i (offset + width)
          then testbit field (i - offset)
          else testbit val i)
  unfolding bitfield_set
  testbit-bitfield_set val field i h =
      let m : ℕ = bitfield_mask offset width in
      ground (
        arith,
        testbit-bit_or (bit_and val (bit_not m)) (bit_and (shl field offset) m) i,
        testbit-bit_and val (bit_not m) i,
        testbit-bit_and (shl field offset) m i,
        testbit_not 64 m i bitfield_mask-lt h,
        testbit-bitfield_mask i h,
        testbit-mod (field * 2 ^ offset) 64 i,
        testbit-shl field offset i,
        testbit-lt val i,
        testbit-lt field (i - offset),
      )

  pub bitfield_set-lt :
      (val field : ℕ) → val < 2 ^ 64 → bitfield_set val offset width field < 2 ^ 64
  unfolding bitfield_set
  bitfield_set-lt val field h =
      let m : ℕ = bitfield_mask offset width in
      bit_or-lt 64 (bit_and val (bit_not m)) (bit_and (shl field offset) m)
        (bit_and-lt 64 val (bit_not m) h)
        (bit_and-lt 64 (shl field offset) m (mod-lt (field * 2 ^ offset) (omega arith)))
