-- ===== src/Bitfield.antt =====
-- include/upcie/bitfield.h: masks and bitfields of 64-bit words. `offset` and `width` are
-- `uint8_t`; a shift by 64 or more is undefined in C, and the theorems stay below it.
pub mod Bits
pub mod Laws
mod Tests
use upcie.Prelude.{ℕ, bit_and, bit_or, ◌==◌, if◌then◌else◌}
use upcie.Prelude.Bits.{uint64_max, shl, shr, sub64, bit_not}

unfoldable pub bitfield_mask : ℕ → ℕ → ℕ
bitfield_mask offset width = if width == 64 then uint64_max else shl (sub64 (shl 1 width) 1) offset

unfoldable pub bitfield_get : ℕ → ℕ → ℕ → ℕ
bitfield_get val offset width = shr (bit_and val (bitfield_mask offset width)) offset

unfoldable pub bitfield_set : ℕ → ℕ → ℕ → ℕ → ℕ
bitfield_set val offset width field =
    bit_or (bit_and val (bit_not (bitfield_mask offset width)))
      (bit_and (shl field offset) (bitfield_mask offset width))
