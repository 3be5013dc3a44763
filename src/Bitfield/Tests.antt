-- ===== src/Bitfield/Tests.antt =====
-- Bitfields at concrete words, and their theorems there.
use upcie.Prelude.{◌%◌, ◌^◌, ◌≡◌, refl, arith}
use upcie.Bitfield.{bitfield_mask, bitfield_get, bitfield_set}
use upcie.Bitfield.Laws.{bitfield_get-bitfield_set}

-- The example in the file's own comment.
documented_example :
    (bitfield_set (bitfield_set (bitfield_set 0 0 4 0x5) 4 4 0xA) 8 8 0xFF ≡ 0xFFA5)
    × (bitfield_get 0xFFA5 4 4 ≡ 0xA)
unfolding bitfield_set bitfield_get bitfield_mask
documented_example = (refl, refl)

full_width : bitfield_mask 0 64 ≡ 0xFFFF_FFFF_FFFF_FFFF
unfolding bitfield_mask
full_width = refl

bitfield_get-bitfield_set_example : bitfield_get (bitfield_set 0xFFA5 4 3 0x2C) 4 3 ≡ 0x2C % 2 ^ 3
bitfield_get-bitfield_set_example =
    bitfield_get-bitfield_set 4 3 (omega arith) 0xFFA5 0x2C (omega arith)
