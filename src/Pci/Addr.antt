-- ===== src/Pci/Addr.antt =====
-- include/upcie/pci.h: the address of a PCI function and its text. An `int` is its bit pattern.
use upcie.Prelude.{
  ℕ, ◌*◌, ◌^◌, ◌&&◌, ◌||◌, ltb, if◌then◌else◌, bit_and, bit_or, Bool, List, Option, some, none, ℤ,
  pos, neg, einval,
}
use upcie.Prelude.Bits.{u8, u16, u32, shr}

-- What the code uses of the C library on text, which is a list of bytes: `sscanf` with the format
-- "%4x:%2x:%2x.%1x", if it reads all four fields, `snprintf` with the format that
-- `pci_addr_to_text` gives it, and `strtoul` at base 16.
pub record Text : Type 0 where
  pub sscanf_bdf : List ℕ → Option (ℕ × ℕ × ℕ × ℕ)
  pub snprintf_bdf : ℕ → ℕ → ℕ → ℕ → List ℕ
  pub strtoul16 : List ℕ → ℕ

unfoldable pub get_function : ℕ → ℕ
get_function bdf = u8 (bit_and bdf 0x7)

unfoldable pub get_device : ℕ → ℕ
get_device bdf = u8 (bit_and (shr bdf 3) 0x1f)

unfoldable pub get_bus : ℕ → ℕ
get_bus bdf = u8 (bit_and (shr bdf 8) 0xff)

unfoldable pub get_domain : ℕ → ℕ
get_domain bdf = u16 (bit_and (shr bdf 16) 0xffff)

-- `x > limit` of `int`, at a limit that is not negative.
abbrev pub exceeds : ℕ → ℕ → Bool
exceeds x limit = ltb x (2 ^ 31) && ltb limit x

-- The shifts wrap around, as compilers have it.
unfoldable pub pack : ℕ → ℕ → ℕ → ℕ → ℕ
pack domain bus device function =
    bit_or (bit_or (bit_or (u32 (domain * 2 ^ 16)) (u32 (bus * 2 ^ 8))) (u32 (device * 2 ^ 3)))
      function

-- What follows the call of `sscanf`; `addr` is the value that the pointer leads to before the call.
unfoldable pub from_fields : Option (ℕ × ℕ × ℕ × ℕ) → ℕ → ℤ × ℕ
from_fields none addr = (neg (pos einval), addr)
from_fields (some (domain, bus, device, function)) addr =
    if exceeds domain 0xFFFF || exceeds bus 0xFF || exceeds device 0x1F || exceeds function 0x07
    then (neg (pos einval), addr)
    else (pos 0, pack domain bus device function)

module _ (text : Text) where
  unfoldable pub from_text : List ℕ → ℕ → ℤ × ℕ
  unfolding from_fields
  from_text bytes addr = from_fields (text.sscanf_bdf bytes) addr

  unfoldable pub to_text : ℕ → List ℕ
  to_text addr =
      text.snprintf_bdf (get_domain addr) (get_bus addr) (get_device addr) (get_function addr)
