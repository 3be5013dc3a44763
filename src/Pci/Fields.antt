-- ===== src/Pci/Fields.antt =====
-- The parts of an address: what is packed is read back, and what is written as text is scanned back.
use upcie.Prelude.{
  ℕ, ◌+◌, ◌*◌, ◌/◌, ◌%◌, ◌^◌, ◌<◌, ◌≡◌, ◌⊎◌, inl, inr, ◌-◌, refl, arith, ap₂, sym, ◌∙◌, bit_or,
  List, some, false, ◌||◌, pos,
}
use upcie.Prelude.Bits.{u32, shl, bit_and-mask}
use upcie.Mmio.Memory.{join_parts}
use upcie.Pci.Addr.{
  Text, get_function, get_device, get_bus, get_domain, exceeds, pack, from_text, to_text,
}

-- The address whose parts these are.
abbrev sum_of : ℕ → ℕ → ℕ → ℕ → ℕ
sum_of domain bus device function = domain * 2 ^ 16 + bus * 2 ^ 8 + device * 2 ^ 3 + function

module _ (domain bus device function : ℕ) (a : domain < 2 ^ 16) (b : bus < 2 ^ 8)
    (c : device < 2 ^ 5) (e : function < 2 ^ 3) where
  with_bus : bit_or (u32 (domain * 2 ^ 16)) (u32 (bus * 2 ^ 8)) ≡ domain * 2 ^ 16 + bus * 2 ^ 8
  with_bus =
      let y : ℕ = domain * 2 ^ 16 + bus * 2 ^ 8 in
      let high : shl (y / 2 ^ 16) 16 ≡ u32 (domain * 2 ^ 16) = omega arith in
      let low : y % 2 ^ 16 ≡ u32 (bus * 2 ^ 8) = omega arith in
      sym (ap₂ bit_or high low) ∙ join_parts 16 y (omega arith) (omega arith)

  with_device :
      bit_or (domain * 2 ^ 16 + bus * 2 ^ 8) (u32 (device * 2 ^ 3))
      ≡ domain * 2 ^ 16 + bus * 2 ^ 8 + device * 2 ^ 3
  with_device =
      let y : ℕ = domain * 2 ^ 16 + bus * 2 ^ 8 + device * 2 ^ 3 in
      let high : shl (y / 2 ^ 8) 8 ≡ domain * 2 ^ 16 + bus * 2 ^ 8 = omega arith in
      let low : y % 2 ^ 8 ≡ u32 (device * 2 ^ 3) = omega arith in
      sym (ap₂ bit_or high low) ∙ join_parts 8 y (omega arith) (omega arith)

  with_function :
      bit_or (domain * 2 ^ 16 + bus * 2 ^ 8 + device * 2 ^ 3) function
      ≡ sum_of domain bus device function
  with_function =
      let y : ℕ = sum_of domain bus device function in
      let high : shl (y / 2 ^ 3) 3 ≡ domain * 2 ^ 16 + bus * 2 ^ 8 + device * 2 ^ 3 = omega arith in
      let low : y % 2 ^ 3 ≡ function = omega arith in
      sym (ap₂ bit_or high low) ∙ join_parts 3 y (omega arith) (omega arith)

  pack-sum : pack domain bus device function ≡ sum_of domain bus device function
  unfolding pack
  pack-sum = rw (with_bus, with_device, with_function) refl

  accepted :
      (exceeds domain 0xFFFF || exceeds bus 0xFF || exceeds device 0x1F || exceeds function 0x07)
      ≡ false
  accepted = ground (arith, a, b, c, e)

-- The parts of an address, by arithmetic.
module _ (addr : ℕ) where
  function-mod : get_function addr ≡ addr % 2 ^ 3
  unfolding get_function
  function-mod = omega (arith, bit_and-mask 3 addr)

  device-mod : get_device addr ≡ addr / 2 ^ 3 % 2 ^ 5
  unfolding get_device
  device-mod = omega (arith, bit_and-mask 5 (addr / 2 ^ 3))

  bus-mod : get_bus addr ≡ addr / 2 ^ 8 % 2 ^ 8
  unfolding get_bus
  bus-mod = omega (arith, bit_and-mask 8 (addr / 2 ^ 8))

  domain-mod : get_domain addr ≡ addr / 2 ^ 16 % 2 ^ 16
  unfolding get_domain
  domain-mod = omega (arith, bit_and-mask 16 (addr / 2 ^ 16))

  parts-sum :
      addr < 2 ^ 32
      → sum_of (get_domain addr) (get_bus addr) (get_device addr) (get_function addr) ≡ addr
  parts-sum h = omega (arith, function-mod, device-mod, bus-mod, domain-mod)

-- What the format and the scan of the C library are for: parts that are written are read back.
pub record IsText (text : Text) : Type 0 where
  pub scans :
      (domain bus device function : ℕ)
      → domain < 2 ^ 16
      → bus < 2 ^ 8
      → device < 2 ^ 8
      → function < 2 ^ 4
      → text.sscanf_bdf (text.snprintf_bdf domain bus device function)
        ≡ some (domain, bus, device, function)

-- Where `sscanf` reads back the numbers that `snprintf` writes, the text of any 32-bit address is
-- accepted and gives this address.
pub from_text-to_text :
    {text : Text}
    → IsText text
    → (addr before : ℕ) → addr < 2 ^ 32
    → from_text text (to_text text addr) before ≡ (pos 0, addr)
unfolding from_text to_text
from_text-to_text t addr before h =
    let a : get_domain addr < 2 ^ 16 = omega (arith, domain-mod addr) in
    let b : get_bus addr < 2 ^ 8 = omega (arith, bus-mod addr) in
    let c : get_device addr < 2 ^ 5 = omega (arith, device-mod addr) in
    let e : get_function addr < 2 ^ 3 = omega (arith, function-mod addr) in
    rw
      (
        t.scans (get_domain addr) (get_bus addr) (get_device addr) (get_function addr) a b
            (omega (arith, c)) (omega (arith, e)),
        accepted (get_domain addr) (get_bus addr) (get_device addr) (get_function addr) a b c e,
        pack-sum (get_domain addr) (get_bus addr) (get_device addr) (get_function addr) a b c e,
        parts-sum addr h,
      )
      refl

-- Parts in range that are scanned give an address with these parts. A domain of `-1`, which the
-- format admits, passes the checks as well, and becomes the domain 0xFFFF.
pub from_text-parts :
    (text : Text) (bytes : List ℕ) (before domain bus device function : ℕ)
    → text.sscanf_bdf bytes ≡ some (domain, bus, device, function)
    → (domain < 2 ^ 16) ⊎ (domain ≡ 2 ^ 32 - 1)
    → bus < 2 ^ 8
    → device < 2 ^ 5
    → function < 2 ^ 3
    → (addr : ℕ) × (from_text text bytes before ≡ (pos 0, addr))
      × (get_domain addr ≡ domain % 2 ^ 16)
      × (get_bus addr ≡ bus)
      × (get_device addr ≡ device)
      × (get_function addr ≡ function)
unfolding from_text
from_text-parts text bytes before domain bus device function scanned (inl a) b c e =
    let addr : ℕ = sum_of domain bus device function in
    (
      addr,
      rw
          (
            scanned,
            accepted domain bus device function a b c e,
            pack-sum domain bus device function a b c e,
          )
          refl,
      omega (arith, domain-mod addr),
      omega (arith, bus-mod addr),
      omega (arith, device-mod addr),
      omega (arith, function-mod addr),
    )
from_text-parts text bytes before domain bus device function scanned (inr a) b c e =
    let addr : ℕ = sum_of 0xFFFF bus device function in
    let test : (exceeds domain 0xFFFF
          || exceeds bus 0xFF
          || exceeds device 0x1F
          || exceeds function 0x07)
        ≡ false =
      ground (arith, a, b, c, e) in
    let shifted : u32 (domain * 2 ^ 16) ≡ u32 (0xFFFF * 2 ^ 16) = omega (arith, a) in
    let wrapped : pack domain bus device function ≡ pack 0xFFFF bus device function =
      unfold pack in rw shifted refl in
    let packed : pack domain bus device function ≡ addr =
      wrapped ∙ pack-sum 0xFFFF bus device function (omega arith) b c e in
    (
      addr,
      rw (scanned, test, packed) refl,
      omega (arith, domain-mod addr, a),
      omega (arith, bus-mod addr),
      omega (arith, device-mod addr),
      omega (arith, function-mod addr),
    )
