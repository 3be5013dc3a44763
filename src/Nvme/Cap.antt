-- ===== src/Nvme/Cap.antt =====
-- include/upcie/nvme/nvme_mmio.h: the fields of the controller capabilities register (CAP).
pub mod Fields
use upcie.Prelude.{ℕ}
use upcie.Prelude.Bits.{u8, u16}
use upcie.Bitfield.{bitfield_get}

unfoldable pub get_mqes : ℕ → ℕ
get_mqes cap = u16 (bitfield_get cap 0 16)

unfoldable pub get_cqr : ℕ → ℕ
get_cqr cap = u8 (bitfield_get cap 16 1)

unfoldable pub get_ams : ℕ → ℕ
get_ams cap = u8 (bitfield_get cap 17 2)

unfoldable pub get_to : ℕ → ℕ
get_to cap = u8 (bitfield_get cap 24 8)

unfoldable pub get_dstrd : ℕ → ℕ
get_dstrd cap = u8 (bitfield_get cap 32 4)

unfoldable pub get_nssrs : ℕ → ℕ
get_nssrs cap = u8 (bitfield_get cap 36 1)

unfoldable pub get_css : ℕ → ℕ
get_css cap = u8 (bitfield_get cap 37 8)

unfoldable pub get_bps : ℕ → ℕ
get_bps cap = u8 (bitfield_get cap 45 1)

unfoldable pub get_cps : ℕ → ℕ
get_cps cap = u8 (bitfield_get cap 46 2)

unfoldable pub get_mpsmin : ℕ → ℕ
get_mpsmin cap = u8 (bitfield_get cap 48 4)

unfoldable pub get_mpsmax : ℕ → ℕ
get_mpsmax cap = u8 (bitfield_get cap 52 4)

unfoldable pub get_pmrs : ℕ → ℕ
get_pmrs cap = u8 (bitfield_get cap 56 1)

unfoldable pub get_cmbs : ℕ → ℕ
get_cmbs cap = u8 (bitfield_get cap 57 1)

unfoldable pub get_nsss : ℕ → ℕ
get_nsss cap = u8 (bitfield_get cap 58 1)

unfoldable pub get_crms : ℕ → ℕ
get_crms cap = u8 (bitfield_get cap 59 2)

unfoldable pub get_nsses : ℕ → ℕ
get_nsses cap = u8 (bitfield_get cap 61 1)
