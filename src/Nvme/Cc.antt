-- ===== src/Nvme/Cc.antt =====
-- include/upcie/nvme/nvme_mmio.h: the fields of the controller configuration register (CC).
pub mod Fields
use upcie.Prelude.{ℕ}
use upcie.Prelude.Bits.{u8, u32}
use upcie.Bitfield.{bitfield_get, bitfield_set}

unfoldable pub get_en : ℕ → ℕ
get_en cc = u8 (bitfield_get cc 0 1)

unfoldable pub get_css : ℕ → ℕ
get_css cc = u8 (bitfield_get cc 4 4)

unfoldable pub get_mps : ℕ → ℕ
get_mps cc = u8 (bitfield_get cc 7 4)

unfoldable pub get_ams : ℕ → ℕ
get_ams cc = u8 (bitfield_get cc 11 3)

unfoldable pub get_cqr : ℕ → ℕ
get_cqr cc = u8 (bitfield_get cc 16 1)

unfoldable pub get_shn : ℕ → ℕ
get_shn cc = u8 (bitfield_get cc 14 2)

unfoldable pub get_iocqes : ℕ → ℕ
get_iocqes cc = u8 (bitfield_get cc 20 4)

unfoldable pub get_iosqes : ℕ → ℕ
get_iosqes cc = u8 (bitfield_get cc 24 4)

unfoldable pub set_en : ℕ → ℕ → ℕ
set_en cc val = u32 (bitfield_set cc 0 1 val)

unfoldable pub set_css : ℕ → ℕ → ℕ
set_css cc val = u32 (bitfield_set cc 4 3 val)

unfoldable pub set_mps : ℕ → ℕ → ℕ
set_mps cc val = u32 (bitfield_set cc 7 4 val)

unfoldable pub set_ams : ℕ → ℕ → ℕ
set_ams cc val = u32 (bitfield_set cc 11 3 val)

unfoldable pub set_shn : ℕ → ℕ → ℕ
set_shn cc val = u32 (bitfield_set cc 14 2 val)

unfoldable pub set_iosqes : ℕ → ℕ → ℕ
set_iosqes cc val = u32 (bitfield_set cc 16 4 val)

unfoldable pub set_iocqes : ℕ → ℕ → ℕ
set_iocqes cc val = u32 (bitfield_set cc 20 4 val)

unfoldable pub set_crime : ℕ → ℕ → ℕ
set_crime cc val = u32 (bitfield_set cc 24 1 val)
