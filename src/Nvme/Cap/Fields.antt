-- ===== src/Nvme/Cap/Fields.antt =====
-- The capabilities register as the sum of its fields.
use upcie.Prelude.{ℕ, ◌+◌, ◌*◌, ◌/◌, ◌%◌, ◌^◌, ◌<◌, ◌≡◌, arith}
use upcie.Bitfield.Laws.{bitfield_get_lem}
use upcie.Nvme.Cap.{
  get_mqes, get_cqr, get_ams, get_to, get_dstrd, get_nssrs, get_css, get_bps, get_cps, get_mpsmin,
  get_mpsmax, get_pmrs, get_cmbs, get_nsss, get_crms, get_nsses,
}

-- The fields and the bits 19 to 23 and 62 to 63, which no getter reads, make up the register: the
-- getters read bits that are apart and that lie in this order.
pub get-sum :
    (cap : ℕ)
    → cap < 2 ^ 64
    → cap
      ≡ get_mqes cap
        + get_cqr cap * 2 ^ 16
        + get_ams cap * 2 ^ 17
        + cap / 2 ^ 19 % 2 ^ 5 * 2 ^ 19
        + get_to cap * 2 ^ 24
        + get_dstrd cap * 2 ^ 32
        + get_nssrs cap * 2 ^ 36
        + get_css cap * 2 ^ 37
        + get_bps cap * 2 ^ 45
        + get_cps cap * 2 ^ 46
        + get_mpsmin cap * 2 ^ 48
        + get_mpsmax cap * 2 ^ 52
        + get_pmrs cap * 2 ^ 56
        + get_cmbs cap * 2 ^ 57
        + get_nsss cap * 2 ^ 58
        + get_crms cap * 2 ^ 59
        + get_nsses cap * 2 ^ 61
        + cap / 2 ^ 62 * 2 ^ 62
unfolding get_mqes get_cqr get_ams get_to get_dstrd get_nssrs get_css get_bps get_cps get_mpsmin
    get_mpsmax get_pmrs get_cmbs get_nsss get_crms get_nsses
get-sum cap h =
    rw
      (
        bitfield_get_lem 0 16 (omega arith) cap h,
        bitfield_get_lem 16 1 (omega arith) cap h,
        bitfield_get_lem 17 2 (omega arith) cap h,
        bitfield_get_lem 24 8 (omega arith) cap h,
        bitfield_get_lem 32 4 (omega arith) cap h,
        bitfield_get_lem 36 1 (omega arith) cap h,
        bitfield_get_lem 37 8 (omega arith) cap h,
        bitfield_get_lem 45 1 (omega arith) cap h,
        bitfield_get_lem 46 2 (omega arith) cap h,
        bitfield_get_lem 48 4 (omega arith) cap h,
        bitfield_get_lem 52 4 (omega arith) cap h,
        bitfield_get_lem 56 1 (omega arith) cap h,
        bitfield_get_lem 57 1 (omega arith) cap h,
        bitfield_get_lem 58 1 (omega arith) cap h,
        bitfield_get_lem 59 2 (omega arith) cap h,
        bitfield_get_lem 61 1 (omega arith) cap h,
      )
      (omega arith)
