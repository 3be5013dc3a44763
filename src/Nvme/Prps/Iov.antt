-- ===== src/Nvme/Prps/Iov.antt =====
-- The PRP builders for an iovec: nvme_request.h, nvme_request_cuda.h and nvme_request_hip.h have the
-- same one over their translations. The list page has room for `pagesize / 8` entries, which the
-- code does not check: what it writes past the page is a fault here.
pub mod Pages
use upcie.Prelude.{
  ℕ, zero, suc, ◌+◌, ◌-◌, ◌*◌, ◌/◌, ◌^◌, ◌≤◌, ◌<◌, ◌≡◌, ◌==◌, Bool, Bool-cases, true, false, ltb,
  leb, if◌then◌else◌, refl, arith, ap, sym, ◌∙◌, subst, inl, inr, All, List, [], ◌∷◌, ◌++◌, map,
  length, get_elem?, Option, some, none, Outcome, done, fault, ◌>>=◌, read, dec_lt, ℕ_discrete,
}
use upcie.Prelude.Bits.{u64}
use upcie.Nvme.Command.{NvmeCommand}
use upcie.Nvme.Prps.{DmaWindow, Prepared}
use upcie.Nvme.Prps.Device.{device_page}

-- `struct iovec`.
pub record Iovec : Type 0 where
  pub iov_base : ℕ
  pub iov_len : ℕ

-- `(remaining > pagesize) ? remaining - pagesize : 0`.
abbrev pub less_page : ℕ → ℕ → ℕ
less_page pagesize remaining = if ltb pagesize remaining then remaining - pagesize else 0

-- The inner loop, on fuel: the entries from an offset on.
unfoldable pub iov_pages : DmaWindow → ℕ → ℕ → ℕ → ℕ → Outcome (List ℕ)
iov_pages w zero base offset remaining = fault
iov_pages w (suc fuel) base offset zero = done []
iov_pages w (suc fuel) base offset (suc more) = do
  entry ← w.translate (u64 (base + offset))
  rest ← iov_pages w fuel base (offset + w.pagesize) (less_page w.pagesize (suc more))
  done (entry ∷ rest)

-- The outer loop after the first iovec; a byte of fuel for each byte is enough.
unfoldable pub iov_rest : DmaWindow → List Iovec → Outcome (List ℕ)
iov_rest w [] = done []
iov_rest w (vec ∷ dvec) = do
  entries ← iov_pages w (vec.iov_len + 1) vec.iov_base 0 vec.iov_len
  rest ← iov_rest w dvec
  done (entries ++ rest)

-- What the number of entries makes of PRP2.
abbrev pub with_entries : ℕ → NvmeCommand → List ℕ → Prepared
with_entries prp_addr cmd [] = record { cmd = cmd; prp_list = [] }
with_entries prp_addr cmd (entry ∷ []) = record {
  cmd = record cmd { prp2 = entry };
  prp_list = entry ∷ [];
}
with_entries prp_addr cmd (entry ∷ next ∷ rest) = record {
  cmd = record cmd { prp2 = prp_addr };
  prp_list = entry ∷ next ∷ rest;
}

-- `nvme_request_prep_command_prps_iov`. It reads the first iovec, so there is one.
unfoldable pub prep_iov : DmaWindow → ℕ → List Iovec → NvmeCommand → Outcome Prepared
prep_iov w prp_addr [] cmd = fault
prep_iov w prp_addr (first ∷ dvec) cmd = do
  prp1 ← w.translate first.iov_base
  entries ←
      iov_pages w (first.iov_len + 1) first.iov_base w.pagesize (less_page w.pagesize first.iov_len)
  rest ← iov_rest w dvec
  if ltb (w.pagesize / 8) (length (entries ++ rest))
      then fault
      else done (with_entries prp_addr (record cmd { prp1 = prp1 }) (entries ++ rest))

-- The addresses of `n` pages, from an offset on.
abbrev pub pages_from : ℕ → ℕ → ℕ → ℕ → List ℕ
pages_from pagesize base offset zero = []
pages_from pagesize base offset (suc n) =
    u64 (base + offset) ∷ pages_from pagesize base (offset + pagesize) n

-- The pages that so many bytes from a page's start take, and the addresses of all the pages.
abbrev pub pages_in : ℕ → ℕ → ℕ
pages_in pagesize nbytes = (nbytes + pagesize - 1) / pagesize

abbrev pub all_pages : ℕ → List Iovec → List ℕ
all_pages pagesize [] = []
all_pages pagesize (vec ∷ dvec) =
    pages_from pagesize vec.iov_base 0 (pages_in pagesize vec.iov_len) ++ all_pages pagesize dvec
