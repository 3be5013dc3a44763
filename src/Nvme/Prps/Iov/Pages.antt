-- ===== src/Nvme/Prps/Iov/Pages.antt =====
-- The iovec builder lists the translations of the pages of the iovecs.
use mathlib.Core.Option
use upcie.Prelude.{ℕ, ◌≤◌, ◌≡◌, List, ◌++◌, done}
use upcie.Nvme.Prps.{DmaWindow}
use upcie.Nvme.Prps.Iov.{Iovec, less_page, pages_from, pages_in, all_pages}

module _ (w : DmaWindow) (phys : ℕ → ℕ) (some_page : 1 ≤ w.pagesize) where
  -- A page that the window translates.
  abbrev pub Maps : ℕ → Type 0
  Maps addr = w.translate addr ≡ done (phys addr)

  module _ (first : Iovec) (dvec : List Iovec) where
    -- The pages of an iovec, but the first.
    abbrev own : List ℕ
    own =
        pages_from w.pagesize first.iov_base w.pagesize
          (pages_in w.pagesize (less_page w.pagesize first.iov_len))

    abbrev later_pages : List ℕ
    later_pages = own ++ all_pages w.pagesize dvec
