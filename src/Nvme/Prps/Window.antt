-- ===== src/Nvme/Prps/Window.antt =====
-- What the builders need of a heap, as an interface: translation by spans.
use upcie.Prelude.{ℕ, ◌+◌, ◌*◌, ◌%◌, ◌^◌, ◌<◌, ◌≡◌, done}
use upcie.Nvme.Prps.{DmaWindow}

-- `size` bytes from `virt` on translate, and the physical addresses run on within each span. A span
-- is `2 ^ extra_shift` pages. Addresses of user space lie below 2 ^ 63.
pub record IsLawful (w : DmaWindow) (size : ℕ) : Type 0 where
  pub phys : ℕ → ℕ
  pub extra_shift : ℕ
  pub page_shift : w.pagesize ≡ 2 ^ w.pagesize_shift
  pub span_pages : w.span ≡ w.pagesize * 2 ^ extra_shift
  pub span_power : w.span ≡ 2 ^ (w.pagesize_shift + extra_shift)
  pub span_max : w.pagesize_shift + extra_shift < 31
  pub aligned : w.virt % w.pagesize ≡ 0
  pub below : w.virt + size < 2 ^ 63
  pub translates : (offset : ℕ) → offset < size → w.translate (w.virt + offset) ≡ done (phys offset)
  pub runs_on :
      (offset d : ℕ)
      → offset + d < size
      → offset % w.span + d < w.span
      → phys (offset + d) ≡ phys offset + d
  pub phys-lt : (offset : ℕ) → offset < size → phys offset < 2 ^ 64
  pub phys_aligned : (offset : ℕ) → offset < size → phys offset % w.pagesize ≡ offset % w.pagesize
