-- ===== src/Hostmem/Pagemap.antt =====
-- include/upcie/hostmem.h: the physical address of a virtual one, from the page map of the process.
use upcie.Prelude.{
  ℕ, ◌+◌, ◌-◌, ◌*◌, ◌/◌, ◌%◌, ◌^◌, ◌≡◌, ◌==◌, if◌then◌else◌, bit_and, refl, Bool-cases, inl, inr,
  Option, some, none, ℤ, pos, neg, einval,
}
use upcie.Prelude.Bits.{u64}
use upcie.Os.{Os, self_pagemap}
use upcie.Os.Held.{View, IsOs, Balanced, Opened-Balanced, Opened-Closed}

-- The physical address in an entry of the page map, of a virtual address with pages of a size.
abbrev pub phys_of : ℕ → ℕ → ℕ → ℕ
phys_of entry virt pgsz = u64 (u64 (bit_and entry (2 ^ 55 - 1) * pgsz) + virt % pgsz)

module _ {S : Type 0} (os : Os S) where
  -- What follows `pread`; `phys` is what the pointer leads to before the call.
  unfoldable pub with_entry : ℕ → ℕ → ℕ → Option ℕ × S → ℤ × ℕ × S
  with_entry virt phys fd (none, s) =
      let s' = os.close (pos fd) s in (neg (pos (os.errno s')), phys, s')
  with_entry virt phys fd (some entry, s) =
      if bit_and entry (2 ^ 63) == 0
      then (neg (pos einval), phys, os.close (pos fd) s)
      else (pos 0, phys_of entry virt os.getpagesize, os.close (pos fd) s)

  -- What follows `open`. The page size of a system is not 0.
  unfoldable pub with_pagemap : ℕ → ℕ → Option ℕ × S → ℤ × ℕ × S
  unfolding with_entry
  with_pagemap virt phys (none, s) = (neg (pos (os.errno s)), phys, s)
  with_pagemap virt phys (some fd, s) =
      with_entry virt phys fd (os.pread_entry fd (u64 (virt / os.getpagesize * 8)) s)

  unfoldable pub pagemap_virt_to_phys : ℕ → ℕ → S → ℤ × ℕ × S
  unfolding with_pagemap
  pagemap_virt_to_phys virt phys s = with_pagemap virt phys (os.open_file self_pagemap s)

module _ {S : Type 0} {os : Os S} {h : View S} (o : IsOs os h) where
  with_entry-Balanced :
      (virt phys fd : ℕ) (s t : S) (r : Option ℕ × S)
      → Balanced h s (os.close (pos fd) r.1)
      → Balanced h s (with_entry os virt phys fd r).2
  unfolding with_entry
  with_entry-Balanced virt phys fd s t (none, u) b = b
  with_entry-Balanced virt phys fd s t (some entry, u) b =
      elim (Bool-cases (bit_and entry (2 ^ 63) == 0)) [
        | inl absent ↦ rw absent b
        | inr present ↦ rw present b
      ]

  -- The page map is closed again.
  pub pagemap_virt_to_phys-Balanced :
      (virt phys : ℕ) (s : S) → Balanced h s (pagemap_virt_to_phys os virt phys s).2
  unfolding pagemap_virt_to_phys
  pagemap_virt_to_phys-Balanced virt phys s = by_open (os.open_file self_pagemap s) refl
    where
      by_open :
          (r : Option ℕ × S)
          → os.open_file self_pagemap s ≡ r
          → Balanced h s (with_pagemap os virt phys r).2
      by_open (none, t) e = (o.open_none self_pagemap s e).0
      by_open (some fd, t) e =
          with_entry-Balanced virt phys fd s t
            (os.pread_entry fd (u64 (virt / os.getpagesize * 8)) t)
            (Opened-Closed
              (Opened-Balanced (o.open_some self_pagemap s e)
                (o.pread_same fd (u64 (virt / os.getpagesize * 8)) t))
              (o.close_one fd (os.pread_entry fd (u64 (virt / os.getpagesize * 8)) t).1))
