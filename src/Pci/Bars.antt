-- ===== src/Pci/Bars.antt =====
-- What opening a function and mapping a BAR hold of the system.
use upcie.Prelude.{
  ℕ, zero, suc, ◌≤◌, ◌≡◌, ◌≢◌, ◌⊎◌, ◌==◌, inl, inr, refl, arith, subst, false, List, Option, some,
  none, ℤ, pos, negsuc, neg,
}
use upcie.Os.{FilePath, Os, sysfs_resource}
use upcie.Os.Held.{
  View, IsOs, Balanced, Balanced-refl, Balanced-trans, Opened, Opened-Closed, Opened-Balanced,
  Holding, Opened-Mapped, Holding-released, Holding-size,
}
use upcie.Pci.Addr.{Text, from_text}
use upcie.Pci.{
  PciBar, PciFunc, bdf_text, minus_errno, read_ident, read_opened, read_number, with_class,
  with_device, with_vendor, with_addr, func_open, bar_unmap, bar_map, with_stat, with_resource,
  with_region,
}

module _ {S : Type 0} {os : Os S} {h : View S} (o : IsOs os h) where
  read_opened-Balanced :
      (text : Text) (path : FilePath) (s : S) (r : Option ℕ × S)
      → os.open_file path s ≡ r
      → Balanced h s (read_opened os text r).1
  unfolding read_opened
  read_opened-Balanced text path s (none, t) e = (o.open_none path s e).0
  read_opened-Balanced text path s (some fd, t) e = by_read (os.read_file fd t) refl
    where
      by_read :
          (r : Option (List ℕ) × S)
          → os.read_file fd t ≡ r
          → Balanced h s (read_number os text fd r).1
      by_read (none, u) q =
          Opened-Closed
            (Opened-Balanced (o.open_some path s e)
              (subst (λ (r : Option (List ℕ) × S). Balanced h t r.1) q (o.read_same fd t)))
            (o.close_one fd u)
      by_read (some buf, u) q =
          Opened-Closed
            (Opened-Balanced (o.open_some path s e)
              (subst (λ (r : Option (List ℕ) × S). Balanced h t r.1) q (o.read_same fd t)))
            (o.close_one fd u)

  read_ident-Balanced :
      (text : Text) (path : FilePath) (s : S) → Balanced h s (read_ident os text path s).1
  unfolding read_ident
  read_ident-Balanced text path s = read_opened-Balanced text path s (os.open_file path s) refl

  with_class-Balanced :
      (func : PciFunc) (s : S) (r : (ℤ ⊎ ℕ) × S)
      → Balanced h s r.1
      → Balanced h s (with_class os func r).2
  unfolding with_class
  with_class-Balanced func s (inl err, t) b = b
  with_class-Balanced func s (inr n, t) b = b

  with_device-Balanced :
      (text : Text) (func : PciFunc) (s : S) (r : (ℤ ⊎ ℕ) × S)
      → Balanced h s r.1
      → Balanced h s (with_device os text func r).2
  unfolding with_device
  with_device-Balanced text func s (inl err, t) b = b
  with_device-Balanced text func s (inr n, t) b =
      with_class-Balanced _ s _ (Balanced-trans b (read_ident-Balanced text _ t))

  with_vendor-Balanced :
      (text : Text) (func : PciFunc) (s : S) (r : (ℤ ⊎ ℕ) × S)
      → Balanced h s r.1
      → Balanced h s (with_vendor os text func r).2
  unfolding with_vendor
  with_vendor-Balanced text func s (inl err, t) b = b
  with_vendor-Balanced text func s (inr n, t) b =
      with_device-Balanced text _ s _ (Balanced-trans b (read_ident-Balanced text _ t))

  with_addr-Balanced :
      (text : Text) (bdf : List ℕ) (func : PciFunc) (r : ℤ × ℕ) (s : S)
      → Balanced h s (with_addr os text bdf func r s).2
  unfolding with_addr
  with_addr-Balanced text bdf func (pos zero, addr) s =
      with_vendor-Balanced text _ s _ (read_ident-Balanced text _ s)
  with_addr-Balanced text bdf func (pos (suc n), addr) s = Balanced-refl s
  with_addr-Balanced text bdf func (negsuc n, addr) s = Balanced-refl s

  -- On each branch, opening a function leaves open the files that were open and no other.
  pub func_open-Balanced :
      (text : Text) (bdf : List ℕ) (func : PciFunc) (s : S)
      → Balanced h s (func_open os text bdf func s).2
  unfolding func_open
  func_open-Balanced text bdf func s =
      with_addr-Balanced text bdf func (from_text text bdf func.addr) s

  -- A BAR that holds a descriptor and a mapping is released whole.
  bar_unmap-Holding :
      (bar : PciBar) {fd address size : ℕ} {s t : S}
      → Holding h fd address size s t
      → bar.region ≡ address
      → bar.size ≡ size
      → bar.fd ≡ pos fd
      → Balanced h s (bar_unmap os bar t).1
  unfolding bar_unmap
  bar_unmap-Holding bar {fd = fd} {address = address} {size = size} {s = s} {t = t} k r z f =
      let some : (address == 0) ≡ false = ground (arith, k.given) in
      rw (r, z, f, some)
        (Holding-released k (o.munmap_one address size t (Holding-size k))
          (o.close_one fd (os.munmap address size t)))

  neg-ne : (code : ℕ) → 1 ≤ code → neg (pos code) ≢ pos 0
  neg-ne zero l e = absurd (omega arith)
  neg-ne (suc n) l e = cc

  minus_errno-ne : (s : S) → 1 ≤ os.errno s → minus_errno os s ≢ pos 0
  minus_errno-ne s h = neg-ne (os.errno s) h

  -- What mapping a BAR leaves: an error and nothing held, or a BAR that is released whole.
  abbrev pub MapOutcome : S → ℤ × PciBar × S → Type 0
  MapOutcome s r =
      ((r.0 ≢ pos 0) × Balanced h s r.2)
      ⊎ ((r.0 ≡ pos 0) × (r.1.region ≢ 0) × Balanced h s (bar_unmap os r.1 r.2).1)

  with_region-MapOutcome :
      (bar : PciBar) (fd : ℕ) (s t : S) (r : Option ℕ × S)
      → Opened h fd s t
      → os.mmap bar.size (pos fd) t ≡ r
      → MapOutcome s (with_region os bar fd r)
  unfolding with_region
  with_region-MapOutcome bar fd s t (none, u) opened e =
      let failed = o.mmap_none bar.size (pos fd) t e in
      inl (
        minus_errno-ne (os.close (pos fd) u) (o.close_errno (pos fd) u failed.1),
        Opened-Closed (Opened-Balanced opened failed.0) (o.close_one fd u),
      )
  with_region-MapOutcome bar fd s t (some region, u) opened e =
      let k = Opened-Mapped opened (o.mmap_some bar.size (pos fd) t e) in
      inr (
        refl,
        k.given,
        bar_unmap-Holding (record bar { fd = pos fd; region = region }) k refl refl refl,
      )

  with_resource-MapOutcome :
      (path : FilePath) (id size : ℕ) (bar : PciBar) (s : S) (r : Option ℕ × S)
      → os.open_file path s ≡ r
      → MapOutcome s (with_resource os id size bar r)
  unfolding with_resource
  with_resource-MapOutcome path id size bar s (none, t) e =
      let failed = o.open_none path s e in inl (minus_errno-ne t failed.1, failed.0)
  with_resource-MapOutcome path id size bar s (some fd, t) e =
      with_region-MapOutcome (record bar { size = size; id = id; fd = pos fd }) fd s t
        (os.mmap size (pos fd) t) (o.open_some path s e) refl

  with_stat-MapOutcome :
      (bdf : List ℕ) (id : ℕ) (bar : PciBar) (r : ℕ ⊎ ℕ) (s : S)
      → os.stat (sysfs_resource (bdf_text bdf) id) s ≡ r
      → MapOutcome s (with_stat os bdf id bar r s)
  unfolding with_stat
  with_stat-MapOutcome bdf id bar (inl code) s e =
      inl (neg-ne code (o.stat_code (sysfs_resource (bdf_text bdf) id) s e), Balanced-refl s)
  with_stat-MapOutcome bdf id bar (inr size) s e =
      with_resource-MapOutcome (sysfs_resource (bdf_text bdf) id) id size bar s
        (os.open_file (sysfs_resource (bdf_text bdf) id) s) refl

  -- Mapping a BAR, over a system whose calls do as POSIX says, ends with an error and the open
  -- descriptors and mappings of before, or with 0 and a region that is not null; to unmap it leaves
  -- the open descriptors and mappings of before.
  pub bar_map-MapOutcome :
      (bdf : List ℕ) (id : ℕ) (bar : PciBar) (s : S) → MapOutcome s (bar_map os bdf id bar s)
  unfolding bar_map
  bar_map-MapOutcome bdf id bar s =
      with_stat-MapOutcome bdf id bar (os.stat (sysfs_resource (bdf_text bdf) id) s) s refl
