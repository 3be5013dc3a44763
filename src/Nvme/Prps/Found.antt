-- ===== src/Nvme/Prps/Found.antt =====
-- The contiguous builder describes the buffer: the controller finds every byte of it where the
-- heap's translation says that it is.
use native.Mathlib.Nat.{mod-lt, div-add-mod, mul-le-mul_left, le-div_iff_mul-le}
use upcie.Prelude.{
  ℕ, zero, suc, ◌+◌, ◌-◌, ◌*◌, ◌/◌, ◌%◌, ◌≤◌, ◌<◌, ◌≡◌, refl, ap, arith, some, none, ◌==◌, done,
  get_elem?, leb, if◌then◌else◌,
}
use upcie.Nvme.Command.{NvmeCommand}
use upcie.Nvme.Prps.{DmaWindow, Prepared, prep_contig}
use upcie.Nvme.Prps.Window.{IsLawful}
use upcie.Nvme.Prps.Device.{pages_of, device_page, device_address}
use upcie.Nvme.Prps.Contig.{pages_after, span_len-pos, pagesize-pos, page_in_span}
use upcie.Nvme.Prps.Covers.{by_page, second_prp, list_pages, agree}

get_elem?-pages_after :
    (phys : ℕ → ℕ) (pagesize p left i : ℕ)
    → i < left
    → get_elem? (pages_after phys pagesize p left) i ≡ some (phys (pagesize * (p + suc i)))
get_elem?-pages_after phys pagesize p zero i h = elim h [ ]
get_elem?-pages_after phys pagesize p (suc left) zero h = refl
get_elem?-pages_after phys pagesize p (suc left) (suc i) h =
    let shift : p + 1 + suc i ≡ p + suc (suc i) = omega arith in
    rw (← shift) (get_elem?-pages_after phys pagesize (p + 1) left i (omega arith))

-- What the second and later pages read as, by their number.
entry_lem :
    (phys : ℕ → ℕ) (pagesize p old prp_addr n i : ℕ)
    → suc i < n
    → (if leb n 2
        then some (second_prp old prp_addr (pages_after phys pagesize p (n - 1)))
        else if second_prp old prp_addr (pages_after phys pagesize p (n - 1)) == prp_addr
        then get_elem? (list_pages (pages_after phys pagesize p (n - 1))) i
        else none)
      ≡ some (phys (pagesize * (p + suc i)))
entry_lem phys pagesize p old prp_addr zero i h = absurd (omega arith)
entry_lem phys pagesize p old prp_addr (suc zero) i h = absurd (omega arith)
entry_lem phys pagesize p old prp_addr (suc (suc zero)) zero h = refl
entry_lem phys pagesize p old prp_addr (suc (suc zero)) (suc i) h = absurd (omega arith)
entry_lem phys pagesize p old prp_addr (suc (suc (suc n))) i h =
    let less : suc (suc (suc n)) - 1 ≡ suc (suc n) = omega arith in
    rw less (ground (arith, get_elem?-pages_after phys pagesize p (suc (suc n)) i (omega arith)))

module _ {w : DmaWindow} {size : ℕ} (l : IsLawful w size) (prp_addr offset nbytes : ℕ)
    (cmd : NvmeCommand) (some_bytes : 1 ≤ nbytes) (fits : offset + nbytes ≤ size) where
  abbrev q : ℕ
  q = offset / w.pagesize

  abbrev r : ℕ
  r = offset % w.pagesize

  abbrev npages : ℕ
  npages = pages_of w.pagesize r nbytes

  whole : w.pagesize * q + r ≡ offset
  whole = div-add-mod offset w.pagesize

  -- For a buffer inside the heap that spans at most 513 pages, the builder, which translates only
  -- where a span begins, returns what the translation of each page by itself gives.
  pub prep_contig-by_page :
      npages ≤ 1 + 512
      → prep_contig w prp_addr (w.virt + offset) nbytes cmd
        ≡ done (by_page l.phys w.pagesize prp_addr offset nbytes cmd)
  prep_contig-by_page short = rw whole at (
      agree l q r nbytes (mod-lt offset (pagesize-pos l)) (omega (arith, whole)) some_bytes prp_addr
        cmd npages refl short)

  -- A run within a page.
  run_in_page :
      (p d : ℕ)
      → d < w.pagesize
      → w.pagesize * p + d < size
      → l.phys (w.pagesize * p + d) ≡ l.phys (w.pagesize * p) + d
  run_in_page p d h inside = l.runs_on (w.pagesize * p) d inside (
      rw (page_in_span l p)
        (omega (arith, l.span_pages, mul-le-mul_left w.pagesize (mod-lt p (span_len-pos l)))))

  abbrev fields : Prepared
  fields = by_page l.phys w.pagesize prp_addr offset nbytes cmd

  -- Page `i` of the transfer, as the controller reads it.
  device_page_lem :
      (i : ℕ)
      → i < npages
      → device_page w.pagesize prp_addr fields npages i ≡ some (l.phys (w.pagesize * (q + i)))
  device_page_lem zero h =
      let first : l.phys offset ≡ l.phys (w.pagesize * q) + r =
        rw whole at (run_in_page q r (mod-lt offset (pagesize-pos l)) (omega (arith, whole))) in
      let start : q + 0 ≡ q = omega arith in
      rw (start, l.phys_aligned offset (omega arith), first) (ap some (omega arith))
  device_page_lem (suc i) h = entry_lem l.phys w.pagesize q cmd.prp2 prp_addr npages i h

  module _ (j : ℕ) (h : j < nbytes) where
    abbrev k : ℕ
    k = (r + j) / w.pagesize

    at_byte : w.pagesize * (q + k) + (r + j) % w.pagesize ≡ offset + j
    at_byte = omega (arith, whole, div-add-mod (r + j) w.pagesize)

    k-lt : k < npages
    k-lt =
        (le-div_iff_mul-le (pagesize-pos l)).1
          (omega (arith, div-add-mod (r + j) w.pagesize, pagesize-pos l))

    pub found : device_address w.pagesize prp_addr fields nbytes j ≡ some (l.phys (offset + j))
    found =
        let run : l.phys (offset + j) ≡ l.phys (w.pagesize * (q + k)) + (r + j) % w.pagesize =
          rw at_byte at (
            run_in_page (q + k) ((r + j) % w.pagesize) (mod-lt (r + j) (pagesize-pos l))
              (omega (arith, at_byte))) in
        rw (l.phys_aligned offset (omega arith), device_page_lem k k-lt, run) refl

    -- For a buffer inside the heap that spans at most 513 pages, the builder returns fields from
    -- which the controller computes, for every byte of the buffer, the address that the heap's
    -- translation gives of that byte.
    pub device_address-prep_contig :
        npages ≤ 1 + 512
        → (prepared : Prepared) × (address : ℕ) × (prep_contig w prp_addr
              (w.virt + offset)
              nbytes
              cmd
            ≡ done prepared)
          × (device_address w.pagesize prp_addr prepared nbytes j ≡ some address)
          × (w.translate (w.virt + offset + j) ≡ done address)
    device_address-prep_contig short =
        let regroup : w.virt + offset + j ≡ w.virt + (offset + j) = omega arith in
        (
          fields,
          l.phys (offset + j),
          prep_contig-by_page short,
          found,
          rw regroup (l.translates (offset + j) (omega arith)),
        )
