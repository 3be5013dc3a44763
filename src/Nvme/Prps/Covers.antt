-- ===== src/Nvme/Prps/Covers.antt =====
-- The contiguous builder describes the buffer: the controller finds every byte of it.
use native.Mathlib.Nat.{
  mod-lt, one-le-pow, mul-le-mul_left, div-add-mod, mul-add-div, mul-add-mod_self_left,
  mod-eq_of_lt,
}
use native.Mathlib.Nat.{mul-div_cancel_left, div-eq_of_lt, mul-sub, mul-div-le, le-div_iff_mul-le}
use upcie.Prelude.{
  ℕ, zero, suc, ◌+◌, ◌-◌, ◌*◌, ◌/◌, ◌%◌, ◌^◌, ◌≤◌, ◌<◌, ◌≡◌, refl, ap, arith, List, [], ◌∷◌, done,
  sym, ◌∙◌, bit_and, neb, if◌then◌else◌,
}
use upcie.Prelude.Bits.{sub64, u64, shr, pow-le-pow, bit_and-mask}
use upcie.Nvme.Command.{NvmeCommand}
use upcie.Nvme.Prps.{DmaWindow, Prepared, prep_contig}
use upcie.Nvme.Prps.Window.{IsLawful}
use upcie.Nvme.Prps.Device.{pages_of}
use upcie.Nvme.Prps.Contig.{
  pages_after, span_len, span_len-pos, span_len-le, pagesize-pos, span-le, page_in_span, strides,
  fill_list_lem, stride_ok, zero_ne_suc,
}

-- PRP2, from what it holds before, the address of the list page and the pages after the first.
abbrev pub second_prp : ℕ → ℕ → List ℕ → ℕ
second_prp old prp_addr [] = old
second_prp old prp_addr (page ∷ []) = page
second_prp old prp_addr (page ∷ (next ∷ rest)) = prp_addr

-- The list is written only if there are two pages or more to put in it.
abbrev pub list_pages : List ℕ → List ℕ
list_pages [] = []
list_pages (page ∷ []) = []
list_pages (page ∷ (next ∷ rest)) = page ∷ next ∷ rest

-- The fields with each page translated by itself.
abbrev pub by_page : (ℕ → ℕ) → ℕ → ℕ → ℕ → ℕ → NvmeCommand → Prepared
by_page phys pagesize prp_addr offset nbytes cmd =
    let pages =
      pages_after phys pagesize (offset / pagesize)
        (pages_of pagesize (offset % pagesize) nbytes - 1) in
    record {
      cmd = record cmd { prp1 = phys offset; prp2 = second_prp cmd.prp2 prp_addr pages };
      prp_list = list_pages pages;
    }

module _ {w : DmaWindow} {size : ℕ} (l : IsLawful w size) (q r nbytes : ℕ) (inside : r < w.pagesize)
    (fits : w.pagesize * q + r + nbytes ≤ size) (some_bytes : 1 ≤ nbytes) where
  abbrev dbuf : ℕ
  dbuf = w.virt + (w.pagesize * q + r)

  abbrev npages : ℕ
  npages = pages_of w.pagesize r nbytes

  page_mask : (x : ℕ) → bit_and x (sub64 w.pagesize 1) ≡ x % w.pagesize
  page_mask x =
      let pow : 2 ^ w.pagesize_shift ≤ 2 ^ 30 =
        pow-le-pow w.pagesize_shift 30 (omega (arith, l.span_max)) in
      let mask : sub64 w.pagesize 1 ≡ 2 ^ w.pagesize_shift - 1 =
        omega (arith, l.page_shift, pagesize-pos l) in
      rw (mask, bit_and-mask, ← l.page_shift) refl

  pub page_off_eq : bit_and dbuf (sub64 w.pagesize 1) ≡ r
  page_off_eq =
      let split : dbuf ≡ w.pagesize * (w.virt / w.pagesize + q) + r =
        omega (arith, l.aligned, div-add-mod w.virt w.pagesize) in
      rw (page_mask, split, mul-add-mod_self_left w.pagesize (w.virt / w.pagesize + q) r)
        (mod-eq_of_lt inside)

  page-le : w.pagesize ≤ 2 ^ 30
  page-le = omega (arith, l.page_shift, pow-le-pow w.pagesize_shift 30 (omega (arith, l.span_max)))

  pub npages_eq : shr (sub64 (u64 (u64 (r + nbytes) + w.pagesize)) 1) w.pagesize_shift ≡ npages
  npages_eq = rw (← l.page_shift) (ap (λ (t : ℕ). t / w.pagesize) (omega (arith, l.below, page-le)))

  pub vbase_eq : sub64 dbuf r ≡ w.virt + w.pagesize * q
  vbase_eq = omega (arith, l.below)

  strides_eq :
      sub64
        (shr
          (sub64 w.span (bit_and (sub64 (w.virt + w.pagesize * q) w.virt) (sub64 w.span 1)))
          w.pagesize_shift)
        1
      ≡ strides l q
  strides_eq =
      let k : ℕ = q % span_len l in
      let inside_span : k < span_len l = mod-lt q (span_len-pos l) in
      let offset : sub64 (w.virt + w.pagesize * q) w.virt ≡ w.pagesize * q =
        omega (arith, l.below) in
      let mask : sub64 w.span 1 ≡ 2 ^ (w.pagesize_shift + l.extra_shift) - 1 =
        omega (arith, l.span_power, span-le l, one-le-pow (w.pagesize_shift + l.extra_shift) 2) in
      let low : bit_and (w.pagesize * q) (sub64 w.span 1) ≡ w.pagesize * k =
        rw (mask, bit_and-mask, ← l.span_power) (page_in_span l q) in
      let rest : sub64 w.span (w.pagesize * k) ≡ w.pagesize * (span_len l - k) = omega (
        arith,
        mul-sub w.pagesize (span_len l) k,
        l.span_pages,
        span-le l,
        mul-le-mul_left w.pagesize inside_span,
      ) in
      let left : shr (w.pagesize * (span_len l - k)) w.pagesize_shift ≡ span_len l - k =
        rw (← l.page_shift) (mul-div_cancel_left (span_len l - k) (pagesize-pos l)) in
      rw (offset, low, rest, left) (omega (arith, span_len-le l))

  phys_eq : sub64 (l.phys (w.pagesize * q + r)) r ≡ l.phys (w.pagesize * q)
  phys_eq =
      let whole : (w.pagesize * q) % w.span + r < w.span =
        rw (page_in_span l q)
          (omega (arith, l.span_pages, mul-le-mul_left w.pagesize (mod-lt q (span_len-pos l)))) in
      omega (
        arith,
        l.runs_on (w.pagesize * q) r (omega arith) whole,
        l.phys-lt (w.pagesize * q + r) (omega arith),
      )

  pub pages_fit : w.pagesize * (q + (npages - 1)) < size
  pages_fit =
      let whole : w.pagesize * npages ≤ r + nbytes + w.pagesize - 1 =
        mul-div-le (r + nbytes + w.pagesize - 1) w.pagesize in
      omega (arith, pagesize-pos l, mul-sub w.pagesize npages 1)

  pub npages-pos : 1 ≤ npages
  npages-pos = (le-div_iff_mul-le (pagesize-pos l)).1 (omega arith)

  pub offset_mod : (w.pagesize * q + r) % w.pagesize ≡ r
  offset_mod = rw (mul-add-mod_self_left w.pagesize q r) (mod-eq_of_lt inside)

  pub offset_div : (w.pagesize * q + r) / w.pagesize ≡ q
  offset_div = rw (mul-add-div (pagesize-pos l) q r, div-eq_of_lt inside) (omega arith)

  -- The entry of a second page, with the page translated again or not.
  second_page :
      w.pagesize * (q + 1) < size
      → (s : ℕ) → s ≡ strides l q
      → (if neb s 0
          then done (u64 (l.phys (w.pagesize * q) + w.pagesize))
          else w.translate (u64 (w.virt + w.pagesize * q + w.pagesize)))
        ≡ done (l.phys (w.pagesize * (q + 1)))
  second_page h zero at =
      let address : u64 (w.virt + w.pagesize * q + w.pagesize) ≡ w.virt + w.pagesize * (q + 1) =
        omega (arith, l.below) in
      rw address (l.translates (w.pagesize * (q + 1)) h)
  second_page h (suc s) at =
      ground (arith, stride_ok l q h (λ none_left. zero_ne_suc l s (sym none_left ∙ sym at)))

  module _ (prp_addr : ℕ) (cmd : NvmeCommand) where
    -- The builder and the description by pages agree, at a known number of pages.
    pub agree :
        (n : ℕ)
        → npages ≡ n
        → n ≤ 513
        → prep_contig w prp_addr dbuf nbytes cmd
          ≡ done (by_page l.phys w.pagesize prp_addr (w.pagesize * q + r) nbytes cmd)
    unfolding prep_contig
    agree zero e short = absurd (omega (arith, npages-pos))
    agree (suc zero) e short =
        rw
          (
            l.translates (w.pagesize * q + r) (omega arith),
            page_off_eq,
            npages_eq,
            vbase_eq,
            phys_eq,
            strides_eq,
            offset_mod,
            offset_div,
            e,
          )
          refl
    agree (suc (suc zero)) e short =
        let near : w.pagesize * (q + 1) < size = rw e at pages_fit in
        rw
          (
            l.translates (w.pagesize * q + r) (omega arith),
            page_off_eq,
            npages_eq,
            vbase_eq,
            phys_eq,
            strides_eq,
            offset_mod,
            offset_div,
            e,
            second_page near (strides l q) refl,
          )
          refl
    agree (suc (suc (suc n))) e short =
        let less : suc (suc (suc n)) - 1 ≡ suc (suc n) = omega arith in
        let near : w.pagesize * (q + suc (suc n)) < size = rw less at (rw e at pages_fit) in
        rw
          (
            l.translates (w.pagesize * q + r) (omega arith),
            page_off_eq,
            npages_eq,
            vbase_eq,
            phys_eq,
            strides_eq,
            offset_mod,
            offset_div,
            e,
            less,
            fill_list_lem l (suc (suc n)) q 1 q (strides l q) refl near refl,
          )
          (ground arith)
