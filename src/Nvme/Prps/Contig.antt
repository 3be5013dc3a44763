-- ===== src/Nvme/Prps/Contig.antt =====
-- The contiguous builder computes most entries by adding a page size; each is the translation of
-- its own page.
use native.Mathlib.Nat.{mod-lt, one-le-pow, mul-div_cancel_left, mul-le-mul_left}
use upcie.Prelude.{
  ℕ, zero, suc, ◌+◌, ◌-◌, ◌*◌, ◌%◌, ◌^◌, ◌≤◌, ◌<◌, ◌≡◌, refl, arith, List, [], ◌∷◌, done, ◌≢◌, sym,
  ◌∙◌,
}
use upcie.Prelude.Bits.{sub64, u64, shl, shr, pow-le-pow}
use upcie.Prelude.Blocks.{suc-mod_inside, suc-mod_wrap, mul-mod-mul}
use upcie.Nvme.Prps.{DmaWindow, next_page, fill_list}
use upcie.Nvme.Prps.Window.{IsLawful}

-- The physical addresses of the `left` pages after page `p` of the heap.
abbrev pub pages_after : (ℕ → ℕ) → ℕ → ℕ → ℕ → List ℕ
pages_after phys pagesize p zero = []
pages_after phys pagesize p (suc left) =
    phys (pagesize * (p + 1)) ∷ pages_after phys pagesize (p + 1) left

module _ {w : DmaWindow} {size : ℕ} (l : IsLawful w size) where
  -- Pages to a span.
  abbrev pub span_len : ℕ
  span_len = 2 ^ l.extra_shift

  pub pagesize-pos : 1 ≤ w.pagesize
  pagesize-pos = omega (arith, l.page_shift, one-le-pow w.pagesize_shift 2)

  pub span_len-pos : 1 ≤ span_len
  span_len-pos = one-le-pow l.extra_shift 2 (omega arith)

  pub span-le : w.span ≤ 2 ^ 30
  span-le = omega (
    arith,
    l.span_power,
    pow-le-pow (w.pagesize_shift + l.extra_shift) 30 (omega (arith, l.span_max)),
  )

  -- Where a page stands in its span.
  pub page_in_span : (p : ℕ) → (w.pagesize * p) % w.span ≡ w.pagesize * (p % span_len)
  page_in_span p = rw l.span_pages (mul-mod-mul w.pagesize pagesize-pos span_len span_len-pos p)

  -- A span in pages.
  shr-span : shr w.span w.pagesize_shift ≡ span_len
  shr-span = rw (← l.page_shift, l.span_pages) (mul-div_cancel_left span_len pagesize-pos)

  pub span_len-le : span_len ≤ 2 ^ 30
  span_len-le = pow-le-pow l.extra_shift 30 (omega (arith, l.span_max))

  -- What `strides_left` counts at page `p`.
  abbrev pub strides : ℕ → ℕ
  strides p = span_len - 1 - p % span_len

  pub zero_ne_suc : (n : ℕ) → ¬ (0 ≡ suc n)
  zero_ne_suc n e = omega arith

  module _ (p : ℕ) (h : w.pagesize * (p + 1) < size) where
    -- While strides are left the next page is in the same span.
    pub stride_ok :
        strides p ≢ 0
        → (u64 (l.phys (w.pagesize * p) + w.pagesize) ≡ l.phys (w.pagesize * (p + 1)))
          × (strides p - 1 ≡ strides (p + 1))
    stride_ok ne =
        let inside : p % span_len + 1 < span_len = omega arith in
        let low : w.pagesize * suc (p % span_len + 1) ≤ w.pagesize * span_len =
          mul-le-mul_left w.pagesize inside in
        let next : w.pagesize * p + w.pagesize ≡ w.pagesize * (p + 1) = omega arith in
        let run : l.phys (w.pagesize * (p + 1)) ≡ l.phys (w.pagesize * p) + w.pagesize =
          rw (← next) (
            l.runs_on (w.pagesize * p) w.pagesize (omega arith)
              (rw (page_in_span p) (omega (arith, l.span_pages, pagesize-pos)))) in
        (
          omega (arith, l.phys-lt (w.pagesize * (p + 1)) h),
          omega (arith, suc-mod_inside span_len span_len-pos p inside),
        )

    -- When none is left the next page begins a span.
    wrap_ok : strides p ≡ 0 → sub64 (shr w.span w.pagesize_shift) 1 ≡ strides (p + 1)
    wrap_ok e =
        let last : p % span_len + 1 ≡ span_len = omega (arith, mod-lt p span_len-pos) in
        rw (shr-span, suc-mod_wrap span_len span_len-pos p last)
          (omega (arith, span_len-pos, span_len-le))

    -- The address that is translated again.
    pub page_address :
        (q i : ℕ)
        → q + i ≡ p + 1
        → u64 (w.virt + w.pagesize * q + shl i w.pagesize_shift) ≡ w.virt + w.pagesize * (p + 1)
    page_address q i e =
        let whole : w.pagesize * (p + 1) ≡ w.pagesize * q + i * w.pagesize =
          rw (← e) (omega arith) in
        rw (← l.page_shift) (omega (arith, l.below))

    next_page_lem :
        (q i s : ℕ)
        → q + i ≡ p + 1
        → s ≡ strides p
        → next_page w (w.virt + w.pagesize * q) i (l.phys (w.pagesize * p)) s
          ≡ done (l.phys (w.pagesize * (p + 1)), strides (p + 1))
    unfolding next_page
    next_page_lem q i zero e at =
        rw (page_address q i e, l.translates (w.pagesize * (p + 1)) h, wrap_ok (sym at)) refl
    next_page_lem q i (suc s) e at =
        ground (arith, stride_ok (λ none_left. zero_ne_suc s (sym none_left ∙ sym at)))

  -- The loop writes the translation of each page.
  pub fill_list_lem :
      (left q i p s : ℕ)
      → q + i ≡ p + 1
      → w.pagesize * (p + left) < size
      → s ≡ strides p
      → fill_list w (w.virt + w.pagesize * q) left i (l.phys (w.pagesize * p)) s
        ≡ done (pages_after l.phys w.pagesize p left)
  unfolding fill_list
  fill_list_lem zero q i p s e h at = refl
  fill_list_lem (suc left) q i p s e h at =
      let near : w.pagesize * (p + 1) < size = omega arith in
      rw
        (
          next_page_lem p near q i s e at,
          fill_list_lem left q (i + 1) (p + 1) (strides (p + 1)) (omega arith) (omega arith) refl,
        )
        refl
