-- ===== src/Gpu/Requests/ByPage.antt =====
-- The contiguous builder over a registry describes the buffer.
use native.Mathlib.Nat.{mod-lt, div-add-mod}
use upcie.Prelude.{
  ℕ, zero, suc, ◌+◌, ◌-◌, ◌*◌, ◌/◌, ◌%◌, ◌≤◌, ◌<◌, ◌≡◌, ◌⊎◌, false, ltb, refl, arith, inl, inr,
  some, ℤ, pos, Outcome, done, fault,
}
use upcie.Prelude.Bits.{u64}
use upcie.Nvme.Command.{NvmeCommand}
use upcie.Nvme.Prps.{DmaWindow, Prepared}
use upcie.Nvme.Prps.Window.{IsLawful}
use upcie.Nvme.Prps.Device.{pages_of, device_address}
use upcie.Nvme.Prps.Contig.{pages_after, pagesize-pos, page_address}
use upcie.Nvme.Prps.Covers.{
  by_page, page_off_eq, npages_eq, vbase_eq, pages_fit, npages-pos, offset_mod, offset_div,
}
use upcie.Nvme.Prps.Found.{found}
use upcie.Gpu.Types.{CudamemConfig}
use upcie.Gpu.Mapping.{Registry}
use upcie.Gpu.Requests.Mapped.{resolve, fill_mapped, with_first, prep_contig_mapped}

abbrev pub as_outcome : ℤ ⊎ ℕ → Outcome ℕ
as_outcome (inl err) = fault
as_outcome (inr phys) = done phys

-- A registered range as the builders see a heap: each page is a span of its own.
abbrev pub registry_window : Registry → CudamemConfig → ℕ → DmaWindow
registry_window registry config virt = record {
  virt = virt;
  span = config.pagesize;
  pagesize = config.pagesize;
  pagesize_shift = config.pagesize_shift;
  translate = λ addr. as_outcome (resolve registry addr);
}

module _ (registry : Registry) (config : CudamemConfig) (virt : ℕ) {size : ℕ}
    (l : IsLawful (registry_window registry config virt) size) where
  resolves : (offset : ℕ) → offset < size → resolve registry (virt + offset) ≡ inr (l.phys offset)
  resolves offset h = inverse (resolve registry (virt + offset)) (l.translates offset h)
    where
      inverse : (r : ℤ ⊎ ℕ) {a : ℕ} → as_outcome r ≡ done a → r ≡ inr a
      inverse (inl err) e = cc
      inverse (inr phys) e = cc

  -- The loop writes the address of each page.
  fill_mapped_lem :
      (left q i p : ℕ)
      → q + i ≡ p + 1
      → config.pagesize * (p + left) < size
      → fill_mapped registry (virt + config.pagesize * q) config.pagesize_shift left i
        ≡ (pos 0, pages_after l.phys config.pagesize p left)
  unfolding fill_mapped
  fill_mapped_lem zero q i p e h = refl
  fill_mapped_lem (suc left) q i p e h =
      let near : config.pagesize * (p + 1) < size = omega arith in
      rw
        (
          page_address l p near q i e,
          resolves (config.pagesize * (p + 1)) near,
          fill_mapped_lem left q (i + 1) (p + 1) (omega arith) (omega arith),
        )
        refl

  module _ (q r nbytes : ℕ) (inside : r < config.pagesize)
      (fits : config.pagesize * q + r + nbytes ≤ size) (some_bytes : 1 ≤ nbytes) (prp_addr : ℕ)
      (cmd : NvmeCommand) where
    abbrev npages : ℕ
    npages = pages_of config.pagesize r nbytes

    abbrev offset : ℕ
    offset = config.pagesize * q + r

    abbrev described : Prepared
    described = by_page l.phys config.pagesize prp_addr offset nbytes cmd

    after_first :
        (n : ℕ)
        → npages ≡ n
        → with_first prp_addr registry config cmd
            (virt + config.pagesize * q)
            n
            (inr (l.phys offset))
          ≡ (pos 0, described)
    unfolding with_first
    after_first zero e = absurd (omega (arith, e, npages-pos l q r nbytes inside fits some_bytes))
    after_first (suc zero) e =
        rw
          (
            offset_mod l q r nbytes inside fits some_bytes,
            offset_div l q r nbytes inside fits some_bytes,
            e,
          )
          refl
    after_first (suc (suc zero)) e =
        let near : config.pagesize * (q + 1) < size =
          rw e at (pages_fit l q r nbytes inside fits some_bytes) in
        let address : u64 (virt + config.pagesize * q + config.pagesize)
            ≡ virt + config.pagesize * (q + 1) =
          omega (arith, l.below) in
        rw
          (
            offset_mod l q r nbytes inside fits some_bytes,
            offset_div l q r nbytes inside fits some_bytes,
            e,
            address,
            resolves (config.pagesize * (q + 1)) near,
          )
          refl
    after_first (suc (suc (suc n))) e =
        let less : suc (suc (suc n)) - 1 ≡ suc (suc n) = omega arith in
        let near : config.pagesize * (q + suc (suc n)) < size =
          rw less at (rw e at (pages_fit l q r nbytes inside fits some_bytes)) in
        rw
          (
            offset_mod l q r nbytes inside fits some_bytes,
            offset_div l q r nbytes inside fits some_bytes,
            e,
            less,
            fill_mapped_lem (suc (suc n)) q 1 q refl near,
          )
          (ground arith)

    at_known :
        npages ≤ 1 + config.pagesize / 8
        → prep_contig_mapped prp_addr registry config (virt + offset) nbytes cmd
          ≡ (pos 0, described)
    unfolding prep_contig_mapped
    at_known short =
        let room : ltb (1 + config.pagesize / 8) npages ≡ false = ground (arith, short) in
        rw
          (
            page_off_eq l q r nbytes inside fits some_bytes,
            npages_eq l q r nbytes inside fits some_bytes,
            vbase_eq l q r nbytes inside fits some_bytes,
            room,
            resolves offset (omega arith),
          )
          (after_first npages refl)

-- For a buffer inside a range of which every byte translates through the registry, that spans at most
-- one page more than the list page has entries, the builder returns 0 and fields from which the
-- controller computes, for every byte of the buffer, the address that the registry gives of that byte.
pub device_address-prep_contig_mapped :
    (registry : Registry) (config : CudamemConfig) (virt size prp_addr offset nbytes j : ℕ)
    (cmd : NvmeCommand)
    → IsLawful (registry_window registry config virt) size
    → offset + nbytes ≤ size
    → pages_of config.pagesize (offset % config.pagesize) nbytes ≤ 1 + config.pagesize / 8
    → j < nbytes
    → (prepared : Prepared) × (address : ℕ) × (prep_contig_mapped prp_addr registry config
          (virt + offset)
          nbytes
          cmd
        ≡ (pos 0, prepared))
      × (device_address config.pagesize prp_addr prepared nbytes j ≡ some address)
      × (resolve registry (virt + offset + j) ≡ inr address)
device_address-prep_contig_mapped registry config virt size prp_addr offset nbytes j cmd l fits
      short h =
    let regroup : virt + (offset + j) ≡ virt + offset + j = omega arith in
    let whole : config.pagesize * (offset / config.pagesize) + offset % config.pagesize ≡ offset =
      div-add-mod offset config.pagesize in
    (
      by_page l.phys config.pagesize prp_addr offset nbytes cmd,
      l.phys (offset + j),
      rw whole at (
          at_known registry config virt l (offset / config.pagesize) (offset % config.pagesize)
            nbytes (mod-lt offset (pagesize-pos l)) (omega (arith, whole, fits)) (omega (arith, h))
            prp_addr cmd short),
      found l prp_addr offset nbytes cmd (omega (arith, h)) fits j h,
      rw regroup at (resolves registry config virt l (offset + j) (omega (arith, fits, h))),
    )
