-- ===== src/Nvme/Prps.antt =====
-- The PRP builders of include/upcie/nvme/nvme_request.h, over the part of a heap that they use: the
-- host heap and the GPU heaps differ in the translation and in the size of the physically
-- contiguous span. The list page at `request->prp` is the list of the entries written to it, which
-- the code writes at index 0, 1, 2 and so on.
pub mod Window
pub mod Contig
pub mod Device
pub mod Covers
pub mod Found
pub mod Host
pub mod Iov
mod Tests
use upcie.Prelude.{
  ℕ, zero, suc, ◌+◌, ◌-◌, ◌*◌, ◌/◌, bit_and, List, [], ◌∷◌, Outcome, done, ◌>>=◌, ◌>>◌, assert, leb,
  neb, ◌==◌, if◌then◌else◌,
}
use upcie.Prelude.Bits.{sub64, u64, shl, shr}
use upcie.Nvme.Command.{NvmeCommand}

-- What the builders read of a heap. `translate` is `hostmem_dma_v2p` or its GPU counterpart.
pub record DmaWindow : Type 0 where
  pub virt : ℕ
  pub span : ℕ
  pub pagesize : ℕ
  pub pagesize_shift : ℕ
  pub translate : ℕ → Outcome ℕ

-- The command, and the entries written to the list page.
pub record Prepared : Type 0 where
  pub cmd : NvmeCommand
  pub prp_list : List ℕ

-- One round of the loop over the pages: the address of page `i` and the strides left after it.
unfoldable pub next_page : DmaWindow → ℕ → ℕ → ℕ → ℕ → Outcome (ℕ × ℕ)
next_page w vbase i page_phys strides_left =
    if neb strides_left 0 then done (u64 (page_phys + w.pagesize), strides_left - 1) else do
      phys ← w.translate (u64 (vbase + shl i w.pagesize_shift))
      done (phys, sub64 (shr w.span w.pagesize_shift) 1)

-- The loop from page `i` on, with `left` pages to go.
unfoldable pub fill_list : DmaWindow → ℕ → ℕ → ℕ → ℕ → ℕ → Outcome (List ℕ)
fill_list w vbase zero i page_phys strides_left = done []
fill_list w vbase (suc left) i page_phys strides_left = do
  (phys, strides) ← next_page w vbase i page_phys strides_left
  rest ← fill_list w vbase left (i + 1) phys strides
  done (phys ∷ rest)

-- `nvme_request_prep_command_prps_contig`.
unfoldable pub prep_contig : DmaWindow → ℕ → ℕ → ℕ → NvmeCommand → Outcome Prepared
unfolding next_page fill_list
prep_contig w prp_addr dbuf dbuf_nbytes cmd = do
  prp1 ← w.translate dbuf
  let page_off = bit_and dbuf (sub64 w.pagesize 1)
  let npages = shr (sub64 (u64 (u64 (page_off + dbuf_nbytes) + w.pagesize)) 1) w.pagesize_shift
  assert (leb npages (1 + 512))
  let vbase = sub64 dbuf page_off
  let hp_off = bit_and (sub64 vbase w.virt) (sub64 w.span 1)
  let strides_left = sub64 (shr (sub64 w.span hp_off) w.pagesize_shift) 1
  let page_phys = sub64 prp1 page_off
  if npages == 1
      then done (record { cmd = record cmd { prp1 = prp1 }; prp_list = [] })
      else if npages == 2
      then (do
        prp2 ←
            (if neb strides_left 0
              then done (u64 (page_phys + w.pagesize))
              else w.translate (u64 (vbase + w.pagesize)))
        done (record { cmd = record cmd { prp1 = prp1; prp2 = prp2 }; prp_list = [] }))
      else do
        entries ← fill_list w vbase (npages - 1) 1 page_phys strides_left
        done (record { cmd = record cmd { prp1 = prp1; prp2 = prp_addr }; prp_list = entries })
