-- ===== src/Gpu/Requests/Mapped.antt =====
-- The builders for buffers that are registered in a mapping registry: each page is looked up.
use upcie.Prelude.{
  ℕ, zero, suc, ◌+◌, ◌-◌, ◌/◌, ◌==◌, ◌⊎◌, ltb, if◌then◌else◌, bit_and, inl, inr, List, [], ◌∷◌,
  ◌++◌, length, ℤ, pos, neg, einval, Outcome, done, fault, ◌>>=◌, ◌>>◌, assert,
}
use upcie.Prelude.Bits.{u64, sub64, shl, shr}
use upcie.Nvme.Command.{NvmeCommand}
use upcie.Nvme.Prps.{Prepared}
use upcie.Nvme.Prps.Iov.{Iovec, less_page, with_entries}
use upcie.Gpu.Types.{CudamemConfig}
use upcie.Gpu.Mapping.{Registry, virt_to_phys}

-- A call of `cudamem_mapping_virt_to_phys`: the address, or the error.
abbrev pub resolved : ℤ × ℕ → ℤ ⊎ ℕ
resolved (pos zero, phys) = inr phys
resolved (err, phys) = inl err

abbrev pub resolve : Registry → ℕ → ℤ ⊎ ℕ
resolve registry virt = resolved (virt_to_phys registry virt 0)

-- An entry before those that follow it.
abbrev pub entered : ℤ ⊎ ℕ → ℤ × List ℕ → ℤ × List ℕ
entered (inl err) rest = (err, [])
entered (inr phys) rest = (rest.0, phys ∷ rest.1)

-- The loop over the pages from page `i` on: the entries written, and the error that it stops with.
unfoldable pub fill_mapped : Registry → ℕ → ℕ → ℕ → ℕ → ℤ × List ℕ
fill_mapped registry page_base pagesize_shift zero i = (pos 0, [])
fill_mapped registry page_base pagesize_shift (suc left) i =
    entered (resolve registry (u64 (page_base + shl i pagesize_shift)))
      (fill_mapped registry page_base pagesize_shift left (i + 1))

-- PRP2 of two pages, and of more.
abbrev pub with_second : NvmeCommand → ℤ ⊎ ℕ → ℤ × Prepared
with_second cmd (inl err) = (err, record { cmd = cmd; prp_list = [] })
with_second cmd (inr prp2) = (pos 0, record { cmd = record cmd { prp2 = prp2 }; prp_list = [] })

abbrev pub with_list : ℕ → NvmeCommand → ℤ × List ℕ → ℤ × Prepared
with_list prp_addr cmd result =
    (result.0, record { cmd = record cmd { prp2 = prp_addr }; prp_list = result.1 })

-- What follows the look-up of the first page.
unfoldable pub with_first :
    ℕ → Registry → CudamemConfig → NvmeCommand → ℕ → ℕ → ℤ ⊎ ℕ → ℤ × Prepared
with_first prp_addr registry config cmd page_base npages (inl err) =
    (err, record { cmd = cmd; prp_list = [] })
with_first prp_addr registry config cmd page_base npages (inr prp1) =
    if npages == 1
    then (pos 0, record { cmd = record cmd { prp1 = prp1 }; prp_list = [] })
    else if npages == 2
    then with_second (record cmd { prp1 = prp1 })
        (resolve registry (u64 (page_base + config.pagesize)))
    else with_list prp_addr (record cmd { prp1 = prp1 })
        (fill_mapped registry page_base config.pagesize_shift (npages - 1) 1)

-- `nvme_request_prep_command_prps_contig_cuda_mapped`.
unfoldable pub prep_contig_mapped :
    ℕ → Registry → CudamemConfig → ℕ → ℕ → NvmeCommand → ℤ × Prepared
prep_contig_mapped prp_addr registry config dbuf dbuf_nbytes cmd =
    let page_off = bit_and dbuf (sub64 config.pagesize 1) in
    let npages =
      shr (sub64 (u64 (u64 (page_off + dbuf_nbytes) + config.pagesize)) 1) config.pagesize_shift in
    if ltb (1 + config.pagesize / 8) npages
    then (neg (pos einval), record { cmd = cmd; prp_list = [] })
    else with_first prp_addr registry config cmd (sub64 dbuf page_off) npages
        (resolve registry dbuf)

-- The entries of one iovec, on fuel, with `room` entries left in the list page: as far as they come,
-- and the error.
unfoldable pub mapped_pages : Registry → ℕ → ℕ → ℕ → ℕ → ℕ → ℕ → Outcome (ℤ × List ℕ)
mapped_pages registry pagesize zero room base offset remaining = fault
mapped_pages registry pagesize (suc fuel) room base offset zero = done (pos 0, [])
mapped_pages registry pagesize (suc fuel) zero base offset (suc more) = done (neg (pos einval), [])
mapped_pages registry pagesize (suc fuel) (suc room) base offset (suc more) = do
  rest ←
      mapped_pages registry pagesize fuel room base (offset + pagesize)
        (less_page pagesize (suc more))
  done (entered (resolve registry (u64 (base + offset))) rest)

-- The entries before those of the iovecs that follow.
abbrev pub before : ℤ × List ℕ → Outcome (ℤ × List ℕ) → Outcome (ℤ × List ℕ)
before (pos zero, entries) rest = rest >>= λ r. done (r.0, entries ++ r.1)
before (err, entries) rest = done (err, entries)

-- The iovecs after the first.
unfoldable pub mapped_rest : Registry → ℕ → ℕ → List Iovec → Outcome (ℤ × List ℕ)
mapped_rest registry pagesize room [] = done (pos 0, [])
mapped_rest registry pagesize room (vec ∷ dvec) = do
  assert (bit_and vec.iov_base (sub64 pagesize 1) == 0)
  here ← mapped_pages registry pagesize (vec.iov_len + 1) room vec.iov_base 0 vec.iov_len
  before here (mapped_rest registry pagesize (room - length here.1) dvec)

-- The command as the entries leave it.
abbrev pub finished : ℕ → NvmeCommand → ℤ × List ℕ → ℤ × Prepared
finished prp_addr cmd (pos zero, entries) = (pos 0, with_entries prp_addr cmd entries)
finished prp_addr cmd (err, entries) = (err, record { cmd = cmd; prp_list = entries })

-- The first iovec, of which PRP1 is the first page.
unfoldable pub first_mapped :
    ℕ → Registry → CudamemConfig → NvmeCommand → Iovec → List Iovec → ℤ ⊎ ℕ → Outcome (ℤ × Prepared)
first_mapped prp_addr registry config cmd first dvec (inl err) =
    done (err, record { cmd = cmd; prp_list = [] })
first_mapped prp_addr registry config cmd first dvec (inr prp1) = do
  here ←
      mapped_pages registry config.pagesize (first.iov_len + 1) (config.pagesize / 8) first.iov_base
        config.pagesize (less_page config.pagesize first.iov_len)
  entries ←
      before here (mapped_rest registry config.pagesize (config.pagesize / 8 - length here.1) dvec)
  done (finished prp_addr (record cmd { prp1 = prp1 }) entries)

-- `nvme_request_prep_command_prps_iov_cuda_mapped`.
unfoldable pub prep_iov_mapped :
    ℕ → Registry → CudamemConfig → List Iovec → NvmeCommand → Outcome (ℤ × Prepared)
prep_iov_mapped prp_addr registry config [] cmd =
    done (neg (pos einval), record { cmd = cmd; prp_list = [] })
prep_iov_mapped prp_addr registry config (first ∷ dvec) cmd = do
  assert (bit_and first.iov_base (sub64 config.pagesize 1) == 0)
  first_mapped prp_addr registry config cmd first dvec (resolve registry first.iov_base)
