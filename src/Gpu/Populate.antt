-- ===== src/Gpu/Populate.antt =====
-- include/upcie/cudamem_mapping.h and hipmem_mapping.h: how a chunk of GPU memory is found to be one run
-- of physical memory, through the driver and a dma-buf.
pub mod Runs
use upcie.Prelude.{
  ℕ, zero, suc, ◌+◌, ◌-◌, ◌*◌, ◌==◌, ◌&&◌, ◌||◌, not, ltb, leb, neb, if◌then◌else◌, bit_and, Bool,
  true, false, List, [], ◌∷◌, Option, some, none, ℤ, pos, neg, einval, enomem, eio, eopnotsupp,
  Outcome, done, fault, ◌>>=◌, ◌>>◌, read, get_elem?,
}
use mathlib.Core.Option
use upcie.Prelude.Bits.{u32, u64, sub64, shl, shr}
use upcie.Gpu.Types.{CudamemConfig}
use upcie.Gpu.Dmabuf.{Dmabuf, get_lut}

-- What populating a chunk calls: whether calloc succeeds, the file descriptor of the dma-buf of a
-- range, if the driver gives one, and what `dmabuf_attach` returns of it and writes.
pub record Runtime : Type 0 where
  pub calloc : Bool
  pub handle : ℕ → ℕ → Option ℕ
  pub attach : ℕ → ℤ × Dmabuf

-- `phys_base_out` and `attach_out`, or the error.
pub data Populated : Type 0 where
  populated : ℕ → Dmabuf → Populated
  failed : ℤ → Populated

-- The test that the addresses are contiguous, from the `i`th on.
unfoldable pub is_contiguous : ℕ → ℕ → ℕ → List ℕ → Bool
is_contiguous pagesize base i [] = true
is_contiguous pagesize base i (addr ∷ rest) =
    let after = is_contiguous pagesize base (i + 1) rest in
    if neb addr (u64 (base + u64 (i * pagesize))) then false else after

-- `cudamem_mapping_chunk_populate`. A table of no entries has no first one.
unfoldable pub populate_from : ℕ → Dmabuf → Option (List ℕ) → Outcome Populated
populate_from pagesize attach none = done (failed (neg (pos einval)))
populate_from pagesize attach (some []) = fault
populate_from pagesize attach (some (base ∷ rest)) =
    if is_contiguous pagesize base 1 rest
    then done (populated base attach)
    else done (failed (neg (pos eopnotsupp)))

-- What follows the attachment, and the handle.
unfoldable pub attached : CudamemConfig → ℤ × Dmabuf → Outcome Populated
attached config (pos zero, attach) =
    if config.pagesize == 0
    then fault
    else populate_from config.pagesize attach
        (get_lut attach (shr config.alloc_granularity config.pagesize_shift) config.pagesize)
attached config (err, attach) = done (failed err)

unfoldable pub with_handle : Runtime → CudamemConfig → Option ℕ → Outcome Populated
with_handle runtime config none = done (failed (neg (pos eio)))
with_handle runtime config (some fd) = attached config (runtime.attach fd)

unfoldable pub chunk_populate : Runtime → CudamemConfig → ℕ → Outcome Populated
chunk_populate runtime config chunk_va =
    if not runtime.calloc
    then done (failed (neg (pos enomem)))
    else with_handle runtime config (runtime.handle chunk_va config.alloc_granularity)
