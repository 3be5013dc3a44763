-- ===== src/Gpu/Mapping.antt =====
-- include/upcie/cudamem_mapping.h and hipmem_mapping.h: the registry of GPU buffers that others have
-- allocated. The two tables are functions of the chunk index, with a test for the end of the tables
-- where the code reads them; detaching a dma-buf clears its entry.
pub mod Counted
pub mod Loops
pub mod Counts
pub mod Add
pub mod Remove
pub mod Resolve
pub mod RoundTrip
mod Tests
use upcie.Prelude.{
  ℕ, zero, suc, ◌+◌, ◌-◌, ◌*◌, ◌==◌, ◌&&◌, ◌||◌, not, ltb, leb, neb, if◌then◌else◌, bit_and, Bool,
  true, false, List, [], ◌∷◌, Option, some, none, ℤ, pos, neg, einval, enomem, eio, eopnotsupp,
  Outcome, done, fault, ◌>>=◌, ◌>>◌, read, get_elem?,
}
use mathlib.Core.Option
use upcie.Prelude.Bits.{u32, u64, sub64, shl, shr}
use upcie.Gpu.Types.{CudamemConfig}
use upcie.Gpu.Dmabuf.{Dmabuf, get_lut}
use upcie.Gpu.Populate.{Populated, populated, failed}

abbrev pub va_bits : ℕ
va_bits = 48

-- `struct cudamem_mapping_chunk_meta`.
pub record ChunkMeta : Type 0 where
  pub rc : ℕ
  pub attach : Dmabuf

abbrev pub no_dmabuf : Dmabuf
no_dmabuf = record { fd = 0; pages = [] }

-- `struct cudamem_mapping_registration`, without the link.
pub record Registration : Type 0 where
  pub vaddr : ℕ
  pub size : ℕ

-- `struct cudamem_mapping_registry`.
pub record Registry : Type 0 where
  pub gran_shift : ℕ
  pub gran_mask : ℕ
  pub lut_capacity : ℕ
  pub lut_phys : ℕ → ℕ
  pub lut_meta : ℕ → ChunkMeta
  pub list : List Registration

-- A table with one entry written.
abbrev pub write {ℓ} : {A : Type ℓ} → (ℕ → A) → ℕ → A → ℕ → A
write table idx v j = if j == idx then v else table j

-- `cudamem_mapping_registry_init` of a registry, given which of its two calls to mmap succeed.
unfoldable pub registry_init : CudamemConfig → Bool → Bool → ℤ × Option Registry
registry_init config phys_mapped meta_mapped =
    if phys_mapped && meta_mapped
    then (
      pos 0,
      some (record {
        gran_shift = config.alloc_granularity_shift;
        gran_mask = sub64 config.alloc_granularity 1;
        lut_capacity = shr (shl 1 va_bits) config.alloc_granularity_shift;
        lut_phys = λ idx. 0;
        lut_meta = λ idx. record { rc = 0; attach = no_dmabuf };
        list = [];
      }),
    )
    else (neg (pos enomem), none)

-- The first chunk of a range, and how many there are.
abbrev pub first_chunk : ℕ → ℕ → ℕ
first_chunk gran_shift vaddr = shr vaddr gran_shift

abbrev pub chunk_cnt : ℕ → ℕ → ℕ → ℕ → ℕ
chunk_cnt gran_shift mask vaddr size = shr (u64 (u64 (bit_and vaddr mask + size) + mask)) gran_shift

-- One round of `cudamem_mapping_chunk_deref`.
unfoldable pub deref_one : Registry → ℕ → Registry
deref_one registry idx =
    let cm = registry.lut_meta idx in
    if cm.rc == 0
    then registry
    else if cm.rc - 1 == 0
    then record registry {
      lut_meta = write registry.lut_meta idx (record { rc = 0; attach = no_dmabuf });
      lut_phys = write registry.lut_phys idx 0;
    }
    else record registry { lut_meta = write registry.lut_meta idx (record cm { rc = cm.rc - 1 }) }

-- `cudamem_mapping_chunk_deref`, from the first chunk on.
unfoldable pub chunk_deref : Registry → ℕ → ℕ → Outcome Registry
chunk_deref registry idx zero = done registry
chunk_deref registry idx (suc left) =
    let rest = chunk_deref (deref_one registry idx) (idx + 1) left in
    if leb registry.lut_capacity idx then fault else rest

-- The release of the chunks of a registration.
abbrev pub deref_range : Registry → Registration → Outcome Registry
deref_range registry m =
    chunk_deref registry (first_chunk registry.gran_shift m.vaddr)
      (chunk_cnt registry.gran_shift registry.gran_mask m.vaddr m.size)

-- `cudamem_mapping_clear`.
unfoldable pub clear_list : Registry → List Registration → Outcome Registry
clear_list registry [] = done (record registry { list = [] })
clear_list registry (m ∷ next) = do after ← deref_range registry m; clear_list after next

unfoldable pub clear : Registry → Outcome Registry
clear registry = clear_list registry registry.list

unfoldable pub registry_term : Registry → Outcome Registry
registry_term registry = do
  cleared ← clear registry
  done (record cleared {
    lut_phys = λ idx. 0;
    lut_meta = λ idx. record { rc = 0; attach = no_dmabuf };
    lut_capacity = 0;
  })

-- `cm->rc++`.
abbrev pub bump : Registry → ℕ → Registry
bump registry idx =
    let cm = registry.lut_meta idx in
    record registry { lut_meta = write registry.lut_meta idx (record cm { rc = u32 (cm.rc + 1) }) }

-- What populating writes at a chunk.
abbrev pub fill : Registry → ℕ → ℕ → Dmabuf → Registry
fill registry idx base attach = record registry {
  lut_phys = write registry.lut_phys idx base;
  lut_meta = write registry.lut_meta idx (record (registry.lut_meta idx) { attach = attach });
}

-- A chunk in the loop of `cudamem_mapping_add`: the registry after it, or the error to unwind for.
pub data Bumped : Type 0 where
  bumped : Registry → Bumped
  stuck : ℤ → Registry → Bumped

abbrev pub filled : Registry → ℕ → Populated → Bumped
filled registry idx (populated base attach) = bumped (bump (fill registry idx base attach) idx)
filled registry idx (failed err) = stuck err registry

unfoldable pub bump_one : (ℕ → Outcome Populated) → Registry → ℕ → Outcome Bumped
bump_one populate registry idx =
    if leb registry.lut_capacity idx
    then fault
    else if (registry.lut_meta idx).rc == 0
    then (do result ← populate (shl idx registry.gran_shift); done (filled registry idx result))
    else done (bumped (bump registry idx))

-- What follows a chunk: the next one, or the unwinding of those before it.
abbrev pub proceed : ℕ → ℕ → (Registry → Outcome Bumped) → Bumped → Outcome Bumped
proceed chunk_first bumped_cnt next (bumped after) = next after
proceed chunk_first bumped_cnt next (stuck err after) = do
  unwound ← chunk_deref after chunk_first bumped_cnt
  done (stuck err unwound)

-- The loop. The result of populating may differ from chunk to chunk.
unfoldable pub bump_loop : (ℕ → ℕ → Outcome Populated) → Registry → ℕ → ℕ → ℕ → Outcome Bumped
bump_loop populate registry chunk_first bumped_cnt zero = done (bumped registry)
bump_loop populate registry chunk_first bumped_cnt (suc left) = do
  result ← bump_one (populate bumped_cnt) registry (chunk_first + bumped_cnt)
  proceed chunk_first bumped_cnt
      (λ after. bump_loop populate after chunk_first (bumped_cnt + 1) left) result

-- The end of `cudamem_mapping_add`: the registration is listed first.
abbrev pub linked : Registration → Bumped → ℤ × Registry
linked m (bumped after) = (pos 0, record after { list = m ∷ after.list })
linked m (stuck err after) = (err, after)

-- `cudamem_mapping_add`; `given` is whether its calloc succeeds.
unfoldable pub add : (ℕ → ℕ → Outcome Populated) → Bool → Registry → ℕ → ℕ → Outcome (ℤ × Registry)
add populate given registry vaddr nbytes =
    let first = first_chunk registry.gran_shift vaddr in
    let cnt = chunk_cnt registry.gran_shift registry.gran_mask vaddr nbytes in
    if vaddr == 0 || nbytes == 0
    then done (neg (pos einval), registry)
    else if ltb registry.lut_capacity (u64 (first + cnt))
    then done (neg (pos einval), registry)
    else if not given
    then done (neg (pos enomem), registry)
    else (do
      result ← bump_loop populate registry first 0 cnt
      done (linked (record { vaddr = vaddr; size = nbytes }) result))

-- The search of `cudamem_mapping_remove`: the registration found, and the list without it.
unfoldable pub find : ℕ → List Registration → Option (Registration × List Registration)
find key [] = none
find key (m ∷ next) =
    let later =
      Option.map (λ (r : Registration × List Registration). (r.0, m ∷ r.1)) (find key next) in
    if m.vaddr == key then some (m, next) else later

unfoldable pub remove : Registry → ℕ → Outcome (ℤ × Registry)
remove registry vaddr = unlink (find vaddr registry.list)
  where
    unlink : Option (Registration × List Registration) → Outcome (ℤ × Registry)
    unlink none = done (neg (pos einval), registry)
    unlink (some (m, others)) = do
      after ← deref_range registry m
      done (pos 0, record after { list = others })

-- `cudamem_mapping_virt_to_phys`; `phys` is what the result pointer leads to before the call.
unfoldable pub virt_to_phys : Registry → ℕ → ℕ → ℤ × ℕ
virt_to_phys registry virt phys =
    let idx = shr virt registry.gran_shift in
    let base = registry.lut_phys idx in
    if virt == 0 || leb registry.lut_capacity idx
    then (neg (pos einval), phys)
    else if base == 0
    then (neg (pos einval), phys)
    else (pos 0, u64 (base + bit_and virt registry.gran_mask))
