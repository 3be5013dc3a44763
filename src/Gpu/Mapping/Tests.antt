-- ===== src/Gpu/Mapping/Tests.antt =====
-- A registry of chunks of 2 MiB, each of which has its own address, 2 ^ 40 above the virtual one.
use upcie.Prelude.{
  ℕ, ◌+◌, ◌/◌, ◌%◌, ◌^◌, ◌≡◌, ◌≢◌, ◌⊎◌, ◌==◌, inl, if◌then◌else◌, ap, sym, ◌∙◌, ℕ_discrete, refl,
  arith, true, [], ◌∷◌, some, get_elem?, Outcome, done, ℤ, pos, neg, einval, All,
}
use upcie.Prelude.Bits.{u64, shl}
use upcie.Gpu.Types.{CudamemConfig}
use upcie.Gpu.Mapping.{
  Registry, Registration, no_dmabuf, add, remove, bump_loop, bump_one, virt_to_phys,
}
use upcie.Gpu.Populate.{Populated, populated, Runtime, chunk_populate}
use upcie.Gpu.Mapping.Counted.{Delivers}
use upcie.Gpu.Mapping.Counts.{IsCounted}
use upcie.Gpu.Mapping.Add.{Added, add-IsCounted}
use upcie.Gpu.Mapping.Remove.{IsTakenOut, remove-IsCounted}
use upcie.Gpu.Mapping.RoundTrip.{remove-add}
use upcie.Gpu.Mapping.Resolve.{Touches, virt_to_phys-IsCounted}
use upcie.Gpu.Populate.Runs.{Populates, chunk_populate-Populates}

abbrev base_of : ℕ → ℕ
base_of idx = 1099511627776 + shl idx 21

abbrev populate : ℕ → ℕ → Outcome Populated
populate k chunk_va = done (populated (1099511627776 + chunk_va) no_dmabuf)

delivers : (k : ℕ) → Delivers base_of 21 (populate k)
delivers k idx = inl (no_dmabuf, refl)

abbrev empty : Registry
empty = record {
  gran_shift = 21;
  gran_mask = 2097151;
  lut_capacity = 134217728;
  lut_phys = λ idx. 0;
  lut_meta = λ idx. record { rc = 0; attach = no_dmabuf };
  list = [];
}

empty-IsCounted : IsCounted base_of empty
empty-IsCounted = record {
  counted =
      λ j. record { count = refl; idle = λ e. (refl, refl); live = λ h. absurd (omega (arith, h)) };
  within = tt;
}

add-IsCounted_example :
    Added base_of populate empty 4296015872 4194304 empty-IsCounted
      (omega arith)
      (omega arith)
      (omega arith)
      delivers
      true
add-IsCounted_example =
    add-IsCounted base_of populate empty 4296015872 4194304 empty-IsCounted (omega arith)
      (omega arith) (omega arith) delivers true

-- The registry that an outcome leaves.
abbrev registry_of : Outcome (ℤ × Registry) → Registry
registry_of (done (err, r)) = r
registry_of other = empty

remove-add_example :
    (r'' : Registry) × (remove (registry_of (add populate true empty 4296015872 2097152)) 4296015872
      ≡ done (pos 0, r''))
    × IsCounted base_of r''
    × (r''.list ≡ [])
    × ((j : ℕ) → (r''.lut_meta j).rc ≡ 0)
unfolding add bump_loop bump_one
remove-add_example =
    remove-add base_of populate true empty
      (registry_of (add populate true empty 4296015872 2097152)) 4296015872 2097152 empty-IsCounted
      (omega arith) (omega arith) (omega arith) delivers refl

-- A registration of one chunk.
abbrev one_chunk : Registry
one_chunk = record {
  gran_shift = 21;
  gran_mask = 2097151;
  lut_capacity = 134217728;
  lut_phys = λ idx. if idx == 2048 then base_of 2048 else 0;
  lut_meta = λ idx. record { rc = if idx == 2048 then 1 else 0; attach = no_dmabuf };
  list = record { vaddr = 4294967296; size = 2097152 } ∷ [];
}

one_chunk-IsCounted : IsCounted base_of one_chunk
one_chunk-IsCounted = record {
  counted = λ j. elim (ℕ_discrete j 2048) [
    | yes here ↦
        let test : (j == 2048) ≡ true = ground (arith, here) in
        record {
          count = ground (arith, here);
          idle = λ e. absurd (ground (arith, here, e));
          live = λ h. (rw (test) refl) ∙ ap base_of (sym here);
        }
    | no other ↦ record {
      count = ground (arith, other);
      idle = λ e. (ground (arith, other), refl);
      live = λ h. absurd (ground (arith, other, h));
    }
  ];
  within = (omega arith, tt);
}

remove-IsCounted_example :
    (err : ℤ) × (r' : Registry) × (remove one_chunk 4294967296 ≡ done (err, r'))
    × IsCounted base_of r'
    × (((err ≡ neg (pos einval))
          × (r' ≡ one_chunk)
          × All (λ (m : Registration). m.vaddr ≢ 4294967296) one_chunk.list)
        ⊎ ((err ≡ pos 0) × IsTakenOut 4294967296 one_chunk.list r'.list))
remove-IsCounted_example = remove-IsCounted base_of one_chunk 4294967296 one_chunk-IsCounted

virt_to_phys-IsCounted_example :
    ((i : ℕ) × (m : Registration) × (get_elem? one_chunk.list i ≡ some m)
      × Touches 21 m (4295012345 / 2 ^ 21)
      × (virt_to_phys one_chunk 4295012345 0
          ≡ (pos 0, u64 (base_of (4295012345 / 2 ^ 21) + 4295012345 % 2 ^ 21))))
    ⊎ (All (λ (m : Registration). ¬ Touches 21 m (4295012345 / 2 ^ 21)) one_chunk.list
        × (virt_to_phys one_chunk 4295012345 0 ≡ (neg (pos einval), 0)))
virt_to_phys-IsCounted_example =
    virt_to_phys-IsCounted base_of one_chunk 4295012345 0 one_chunk-IsCounted
      (λ j e. absurd (omega (arith, e))) refl (omega arith, tt) (λ e. cc)

-- A dma-buf of two runs that lie one after the other.
abbrev runtime : Runtime
runtime = record {
  calloc = true;
  handle = λ va size. some 7;
  attach = λ fd. (
    pos 0,
    record {
      fd = fd;
      pages =
          record { addr = 1073741824; len = 1048576 }
          ∷ record { addr = 1074790400; len = 1048576 }
          ∷ [];
    },
  );
}

abbrev config : CudamemConfig
config = record {
  pagesize = 1048576;
  pagesize_shift = 20;
  device_pagesize = 65536;
  device_pagesize_shift = 16;
  device_memsize = 8589934592;
  bar1_size = 8589934592;
  alloc_granularity = 2097152;
  alloc_granularity_shift = 21;
}

chunk_populate-Populates_example : Populates 2 1048576 (chunk_populate runtime config 4294967296)
chunk_populate-Populates_example =
    chunk_populate-Populates runtime config 4294967296 (omega arith) (omega arith)
