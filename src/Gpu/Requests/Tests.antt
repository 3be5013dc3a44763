-- ===== src/Gpu/Requests/Tests.antt =====
-- A registry that maps each chunk of 2 MiB 2 ^ 40 above its virtual address, with pages of 4096 bytes.
use upcie.Prelude.{
  ℕ, ◌+◌, ◌*◌, ◌/◌, ◌%◌, ◌^◌, ◌<◌, ◌≡◌, ◌==◌, leb, inr, refl, arith, false, [], ◌∷◌, some, pos,
}
use upcie.Prelude.Bits.{u64, bit_and-mask}
use upcie.Nvme.Command.{zero_command}
use upcie.Nvme.Prps.{Prepared}
use upcie.Nvme.Prps.Window.{IsLawful}
use upcie.Nvme.Prps.Device.{device_address}
use upcie.Gpu.Types.{CudamemConfig}
use upcie.Gpu.Mapping.{Registry, no_dmabuf, virt_to_phys}
use upcie.Gpu.Requests.Mapped.{resolve, prep_contig_mapped}
use upcie.Gpu.Requests.ByPage.{registry_window, device_address-prep_contig_mapped}

abbrev registry : Registry
registry = record {
  gran_shift = 21;
  gran_mask = 2097151;
  lut_capacity = 134217728;
  lut_phys = λ idx. 1099511627776 + idx * 2097152;
  lut_meta = λ idx. record { rc = 1; attach = no_dmabuf };
  list = record { vaddr = 4294967296; size = 4194304 } ∷ [];
}

abbrev config : CudamemConfig
config = record {
  pagesize = 4096;
  pagesize_shift = 12;
  device_pagesize = 65536;
  device_pagesize_shift = 16;
  device_memsize = 8589934592;
  bar1_size = 8589934592;
  alloc_granularity = 2097152;
  alloc_granularity_shift = 21;
}

resolve_at :
    (offset : ℕ)
    → offset < 4194304
    → resolve registry (4294967296 + offset) ≡ inr (1103806595072 + offset)
unfolding virt_to_phys
resolve_at offset h =
    let k : ℕ = (4294967296 + offset) / 2097152 in
    let given : (4294967296 + offset == 0) ≡ false = ground arith in
    let room : leb 134217728 k ≡ false = ground (arith, h) in
    let mapped : (1099511627776 + k * 2097152 == 0) ≡ false = ground arith in
    let sum : u64 (1099511627776 + k * 2097152 + (4294967296 + offset) % 2 ^ 21)
        ≡ 1103806595072 + offset =
      omega (arith, h) in
    rw (given, room, mapped, bit_and-mask 21 (4294967296 + offset), sum) refl

lawful : IsLawful (registry_window registry config 4294967296) 4194304
lawful = record {
  phys = λ offset. 1103806595072 + offset;
  extra_shift = 0;
  page_shift = refl;
  span_pages = refl;
  span_power = refl;
  span_max = omega arith;
  aligned = refl;
  below = omega arith;
  translates = λ offset h. rw (resolve_at offset h) refl;
  runs_on = λ offset d inside h. omega arith;
  phys-lt = λ offset h. omega (arith, h);
  phys_aligned = λ offset h. omega arith;
}

-- Three pages across the end of a chunk.
device_address-prep_contig_mapped_example :
    (prepared : Prepared) × (address : ℕ) × (prep_contig_mapped 20480 registry config
        (4294967296 + 2093156)
        8192
        zero_command
      ≡ (pos 0, prepared))
    × (device_address 4096 20480 prepared 8192 5000 ≡ some address)
    × (resolve registry (4294967296 + 2093156 + 5000) ≡ inr address)
device_address-prep_contig_mapped_example =
    device_address-prep_contig_mapped registry config 4294967296 4194304 20480 2093156 8192 5000
      zero_command lawful (omega arith) (omega arith) (omega arith)
