-- ===== src/Nvme/Prps/Tests.antt =====
-- The contiguous builder on a heap of two hugepages that lie apart in physical memory.
use upcie.Prelude.{ℕ, ◌-◌, ◌+◌, ◌≡◌, refl, arith, [], ◌∷◌, done, some}
use upcie.Hostmem.Sample.{heap, heap-IsMapped}
use mathlib.Core.Option
use upcie.Hostmem.Dma.{hostmem_dma_v2p}
use upcie.Hostmem.Dma.Translate.{phys_at}
use upcie.Nvme.Command.{zero_command}
use upcie.Nvme.Request.{NvmeRequest}
use upcie.Nvme.Prps.{Prepared, prep_contig}
use upcie.Nvme.Prps.Window.{IsLawful}
use upcie.Nvme.Prps.Device.{device_address}
use upcie.Nvme.Prps.Covers.{by_page}
use upcie.Nvme.Prps.Found.{prep_contig-by_page}
use upcie.Nvme.Prps.Host.{
  host_window, host_window-IsLawful, prep_command_prps_contig,
  device_address-prep_command_prps_contig,
}

abbrev request : NvmeRequest
request = record { cid = 0; user = 0; prp_addr = 20480; prp = 0 }

abbrev lawful : IsLawful (host_window heap) 4194304
lawful = host_window-IsLawful heap-IsMapped

prep_contig-by_page_example :
    prep_contig (host_window heap) 20480 (10485760 + 2093156) 8192 zero_command
    ≡ done (by_page lawful.phys 4096 20480 2093156 8192 zero_command)
prep_contig-by_page_example =
    prep_contig-by_page lawful 20480 2093156 8192 zero_command (omega arith) (omega arith)
      (omega arith)

-- Three pages from offset 100 of the last page of the first hugepage.
crossing :
    prep_command_prps_contig request heap (10485760 + 2093156) 8192 zero_command
    ≡ done (record {
      cmd = record zero_command { prp1 = 18870372; prp2 = 20480 };
      prp_list = 6291456 ∷ 6295552 ∷ [];
    })
unfolding prep_command_prps_contig prep_contig hostmem_dma_v2p
crossing = refl

device_address-prep_command_prps_contig_example :
    (prepared : Prepared) × (address : ℕ) × (prep_command_prps_contig request heap
        (10485760 + 2093156)
        8192
        zero_command
      ≡ done prepared)
    × (device_address 4096 request.prp_addr prepared 8192 5000 ≡ some address)
    × (hostmem_dma_v2p heap (10485760 + 2093156 + 5000) ≡ done address)
device_address-prep_command_prps_contig_example =
    device_address-prep_command_prps_contig request heap 2093156 8192 5000 zero_command
      heap-IsMapped (omega arith) (omega arith) (omega arith)

-- The translation of the sample heap.
abbrev lawful_phys : ℕ → ℕ
lawful_phys addr = phys_at heap (addr - 10485760)
