-- ===== src/Gpu/Requests/Iov.antt =====
-- The iovec builders, over the hugepage heap and over the heap in GPU memory.
use upcie.Prelude.{List, Outcome}
use upcie.Hostmem.Types.{HostmemHeap}
use upcie.Nvme.Command.{NvmeCommand}
use upcie.Nvme.Request.{NvmeRequest}
use upcie.Nvme.Prps.{Prepared}
use upcie.Nvme.Prps.Host.{host_window}
use upcie.Nvme.Prps.Iov.{Iovec, prep_iov}
use upcie.Gpu.Types.{CudamemHeap}
use upcie.Gpu.Requests.Contig.{gpu_window}

abbrev pub prep_command_prps_iov :
    NvmeRequest → HostmemHeap → List Iovec → NvmeCommand → Outcome Prepared
prep_command_prps_iov request heap dvec cmd = prep_iov (host_window heap) request.prp_addr dvec cmd

abbrev pub prep_command_prps_iov_cuda :
    NvmeRequest → CudamemHeap → List Iovec → NvmeCommand → Outcome Prepared
prep_command_prps_iov_cuda request heap dvec cmd =
    prep_iov (gpu_window heap) request.prp_addr dvec cmd
