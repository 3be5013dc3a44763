-- ===== src/Gpu/Requests.antt =====
-- include/upcie/nvme/nvme_request_cuda.h and nvme_request_hip.h: the PRP builders for data in GPU memory.
pub mod Contig
pub mod Mapped
pub mod ByPage
mod Tests
pub mod Iov
