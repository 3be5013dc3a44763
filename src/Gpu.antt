-- ===== src/Gpu.antt =====
-- include/upcie/cudamem_*.h and hipmem_*.h: memory of a GPU for DMA. The headers for CUDA and for HIP
-- have the same text but for the names and the runtime that they call; a definition here stands for
-- both, and the ones under Hip say which of them is which.
pub mod Types
pub mod Dmabuf
pub mod Heap
pub mod Translate
pub mod Dma
pub mod Hip
pub mod Qpair
mod Tests
pub mod Requests
pub mod Populate
pub mod Mapping
