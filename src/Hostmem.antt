-- ===== src/Hostmem.antt =====
-- include/upcie/hostmem*.h: hugepage-backed memory for DMA.
pub mod Types
pub mod Dma
pub mod Pagemap
pub mod Hugepage
pub mod Heap
pub mod Sample
mod Tests
