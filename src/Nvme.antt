-- ===== src/Nvme.antt =====
-- include/upcie/nvme/: the NVMe driver.
pub mod Command
pub mod Qid
pub mod Cap
pub mod Cc
pub mod Registers
pub mod Qpair
pub mod Prps
pub mod Request
pub mod Controller
mod Tests
