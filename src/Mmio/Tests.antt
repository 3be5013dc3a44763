-- ===== src/Mmio/Tests.antt =====
-- The round trip of a 64-bit register at the sample device.
use upcie.Prelude.{ℕ, ◌≡◌, arith}
use upcie.Mmio.{mmio_read64, mmio_write64}
use upcie.Mmio.Memory.{mmio_read64-mmio_write64}
use upcie.Mmio.Sample.{sample_device, sample_device-IsMemory}

abbrev bytes : ℕ → ℕ
bytes a = a

mmio_read64-mmio_write64_example :
    (mmio_read64 sample_device 4096 40 (mmio_write64 sample_device 4096 40 0x123456789A bytes)).0
    ≡ 0x123456789A
mmio_read64-mmio_write64_example =
    mmio_read64-mmio_write64 sample_device sample_device-IsMemory 4096 40 (omega arith)
      (omega arith) 0x123456789A bytes (omega arith)
