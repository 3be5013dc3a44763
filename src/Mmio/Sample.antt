-- ===== src/Mmio/Sample.antt =====
-- A device for the tests: its registers keep what is written to them, and its completion queue
-- stands still, with two entries in the first round of a queue of four.
use upcie.Prelude.{ℕ, ◌%◌, ◌==◌, refl, if◌then◌else◌, ltb}
use upcie.Nvme.Command.{NvmeCompletion, zero_completion}
use upcie.Mmio.{Device}
use upcie.Mmio.Memory.{IsMemory}

-- The entry with number `k`, whose status holds nothing but the phase bit.
abbrev pub sample_post : ℕ → ℕ → NvmeCompletion
sample_post phase k = record zero_completion { cid = k % 4; status = phase }

abbrev pub sample_device : Device (ℕ → ℕ)
sample_device = record {
  read32 = λ a s. (s a, s);
  write32 = λ a v s b. if b == a then v else s b;
  usleep = λ us s. s;
  load_cqe = λ cq i s. if ltb i 2 then sample_post 1 i else zero_completion;
  store_sqe = λ sq i cmd s. s;
  store_prps = λ a prps s. s;
  zero_memory = λ a nbytes s. s;
}

pub sample_device-IsMemory : IsMemory sample_device
sample_device-IsMemory = record { keeps = λ a s. refl; written = λ a b v s. refl }
