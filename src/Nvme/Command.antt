-- ===== src/Nvme/Command.antt =====
-- include/upcie/nvme/nvme_command.h: commands and completions.
use upcie.Prelude.{ℕ}

-- `struct nvme_completion`.
pub record NvmeCompletion : Type 0 where
  pub cdw0 : ℕ
  pub rsvd : ℕ
  pub sqhd : ℕ
  pub sqid : ℕ
  pub cid : ℕ
  pub status : ℕ

-- `struct nvme_command`.
pub record NvmeCommand : Type 0 where
  pub opc : ℕ
  pub fuse : ℕ
  pub cid : ℕ
  pub nsid : ℕ
  pub rsvd2 : ℕ
  pub mptr : ℕ
  pub prp1 : ℕ
  pub prp2 : ℕ
  pub cdw10 : ℕ
  pub cdw11 : ℕ
  pub cdw12 : ℕ
  pub cdw13 : ℕ
  pub cdw14 : ℕ
  pub cdw15 : ℕ

-- `struct nvme_command cmd = {0}` and `struct nvme_completion cpl = {0}`.
abbrev pub zero_command : NvmeCommand
zero_command = record {
  opc = 0;
  fuse = 0;
  cid = 0;
  nsid = 0;
  rsvd2 = 0;
  mptr = 0;
  prp1 = 0;
  prp2 = 0;
  cdw10 = 0;
  cdw11 = 0;
  cdw12 = 0;
  cdw13 = 0;
  cdw14 = 0;
  cdw15 = 0;
}

abbrev pub zero_completion : NvmeCompletion
zero_completion = record { cdw0 = 0; rsvd = 0; sqhd = 0; sqid = 0; cid = 0; status = 0 }
