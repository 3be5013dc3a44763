-- ===== src/Os.antt =====
-- The system calls and library functions that the code uses, as parameters. `S` is the state of the
-- system; a call returns its result and the state after it. A file descriptor that a call returns is
-- `none` where C has -1, and so is an address where C has MAP_FAILED.
pub mod Held
pub mod Sample
use upcie.Prelude.{ℕ, List, Option, ◌⊎◌, ℤ, Bool}

-- The paths that the code opens, by their formats and the arguments.
pub data FilePath : Type 0 where
  sysfs_vendor : List ℕ → FilePath
  sysfs_device : List ℕ → FilePath
  sysfs_class : List ℕ → FilePath
  sysfs_resource : List ℕ → ℕ → FilePath
  sysfs_devices : FilePath
  self_pagemap : FilePath
  proc_fd : ℕ → FilePath
  hugetlbfs : ℕ → FilePath
  shared : List ℕ → FilePath
  vfio_container : FilePath
  vfio_group : ℕ → FilePath

pub record Os (S : Type 0) : Type 0 where
  pub errno : S → ℕ
  pub open_file : FilePath → S → Option ℕ × S
  pub memfd_create : ℕ → S → Option ℕ × S
  pub close : ℤ → S → S
  pub mmap : ℕ → ℤ → S → Option ℕ × S
  pub munmap : ℕ → ℕ → S → S
  -- The bytes that `read` gives of a small file, and the entry that `pread` gives at an offset.
  pub read_file : ℕ → S → Option (List ℕ) × S
  pub pread_entry : ℕ → ℕ → S → Option ℕ × S
  -- The size that `stat` gives, or errno.
  pub stat : FilePath → S → ℕ ⊎ ℕ
  pub fstat : ℕ → S → Option ℕ × S
  -- Whether the call succeeds.
  pub ftruncate : ℤ → ℕ → S → Bool × S
  pub mlock : ℕ → ℕ → S → Bool × S
  pub unlink : FilePath → S → S
  -- Accesses to each page of a memory, and `memset` of it.
  pub touch : ℕ → ℕ → S → S
  pub getpagesize : ℕ
