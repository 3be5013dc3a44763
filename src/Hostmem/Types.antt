-- ===== src/Hostmem/Types.antt =====
-- The structs of hostmem_config.h, hostmem_hugepage.h and hostmem_heap.h. Pointers are addresses.
-- The mount point of hugetlbfs is left out of the configuration, as it is in the paths below it.
use upcie.Prelude.{ℕ, ℤ, Bool, List, Option}
use upcie.Os.{FilePath}

-- `struct hostmem_config`.
pub record HostmemConfig : Type 0 where
  pub memfd_flags : ℕ
  pub backend : ℕ
  pub count : ℕ
  pub pagesize : ℕ
  pub pagesize_shift : ℕ
  pub hugepgsz : ℕ
  pub hugepgsz_shift : ℕ

-- `struct hostmem_hugepage`.
pub record Hugepage : Type 0 where
  pub fd : ℤ
  pub virt : ℕ
  pub size : ℕ
  pub phys : ℕ
  pub path : FilePath

-- `struct hostmem_heap_block`, which stands at `addr` in the hugepage memory; `next` is the block
-- after it in the list.
pub record HeapBlock : Type 0 where
  pub addr : ℕ
  pub size : ℕ
  pub free : Bool

-- `struct hostmem_heap`.
pub record HostmemHeap : Type 0 where
  pub memory : Hugepage
  pub freelist : List HeapBlock
  pub config : HostmemConfig
  pub nphys : ℕ
  pub phys_lut : List ℕ

-- What an allocation leaves: the pointer or NULL, what errno is set to if it is, and the list.
pub record Alloced : Type 0 where
  pub ptr : Option ℕ
  pub errno : Option ℕ
  pub list : List HeapBlock
