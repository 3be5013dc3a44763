-- ===== src/Hostmem/Hugepage.antt =====
-- include/upcie/hostmem_hugepage.h: memory in hugepages, allocated or imported. Pointers are not null.
pub mod Held
use upcie.Prelude.{
  ℕ, zero, suc, ◌+◌, ◌-◌, ◌%◌, ◌^◌, ◌==◌, ◌||◌, if◌then◌else◌, Bool, true, false, List, [], Option,
  some, none, ℤ, pos, negsuc, neg, einval, enomem, is_zero, Outcome, done, fault,
}
use upcie.Os.{FilePath, Os, proc_fd, hugetlbfs, shared}
use upcie.Hostmem.Types.{HostmemConfig, Hugepage}
use upcie.Hostmem.Pagemap.{pagemap_virt_to_phys}

-- `enum hostmem_backend`.
abbrev pub backend_memfd : ℕ
backend_memfd = 0x1

abbrev pub backend_hugetlbfs : ℕ
backend_hugetlbfs = 0x2

-- `MAP_FAILED`.
abbrev pub map_failed : ℕ
map_failed = 2 ^ 64 - 1

-- `memset` of the struct to 0.
abbrev pub zero_hugepage : Hugepage
zero_hugepage = record { fd = pos 0; virt = 0; size = 0; phys = 0; path = shared [] }

-- What an allocation leaves: the descriptor and the configuration are the caller's.
pub record Allocation (S : Type 0) : Type 0 where
  pub err : ℤ
  pub hugepage : Hugepage
  pub config : HostmemConfig
  pub sys : S

module _ {S : Type 0} (os : Os S) where
  abbrev is_open : ℤ → Bool
  is_open (pos fd) = true
  is_open (negsuc n) = false

  unfoldable pub hugepage_free : Hugepage → HostmemConfig → S → Hugepage × S
  hugepage_free hugepage config s =
      let s =
        if hugepage.virt == 0 || hugepage.size == 0
        then s
        else os.munmap hugepage.virt hugepage.size s in
      let s = if is_open hugepage.fd then os.close hugepage.fd s else s in
      let s = if config.backend == backend_hugetlbfs then os.unlink hugepage.path s else s in
      (zero_hugepage, s)

  abbrev failed : ℤ → Hugepage → HostmemConfig → S → Allocation S
  failed err hugepage config s = record { err = err; hugepage = hugepage; config = config; sys = s }

  -- What undoes the mapping where a later call fails.
  abbrev undo : Hugepage → HostmemConfig → S → Allocation S
  undo hugepage config s =
      failed (neg (pos enomem)) hugepage config
        (os.close hugepage.fd (os.munmap hugepage.virt hugepage.size s))

  -- What follows the look-up of the physical address.
  unfoldable pub with_phys : Hugepage → HostmemConfig → ℤ × ℕ × S → Allocation S
  with_phys hugepage config (err, phys, s) =
      if is_zero err
      then record {
        err = pos 0;
        hugepage = record hugepage { phys = phys };
        config = record config { count = config.count + 1 };
        sys = s;
      }
      else undo (record hugepage { phys = phys }) config s

  -- What follows `mlock`: each page is written to, and then the whole memory.
  unfoldable pub with_lock : Hugepage → HostmemConfig → Bool × S → Allocation S
  unfolding with_phys
  with_lock hugepage config (false, s) = undo hugepage config s
  with_lock hugepage config (true, s) =
      with_phys hugepage config (
        pagemap_virt_to_phys os hugepage.virt hugepage.phys
          (os.touch hugepage.virt hugepage.size s))

  -- What follows `mmap`.
  unfoldable pub with_mapping : Hugepage → HostmemConfig → Option ℕ × S → Allocation S
  unfolding with_lock
  with_mapping hugepage config (none, s) =
      failed (neg (pos enomem)) (record hugepage { virt = map_failed }) config
        (os.close hugepage.fd s)
  with_mapping hugepage config (some virt, s) =
      with_lock (record hugepage { virt = virt }) config (os.mlock virt hugepage.size s)

  -- What follows `ftruncate`.
  unfoldable pub with_size : Hugepage → HostmemConfig → Bool × S → Allocation S
  unfolding with_mapping
  with_size hugepage config (false, s) =
      failed (neg (pos enomem)) hugepage config (os.close hugepage.fd s)
  with_size hugepage config (true, s) =
      with_mapping hugepage config (os.mmap hugepage.size hugepage.fd s)

  -- What follows the call that gives the file, where it is of a path.
  unfoldable pub with_file : Hugepage → HostmemConfig → (ℕ → FilePath) → Option ℕ × S → Allocation S
  unfolding with_size
  with_file hugepage config path (none, s) =
      failed (neg (pos (os.errno s))) (record hugepage { fd = negsuc 0 }) config s
  with_file hugepage config path (some fd, s) =
      with_size (record hugepage { fd = pos fd; path = path fd }) config
        (os.ftruncate (pos fd) hugepage.size s)

  -- With another backend the file is what the descriptor had.
  unfoldable pub by_backend : Hugepage → HostmemConfig → S → Allocation S
  unfolding with_file
  by_backend hugepage config s =
      if config.backend == backend_memfd
      then with_file hugepage config proc_fd (os.memfd_create config.memfd_flags s)
      else if config.backend == backend_hugetlbfs
      then with_file (record hugepage { path = hugetlbfs config.count }) config
          (λ fd. hugetlbfs config.count) (os.open_file (hugetlbfs config.count) s)
      else with_size hugepage config (os.ftruncate hugepage.fd hugepage.size s)

  -- A hugepage size of 0 is a division by it.
  unfoldable pub hugepage_alloc : ℕ → Hugepage → HostmemConfig → S → Outcome (Allocation S)
  unfolding by_backend
  hugepage_alloc size hugepage config s =
      if config.hugepgsz == 0
      then fault
      else if size % config.hugepgsz == 0
      then done (by_backend (record hugepage { size = size }) config s)
      else done (failed (neg (pos einval)) hugepage config s)

  -- What follows the look-up of the physical address, in an import.
  unfoldable pub import_phys : Hugepage → HostmemConfig → ℤ × ℕ × S → Allocation S
  import_phys hugepage config (err, phys, s) =
      if is_zero err
      then record {
        err = pos 0;
        hugepage = record hugepage { phys = phys };
        config = config;
        sys = s;
      }
      else undo (record hugepage { phys = phys }) config s

  -- What follows the mapping of an imported file: each page is read.
  unfoldable pub import_mapping : Hugepage → HostmemConfig → Option ℕ × S → Allocation S
  unfolding import_phys
  import_mapping hugepage config (none, s) =
      let s' = os.close hugepage.fd s in
      failed (neg (pos (os.errno s'))) (record hugepage { virt = map_failed }) config s'
  import_mapping hugepage config (some virt, s) =
      import_phys (record hugepage { virt = virt }) config
        (pagemap_virt_to_phys os virt hugepage.phys (os.touch virt hugepage.size s))

  -- What follows `fstat`; the hugepage size is not 0.
  unfoldable pub import_size : Hugepage → HostmemConfig → Option ℕ × S → Allocation S
  unfolding import_mapping
  import_size hugepage config (none, s) =
      let s' = os.close hugepage.fd s in failed (neg (pos (os.errno s'))) hugepage config s'
  import_size hugepage config (some size, s) =
      if size % config.hugepgsz == 0
      then import_mapping (record hugepage { size = size }) config (os.mmap size hugepage.fd s)
      else failed (neg (pos einval)) (record hugepage { size = size }) config
          (os.close hugepage.fd s)

  -- What follows `open`.
  unfoldable pub import_file : Hugepage → HostmemConfig → Option ℕ × S → Allocation S
  unfolding import_size
  import_file hugepage config (none, s) =
      failed (neg (pos (os.errno s))) (record hugepage { fd = negsuc 0 }) config s
  import_file hugepage config (some fd, s) =
      import_size (record hugepage { fd = pos fd }) config (os.fstat fd s)

  unfoldable pub hugepage_import : List ℕ → Hugepage → HostmemConfig → S → Allocation S
  unfolding import_file
  hugepage_import path hugepage config s =
      import_file (record hugepage { path = shared path }) config (os.open_file (shared path) s)
