-- ===== src/Hostmem/Sample.antt =====
-- Heaps for the tests: one of two hugepages that lie apart in physical memory, and one of eight.
use upcie.Prelude.{
  ℕ, zero, suc, ◌+◌, ◌%◌, ◌≤◌, ◌≡◌, refl, arith, true, false, [], ◌∷◌, some, get_elem?, pos,
}
use upcie.Os.{proc_fd}
use upcie.Hostmem.Types.{HostmemConfig, HeapBlock, HostmemHeap}
use upcie.Hostmem.Dma.Translate.{IsMapped}
use upcie.Hostmem.Heap.Tiles.{last}
use upcie.Hostmem.Heap.RoundTrip.{IsHeap}

abbrev pub config : HostmemConfig
config = record {
  memfd_flags = 0;
  backend = 1;
  count = 2;
  pagesize = 4096;
  pagesize_shift = 12;
  hugepgsz = 2097152;
  hugepgsz_shift = 21;
}

-- A free block, an allocated one, and the free rest of the heap.
abbrev pub first : HeapBlock
first = record { addr = 10485760; size = 4096; free = true }

abbrev pub second : HeapBlock
second = record { addr = 10493952; size = 8192; free = false }

abbrev pub third : HeapBlock
third = record { addr = 10506240; size = 4173824; free = true }

abbrev pub heap : HostmemHeap
heap = record {
  memory = record {
    fd = pos 3;
    virt = 10485760;
    size = 4194304;
    phys = 16777216;
    path = proc_fd 3;
  };
  freelist = first ∷ second ∷ third ∷ [];
  config = config;
  nphys = 2;
  phys_lut = 16777216 ∷ 6291456 ∷ [];
}

pub heap-IsMapped : IsMapped heap
heap-IsMapped = record {
  page_shift = refl;
  huge_shift = refl;
  shifts = omega arith;
  int_shift = omega arith;
  entries = refl;
  covered = refl;
  aligned = refl;
  below = omega arith;
  phys = entry;
}
  where
    entry :
        (k : ℕ) {base : ℕ}
        → get_elem? (16777216 ∷ 6291456 ∷ []) k ≡ some base
        → (base % 2097152 ≡ 0) × (base + 2097152 ≤ 18446744073709551616)
    entry zero e = ground (arith, e)
    entry (suc zero) e = ground (arith, e)
    entry (suc (suc k)) e = ground (arith, e)

-- All of it is free.
abbrev pub whole : HeapBlock
whole = record { addr = 10485760; size = 16777216; free = true }

abbrev pub large : HostmemHeap
large = record {
  memory = record {
    fd = pos 3;
    virt = 10485760;
    size = 16777216;
    phys = 16777216;
    path = proc_fd 3;
  };
  freelist = whole ∷ [];
  config = config;
  nphys = 8;
  phys_lut =
      16777216 ∷ 6291456 ∷ 33554432 ∷ 35651584 ∷ 10485760 ∷ 4194304 ∷ 8388608 ∷ 41943040 ∷ [];
}

pub large-IsMapped : IsMapped large
large-IsMapped = record {
  page_shift = refl;
  huge_shift = refl;
  shifts = omega arith;
  int_shift = omega arith;
  entries = refl;
  covered = refl;
  aligned = refl;
  below = omega arith;
  phys = entry;
}
  where
    entry :
        (k : ℕ) {base : ℕ}
        → get_elem? large.phys_lut k ≡ some base
        → (base % 2097152 ≡ 0) × (base + 2097152 ≤ 18446744073709551616)
    entry zero e = ground (arith, e)
    entry (suc zero) e = ground (arith, e)
    entry (suc (suc zero)) e = ground (arith, e)
    entry (suc (suc (suc zero))) e = ground (arith, e)
    entry (suc (suc (suc (suc zero)))) e = ground (arith, e)
    entry (suc (suc (suc (suc (suc zero))))) e = ground (arith, e)
    entry (suc (suc (suc (suc (suc (suc zero)))))) e = ground (arith, e)
    entry (suc (suc (suc (suc (suc (suc (suc zero))))))) e = ground (arith, e)
    entry (suc (suc (suc (suc (suc (suc (suc (suc k)))))))) e = ground (arith, e)

pub large-IsHeap : IsHeap large
large-IsHeap = record {
  first = whole;
  rest = [];
  list = refl;
  starts = refl;
  tiles = last whole refl;
  below = omega arith;
  described = omega arith;
  int_page = omega arith;
}
