-- ===== src/Os/Sample.antt =====
-- A system for the tests: two descriptors, 3 and 4, room for one mapping, and a file at every path until
-- one is unlinked.
use upcie.Prelude.{
  ℕ, ◌+◌, ◌^◌, ◌≤◌, ◌≡◌, ◌==◌, ◌&&◌, refl, arith, subst, Bool, true, false, if◌then◌else◌, ltb, inl,
  inr, Option, some, none, ℤ, pos, negsuc, ◌⊎◌, replicate,
}
use upcie.Os.{Os}
use upcie.Os.Held.{View, IsOs, Balanced, Balanced-refl, Opened, Mapped}

pub record Sys : Type 0 where
  pub files : ℕ → Bool
  pub maps : ℕ → ℕ
  pub linked : Bool

abbrev set_file : ℕ → Bool → Sys → Sys
set_file fd held s = record s { files = λ x. if x == fd then held else s.files x }

abbrev set_map : ℕ → ℕ → Sys → Sys
set_map address size s = record s { maps = λ x. if x == address then size else s.maps x }

-- The lowest descriptor that is free.
abbrev opened : Bool → Bool → Sys → Option ℕ × Sys
opened false b s = (some 3, set_file 3 true s)
opened true false s = (some 4, set_file 4 true s)
opened true true s = (none, s)

abbrev mapped : Bool → ℕ → Sys → Option ℕ × Sys
mapped true size s = (some 10485760, set_map 10485760 size s)
mapped false size s = (none, s)

abbrev closed : ℤ → Sys → Sys
closed (pos fd) s = set_file fd false s
closed (negsuc n) s = s

abbrev has_room : ℕ → Sys → Bool
has_room size s = s.maps 10485760 == 0 && ltb (10485760 + size) (2 ^ 63)

abbrev pub sample_os : Os Sys
sample_os = record {
  errno = λ s. 12;
  open_file = λ path s. opened (s.files 3) (s.files 4) s;
  memfd_create = λ flags s. opened (s.files 3) (s.files 4) s;
  close = closed;
  mmap = λ size fd s. mapped (has_room size s) size s;
  munmap = λ address size s. set_map address 0 s;
  read_file = λ fd s. (some (replicate 8 48), s);
  pread_entry = λ fd offset s. (some (2 ^ 63 + 4096), s);
  stat = λ path s. inr 16384;
  fstat = λ fd s. (some 2097152, s);
  ftruncate = λ fd size s. (true, s);
  mlock = λ address size s. (true, s);
  unlink = λ path s. record s { linked = false };
  touch = λ address size s. s;
  getpagesize = 4096;
}

abbrev pub sample_view : View Sys
sample_view = record { files = λ s. s.files; maps = λ s. s.maps; paths = λ s path. s.linked }

-- Nothing is open and nothing is mapped.
abbrev pub idle : Sys
idle = record { files = λ x. false; maps = λ x. 0; linked = true }

abbrev AfterOpen : Sys → Option ℕ × Sys → Type 0
AfterOpen s (some fd, t) = Opened sample_view fd s t
AfterOpen s (none, t) = Balanced sample_view s t × (1 ≤ 12)

opened-AfterOpen :
    (s : Sys) (a b : Bool) → s.files 3 ≡ a → s.files 4 ≡ b → AfterOpen s (opened a b s)
opened-AfterOpen s false b p q = record { fresh = p; files_set = λ x. refl; maps_kept = λ x. refl }
opened-AfterOpen s true false p q = record {
  fresh = q;
  files_set = λ x. refl;
  maps_kept = λ x. refl;
}
opened-AfterOpen s true true p q = (Balanced-refl s, omega arith)

abbrev AfterMap : ℕ → Sys → Option ℕ × Sys → Type 0
AfterMap size s (some address, t) = Mapped sample_view address size s t
AfterMap size s (none, t) = Balanced sample_view s t × (1 ≤ 12)

mapped-AfterMap :
    (size : ℕ) (s : Sys) (a : Bool) → has_room size s ≡ a → AfterMap size s (mapped a size s)
mapped-AfterMap size s true e = record {
  given = omega arith;
  below = ground (arith, e);
  fresh = ground (arith, e);
  maps_set = λ x. refl;
  files_kept = λ x. refl;
}
mapped-AfterMap size s false e = (Balanced-refl s, omega arith)

pub sample_os-IsOs : IsOs sample_os sample_view
sample_os-IsOs = record {
  open_some = λ path s e. subst (λ r. AfterOpen s r) e (after s);
  open_none = λ path s e. subst (λ r. AfterOpen s r) e (after s);
  memfd_some = λ flags s e. subst (λ r. AfterOpen s r) e (after s);
  memfd_none = λ flags s e. subst (λ r. AfterOpen s r) e (after s);
  close_one = λ fd s. record { files_cleared = λ x. refl; maps_kept = λ x. refl };
  close_errno = λ fd s h. omega arith;
  mmap_some = λ size fd s e.
      subst (λ r. AfterMap size s r) e (mapped-AfterMap size s (has_room size s) refl);
  mmap_none = λ size fd s e.
      subst (λ r. AfterMap size s r) e (mapped-AfterMap size s (has_room size s) refl);
  munmap_one = λ address size s e. record { maps_cleared = λ x. refl; files_kept = λ x. refl };
  read_same = λ fd s. Balanced-refl s;
  read_none = λ fd s e. omega arith;
  pread_same = λ fd offset s. Balanced-refl s;
  ftruncate_same = λ fd size s. Balanced-refl s;
  mlock_same = λ address size s. Balanced-refl s;
  stat_code = λ path s e. absurd (no_code e);
  unlink_gone = λ path s. refl;
  unlink_same = λ path s. record { same_files = λ x. refl; same_maps = λ x. refl };
  touch_same = λ address size s. Balanced-refl s;
}
  where
    after : (s : Sys) → AfterOpen s (opened (s.files 3) (s.files 4) s)
    after s = opened-AfterOpen s (s.files 3) (s.files 4) refl refl

    no_code : {code : ℕ} → ¬ (◌≡◌ {A = ℕ ⊎ ℕ} (inr 16384) (inl code))
    no_code e = cc
