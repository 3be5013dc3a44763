-- ===== src/Os/Held.antt =====
-- What a process holds, its open descriptors and its mappings, and how the system calls change them.
-- Of the file system nothing is said but that a path is gone once it was unlinked.
use upcie.Prelude.{
  ℕ, ◌+◌, ◌^◌, ◌<◌, ◌≤◌, ◌≡◌, ◌≢◌, ◌==◌, refl, ap, sym, ◌∙◌, arith, ℕ_discrete, if◌then◌else◌, Bool,
  true, false, inl, some, none, ℤ, pos,
}
use upcie.Os.{FilePath, Os}

-- The open descriptors, the number of bytes that are mapped at an address, and the paths that have a
-- file.
pub record View (S : Type 0) : Type 0 where
  pub files : S → ℕ → Bool
  pub maps : S → ℕ → ℕ
  pub paths : S → FilePath → Bool

module _ {S : Type 0} (h : View S) where
  -- No descriptor was opened or closed and nothing mapped or unmapped, on balance.
  pub record Balanced (s t : S) : Type 0 where
    pub same_files : (x : ℕ) → h.files t x ≡ h.files s x
    pub same_maps : (x : ℕ) → h.maps t x ≡ h.maps s x

  -- A descriptor more.
  pub record Opened (fd : ℕ) (s t : S) : Type 0 where
    pub fresh : h.files s fd ≡ false
    pub files_set : (x : ℕ) → h.files t x ≡ (if x == fd then true else h.files s x)
    pub maps_kept : (x : ℕ) → h.maps t x ≡ h.maps s x

  pub record Closed (fd : ℕ) (s t : S) : Type 0 where
    pub files_cleared : (x : ℕ) → h.files t x ≡ (if x == fd then false else h.files s x)
    pub maps_kept : (x : ℕ) → h.maps t x ≡ h.maps s x

  -- A mapping more, in user space, at an address that is not null.
  pub record Mapped (address size : ℕ) (s t : S) : Type 0 where
    pub given : address ≢ 0
    pub below : address + size < 2 ^ 63
    pub fresh : h.maps s address ≡ 0
    pub maps_set : (x : ℕ) → h.maps t x ≡ (if x == address then size else h.maps s x)
    pub files_kept : (x : ℕ) → h.files t x ≡ h.files s x

  pub record Unmapped (address : ℕ) (s t : S) : Type 0 where
    pub maps_cleared : (x : ℕ) → h.maps t x ≡ (if x == address then 0 else h.maps s x)
    pub files_kept : (x : ℕ) → h.files t x ≡ h.files s x

  -- A descriptor more, and a mapping more.
  pub record Holding (fd address size : ℕ) (s t : S) : Type 0 where
    pub fresh_file : h.files s fd ≡ false
    pub fresh_map : h.maps s address ≡ 0
    pub given : address ≢ 0
    pub below : address + size < 2 ^ 63
    pub files_set : (x : ℕ) → h.files t x ≡ (if x == fd then true else h.files s x)
    pub maps_set : (x : ℕ) → h.maps t x ≡ (if x == address then size else h.maps s x)

-- What POSIX says of the calls: what they hold and release, that a call that fails holds nothing new,
-- that only a failing call sets errno, and to no 0.
pub record IsOs {S : Type 0} (os : Os S) (h : View S) : Type 0 where
  pub open_some :
      (path : FilePath) (s : S) {fd : ℕ} {t : S}
      → os.open_file path s ≡ (some fd, t)
      → Opened h fd s t
  pub open_none :
      (path : FilePath) (s : S) {t : S}
      → os.open_file path s ≡ (none, t)
      → Balanced h s t × (1 ≤ os.errno t)
  pub memfd_some :
      (flags : ℕ) (s : S) {fd : ℕ} {t : S}
      → os.memfd_create flags s ≡ (some fd, t)
      → Opened h fd s t
  pub memfd_none :
      (flags : ℕ) (s : S) {t : S}
      → os.memfd_create flags s ≡ (none, t)
      → Balanced h s t × (1 ≤ os.errno t)
  pub close_one : (fd : ℕ) (s : S) → Closed h fd s (os.close (pos fd) s)
  pub close_errno : (fd : ℤ) (s : S) → 1 ≤ os.errno s → 1 ≤ os.errno (os.close fd s)
  pub mmap_some :
      (size : ℕ) (fd : ℤ) (s : S) {address : ℕ} {t : S}
      → os.mmap size fd s ≡ (some address, t)
      → Mapped h address size s t
  pub mmap_none :
      (size : ℕ) (fd : ℤ) (s : S) {t : S}
      → os.mmap size fd s ≡ (none, t)
      → Balanced h s t × (1 ≤ os.errno t)
  pub munmap_one :
      (address size : ℕ) (s : S)
      → h.maps s address ≡ size
      → Unmapped h address s (os.munmap address size s)
  pub read_same : (fd : ℕ) (s : S) → Balanced h s (os.read_file fd s).1
  pub read_none :
      (fd : ℕ) (s : S) → (os.read_file fd s).0 ≡ none → 1 ≤ os.errno (os.read_file fd s).1
  pub pread_same : (fd offset : ℕ) (s : S) → Balanced h s (os.pread_entry fd offset s).1
  pub ftruncate_same : (fd : ℤ) (size : ℕ) (s : S) → Balanced h s (os.ftruncate fd size s).1
  pub mlock_same : (address size : ℕ) (s : S) → Balanced h s (os.mlock address size s).1
  pub stat_code : (path : FilePath) (s : S) {code : ℕ} → os.stat path s ≡ inl code → 1 ≤ code
  pub unlink_gone : (path : FilePath) (s : S) → h.paths (os.unlink path s) path ≡ false
  pub unlink_same : (path : FilePath) (s : S) → Balanced h s (os.unlink path s)
  pub touch_same : (address size : ℕ) (s : S) → Balanced h s (os.touch address size s)

-- A value set and cleared again.
set_clear {ℓ} :
    {A : Type ℓ} (x key : ℕ) (v w : A) (f : ℕ → A)
    → f key ≡ w
    → (if x == key then w else if x == key then v else f x) ≡ f x
set_clear x key v w f e = elim (ℕ_discrete x key) [
  | yes same ↦ let hit : (x == key) ≡ true = ground (arith, same) in rw hit (sym (ap f same ∙ e))
  | no apart ↦ let miss : (x == key) ≡ false = ground (arith, apart) in rw miss refl
]

module _ {S : Type 0} {h : View S} where
  pub Balanced-refl : (s : S) → Balanced h s s
  Balanced-refl s = record { same_files = λ x. refl; same_maps = λ x. refl }

  pub Balanced-trans : {s t u : S} → Balanced h s t → Balanced h t u → Balanced h s u
  Balanced-trans p q = record {
    same_files = λ x. q.same_files x ∙ p.same_files x;
    same_maps = λ x. q.same_maps x ∙ p.same_maps x;
  }

  pub Opened-Balanced : {fd : ℕ} {s t u : S} → Opened h fd s t → Balanced h t u → Opened h fd s u
  Opened-Balanced o b = record {
    fresh = o.fresh;
    files_set = λ x. b.same_files x ∙ o.files_set x;
    maps_kept = λ x. b.same_maps x ∙ o.maps_kept x;
  }

  pub Balanced-Opened : {fd : ℕ} {s t u : S} → Balanced h s t → Opened h fd t u → Opened h fd s u
  Balanced-Opened {fd = fd} b o = record {
    fresh = sym (b.same_files fd) ∙ o.fresh;
    files_set =
        λ x. o.files_set x ∙ ap (λ (f : Bool). if x == fd then true else f) (b.same_files x);
    maps_kept = λ x. o.maps_kept x ∙ b.same_maps x;
  }

  pub Opened-Mapped :
      {fd address size : ℕ} {s t u : S}
      → Opened h fd s t
      → Mapped h address size t u
      → Holding h fd address size s u
  Opened-Mapped {address = address} {size = size} o m = record {
    fresh_file = o.fresh;
    fresh_map = sym (o.maps_kept address) ∙ m.fresh;
    given = m.given;
    below = m.below;
    files_set = λ x. m.files_kept x ∙ o.files_set x;
    maps_set = λ x. m.maps_set x ∙ ap (λ (n : ℕ). if x == address then size else n) (o.maps_kept x);
  }

  pub Holding-Balanced :
      {fd address size : ℕ} {s t u : S}
      → Holding h fd address size s t
      → Balanced h t u
      → Holding h fd address size s u
  Holding-Balanced k b = record {
    fresh_file = k.fresh_file;
    fresh_map = k.fresh_map;
    given = k.given;
    below = k.below;
    files_set = λ x. b.same_files x ∙ k.files_set x;
    maps_set = λ x. b.same_maps x ∙ k.maps_set x;
  }

  -- A file that is opened and closed.
  pub Opened-Closed : {fd : ℕ} {s t u : S} → Opened h fd s t → Closed h fd t u → Balanced h s u
  Opened-Closed {fd = fd} {s = s} o c = record {
    same_files = λ x.
        c.files_cleared x
        ∙ ap (λ (f : Bool). if x == fd then false else f) (o.files_set x)
        ∙ set_clear x fd true false (h.files s) o.fresh;
    same_maps = λ x. c.maps_kept x ∙ o.maps_kept x;
  }

  -- A file that is opened and mapped, unmapped and closed.
  pub Holding-released :
      {fd address size : ℕ} {s t u v : S}
      → Holding h fd address size s t
      → Unmapped h address t u
      → Closed h fd u v
      → Balanced h s v
  Holding-released {fd = fd} {address = address} {size = size} {s = s} k m c = record {
    same_files = λ x.
        c.files_cleared x
        ∙ ap (λ (f : Bool). if x == fd then false else f) (m.files_kept x ∙ k.files_set x)
        ∙ set_clear x fd true false (h.files s) k.fresh_file;
    same_maps = λ x.
        c.maps_kept x
        ∙ m.maps_cleared x
        ∙ ap (λ (n : ℕ). if x == address then 0 else n) (k.maps_set x)
        ∙ set_clear x address size 0 (h.maps s) k.fresh_map;
  }

  pub Holding-size :
      {fd address size : ℕ} {s t : S} → Holding h fd address size s t → h.maps t address ≡ size
  Holding-size {address = address} k =
      let hit : (address == address) ≡ true = ground arith in k.maps_set address ∙ (rw hit refl)
