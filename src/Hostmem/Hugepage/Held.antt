-- ===== src/Hostmem/Hugepage/Held.antt =====
-- What an allocation of hugepages holds of the system, and what its release gives back.
use upcie.Prelude.{
  ℕ, zero, suc, ◌+◌, ◌%◌, ◌^◌, ◌<◌, ◌≤◌, ◌≡◌, ◌≢◌, ◌⊎◌, ◌==◌, ==_iff, ◌||◌, inl, inr, refl, arith,
  Bool, Bool-cases, true, false, if◌then◌else◌, Option, some, none, ℤ, pos, neg, einval, is_zero,
  ℕ_discrete, done,
}
use upcie.Os.{FilePath, Os, proc_fd, hugetlbfs}
use upcie.Os.Held.{
  View, IsOs, Balanced, Balanced-refl, Balanced-trans, Opened, Opened-Closed, Opened-Balanced,
  Holding, Opened-Mapped, Holding-Balanced, Holding-released, Holding-size,
}
use upcie.Hostmem.Types.{HostmemConfig, Hugepage}
use upcie.Hostmem.Pagemap.{pagemap_virt_to_phys, pagemap_virt_to_phys-Balanced}
use upcie.Hostmem.Hugepage.{
  Allocation, backend_memfd, backend_hugetlbfs, hugepage_free, with_phys, with_lock, with_mapping,
  with_size, with_file, by_backend, hugepage_alloc,
}

-- With the other backend, or at the path below hugetlbfs that the configuration gives.
abbrev pub Named : HostmemConfig → FilePath → Type 0
Named config path = (config.backend ≢ backend_hugetlbfs) ⊎ (path ≡ hugetlbfs config.count)

-- The descriptors and mappings of before, and no file below hugetlbfs.
abbrev pub Returned : {S : Type 0} → View S → HostmemConfig → S → S → Type 0
Returned h config s t =
    Balanced h s t
    × ((config.backend ≢ backend_hugetlbfs) ⊎ (h.paths t (hugetlbfs config.count) ≡ false))

-- What an allocation of `size` bytes leaves: an error and no descriptor and mapping, or memory in user
-- space whose release leaves none of them and no file.
pub data Allocated {S : Type 0} (os : Os S) (h : View S) (size : ℕ) (config : HostmemConfig) (s : S)
    (r : Allocation S) : Type 0 where
  failed : r.err ≢ pos 0 → Balanced h s r.sys → Allocated os h size config s r
  allocated :
      r.err ≡ pos 0
      → r.hugepage.size ≡ size
      → 1 ≤ r.hugepage.virt
      → r.hugepage.virt + size < 2 ^ 63
      → r.config ≡ record config { count = config.count + 1 }
      → Named config r.hugepage.path
      → ((t : S)
          → Balanced h r.sys t
          → Returned h config s (hugepage_free os r.hugepage r.config t).1)
      → Allocated os h size config s r

module _ {S : Type 0} {os : Os S} {h : View S} (o : IsOs os h) where
  -- A descriptor that holds a file and its mapping is released whole.
  pub hugepage_free-Holding :
      (hugepage : Hugepage) (config : HostmemConfig) {fd address size : ℕ} {s t : S}
      → Holding h fd address size s t
      → 1 ≤ size
      → hugepage.fd ≡ pos fd
      → hugepage.virt ≡ address
      → hugepage.size ≡ size
      → Balanced h s (hugepage_free os hugepage config t).1
  unfolding hugepage_free
  hugepage_free-Holding hugepage config {fd = fd} {address = address} {size = size} {s = s} {t = t}
        k sized f v z =
      let mapped : (address == 0 || size == 0) ≡ false = ground (arith, k.given, sized) in
      let released : Balanced h s (os.close (pos fd) (os.munmap address size t)) =
        Holding-released k (o.munmap_one address size t (Holding-size k))
          (o.close_one fd (os.munmap address size t)) in
      rw (f, v, z, mapped) (by_backend-Balanced (config.backend == backend_hugetlbfs) released)
    where
      by_backend-Balanced :
          (b : Bool) {s u : S}
          → Balanced h s u
          → Balanced h s (if b then os.unlink hugepage.path u else u)
      by_backend-Balanced true {u = u} k = Balanced-trans k (o.unlink_same hugepage.path u)
      by_backend-Balanced false k = k

  -- The file of a hugepage below hugetlbfs is gone after the release.
  hugepage_free-paths :
      (hugepage : Hugepage) (config after : HostmemConfig) (t : S)
      → Named config hugepage.path
      → after.backend ≡ config.backend
      → (config.backend ≢ backend_hugetlbfs)
        ⊎ (h.paths (hugepage_free os hugepage after t).1 (hugetlbfs config.count) ≡ false)
  unfolding hugepage_free
  hugepage_free-paths hugepage config after t (inl other) same = inl other
  hugepage_free-paths hugepage config after t (inr path) same =
      elim (ℕ_discrete config.backend backend_hugetlbfs) [
        | no other ↦ inl other
        | yes huge ↦
            let test : (after.backend == backend_hugetlbfs) ≡ true = ground (arith, huge, same) in
            inr (rw (test, ← path) (o.unlink_gone hugepage.path _))
      ]

  -- The branches after the file is mapped.
  module _ (config : HostmemConfig) (size : ℕ) (sized : 1 ≤ size) (hugepage : Hugepage)
      (is_size : hugepage.size ≡ size) (named : Named config hugepage.path) where
    undone :
        {fd address : ℕ} {s t : S}
        → Holding h fd address size s t
        → hugepage.fd ≡ pos fd
        → hugepage.virt ≡ address
        → Balanced h s (os.close hugepage.fd (os.munmap hugepage.virt hugepage.size t))
    undone {fd = fd} {address = address} {t = t} k f v =
        rw (f, v, is_size)
          (Holding-released k (o.munmap_one address size t (Holding-size k))
            (o.close_one fd (os.munmap address size t)))

    with_phys-Allocated :
        {fd address : ℕ} {s : S} (r : ℤ × ℕ × S)
        → Holding h fd address size s r.2
        → hugepage.fd ≡ pos fd
        → hugepage.virt ≡ address
        → Allocated os h size config s (with_phys os hugepage config r)
    unfolding with_phys
    with_phys-Allocated {fd = fd} {address = address} {s = s} (err, phys, t) k f v =
        elim (Bool-cases (is_zero err)) [
          | inl ok ↦ rw ok (
              allocated refl is_size (omega (arith, v, some_address)) (omega (arith, v, k.below))
                refl named
                (λ u b. (
                  hugepage_free-Holding (record hugepage { phys = phys })
                      (record config { count = config.count + 1 }) (Holding-Balanced k b) sized f v
                      is_size,
                  hugepage_free-paths (record hugepage { phys = phys }) config
                      (record config { count = config.count + 1 }) u named refl,
                )))
          | inr bad ↦ rw bad (failed (λ e. cc) (undone k f v))
        ]
      where
        some_address : 1 ≤ address
        some_address = ground (arith, k.given)

    with_lock-Allocated :
        {fd address : ℕ} {s : S} (r : Bool × S)
        → Holding h fd address size s r.1
        → hugepage.fd ≡ pos fd
        → hugepage.virt ≡ address
        → Allocated os h size config s (with_lock os hugepage config r)
    unfolding with_lock
    with_lock-Allocated (false, t) k f v = failed (λ e. cc) (undone k f v)
    with_lock-Allocated (true, t) k f v =
        with_phys-Allocated
          (pagemap_virt_to_phys os hugepage.virt hugepage.phys
            (os.touch hugepage.virt hugepage.size t))
          (Holding-Balanced k (
            Balanced-trans (o.touch_same hugepage.virt hugepage.size t) (
              pagemap_virt_to_phys-Balanced o hugepage.virt hugepage.phys
                (os.touch hugepage.virt hugepage.size t))))
          f v

  module _ (config : HostmemConfig) (size : ℕ) (sized : 1 ≤ size) (hugepage : Hugepage)
      (is_size : hugepage.size ≡ size) (named : Named config hugepage.path) where
    with_mapping-Allocated :
        {fd : ℕ} {s : S} (t : S) (r : Option ℕ × S)
        → Opened h fd s t
        → hugepage.fd ≡ pos fd
        → os.mmap size (pos fd) t ≡ r
        → Allocated os h size config s (with_mapping os hugepage config r)
    unfolding with_mapping
    with_mapping-Allocated {fd = fd} t (none, u) opened f e =
        failed (λ e. cc)
          (rw f (
            Opened-Closed (Opened-Balanced opened (o.mmap_none size (pos fd) t e).0)
              (o.close_one fd u)))
    with_mapping-Allocated {fd = fd} t (some virt, u) opened f e =
        with_lock-Allocated config size sized (record hugepage { virt = virt }) is_size named
          (os.mlock virt hugepage.size u)
          (Holding-Balanced (Opened-Mapped opened (o.mmap_some size (pos fd) t e))
            (o.mlock_same virt hugepage.size u))
          f refl

    with_size-Allocated :
        {fd : ℕ} {s : S} (r : Bool × S)
        → Opened h fd s r.1
        → hugepage.fd ≡ pos fd
        → Allocated os h size config s (with_size os hugepage config r)
    unfolding with_size
    with_size-Allocated {fd = fd} (false, t) opened f =
        failed (λ e. cc) (rw f (Opened-Closed opened (o.close_one fd t)))
    with_size-Allocated {fd = fd} (true, t) opened f =
        with_mapping-Allocated t (os.mmap hugepage.size hugepage.fd t) opened f
          (rw (f, is_size) refl)

  with_file-Allocated :
      (config : HostmemConfig) (size : ℕ) (hugepage : Hugepage) (path : ℕ → FilePath) (s : S)
      (r : Option ℕ × S)
      → 1 ≤ size
      → hugepage.size ≡ size
      → ((fd : ℕ) → Named config (path fd))
      → ((fd : ℕ) (t : S) → r ≡ (some fd, t) → Opened h fd s t)
      → ((t : S) → r ≡ (none, t) → Balanced h s t × (1 ≤ os.errno t))
      → Allocated os h size config s (with_file os hugepage config path r)
  unfolding with_file
  with_file-Allocated config size hugepage path s (none, t) sized is_size named opens fails =
      failed (neg-ne (os.errno t) (fails t refl).1) (fails t refl).0
    where
      neg-ne : (code : ℕ) → 1 ≤ code → neg (pos code) ≢ pos 0
      neg-ne zero l e = absurd (omega arith)
      neg-ne (suc n) l e = cc
  with_file-Allocated config size hugepage path s (some fd, t) sized is_size named opens fails =
      with_size-Allocated config size sized (record hugepage { fd = pos fd; path = path fd })
        is_size (named fd) (os.ftruncate (pos fd) hugepage.size t)
        (Opened-Balanced (opens fd t refl) (o.ftruncate_same (pos fd) hugepage.size t)) refl

  -- The allocation of hugepages of a backend of the two, over a system whose calls do as POSIX says,
  -- ends with an error and the open descriptors and mappings of before, or with 0 and memory of the size
  -- asked for, a multiple of the hugepage size. To free it leaves the open descriptors and mappings of
  -- before, and the file that was made below hugetlbfs, if this is the backend, is gone.
  pub hugepage_alloc-Allocated :
      (size : ℕ) (hugepage : Hugepage) (config : HostmemConfig) (s : S)
      → 1 ≤ size
      → 1 ≤ config.hugepgsz
      → (config.backend ≡ backend_memfd) ⊎ (config.backend ≡ backend_hugetlbfs)
      → (r : Allocation S) × (hugepage_alloc os size hugepage config s ≡ done r)
        × Allocated os h size config s r
        × ((r.err ≢ pos 0) ⊎ (size % config.hugepgsz ≡ 0))
  unfolding hugepage_alloc
  hugepage_alloc-Allocated size hugepage config s sized huge backend =
      let divides : (config.hugepgsz == 0) ≡ false = ground (arith, huge) in
      elim (Bool-cases (size % config.hugepgsz == 0)) [
        | inr odd ↦ (
          record { err = neg (pos einval); hugepage = hugepage; config = config; sys = s },
          rw (divides, odd) refl,
          failed (λ e. cc) (Balanced-refl s),
          inl (λ e. cc),
        )
        | inl whole ↦ (
          by_backend os (record hugepage { size = size }) config s,
          rw (divides, whole) refl,
          by_either backend,
          inr ((==_iff (size % config.hugepgsz) 0).0 whole),
        )
      ]
    where
      by_either :
          (config.backend ≡ backend_memfd) ⊎ (config.backend ≡ backend_hugetlbfs)
          → Allocated os h size config s (by_backend os (record hugepage { size = size }) config s)
      by_either (inl memfd) =
          let test : (config.backend == backend_memfd) ≡ true = ground (arith, memfd) in
          rw (by_backend, test)
            (with_file-Allocated config size (record hugepage { size = size }) proc_fd s
              (os.memfd_create config.memfd_flags s) sized refl
              (λ fd. inl (λ e. omega (arith, e, memfd)))
              (λ fd t e. o.memfd_some config.memfd_flags s e)
              (λ t e. o.memfd_none config.memfd_flags s e))
      by_either (inr huge) =
          let first : (config.backend == backend_memfd) ≡ false = ground (arith, huge) in
          let second : (config.backend == backend_hugetlbfs) ≡ true = ground (arith, huge) in
          rw (by_backend, first, second)
            (with_file-Allocated config size
              (record hugepage { size = size; path = hugetlbfs config.count })
              (λ fd. hugetlbfs config.count) s (os.open_file (hugetlbfs config.count) s) sized refl
              (λ fd. inr refl) (λ fd t e. o.open_some (hugetlbfs config.count) s e)
              (λ t e. o.open_none (hugetlbfs config.count) s e))
