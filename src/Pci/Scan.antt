-- ===== src/Pci/Scan.antt =====
-- Scanning the PCI functions of the system, with callbacks that claim or release each of them.
use upcie.Prelude.{
  ℕ, zero, suc, ◌+◌, ◌≡◌, ◌≢◌, ◌≤◌, ◌⊎◌, ◌==◌, inl, inr, refl, arith, ap, ap₂, sym, subst, ◌∙◌,
  Bool, Bool-cases, true, false, List, [], ◌∷◌, ◌++◌, All, Option, some, none, ℤ, pos, neg, is_zero,
  if◌then◌else◌,
}
use upcie.Os.{Os, sysfs_devices}
use upcie.Os.Held.{
  View, IsOs, Balanced, Balanced-refl, Balanced-trans, Opened-Balanced, Opened-Closed,
}
use upcie.Pci.Addr.{Text}
use upcie.Pci.{
  PciFunc, claim_func, release_func, zero_func, is_hidden, func_open, func_close, scan_loop,
  scan_dir, scan,
}
use upcie.Pci.Bars.{func_open-Balanced}

-- A callback that claims or releases the function, and holds nothing but what it claims: with what
-- `pci_func_close` releases, the open descriptors and mappings are those of before.
pub record IsPolite {S : Type 0} (os : Os S) (h : View S) (callback : PciFunc → S → ℕ × PciFunc × S)
    : Type 0 where
  pub answers :
      (func : PciFunc) (s : S)
      → (((callback func s).0 ≡ claim_func) × Balanced h s (callback func s).2)
        ⊎ (((callback func s).0 ≡ release_func)
            × Balanced h s (func_close os (callback func s).1 (callback func s).2).1)

module _ {S : Type 0} (os : Os S) (text : Text) (callback : PciFunc → S → ℕ × PciFunc × S) where
  -- The state behind an entry, whatever the errors were.
  unfoldable pub after_entry : List ℕ → S → S
  after_entry name s =
      let func = func_open os text name zero_func s in
      let called = callback func.1 func.2 in
      elim (is_hidden name) [
        | true ↦ s
        | false ↦ elim (is_zero func.0) [
          | false ↦ func.2
          | true ↦ elim (called.0 == claim_func) [
            | true ↦ called.2
            | false ↦ (func_close os called.1 called.2).1
          ]
        ]
      ]

  -- The state behind the entries.
  abbrev pub reached : List (List ℕ) → S → S
  reached [] s = s
  reached (name ∷ names) s = reached names (after_entry name s)

  -- The last entry that is not hidden, and the error of opening it where the entries before it lead.
  pub record IsLast (names : List (List ℕ)) (s : S) (err : ℤ) : Type 0 where
    pub before : List (List ℕ)
    pub name : List ℕ
    pub later : List (List ℕ)
    pub split : names ≡ before ++ (name ∷ later)
    pub visible : is_hidden name ≡ false
    pub rest_hidden : All (λ (n : List ℕ). is_hidden n ≡ true) later
    pub opens : err ≡ (func_open os text name zero_func (reached before s)).0

module _ {S : Type 0} {os : Os S} {h : View S} (o : IsOs os h) (text : Text)
    {callback : PciFunc → S → ℕ × PciFunc × S} (polite : IsPolite os h callback) (dir : ℕ) where
  abbrev always : ℕ → Bool
  always calls = true

  -- The loop where all memory is given.
  abbrev loop : ℕ → List (List ℕ) → ℤ → S → ℤ × S
  loop calls names err s = scan_loop os text callback always dir calls names err s

  abbrev opened : List ℕ → S → ℤ × PciFunc × S
  opened name s = func_open os text name zero_func s

  abbrev behind : List ℕ → S → S
  behind name s = after_entry os text callback name s

  abbrev led : List (List ℕ) → S → S
  led names s = reached os text callback names s

  -- What a round leaves to the next.
  record Round (calls : ℕ) (name : List ℕ) (names : List (List ℕ)) (err : ℤ) (s : S) : Type 0 where
    calls' : ℕ
    err' : ℤ
    next : S
    returns : loop calls (name ∷ names) err s ≡ loop calls' names err' next
    same : Balanced h s next
    steps : behind name s ≡ next
    result : err' ≡ (if is_hidden name then err else (opened name s).0)

  round :
      (calls : ℕ) (name : List ℕ) (names : List (List ℕ)) (err : ℤ) (s : S)
      → Round calls name names err s
  unfolding scan_loop after_entry
  round calls name names err s = elim (Bool-cases (is_hidden name)) [
    | inl hidden ↦ record {
      calls' = calls;
      err' = err;
      next = s;
      returns = ground (arith, hidden);
      same = Balanced-refl s;
      steps = ground (arith, hidden);
      result = ground (arith, hidden);
    }
    | inr visible ↦
        let after : Balanced h s (opened name s).2 = func_open-Balanced o text name zero_func s in
        elim (Bool-cases (is_zero (opened name s).0)) [
          | inr fails ↦ record {
            calls' = calls + 1;
            err' = (opened name s).0;
            next = (opened name s).2;
            returns = ground (arith, visible, fails);
            same = after;
            steps = ground (arith, visible, fails);
            result = ground (arith, visible);
          }
          | inl opens ↦ elim (polite.answers (opened name s).1 (opened name s).2) [
            | inl (claims, kept) ↦ record {
              calls' = calls + 1;
              err' = (opened name s).0;
              next = (callback (opened name s).1 (opened name s).2).2;
              returns = ground (arith, visible, opens, claims);
              same = Balanced-trans after kept;
              steps = ground (arith, visible, opens, claims);
              result = ground (arith, visible);
            }
            | inr (releases, kept) ↦ record {
              calls' = calls + 1;
              err' = (opened name s).0;
              next =
                  (func_close os (callback (opened name s).1 (opened name s).2).1
                    (callback (opened name s).1 (opened name s).2).2).1;
              returns = ground (arith, visible, opens, releases);
              same = Balanced-trans after kept;
              steps = ground (arith, visible, opens, releases);
              result = ground (arith, visible);
            }
          ]
        ]
  ]

  -- The last error that the loop sees.
  abbrev last_error : List (List ℕ) → ℤ → S → ℤ
  last_error [] err s = err
  last_error (name ∷ names) err s =
      last_error names (if is_hidden name then err else (opened name s).0) (behind name s)

  -- The loop closes the directory, and returns the last error.
  loop-last_error :
      (calls : ℕ) (names : List (List ℕ)) (err : ℤ) (s : S)
      → Balanced h s (led names s)
        × (loop calls names err s ≡ (last_error names err s, os.close (pos dir) (led names s)))
  loop-last_error calls [] err s = (Balanced-refl s, unfold scan_loop in refl)
  loop-last_error calls (name ∷ names) err s =
      let r = round calls name names err s in
      let (same, returns) = loop-last_error r.calls' names r.err' r.next in
      (
        subst (λ t. Balanced h s (led names t)) (sym r.steps) (Balanced-trans r.same same),
        r.returns
            ∙ returns
            ∙ ap₂ (λ (e : ℤ) (u : S). (last_error names e u, os.close (pos dir) (led names u)))
                r.result (sym r.steps),
      )

  last_error-IsLast :
      (names : List (List ℕ)) (err : ℤ) (s : S)
      → (All (λ (n : List ℕ). is_hidden n ≡ true) names × (last_error names err s ≡ err))
        ⊎ IsLast os text callback names s (last_error names err s)
  last_error-IsLast [] err s = inl (tt, refl)
  last_error-IsLast (name ∷ names) err s =
      elim (last_error-IsLast names (if is_hidden name then err else (opened name s).0)
        (behind name s)) [
          | inr l ↦ inr (record {
            before = name ∷ l.before;
            name = l.name;
            later = l.later;
            split = ap (λ t. name ∷ t) l.split;
            visible = l.visible;
            rest_hidden = l.rest_hidden;
            opens = l.opens;
          })
          | inl (all, e) ↦ elim (Bool-cases (is_hidden name)) [
            | inl hidden ↦ inl ((hidden, all), e ∙ ground (arith, hidden))
            | inr visible ↦ inr (record {
              before = [];
              name = name;
              later = names;
              split = refl;
              visible = visible;
              rest_hidden = all;
              opens = e ∙ ground (arith, visible);
            })
          ]
        ]

-- What a scan of the entries returns: the error of opening the directory; 0 if all entries are hidden; or
-- what opening the last one that is not hidden returned.
pub data Scanned {S : Type 0} (os : Os S) (text : Text) (callback : PciFunc → S → ℕ × PciFunc × S)
    (names : List (List ℕ)) (s : S) (result : ℤ × S) : Type 0 where
  not_opened :
      (t : S)
      → os.open_file sysfs_devices s ≡ (none, t)
      → result ≡ (neg (pos (os.errno t)), t)
      → result.0 ≢ pos 0
      → Scanned os text callback names s result
  none_visible :
      (dir : ℕ) (t : S)
      → os.open_file sysfs_devices s ≡ (some dir, t)
      → All (λ (n : List ℕ). is_hidden n ≡ true) names
      → result ≡ (pos 0, os.close (pos dir) t)
      → Scanned os text callback names s result
  last_visible :
      (dir : ℕ) (t : S)
      → os.open_file sysfs_devices s ≡ (some dir, t)
      → IsLast os text callback names t result.0
      → result.1 ≡ os.close (pos dir) (reached os text callback names t)
      → Scanned os text callback names s result

hidden-reached :
    {S : Type 0} (os : Os S) (text : Text) (callback : PciFunc → S → ℕ × PciFunc × S)
    (names : List (List ℕ)) (s : S)
    → All (λ (n : List ℕ). is_hidden n ≡ true) names
    → reached os text callback names s ≡ s
unfolding after_entry
hidden-reached os text callback [] s all = refl
hidden-reached os text callback (name ∷ names) s (hidden, all) =
    let here : after_entry os text callback name s ≡ s = ground (arith, hidden) in
    rw here (hidden-reached os text callback names s all)

-- A scan whose callback claims or releases each function, where all memory is given, keeps no descriptor
-- open and nothing mapped but what the callback claims. If the directory cannot be opened, the
-- scan fails with its error. Otherwise it returns 0 if all entries are hidden, and else what
-- opening the last one that is not hidden returns, where the entries before it lead: 0, or an
-- error that was meant to skip this entry. The directory is closed at the end.
pub scan-Scanned :
    {S : Type 0} {os : Os S} {h : View S} (o : IsOs os h) (text : Text)
    {callback : PciFunc → S → ℕ × PciFunc × S}
    → IsPolite os h callback
    → (names : List (List ℕ)) (s : S)
    → Balanced h s (scan os text callback (λ calls. true) names s).1
      × Scanned os text callback names s (scan os text callback (λ calls. true) names s)
unfolding scan scan_dir
scan-Scanned {S = S} {os = os} {h = h} o text {callback = callback} polite names s =
    by_dir (os.open_file sysfs_devices s) refl
  where
    neg-ne : (code : ℕ) → 1 ≤ code → neg (pos code) ≢ pos 0
    neg-ne zero l e = absurd (omega arith)
    neg-ne (suc n) l e = cc

    by_last :
        (dir : ℕ) (t : S)
        → os.open_file sysfs_devices s ≡ (some dir, t)
        → (All (λ (n : List ℕ). is_hidden n ≡ true) names
            × (last_error o text polite dir names (pos 0) t ≡ pos 0))
          ⊎ IsLast os text callback names t (last_error o text polite dir names (pos 0) t)
        → Scanned os text callback names s (
          last_error o text polite dir names (pos 0) t,
          os.close (pos dir) (reached os text callback names t),
        )
    by_last dir t e (inl (all, zero_error)) = none_visible dir t e all (
        ap₂ (λ (err : ℤ) (u : S). (err, os.close (pos dir) u)) zero_error
          (hidden-reached os text callback names t all))
    by_last dir t e (inr l) = last_visible dir t e l refl

    by_dir :
        (r : Option ℕ × S)
        → os.open_file sysfs_devices s ≡ r
        → Balanced h s (scan_dir os text callback (λ calls. true) names r).1
          × Scanned os text callback names s (scan_dir os text callback (λ calls. true) names r)
    by_dir (none, t) e =
        let fails = o.open_none sysfs_devices s e in
        (fails.0, not_opened t e refl (neg-ne (os.errno t) fails.1))
    by_dir (some dir, t) e =
        let (kept, returns) = loop-last_error o text polite dir 0 names (pos 0) t in
        subst (λ r. Balanced h s r.1 × Scanned os text callback names s r) (sym returns)
          (
            Opened-Closed (Opened-Balanced (o.open_some sysfs_devices s e) kept)
                (o.close_one dir (reached os text callback names t)),
            by_last dir t e (last_error-IsLast o text polite dir names (pos 0) t),
          )
