-- ===== src/Pci.antt =====
-- include/upcie/pci.h: PCI functions and their BARs. Pointers are not null, but for `region`, which is
-- an address.
pub mod Addr
pub mod Fields
pub mod Bars
pub mod Largest
pub mod Scan
mod Tests
use upcie.Prelude.{
  ℕ, zero, suc, ◌+◌, ◌==◌, ltb, if◌then◌else◌, Bool, true, false, not, List, [], ◌∷◌, map,
  replicate, Option, some, none, ◌⊎◌, inl, inr, ℤ, pos, negsuc, neg, enoent, enomem, eio, is_zero,
}
use upcie.Prelude.Bits.{u16, u32}
use upcie.Os.{FilePath, Os, sysfs_vendor, sysfs_device, sysfs_class, sysfs_resource, sysfs_devices}
use upcie.Pci.Addr.{Text, from_text}

abbrev pub pci_bdf_len : ℕ
pci_bdf_len = 12

abbrev pub pci_nbars : ℕ
pci_nbars = 6

-- `struct pci_idents`.
pub record PciIdents : Type 0 where
  pub vendor_id : ℕ
  pub device_id : ℕ
  pub classcode : ℕ

-- `struct pci_func_bar`.
pub record PciBar : Type 0 where
  pub size : ℕ
  pub region : ℕ
  pub id : ℕ
  pub fd : ℤ

-- `struct pci_func`; `addr` is the value of its address.
pub record PciFunc : Type 0 where
  pub addr : ℕ
  pub bdf : List ℕ
  pub ident : PciIdents
  pub bars : List PciBar

-- `%.*s` at a precision.
abbrev pub take : ℕ → List ℕ → List ℕ
take zero bytes = []
take (suc n) [] = []
take (suc n) (b ∷ bytes) = b ∷ take n bytes

abbrev pub bdf_text : List ℕ → List ℕ
bdf_text bdf = take pci_bdf_len bdf

-- The loop over the BARs in `pci_func_open`.
unfoldable pub init_bars : ℕ → List PciBar → List PciBar
init_bars id [] = []
init_bars id (bar ∷ bars) = record bar { id = id; fd = negsuc 0 } ∷ init_bars (id + 1) bars

-- `enum pci_scan_action`.
abbrev pub claim_func : ℕ
claim_func = 0x1

abbrev pub release_func : ℕ
release_func = 0x2

-- `calloc(1, sizeof(struct pci_func))`.
abbrev pub zero_func : PciFunc
zero_func = record {
  addr = 0;
  bdf = [];
  ident = record { vendor_id = 0; device_id = 0; classcode = 0 };
  bars = replicate pci_nbars (record { size = 0; region = 0; id = 0; fd = pos 0 });
}

-- `entry->d_name[0] == '.'`.
unfoldable pub is_hidden : List ℕ → Bool
is_hidden [] = false
is_hidden (c ∷ name) = c == b'.'

abbrev is_minus_enoent : ℤ → Bool
is_minus_enoent (pos n) = false
is_minus_enoent (negsuc n) = suc n == enoent

abbrev pub size_of : ℕ ⊎ ℕ → ℤ ⊎ ℕ
size_of (inl code) = inl (neg (pos code))
size_of (inr size) = inr size

module _ {S : Type 0} (os : Os S) where
  abbrev pub minus_errno : S → ℤ
  minus_errno s = neg (pos (os.errno s))

  -- What `read` gives, and the file closed.
  unfoldable pub read_number : Text → ℕ → Option (List ℕ) × S → (ℤ ⊎ ℕ) × S
  read_number text fd (none, s) = let s' = os.close (pos fd) s in (inl (minus_errno s'), s')
  read_number text fd (some buf, s) = (inr (text.strtoul16 buf), os.close (pos fd) s)

  -- One of the three blocks that read an identifier: an error or the number in the file.
  unfoldable pub read_opened : Text → Option ℕ × S → (ℤ ⊎ ℕ) × S
  unfolding read_number
  read_opened text (none, s) = (inl (minus_errno s), s)
  read_opened text (some fd, s) = read_number text fd (os.read_file fd s)

  unfoldable pub read_ident : Text → FilePath → S → (ℤ ⊎ ℕ) × S
  unfolding read_opened
  read_ident text path s = read_opened text (os.open_file path s)

  -- What follows the blocks for the vendor, the device and the class.
  unfoldable pub with_class : PciFunc → (ℤ ⊎ ℕ) × S → ℤ × PciFunc × S
  with_class func (inl err, s) = (err, func, s)
  with_class func (inr n, s) = (
    pos 0,
    record func { ident = record func.ident { classcode = u32 n }; bars = init_bars 0 func.bars },
    s,
  )

  unfoldable pub with_device : Text → PciFunc → (ℤ ⊎ ℕ) × S → ℤ × PciFunc × S
  with_device text func (inl err, s) = (err, func, s)
  with_device text func (inr n, s) =
      with_class (record func { ident = record func.ident { device_id = u16 n } })
        (read_ident text (sysfs_class func.bdf) s)

  unfoldable pub with_vendor : Text → PciFunc → (ℤ ⊎ ℕ) × S → ℤ × PciFunc × S
  with_vendor text func (inl err, s) = (err, func, s)
  with_vendor text func (inr n, s) =
      with_device text (record func { ident = record func.ident { vendor_id = u16 n } })
        (read_ident text (sysfs_device func.bdf) s)

  unfoldable pub with_addr : Text → List ℕ → PciFunc → ℤ × ℕ → S → ℤ × PciFunc × S
  with_addr text bdf func (pos zero, addr) s =
      with_vendor text (record func { addr = addr; bdf = bdf_text bdf })
        (read_ident text (sysfs_vendor (bdf_text bdf)) s)
  with_addr text bdf func (err, addr) s = (err, record func { addr = addr }, s)

  unfoldable pub func_open : Text → List ℕ → PciFunc → S → ℤ × PciFunc × S
  unfolding with_class with_device with_vendor with_addr
  func_open text bdf func s = with_addr text bdf func (from_text text bdf func.addr) s

  unfoldable pub bar_unmap : PciBar → S → PciBar × S
  bar_unmap bar s = (
    record bar { fd = negsuc 0; region = 0 },
    if bar.region == 0 then s else os.close bar.fd (os.munmap bar.region bar.size s),
  )

  unfoldable pub bar_size : List ℕ → ℕ → S → ℤ ⊎ ℕ
  bar_size bdf id s = size_of (os.stat (sysfs_resource (bdf_text bdf) id) s)

  -- What follows `mmap`.
  unfoldable pub with_region : PciBar → ℕ → Option ℕ × S → ℤ × PciBar × S
  with_region bar fd (none, s) =
      let s' = os.close (pos fd) s in (minus_errno s', record bar { fd = negsuc 0; region = 0 }, s')
  with_region bar fd (some region, s) = (pos 0, record bar { fd = pos fd; region = region }, s)

  -- What follows `open`.
  unfoldable pub with_resource : ℕ → ℕ → PciBar → Option ℕ × S → ℤ × PciBar × S
  unfolding with_region
  with_resource id size bar (none, s) = (minus_errno s, record bar { fd = negsuc 0 }, s)
  with_resource id size bar (some fd, s) =
      with_region (record bar { size = size; id = id; fd = pos fd }) fd (os.mmap size (pos fd) s)

  unfoldable pub with_stat : List ℕ → ℕ → PciBar → ℕ ⊎ ℕ → S → ℤ × PciBar × S
  unfolding with_resource
  with_stat bdf id bar (inl code) s = (neg (pos code), bar, s)
  with_stat bdf id bar (inr size) s =
      with_resource id size bar (os.open_file (sysfs_resource (bdf_text bdf) id) s)

  unfoldable pub bar_map : List ℕ → ℕ → PciBar → S → ℤ × PciBar × S
  unfolding with_stat
  bar_map bdf id bar s = with_stat bdf id bar (os.stat (sysfs_resource (bdf_text bdf) id) s) s

  -- The loop of `pci_func_close`.
  unfoldable pub bars_unmap : List PciBar → S → List PciBar × S
  bars_unmap [] s = ([], s)
  bars_unmap (bar ∷ bars) s =
      let (bar', s) = bar_unmap bar s in let (bars', s) = bars_unmap bars s in (bar' ∷ bars', s)

  unfoldable pub func_close : PciFunc → S → PciFunc × S
  func_close func s = let (bars, s) = bars_unmap func.bars s in (record func { bars = bars }, s)

  -- The loop of `pci_bar_largest_size` and what follows it, with `left` rounds to go.
  unfoldable pub largest_from : List ℕ → ℕ → ℕ → ℕ → Bool → S → ℤ ⊎ ℕ
  largest_from bdf zero id largest found s = if found then inr largest else inl (neg (pos enoent))
  largest_from bdf (suc left) id largest found s = elim (bar_size bdf id s) [
    | inr bar ↦ largest_from bdf left (id + 1) (if ltb largest bar then bar else largest) true s
    | inl err ↦ elim (is_minus_enoent err) [
      | true ↦ largest_from bdf left (id + 1) largest found s
      | false ↦ inl err
    ]
  ]

  -- An error, or 0 and the size.
  unfoldable pub bar_largest_size : List ℕ → S → ℤ ⊎ ℕ
  bar_largest_size bdf s = largest_from bdf pci_nbars 0 0 false s

  -- What `calloc` gives, and what `readdir` gives of the directory: the names in it.
  unfoldable pub scan_loop :
      Text → (PciFunc → S → ℕ × PciFunc × S) → (ℕ → Bool) → ℕ → ℕ → List (List ℕ) → ℤ → S → ℤ × S
  scan_loop text callback calloc dir calls [] err s = (err, os.close (pos dir) s)
  scan_loop text callback calloc dir calls (name ∷ names) err s = elim (is_hidden name) [
    | true ↦ scan_loop text callback calloc dir calls names err s
    | false ↦ elim (calloc calls) [
      | false ↦ (neg (pos enomem), s)
      | true ↦
          let opened = func_open text name zero_func s in
          elim (is_zero opened.0) [
            | false ↦ scan_loop text callback calloc dir (calls + 1) names opened.0 opened.2
            | true ↦
                let called = callback opened.1 opened.2 in
                elim (called.0 == claim_func) [
                  | true ↦ scan_loop text callback calloc dir (calls + 1) names opened.0 called.2
                  | false ↦ elim (called.0 == release_func) [
                    | true ↦
                        scan_loop text callback calloc dir (calls + 1) names opened.0
                          (func_close called.1 called.2).1
                    | false ↦ (neg (pos eio), os.close (pos dir) (func_close called.1 called.2).1)
                  ]
                ]
          ]
    ]
  ]

  -- By the directory stream, which holds a file descriptor.
  unfoldable pub scan_dir :
      Text → (PciFunc → S → ℕ × PciFunc × S) → (ℕ → Bool) → List (List ℕ) → Option ℕ × S → ℤ × S
  scan_dir text callback calloc names (none, s) = (minus_errno s, s)
  scan_dir text callback calloc names (some dir, s) =
      scan_loop text callback calloc dir 0 names (pos 0) s

  -- The callback's argument is part of the state, and so is what it keeps of a function that it
  -- claims.
  unfoldable pub scan :
      Text → (PciFunc → S → ℕ × PciFunc × S) → (ℕ → Bool) → List (List ℕ) → S → ℤ × S
  unfolding scan_dir
  scan text callback calloc names s =
      scan_dir text callback calloc names (os.open_file sysfs_devices s)
