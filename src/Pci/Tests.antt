-- ===== src/Pci/Tests.antt =====
-- PCI functions and their BARs at the sample system.
use upcie.Prelude.{
  ℕ, ◌^◌, ◌≡◌, inl, inr, refl, arith, true, false, List, [], ◌∷◌, Option, some, none, pos, ◌%◌,
}
use upcie.Os.Held.{Balanced, Balanced-refl}
use upcie.Os.Sample.{Sys, sample_os, sample_view, sample_os-IsOs, idle}
use upcie.Pci.Addr.{Text, get_function, get_device, get_bus, get_domain, from_text, to_text}
use upcie.Pci.Fields.{IsText, from_text-to_text, from_text-parts}
use upcie.Pci.{bar_largest_size, pci_nbars, PciFunc, PciBar, bar_map, claim_func, scan}
use upcie.Pci.Bars.{MapOutcome, bar_map-MapOutcome}
use upcie.Pci.Largest.{Found, bar_largest_size-Found}
use upcie.Pci.Scan.{IsPolite, Scanned, scan-Scanned}

-- A text of the parts themselves, one number for each.
abbrev scan_bdf : List ℕ → Option (ℕ × ℕ × ℕ × ℕ)
scan_bdf (domain ∷ bus ∷ device ∷ function ∷ []) = some (domain, bus, device, function)
scan_bdf _ = none

abbrev sample_text : Text
sample_text = record {
  sscanf_bdf = scan_bdf;
  snprintf_bdf = λ domain bus device function. domain ∷ bus ∷ device ∷ function ∷ [];
  strtoul16 = λ bytes. 5;
}

sample_text-IsText : IsText sample_text
sample_text-IsText = record { scans = λ domain bus device function a b c e. refl }

from_text-to_text_example : from_text sample_text (to_text sample_text 0x10300) 0 ≡ (pos 0, 0x10300)
from_text-to_text_example = from_text-to_text sample_text-IsText 0x10300 0 (omega arith)

from_text-parts_example :
    (addr : ℕ) × (from_text sample_text (4294967295 ∷ 3 ∷ 0 ∷ 1 ∷ []) 0 ≡ (pos 0, addr))
    × (get_domain addr ≡ 4294967295 % 2 ^ 16)
    × (get_bus addr ≡ 3)
    × (get_device addr ≡ 0)
    × (get_function addr ≡ 1)
from_text-parts_example =
    from_text-parts sample_text (4294967295 ∷ 3 ∷ 0 ∷ 1 ∷ []) 0 4294967295 3 0 1 refl (inr refl)
      (omega arith) (omega arith) (omega arith)

abbrev blank_bar : PciBar
blank_bar = record { size = 0; region = 0; id = 0; fd = pos 0 }

bar_map-MapOutcome_example :
    MapOutcome sample_os-IsOs idle (bar_map sample_os (0 ∷ 3 ∷ 0 ∷ 1 ∷ []) 0 blank_bar idle)
bar_map-MapOutcome_example = bar_map-MapOutcome sample_os-IsOs (0 ∷ 3 ∷ 0 ∷ 1 ∷ []) 0 blank_bar idle

-- A callback that claims every function.
abbrev claim_all : PciFunc → Sys → ℕ × PciFunc × Sys
claim_all func s = (claim_func, func, s)

claim_all-IsPolite : IsPolite sample_os sample_view claim_all
claim_all-IsPolite = record { answers = λ func s. inl (refl, Balanced-refl s) }

-- Two functions, and the entries of the directory itself.
abbrev entries : List (List ℕ)
entries = (46 ∷ []) ∷ (0 ∷ 3 ∷ 0 ∷ 0 ∷ []) ∷ (0 ∷ 9 ∷ []) ∷ (46 ∷ 46 ∷ []) ∷ []

scan-Scanned_example :
    Balanced sample_view idle (scan sample_os sample_text claim_all (λ calls. true) entries idle).1
    × Scanned sample_os sample_text claim_all entries idle
        (scan sample_os sample_text claim_all (λ calls. true) entries idle)
scan-Scanned_example = scan-Scanned sample_os-IsOs sample_text claim_all-IsPolite entries idle

bar_largest_size-Found_example :
    Found sample_os
      (0 ∷ 3 ∷ [])
      idle
      pci_nbars
      0
      0
      false
      (bar_largest_size sample_os (0 ∷ 3 ∷ []) idle)
bar_largest_size-Found_example = bar_largest_size-Found sample_os (0 ∷ 3 ∷ []) idle
