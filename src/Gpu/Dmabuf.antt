-- ===== src/Gpu/Dmabuf.antt =====
-- include/upcie/dmabuf.h: the table of pages of a dma-buf.
use upcie.Prelude.{
  ℕ, zero, suc, ◌+◌, ◌*◌, ◌/◌, ◌≤◌, ◌≡◌, ◌==◌, refl, arith, ap, leb, if◌then◌else◌, true, false,
  List, [], ◌∷◌, ◌++◌, length, length-append, Option, some, none, ℕ_discrete, dec_lt,
}
use mathlib.Core.Option
use upcie.Prelude.Bits.{u64}

infixl 5 ◌>>=◌
abbrev ◌>>=◌ {ℓ κ} : {A : Type ℓ} {B : Type κ} → Option A → (A → Option B) → Option B
none >>= f = none
some a >>= f = f a

-- `struct dmabuf_page`.
pub record DmabufPage : Type 0 where
  pub addr : ℕ
  pub len : ℕ

-- `struct dmabuf`; `npages` is the length of the list.
pub record Dmabuf : Type 0 where
  pub fd : ℕ
  pub pages : List DmabufPage

-- The inner loop, over the addresses of one page from the `k`th on; `i` counts the entries written.
-- `none` is the return of -EINVAL.
unfoldable pub lut_page : ℕ → ℕ → ℕ → ℕ → ℕ → ℕ → Option (List ℕ)
lut_page nphys page_size addr zero k i = some []
lut_page nphys page_size addr (suc left) k i =
    let rest = lut_page nphys page_size addr left (k + 1) (i + 1) in
    if leb nphys i then none else Option.map (λ l. u64 (addr + u64 (k * page_size)) ∷ l) rest

-- The outer loop.
unfoldable pub lut_pages : ℕ → ℕ → List DmabufPage → ℕ → Option (List ℕ)
lut_pages nphys page_size [] i = some []
lut_pages nphys page_size (page ∷ pages) i = do
  entries ← lut_page nphys page_size page.addr (page.len / page_size) 0 i
  rest ← lut_pages nphys page_size pages (i + length entries)
  some (entries ++ rest)

-- The table, which has `nphys` entries, or `none` for -EINVAL; the page size is not 0.
unfoldable pub get_lut : Dmabuf → ℕ → ℕ → Option (List ℕ)
get_lut dmabuf nphys page_size = do
  lut ← lut_pages nphys page_size dmabuf.pages 0
  if length lut == nphys then some lut else none

-- The addresses of the pages of `page_size` in a page of the dma-buf, and in all of them.
abbrev pub addresses : ℕ → ℕ → ℕ → ℕ → List ℕ
addresses page_size addr zero k = []
addresses page_size addr (suc left) k =
    u64 (addr + u64 (k * page_size)) ∷ addresses page_size addr left (k + 1)

abbrev pub all_addresses : ℕ → List DmabufPage → List ℕ
all_addresses page_size [] = []
all_addresses page_size (page ∷ pages) =
    addresses page_size page.addr (page.len / page_size) 0 ++ all_addresses page_size pages

length-addresses : (page_size addr left k : ℕ) → length (addresses page_size addr left k) ≡ left
length-addresses page_size addr zero k = refl
length-addresses page_size addr (suc left) k = ap suc (length-addresses page_size addr left (k + 1))

module _ (nphys page_size : ℕ) where
  lut_page-some :
      (addr left k i : ℕ)
      → i + left ≤ nphys
      → lut_page nphys page_size addr left k i ≡ some (addresses page_size addr left k)
  unfolding lut_page
  lut_page-some addr zero k i h = refl
  lut_page-some addr (suc left) k i h =
      let room : leb nphys i ≡ false = ground (arith, h) in
      rw (room, lut_page-some addr left (k + 1) (i + 1) (omega (arith, h))) refl

  lut_page-none :
      (addr left k i : ℕ)
      → i ≤ nphys
      → suc nphys ≤ i + left
      → lut_page nphys page_size addr left k i ≡ none
  unfolding lut_page
  lut_page-none addr zero k i low h = absurd (omega (arith, low, h))
  lut_page-none addr (suc left) k i low h = elim (ℕ_discrete i nphys) [
    | yes full ↦ let stop : leb nphys i ≡ true = ground (arith, full) in rw stop refl
    | no more ↦
        let room : leb nphys i ≡ false = ground (arith, low, more) in
        rw
          (
            room,
            lut_page-none addr left (k + 1) (i + 1) (omega (arith, low, more)) (omega (arith, h)),
          )
          refl
  ]

  lut_pages-all :
      (pages : List DmabufPage) (i : ℕ)
      → i + length (all_addresses page_size pages) ≤ nphys
      → lut_pages nphys page_size pages i ≡ some (all_addresses page_size pages)
  unfolding lut_pages
  lut_pages-all [] i h = refl
  lut_pages-all (page ∷ pages) i h =
      let ours = length-addresses page_size page.addr (page.len / page_size) 0 in
      let split =
        length-append (addresses page_size page.addr (page.len / page_size) 0)
          (all_addresses page_size pages) in
      let fits : i + page.len / page_size ≤ nphys = omega (arith, h, ours, split) in
      let later : i + page.len / page_size + length (all_addresses page_size pages) ≤ nphys =
        omega (arith, h, ours, split) in
      rw
        (
          lut_page-some page.addr (page.len / page_size) 0 i fits,
          ours,
          lut_pages-all pages (i + page.len / page_size) later,
        )
        refl

  lut_pages-none :
      (pages : List DmabufPage) (i : ℕ)
      → i ≤ nphys
      → suc nphys ≤ i + length (all_addresses page_size pages)
      → lut_pages nphys page_size pages i ≡ none
  unfolding lut_pages
  lut_pages-none [] i low h = absurd (omega (arith, low, h))
  lut_pages-none (page ∷ pages) i low h =
      let ours = length-addresses page_size page.addr (page.len / page_size) 0 in
      let split =
        length-append (addresses page_size page.addr (page.len / page_size) 0)
          (all_addresses page_size pages) in
      elim (dec_lt nphys (i + page.len / page_size)) [
        | yes past ↦ rw (lut_page-none page.addr (page.len / page_size) 0 i low past) refl
        | no fits ↦
            let later : suc nphys
                ≤ i + page.len / page_size + length (all_addresses page_size pages) =
              omega (arith, h, ours, split) in
            rw
              (
                lut_page-some page.addr (page.len / page_size) 0 i (omega (arith, fits)),
                ours,
                lut_pages-none pages (i + page.len / page_size) (omega (arith, fits)) later,
              )
              refl
      ]

-- The table is filled exactly if the pages of the dma-buf hold `nphys` pages of the size asked for, and
-- then with their addresses in order; with fewer or more of them the result is -EINVAL.
pub get_lut-all_addresses :
    (dmabuf : Dmabuf) (nphys page_size : ℕ)
    → get_lut dmabuf nphys page_size ≡ (
        if length (all_addresses page_size dmabuf.pages) == nphys
        then some (all_addresses page_size dmabuf.pages)
        else none)
unfolding get_lut
get_lut-all_addresses dmabuf nphys page_size =
    elim (dec_lt nphys (length (all_addresses page_size dmabuf.pages))) [
      | yes over ↦
          let differ : (length (all_addresses page_size dmabuf.pages) == nphys) ≡ false =
            ground (arith, over) in
          rw
            (
              lut_pages-none nphys page_size dmabuf.pages 0 (omega arith) (omega (arith, over)),
              differ,
            )
            refl
      | no fits ↦ rw (lut_pages-all nphys page_size dmabuf.pages 0 (omega (arith, fits))) refl
    ]
