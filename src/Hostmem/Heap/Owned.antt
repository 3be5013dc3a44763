-- ===== src/Hostmem/Heap/Owned.antt =====
-- Which addresses the blocks of a list start at, and lists without one of them.
use upcie.Prelude.{
  ℕ, suc, ◌≡◌, ◌≢◌, ◌==◌, ==_iff, Bool, Bool-cases, true, false, refl, arith, ap, sym, ◌∙◌, subst,
  inl, inr, ◌⊎◌, List, [], ◌∷◌, ◌++◌, some, get_elem?, if◌then◌else◌,
}
use upcie.Hostmem.Types.{HeapBlock}
use upcie.Hostmem.Heap.Tiles.{allocated}
use upcie.Hostmem.Heap.Free.{without}
use upcie.Hostmem.Heap.Inserted.{Inserted}

-- A block starts at the address.
abbrev pub Has : ℕ → List HeapBlock → Type 0
Has addr [] = ⊥
Has addr (block ∷ rest) = (block.addr ≡ addr) ⊎ Has addr rest

Has-if :
    (addr : ℕ) (free : Bool) (block : HeapBlock) (l : List HeapBlock)
    → Has addr (if free then l else block ∷ l)
    → (block.addr ≡ addr) ⊎ Has addr l
Has-if addr true block l h = inr h
Has-if addr false block l h = h

-- An allocated block is a block of the list.
pub Has-allocated :
    (addr : ℕ) (l : List HeapBlock)
    → Has addr (allocated l)
    → (i : ℕ) × (found : HeapBlock) × (get_elem? l i ≡ some found) × (found.addr ≡ addr)
unfolding allocated
Has-allocated addr [] h = absurd h
Has-allocated addr (block ∷ rest) h = elim (Has-if addr block.free block (allocated rest) h) [
  | inl here ↦ (0, block, refl, here)
  | inr later ↦ let (i, found, at, e) = Has-allocated addr rest later in (suc i, found, at, e)
]

Has-append_right : (addr : ℕ) (xs ys : List HeapBlock) → Has addr ys → Has addr (xs ++ ys)
Has-append_right addr [] ys h = h
Has-append_right addr (x ∷ xs) ys h = inr (Has-append_right addr xs ys h)

Has-grow :
    (addr : ℕ) (fresh : HeapBlock) (xs ys : List HeapBlock)
    → Has addr (xs ++ ys)
    → Has addr (xs ++ (fresh ∷ ys))
Has-grow addr fresh [] ys h = inr h
Has-grow addr fresh (x ∷ xs) ys (inl here) = inl here
Has-grow addr fresh (x ∷ xs) ys (inr h) = inr (Has-grow addr fresh xs ys h)

pub Has-fresh :
    {fresh : HeapBlock} {old new : List HeapBlock} → Inserted fresh old new → Has fresh.addr new
Has-fresh {fresh = fresh} i =
    subst (λ l. Has fresh.addr l) (sym i.new_split)
      (Has-append_right fresh.addr i.before (fresh ∷ i.after) (inl refl))

pub Has-old :
    (addr : ℕ) {fresh : HeapBlock} {old new : List HeapBlock}
    → Inserted fresh old new
    → Has addr old
    → Has addr new
Has-old addr {fresh = fresh} i h =
    subst (λ l. Has addr l) (sym i.new_split)
      (Has-grow addr fresh i.before i.after (subst (λ l. Has addr l) i.old_split h))

-- Taking blocks off a list.
without_hit :
    (a : ℕ) (block : HeapBlock) (l : List HeapBlock)
    → (block.addr == a) ≡ true
    → without a (block ∷ l) ≡ without a l
unfolding without
without_hit a block l e = rw e refl

without_miss :
    (a : ℕ) (block : HeapBlock) (l : List HeapBlock)
    → (block.addr == a) ≡ false
    → without a (block ∷ l) ≡ block ∷ without a l
unfolding without
without_miss a block l e = rw e refl

pub without_comm :
    (a b : ℕ) (l : List HeapBlock) → without a (without b l) ≡ without b (without a l)
without_comm a b [] = unfold without in refl
without_comm a b (block ∷ rest) = elim (Bool-cases (block.addr == a)) [
  | inl x ↦ elim (Bool-cases (block.addr == b)) [
    | inl y ↦ rw (without_hit b block rest y, without_hit a block rest x) (without_comm a b rest)
    | inr y ↦
        rw
          (
            without_miss b block rest y,
            without_hit a block rest x,
            without_hit a block (without b rest) x,
          )
          (without_comm a b rest)
  ]
  | inr x ↦ elim (Bool-cases (block.addr == b)) [
    | inl y ↦
        rw
          (
            without_hit b block rest y,
            without_miss a block rest x,
            without_hit b block (without a rest) y,
          )
          (without_comm a b rest)
    | inr y ↦
        rw
          (
            without_miss b block rest y,
            without_miss a block rest x,
            without_miss a block (without b rest) x,
            without_miss b block (without a rest) y,
          )
          (ap (λ l. block ∷ l) (without_comm a b rest))
  ]
]

pub Has-without_keep : (a b : ℕ) (l : List HeapBlock) → a ≢ b → Has a l → Has a (without b l)
Has-without_keep a b [] h has = absurd has
Has-without_keep a b (block ∷ rest) h has = elim (Bool-cases (block.addr == b)) [
  | inl x ↦
      subst (λ l. Has a l) (sym (without_hit b block rest x))
        (elim has [
          | inl here ↦ absurd (h (sym here ∙ (==_iff block.addr b).0 x))
          | inr later ↦ Has-without_keep a b rest h later
        ])
  | inr x ↦
      subst (λ l. Has a l) (sym (without_miss b block rest x))
        (elim has [ inl here ↦ inl here | inr later ↦ inr (Has-without_keep a b rest h later) ])
]

pub not-Has-without : (a : ℕ) (l : List HeapBlock) → ¬ Has a (without a l)
not-Has-without a [] h = unfold without in h
not-Has-without a (block ∷ rest) h = elim (Bool-cases (block.addr == a)) [
  | inl x ↦ not-Has-without a rest (subst (λ l. Has a l) (without_hit a block rest x) h)
  | inr x ↦
      let split : (block.addr ≡ a) ⊎ Has a (without a rest) =
        subst (λ l. Has a l) (without_miss a block rest x) h in
      elim split [ inl here ↦ ground (arith, x, here) | inr later ↦ not-Has-without a rest later ]
]
