-- ===== src/Hostmem/Heap/Inserted.antt =====
-- The allocated blocks of a list, and one more among them.
use upcie.Prelude.{
  ℕ, ◌+◌, ◌≤◌, ◌<◌, ◌≡◌, ◌==◌, Bool, true, false, refl, arith, ap, sym, ◌∙◌, subst, List, [], ◌∷◌,
  ◌++◌, if◌then◌else◌,
}
use upcie.Hostmem.Types.{HeapBlock}
use upcie.Hostmem.Heap.Tiles.{Tiles, last, more, allocated}
use upcie.Hostmem.Heap.Free.{without}

-- A new allocated block among the old ones.
pub record Inserted (fresh : HeapBlock) (old new : List HeapBlock) : Type 0 where
  pub before : List HeapBlock
  pub after : List HeapBlock
  pub old_split : old ≡ before ++ after
  pub new_split : new ≡ before ++ (fresh ∷ after)

-- Behind a block that is listed only if it is not free.
pub Inserted-if :
    (x : Bool) (block : HeapBlock) {fresh : HeapBlock} {old new : List HeapBlock}
    → Inserted fresh old new
    → Inserted fresh (if x then old else block ∷ old) (if x then new else block ∷ new)
Inserted-if true block i = i
Inserted-if false block i = record {
  before = block ∷ i.before;
  after = i.after;
  old_split = ap (λ l. block ∷ l) i.old_split;
  new_split = ap (λ l. block ∷ l) i.new_split;
}

pub if_true : {b : Bool} (x y : List HeapBlock) → b ≡ true → (if b then x else y) ≡ x
if_true x y e = rw e refl

-- A free block is no allocated one.
pub allocated_free :
    (block : HeapBlock) (rest : List HeapBlock)
    → block.free ≡ true
    → allocated (block ∷ rest) ≡ allocated rest
unfolding allocated
allocated_free block rest free = rw free refl

-- Blocks at ascending addresses, from one on.
data IsAscending : ℕ → List HeapBlock → Type 0 where
  nothing : (from : ℕ) → IsAscending from []
  then_ :
      (from : ℕ) (block : HeapBlock) (rest : List HeapBlock)
      → from ≤ block.addr
      → IsAscending (block.addr + 1) rest
      → IsAscending from (block ∷ rest)

IsAscending-le :
    (low from : ℕ) (l : List HeapBlock) → low ≤ from → IsAscending from l → IsAscending low l
IsAscending-le low from [] h (nothing _) = nothing low
IsAscending-le low from (block ∷ rest) h (then_ _ _ _ le a) =
    then_ low block rest (omega (arith, h, le)) a

listed-IsAscending :
    (free : Bool) (block : HeapBlock) (l : List HeapBlock)
    → IsAscending (block.addr + 1) l
    → IsAscending block.addr (if free then l else block ∷ l)
listed-IsAscending true block l a = IsAscending-le block.addr (block.addr + 1) l (omega arith) a
listed-IsAscending false block l a = then_ block.addr block l (omega arith) a

-- The allocated blocks of a tiling.
allocated-IsAscending :
    {alignment end : ℕ} (block : HeapBlock) (rest : List HeapBlock)
    → Tiles alignment end block rest
    → IsAscending block.addr (allocated (block ∷ rest))
unfolding allocated
allocated-IsAscending block [] (last _ e) =
    listed-IsAscending block.free block [] (nothing (block.addr + 1))
allocated-IsAscending block (next ∷ rest) (more _ _ _ e above t) =
    listed-IsAscending block.free block (allocated (next ∷ rest)) (
      IsAscending-le (block.addr + 1) next.addr (allocated (next ∷ rest)) (omega (arith, above))
        (allocated-IsAscending next rest t))

without-absent :
    (addr from : ℕ) (l : List HeapBlock) → addr < from → IsAscending from l → without addr l ≡ l
unfolding without
without-absent addr from [] h (nothing _) = refl
without-absent addr from (block ∷ rest) h (then_ _ _ _ le a) =
    let apart : (block.addr == addr) ≡ false = ground (arith, h, le) in
    rw apart
      (ap (λ l. block ∷ l) (without-absent addr (block.addr + 1) rest (omega (arith, h, le)) a))

-- Taking a block out of where it was put in.
without-append :
    (from : ℕ) (fresh : HeapBlock) (before after : List HeapBlock)
    → IsAscending from (before ++ (fresh ∷ after))
    → (without fresh.addr (before ++ (fresh ∷ after)) ≡ before ++ after) × (from ≤ fresh.addr)
unfolding without
without-append from fresh [] after (then_ _ _ _ le a) =
    let here : (fresh.addr == fresh.addr) ≡ true = ground arith in
    (rw here (without-absent fresh.addr (fresh.addr + 1) after (omega arith) a), le)
without-append from fresh (block ∷ before) after (then_ _ _ _ le a) =
    let (same, above) = without-append (block.addr + 1) fresh before after a in
    let apart : (block.addr == fresh.addr) ≡ false = ground (arith, above) in
    (rw apart (ap (λ l. block ∷ l) same), omega (arith, le, above))

pub without-Inserted :
    {alignment end : ℕ} {fresh : HeapBlock} {old : List HeapBlock} (head : HeapBlock)
    (tail : List HeapBlock)
    → Tiles alignment end head tail
    → Inserted fresh old (allocated (head ∷ tail))
    → without fresh.addr (allocated (head ∷ tail)) ≡ old
without-Inserted {fresh = fresh} head tail t ins =
    let a =
      subst (λ l. IsAscending head.addr l) ins.new_split (allocated-IsAscending head tail t) in
    ap (λ l. without fresh.addr l) ins.new_split
    ∙ (without-append head.addr fresh ins.before ins.after a).0
    ∙ sym ins.old_split
