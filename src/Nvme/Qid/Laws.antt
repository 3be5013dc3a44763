-- ===== src/Nvme/Qid/Laws.antt =====
-- What `alloc` and `free` do to a well-formed bitmap, seen through `is_allocated`.
use upcie.Prelude.{
  ℕ, ◌/◌, ◌%◌, ◌^◌, ◌≤◌, ◌<◌, ◌≡◌, arith, none, some, List, pos, neg, einval, set, bit_and, bit_or,
  ◌==◌, if◌then◌else◌, get_elem?-set_self, get_elem?-set_ne, length-set, get_elem?-none, ap,
  ℕ_discrete,
}
use upcie.Prelude.Bits.{
  bit_not, shl, testbit, testbit-lt, testbit_power, testbit-bit_and, testbit-bit_or, testbit_not,
  bit_and-lt, bit_or-lt, pow-le-pow,
}
use upcie.Nvme.Qid.{is_allocated, alloc, free}
use upcie.Nvme.Qid.Bits.{
  IsBitmap, tracked, word_at, taken, get_elem?-word_at, word_at-lt, is_allocated-taken,
}

-- `1ULL << k` for a bit of the word.
abbrev bit_of : ℕ → ℕ
bit_of qid = shl 1 (qid % 64)

bit_of-eq : (qid : ℕ) → bit_of qid ≡ 2 ^ (qid % 64)
bit_of-eq qid =
    let below : 2 ^ (qid % 64) ≤ 2 ^ 63 = pow-le-pow (qid % 64) 63 (omega arith) in omega arith

bit_of-lt : (qid : ℕ) → bit_of qid < 2 ^ 64
bit_of-lt qid = omega arith

module _ {qid_bitmap : List ℕ} (v : IsBitmap qid_bitmap) (qid : ℕ) (h : qid < tracked) where
  abbrev old_word : ℕ
  old_word = word_at qid_bitmap (qid / 64)

  -- A word that fits keeps the bitmap well-formed.
  set-IsBitmap : (word : ℕ) → word < 2 ^ 64 → IsBitmap (set qid_bitmap (qid / 64) word)
  set-IsBitmap word fits = record {
    words = omega (arith, v.words, length-set qid_bitmap (qid / 64) word);
    fits = λ i {word = w} e. elim (ℕ_discrete (qid / 64) i) [
      | yes same ↦ ground (
        arith,
        same,
        v.words,
        get_elem?-set_self qid_bitmap (qid / 64) word (omega (arith, v.words)),
      )
      | no apart ↦ v.fits i (rw (← get_elem?-set_ne qid_bitmap (qid / 64) i word apart) e)
    ];
  }

  -- The bits after a word is rewritten: those of the word are the new ones.
  taken-set :
      (word p : ℕ)
      → taken (set qid_bitmap (qid / 64) word) p
        ≡ (if p / 64 == qid / 64 then testbit word (p % 64) else taken qid_bitmap p)
  taken-set word p = elim (ℕ_discrete (qid / 64) (p / 64)) [
    | yes same ↦
        ground (arith, get_elem?-set_self qid_bitmap (qid / 64) word (omega (arith, v.words)))
    | no apart ↦ ground (arith, get_elem?-set_ne qid_bitmap (qid / 64) (p / 64) word apart)
  ]

  new_taken : List ℕ
  new_taken = set qid_bitmap (qid / 64) (bit_or old_word (bit_of qid))

  new_free : List ℕ
  new_free = set qid_bitmap (qid / 64) (bit_and old_word (bit_not (bit_of qid)))

  taken-new_taken : (p : ℕ) → taken new_taken p ≡ (if p == qid then 1 else taken qid_bitmap p)
  unfolding new_taken
  taken-new_taken p =
      rw (taken-set (bit_or old_word (bit_of qid)) p, testbit-bit_or, bit_of-eq qid)
        (ground (arith, testbit_power (qid % 64) (p % 64), testbit-lt old_word (p % 64)))

  taken-new_free : (p : ℕ) → taken new_free p ≡ (if p == qid then 0 else taken qid_bitmap p)
  unfolding new_free
  taken-new_free p =
      rw (taken-set (bit_and old_word (bit_not (bit_of qid))) p, testbit-bit_and)
        (ground (
          arith,
          testbit_not 64 (bit_of qid) (p % 64) (bit_of-lt qid),
          ap (λ (t : ℕ). testbit t (p % 64)) (bit_of-eq qid),
          testbit_power (qid % 64) (p % 64),
          testbit-lt old_word (p % 64),
        ))

  -- What a query sees once the bits are those of `qid_bitmap` with the bit of `qid` given.
  answers :
      (bitmap' : List ℕ) (bit : ℕ)
      → IsBitmap bitmap'
      → ((p : ℕ) → taken bitmap' p ≡ (if p == qid then bit else taken qid_bitmap p))
      → (p : ℕ) → p < tracked
      → is_allocated bitmap' p ≡ (if p == qid then some (pos bit) else is_allocated qid_bitmap p)
  answers bitmap' bit w bits p l =
      rw (is_allocated-taken w p l, is_allocated-taken v p l) (ground (arith, bits p))

  -- The bitmap that `alloc` leaves, for all queries at once.
  pub alloc_lem :
      (bitmap' : List ℕ) × (alloc qid_bitmap qid ≡ some (bitmap', pos 0))
      × IsBitmap bitmap'
      × ((p : ℕ)
          → p < tracked
          → is_allocated bitmap' p ≡ (if p == qid then some (pos 1) else is_allocated qid_bitmap p))
  alloc_lem =
      let valid : IsBitmap new_taken =
        unfold new_taken in
        set-IsBitmap (bit_or old_word (bit_of qid)) (
          bit_or-lt 64 old_word (bit_of qid) (word_at-lt v (qid / 64) (omega arith))
            (bit_of-lt qid)) in
      (
        new_taken,
        unfold alloc new_taken in ground (arith, get_elem?-word_at v (qid / 64) (omega arith)),
        valid,
        answers new_taken 1 valid taken-new_taken,
      )

  -- On a tracked qid `alloc` returns 0 and a well-formed bitmap, in which a query of a tracked qid `p`
  -- answers 1 if `p` is the qid, and otherwise what it answered before.
  pub is_allocated-alloc :
      (p : ℕ)
      → p < tracked
      → (bitmap' : List ℕ) × (alloc qid_bitmap qid ≡ some (bitmap', pos 0))
        × IsBitmap bitmap'
        × (is_allocated bitmap' p ≡ (if p == qid then some (pos 1) else is_allocated qid_bitmap p))
  is_allocated-alloc p l = let (b, e, w, ans) = alloc_lem in (b, e, w, ans p l)

  -- The bitmap that `free` leaves, for all queries at once.
  pub free_lem :
      (bitmap' : List ℕ) × (free qid_bitmap qid ≡ some (bitmap', pos 0))
      × IsBitmap bitmap'
      × ((p : ℕ)
          → p < tracked
          → is_allocated bitmap' p ≡ (if p == qid then some (pos 0) else is_allocated qid_bitmap p))
  free_lem =
      let valid : IsBitmap new_free =
        unfold new_free in
        set-IsBitmap (bit_and old_word (bit_not (bit_of qid)))
          (bit_and-lt 64 old_word (bit_not (bit_of qid)) (word_at-lt v (qid / 64) (omega arith))) in
      (
        new_free,
        unfold free new_free in ground (arith, get_elem?-word_at v (qid / 64) (omega arith)),
        valid,
        answers new_free 0 valid taken-new_free,
      )

  -- On a tracked qid `free` returns 0 and a well-formed bitmap, in which a query of a tracked qid `p`
  -- answers 0 if `p` is the qid, and otherwise what it answered before.
  pub is_allocated-free :
      (p : ℕ)
      → p < tracked
      → (bitmap' : List ℕ) × (free qid_bitmap qid ≡ some (bitmap', pos 0))
        × IsBitmap bitmap'
        × (is_allocated bitmap' p ≡ (if p == qid then some (pos 0) else is_allocated qid_bitmap p))
  is_allocated-free p l = let (b, e, w, ans) = free_lem in (b, e, w, ans p l)

-- A qid from 65472 to 65534 passes the guard of every operation, and yet each of them accesses a
-- word past the end of the array.
pub untracked_faults :
    (qid_bitmap : List ℕ) (qid : ℕ)
    → IsBitmap qid_bitmap
    → tracked ≤ qid
    → qid < 0xFFFF
    → (alloc qid_bitmap qid ≡ none)
      × (free qid_bitmap qid ≡ none)
      × (is_allocated qid_bitmap qid ≡ none)
unfolding alloc free is_allocated
untracked_faults qid_bitmap qid v h l =
    ground (arith, v.words, get_elem?-none qid_bitmap (qid / 64))

-- From 0xFFFF on every operation returns -EINVAL and changes nothing.
pub rejected :
    (qid_bitmap : List ℕ) (qid : ℕ)
    → 0xFFFF ≤ qid
    → (alloc qid_bitmap qid ≡ some (qid_bitmap, neg (pos einval)))
      × (free qid_bitmap qid ≡ some (qid_bitmap, neg (pos einval)))
      × (is_allocated qid_bitmap qid ≡ some (neg (pos einval)))
unfolding alloc free is_allocated
rejected qid_bitmap qid h = ground arith
