-- ===== src/Nvme/Qid/Search.antt =====
-- `find_free` finds the lowest qid whose bit is clear.
use native.Mathlib.Nat.{add-sub_cancel_left}
use upcie.Prelude.{
  ℕ, ◌↔◌, zero, suc, ◌+◌, ◌-◌, ◌*◌, ◌/◌, ◌%◌, ◌^◌, ◌≤◌, ◌<◌, ◌≡◌, arith, Option, none, some, List,
  ℤ, pos, neg, enomem, bit_and, ◌⊎◌, inl, inr, refl, dec_lt, ℕ_discrete, ◌≢◌, map, sym, ◌∙◌, length,
}
use upcie.Prelude.Bits.{
  uint64_max, shl, testbit, testbit-lt, testbit-mask, bit_and-power_zero, bit_and-power_ne_zero,
  pow-le-pow,
}
use upcie.Nvme.Qid.{bitmap_init, is_allocated, find_bit, find_word, find_free, qid_bitmap_words}
use upcie.Nvme.Qid.Bits.{
  IsBitmap, tracked, word_at, taken, get_elem?-word_at, word_at-lt, is_allocated-taken,
  cleared-IsBitmap, taken-cleared,
}
use upcie.Nvme.Qid.Laws.{alloc_lem}

-- What a search from `lo` below `hi` says of the bits: the first clear one, or that none is.
record IsFirst (bit : ℕ → ℕ) (lo hi found : ℕ) : Type 0 where
  from : lo ≤ found
  below : found < hi
  clear : bit found ≡ 0
  earlier : (j : ℕ) → lo ≤ j → j < found → bit j ≡ 1

abbrev AllSet : (ℕ → ℕ) → ℕ → ℕ → Type 0
AllSet bit lo hi = (j : ℕ) → lo ≤ j → j < hi → bit j ≡ 1

shl-one : (k : ℕ) → k < 64 → shl 1 k ≡ 2 ^ k
shl-one k h = let below : 2 ^ k ≤ 2 ^ 63 = pow-le-pow k 63 (omega arith) in omega arith

module _ (w : ℕ) (fits : w < 2 ^ 64) where
  -- The test of the inner loop.
  test_clear : (k : ℕ) → k < 64 → testbit w k ≡ 0 → bit_and w (shl 1 k) ≡ 0
  test_clear k h e = rw (shl-one k h) (bit_and-power_zero w k fits e)

  test_set : (k : ℕ) → k < 64 → testbit w k ≡ 1 → bit_and w (shl 1 k) ≢ 0
  test_set k h e = rw (shl-one k h) (bit_and-power_ne_zero w k (omega arith))

  find_bit-IsFirst :
      (left bit : ℕ)
      → bit + left ≤ 64
      → ((k : ℕ) × (find_bit left bit w ≡ some k) × IsFirst (testbit w) bit (bit + left) k)
        ⊎ ((find_bit left bit w ≡ none) × AllSet (testbit w) bit (bit + left))
  unfolding find_bit
  find_bit-IsFirst zero bit h = inr (refl, λ j p q. absurd (omega arith))
  find_bit-IsFirst (suc left) bit h = elim (ℕ_discrete (testbit w bit) 0) [
    | yes e ↦ inl (
      bit,
      ground (arith, test_clear bit),
      record {
        from = omega arith;
        below = omega arith;
        clear = e;
        earlier = λ j p q. absurd (omega arith);
      },
    )
    | no ne ↦
        let one : testbit w bit ≡ 1 = omega (arith, testbit-lt w bit) in
        let set_test = test_set bit (omega arith) one in
        elim (find_bit-IsFirst left (bit + 1) (omega arith)) [
          | inl (k, e, first) ↦ inl (
            k,
            ground arith,
            record {
              from = omega (arith, first.from);
              below = omega (arith, first.below);
              clear = first.clear;
              earlier = λ j p q. elim (ℕ_discrete bit j) [
                | yes same ↦ rw (← same) one
                | no apart ↦ first.earlier j (omega arith) q
              ];
            },
          )
          | inr (e, all) ↦ inr (
            ground arith,
            λ j p q. elim (ℕ_discrete bit j) [
              | yes same ↦ rw (← same) one
              | no apart ↦ all j (omega arith) (omega arith)
            ],
          )
        ]
  ]

module _ {qid_bitmap : List ℕ} (v : IsBitmap qid_bitmap) where
  abbrev bits : ℕ → ℕ
  bits = taken qid_bitmap

  -- The bits of one word stand at 64 times its index.
  bits-word :
      (word p : ℕ)
      → word * 64 ≤ p
      → p < (word + 1) * 64
      → bits p ≡ testbit (word_at qid_bitmap word) (p - word * 64)
  bits-word word p h l =
      let i : p / 64 ≡ word = omega arith in
      let k : p % 64 ≡ p - word * 64 = omega arith in rw (i, k) refl

  word_full :
      (word : ℕ)
      → AllSet (testbit (word_at qid_bitmap word)) 0 64
      → AllSet bits (word * 64) ((word + 1) * 64)
  word_full word all p h l =
      rw (bits-word word p h l) (all (p - word * 64) (omega arith) (omega arith))

  max_full : (w : ℕ) → w ≡ uint64_max → AllSet (testbit w) 0 64
  max_full w e j h l = rw e (ground (arith, testbit-mask 64 j))

  abbrev Found : ℤ → ℕ → Type 0
  Found r lo =
      ((q : ℕ) × (r ≡ pos q) × IsFirst bits lo tracked q)
      ⊎ ((r ≡ neg (pos enomem)) × AllSet bits lo tracked)

  -- A full word before the part that is searched changes neither answer.
  Found-earlier : (r : ℤ) (lo mid : ℕ) → lo ≤ mid → AllSet bits lo mid → Found r mid → Found r lo
  Found-earlier r lo mid h all (inl (q, e, first)) = inl (
    q,
    e,
    record {
      from = omega (arith, first.from);
      below = first.below;
      clear = first.clear;
      earlier = λ j p l. elim (dec_lt j mid) [
        | yes before ↦ all j p before
        | no after ↦ first.earlier j (omega arith) l
      ];
    },
  )
  Found-earlier r lo mid h all (inr (e, rest)) = inr (
    e,
    λ j p l. elim (dec_lt j mid) [
      | yes before ↦ all j p before
      | no after ↦ rest j (omega arith) l
    ],
  )

  module _ (left word : ℕ) (h : word + suc left ≡ qid_bitmap_words) (r : ℤ)
      (e : find_word left (word + 1) qid_bitmap ≡ some r) (found : Found r ((word + 1) * 64)) where
    abbrev this_word : ℕ
    this_word = word_at qid_bitmap word

    abbrev Step : Type 0
    Step = (s : ℤ) × (find_word (suc left) word qid_bitmap ≡ some s) × Found s (word * 64)

    -- The word is full, whether the first test or the inner loop finds it so.
    go_on : find_word (suc left) word qid_bitmap ≡ some r → AllSet (testbit this_word) 0 64 → Step
    go_on eq full = (
      r,
      eq,
      Found-earlier r (word * 64) ((word + 1) * 64) (omega arith) (word_full word full) found,
    )

    stop :
        (k : ℕ)
        → find_word (suc left) word qid_bitmap ≡ some (pos (word * 64 + k))
        → IsFirst (testbit this_word) 0 64 k
        → Step
    stop k eq first = (
      pos (word * 64 + k),
      eq,
      inl (
        word * 64 + k,
        refl,
        record {
          from = omega arith;
          below = omega (arith, first.below);
          clear =
              rw
                (
                  bits-word word (word * 64 + k) (omega arith) (omega (arith, first.below)),
                  add-sub_cancel_left,
                )
                first.clear;
          earlier = λ j p l.
              rw (bits-word word j p (omega (arith, first.below)))
                (first.earlier (j - word * 64) (omega arith) (omega arith));
        },
      ),
    )

    one_word : Step
    unfolding find_word
    one_word =
        let read = get_elem?-word_at v word (omega arith) in
        elim (ℕ_discrete this_word uint64_max) [
          | yes full ↦ go_on (ground arith) (max_full this_word full)
          | no other ↦
              elim (find_bit-IsFirst this_word (word_at-lt v word (omega arith)) 64 0
                (omega arith)) [
                  | inl (k, hit, first) ↦ stop k (ground arith) first
                  | inr (miss, all) ↦ go_on (ground arith) all
                ]
        ]

  find_word-Found :
      (left word : ℕ)
      → word + left ≡ qid_bitmap_words
      → (r : ℤ) × (find_word left word qid_bitmap ≡ some r) × Found r (word * 64)
  find_word-Found zero word h =
      (neg (pos enomem), unfold find_word in refl, inr (refl, λ j p l. absurd (omega arith)))
  find_word-Found (suc left) word h =
      let (r, e, found) = find_word-Found left (word + 1) (omega arith) in
      one_word left word h r e found

-- The qids below `bound` are all in use.
abbrev pub AllInUse : List ℕ → ℕ → Type 0
AllInUse qid_bitmap bound = (p : ℕ) → p < bound → is_allocated qid_bitmap p ≡ some (pos 1)

zero_ne_one : ¬ (◌≡◌ {A = Option ℤ} (some (pos 0)) (some (pos 1)))
zero_ne_one h = ground arith

-- The lowest qid that is free is 0 exactly if 0 is free.
zero-lowest :
    (b : List ℕ) (q : ℕ)
    → is_allocated b q ≡ some (pos 0)
    → AllInUse b q
    → (q ≡ 0) ↔ (is_allocated b 0 ≡ some (pos 0))
zero-lowest b zero clear all = (λ e. clear, λ e. refl)
zero-lowest b (suc q) clear all =
    ((λ e. absurd (omega (arith, e))), λ e. absurd (zero_ne_one (sym e ∙ all 0 (omega arith))))

-- On a well-formed bitmap `find_free` always returns: the lowest tracked qid that is not in use, or
-- -ENOMEM if all of them are. So it returns 0 exactly if qid 0 is not in use.
pub find_free-lowest :
    {qid_bitmap : List ℕ}
    → IsBitmap qid_bitmap
    → ((q : ℕ) × (find_free qid_bitmap ≡ some (pos q))
        × (q < tracked)
        × (is_allocated qid_bitmap q ≡ some (pos 0))
        × AllInUse qid_bitmap q
        × ((q ≡ 0) ↔ (is_allocated qid_bitmap 0 ≡ some (pos 0))))
      ⊎ ((find_free qid_bitmap ≡ some (neg (pos enomem))) × AllInUse qid_bitmap tracked)
unfolding find_free
find_free-lowest {qid_bitmap = qid_bitmap} v =
    let (r, e, found) = find_word-Found v qid_bitmap_words 0 (omega arith) in
    elim found [
      | inl (q, eq, first) ↦
          let clear : is_allocated qid_bitmap q ≡ some (pos 0) =
            rw (is_allocated-taken v q first.below, first.clear) in
          let all : AllInUse qid_bitmap q = λ p l. rw (
            is_allocated-taken v p (omega (arith, first.below)),
            first.earlier p (omega arith) l,
          ) in
          inl (q, rw (← eq) e, first.below, clear, all, zero-lowest qid_bitmap q clear all)
      | inr (eq, all) ↦
          inr (rw (← eq) e, λ p l. rw (is_allocated-taken v p l, all p (omega arith) l))
    ]

first_is_one :
    (b : List ℕ) (q : ℕ)
    → find_free b ≡ some (pos q)
    → is_allocated b q ≡ some (pos 0)
    → AllInUse b q
    → is_allocated b 0 ≡ some (pos 1)
    → is_allocated b 1 ≡ some (pos 0)
    → find_free b ≡ some (pos 1)
first_is_one b zero e clear all at_zero at_one = absurd (zero_ne_one (sym clear ∙ at_zero))
first_is_one b (suc zero) e clear all at_zero at_one = e
first_is_one b (suc (suc q)) e clear all at_zero at_one =
    absurd (zero_ne_one (sym at_one ∙ all 1 (omega arith)))

-- After `bitmap_init`, whatever the array held, qid 0 is in use and `find_free` returns 1.
pub find_free-bitmap_init :
    (qid_bitmap : List ℕ)
    → length qid_bitmap ≡ qid_bitmap_words
    → (bitmap' : List ℕ) × (bitmap_init qid_bitmap ≡ some (bitmap', pos 0))
      × IsBitmap bitmap'
      × (is_allocated bitmap' 0 ≡ some (pos 1))
      × (find_free bitmap' ≡ some (pos 1))
unfolding bitmap_init
find_free-bitmap_init qid_bitmap h =
    let start : IsBitmap (map (λ word. 0) qid_bitmap) = cleared-IsBitmap qid_bitmap h in
    let (b, e, w, ans) = alloc_lem start 0 (omega arith) in
    let free_one : is_allocated b 1 ≡ some (pos 0) =
      ans 1 (omega arith)
      ∙ rw (is_allocated-taken start 1 (omega arith), taken-cleared qid_bitmap h 1) refl in
    let found : find_free b ≡ some (pos 1) = elim (find_free-lowest w) [
      | inl (q, eq, l, clear, all, _) ↦ first_is_one b q eq clear all (ans 0 (omega arith)) free_one
      | inr (eq, all) ↦ absurd (zero_ne_one (sym free_one ∙ all 1 (omega arith)))
    ] in
    (b, e, w, ans 0 (omega arith), found)
