-- ===== src/Nvme/Qid.antt =====
-- include/upcie/nvme/nvme_qid.h: the bitmap that tracks which queue identifiers are taken. The
-- array is a list of `uint64_t`; `none` is an access outside of it, which C leaves undefined. A
-- `uint16_t` qid is any number; the returned `int` is an integer.
pub mod Bits
pub mod Laws
pub mod Search
mod Tests
use mathlib.Core.Option
use upcie.Prelude.{
  ℕ, zero, suc, ◌+◌, ◌*◌, ◌/◌, ◌%◌, ◌-◌, bit_and, bit_or, Option, none, some, List, ℤ, pos, neg,
  einval, enomem, leb, neb, ◌==◌, if◌then◌else◌, get_elem?, set, map,
}
use upcie.Prelude.Bits.{uint64_max, shl, shr, bit_not}

abbrev pub bits_per_word : ℕ
bits_per_word = 64

abbrev pub qid_max : ℕ
qid_max = 0xFFFF

-- `NVME_QID_MAX / BITS_PER_WORD`: 1023 words.
abbrev pub qid_bitmap_words : ℕ
qid_bitmap_words = qid_max / bits_per_word

unfoldable pub is_allocated : List ℕ → ℕ → Option ℤ
is_allocated qid_bitmap qid =
    if leb qid_max qid
    then some (neg (pos einval))
    else Option.map (λ word. pos (bit_and (shr word (qid % bits_per_word)) 1))
        (get_elem? qid_bitmap (qid / bits_per_word))

-- The word of `qid` rewritten by `f`.
abbrev pub update_word : List ℕ → ℕ → (ℕ → ℕ) → Option (List ℕ × ℤ)
update_word qid_bitmap qid f =
    Option.map (λ word. (set qid_bitmap (qid / bits_per_word) (f word), pos 0))
      (get_elem? qid_bitmap (qid / bits_per_word))

unfoldable pub free : List ℕ → ℕ → Option (List ℕ × ℤ)
free qid_bitmap qid =
    if leb qid_max qid
    then some (qid_bitmap, neg (pos einval))
    else update_word qid_bitmap qid (λ word. bit_and word (bit_not (shl 1 (qid % bits_per_word))))

unfoldable pub alloc : List ℕ → ℕ → Option (List ℕ × ℤ)
alloc qid_bitmap qid =
    if leb qid_max qid
    then some (qid_bitmap, neg (pos einval))
    else update_word qid_bitmap qid (λ word. bit_or word (shl 1 (qid % bits_per_word)))

-- `memset` clears the array, which is the `NVME_QID_BITMAP_WORDS` words that it covers.
unfoldable pub bitmap_init : List ℕ → Option (List ℕ × ℤ)
bitmap_init qid_bitmap = alloc (map (λ word. 0) qid_bitmap) 0

-- The inner loop, with the bits that are left: the first bit that is clear.
unfoldable pub find_bit : ℕ → ℕ → ℕ → Option ℕ
find_bit zero bit word = none
find_bit (suc left) bit word =
    let rest = find_bit left (bit + 1) word in
    if bit_and word (shl 1 bit) == 0 then some bit else rest

-- The outer loop, with the words that are left.
unfoldable pub find_word : ℕ → ℕ → List ℕ → Option ℤ
unfolding find_bit
find_word zero word qid_bitmap = some (neg (pos enomem))
find_word (suc left) word qid_bitmap =
    let rest = find_word left (word + 1) qid_bitmap in
    elim (get_elem? qid_bitmap word) [
      | none ↦ none
      | some w ↦
          if neb w uint64_max
          then elim (find_bit bits_per_word 0 w) [
            | some bit ↦ some (pos (word * bits_per_word + bit))
            | none ↦ rest
          ]
          else rest
    ]

unfoldable pub find_free : List ℕ → Option ℤ
unfolding find_word
find_free qid_bitmap = find_word qid_bitmap_words 0 qid_bitmap
