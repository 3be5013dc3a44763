-- ===== src/Nvme/Qid/Bits.antt =====
-- The bitmap read bit by bit, and what well-formed means for it.
use mathlib.Core.Option
use upcie.Prelude.{
  ℕ, ◌*◌, ◌/◌, ◌%◌, ◌^◌, ◌<◌, ◌≡◌, arith, some, List, pos, length, get_elem?, get_elem?-some, map,
  length-map, get_elem?-map, ◌∙◌, zero,
}
use upcie.Prelude.Bits.{testbit, testbit_zero, bit_and-shr-one}
use upcie.Nvme.Qid.{is_allocated, qid_bitmap_words, bits_per_word}

-- Qids that the array has a bit for: 0 to 65471.
abbrev pub tracked : ℕ
tracked = qid_bitmap_words * bits_per_word

-- The array has its declared length, and each element is a `uint64_t`.
pub record IsBitmap (qid_bitmap : List ℕ) : Type 0 where
  pub words : length qid_bitmap ≡ qid_bitmap_words
  pub fits : (i : ℕ) {word : ℕ} → get_elem? qid_bitmap i ≡ some word → word < 2 ^ 64

abbrev pub word_at : List ℕ → ℕ → ℕ
word_at qid_bitmap i = Option.get_or (get_elem? qid_bitmap i) 0

-- The bit of a qid.
abbrev pub taken : List ℕ → ℕ → ℕ
taken qid_bitmap qid = testbit (word_at qid_bitmap (qid / 64)) (qid % 64)

module _ {qid_bitmap : List ℕ} (v : IsBitmap qid_bitmap) where
  pub get_elem?-word_at :
      (i : ℕ) → i < qid_bitmap_words → get_elem? qid_bitmap i ≡ some (word_at qid_bitmap i)
  get_elem?-word_at i h =
      let found = get_elem?-some qid_bitmap i (omega (arith, v.words)) in ground (arith, found.1)

  pub word_at-lt : (i : ℕ) → i < qid_bitmap_words → word_at qid_bitmap i < 2 ^ 64
  word_at-lt i h = v.fits i (get_elem?-word_at i h)

  -- A query of a tracked qid answers with its bit.
  pub is_allocated-taken :
      (qid : ℕ) → qid < tracked → is_allocated qid_bitmap qid ≡ some (pos (taken qid_bitmap qid))
  unfolding is_allocated
  is_allocated-taken qid h =
      let i : ℕ = qid / 64 in
      ground (
        arith,
        get_elem?-word_at i (omega arith),
        bit_and-shr-one (word_at qid_bitmap i) (qid % 64),
      )

-- A cleared array is well-formed, and no qid is in use.
module _ (qid_bitmap : List ℕ) (words : length qid_bitmap ≡ qid_bitmap_words) where
  abbrev cleared : List ℕ
  cleared = map (λ word. 0) qid_bitmap

  pub cleared-IsBitmap : IsBitmap (map (λ word. 0) qid_bitmap)
  cleared-IsBitmap = record {
    words = length-map (λ word. 0) qid_bitmap ∙ words;
    fits = λ i {word = w} e. ground (arith, get_elem?-map (λ (u : ℕ). zero) qid_bitmap i);
  }

  pub taken-cleared : (qid : ℕ) → taken (map (λ word. 0) qid_bitmap) qid ≡ 0
  taken-cleared qid =
      ground (arith, get_elem?-map (λ (u : ℕ). zero) qid_bitmap (qid / 64), testbit_zero (qid % 64))
