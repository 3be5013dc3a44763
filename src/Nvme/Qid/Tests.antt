-- ===== src/Nvme/Qid/Tests.antt =====
-- Queue identifiers: a fresh bitmap, and the theorems there.
use upcie.Prelude.{
  ℕ, ◌↔◌, ◌<◌, ◌≡◌, refl, arith, ◌⊎◌, some, none, List, pos, neg, enomem, replicate,
  length-replicate, get_elem?-replicate, get_elem?, get_elem?-lt,
}
use upcie.Nvme.Qid.{is_allocated, alloc, free, find_bit, find_free}
use upcie.Nvme.Qid.Bits.{IsBitmap, tracked}
use upcie.Nvme.Qid.Laws.{untracked_faults}
use upcie.Nvme.Qid.Search.{AllInUse, find_free-lowest}

-- Every word is 5: the qids 0 and 2 of each word are in use.
abbrev words : List ℕ
words = replicate 1023 5

words-IsBitmap : IsBitmap words
words-IsBitmap = record {
  words = length-replicate {A = ℕ} 1023 5;
  fits = λ i {word = w} e.
      let at : get_elem? words i ≡ some 5 =
        get_elem?-replicate {A = ℕ} 1023 5 i (rw length-replicate at (get_elem?-lt words i e)) in
      ground arith;
}

first_clear : find_bit 64 0 5 ≡ some 1
unfolding find_bit
first_clear = refl

untracked_faults_example :
    (alloc words 65500 ≡ none) × (free words 65500 ≡ none) × (is_allocated words 65500 ≡ none)
untracked_faults_example = untracked_faults words 65500 words-IsBitmap (omega arith) (omega arith)

find_free-lowest_example :
    ((q : ℕ) × (find_free words ≡ some (pos q))
      × (q < tracked)
      × (is_allocated words q ≡ some (pos 0))
      × AllInUse words q
      × ((q ≡ 0) ↔ (is_allocated words 0 ≡ some (pos 0))))
    ⊎ ((find_free words ≡ some (neg (pos enomem))) × AllInUse words tracked)
find_free-lowest_example = find_free-lowest words-IsBitmap
