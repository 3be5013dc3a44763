-- ===== src/Gpu/Qpair/Posted.antt =====
-- A thread gets the completion that the controller posts for its entry.
use native.Mathlib.Nat.{mod-lt}
use upcie.Prelude.{
  ℕ, zero, suc, ◌+◌, ◌%◌, ◌≤◌, ◌<◌, ◌≡◌, ◌==◌, refl, arith, ap, ◌∙◌, ltb, dec_lt, ℕ_discrete, true,
  false, pos, done,
}
use upcie.Prelude.Bits.{u16, bit_and-mask}
use upcie.Mmio.{Device}
use upcie.Nvme.Command.{NvmeCompletion}
use upcie.Nvme.Qpair.Phase.{phase_of}
use upcie.Gpu.Qpair.{QpairCuda, expected_phase, is_posted, poll_at, reap_at_i}
use upcie.Gpu.Qpair.Phase.{IsCounting, expected_phase-phase_of, add_head-mod}

-- The state after so many polls.
abbrev pub after_polls : {S : Type 0} → (S → S) → ℕ → S → S
after_polls wait zero s = s
after_polls wait (suc k) s = after_polls wait k (wait s)

-- An entry with the phase bit of the round of number `k`.
abbrev pub IsPosted : ℕ → ℕ → NvmeCompletion → Type 0
IsPosted depth k cqe = (cqe.cid < 0xFFFF) × (cqe.status % 2 ≡ phase_of depth k)

module _ {S : Type 0} (d : Device S) (wait : S → S) {qp : QpairCuda} {n : ℕ} (a : IsCounting qp n)
    (o : ℕ) (near : o < qp.depth) where
  -- What the controller has at the entry of number `n + o`.
  abbrev pub entry : S → NvmeCompletion
  entry s = d.load_cqe qp.cq ((n + o) % qp.depth) s

  slot_eq : u16 ((qp.head + o) % qp.depth) ≡ (n + o) % qp.depth
  slot_eq =
      let low = mod-lt (n + o) a.some_depth in
      ap u16 (add_head-mod a o) ∙ omega (arith, low, a.depth_fits)

  phase_eq : expected_phase qp o ≡ phase_of qp.depth (n + o)
  phase_eq = expected_phase-phase_of a o (omega (arith, near))

  posted_true : (cqe : NvmeCompletion) → IsPosted qp.depth (n + o) cqe → is_posted qp o cqe ≡ true
  unfolding is_posted
  posted_true cqe (real, bit) = rw (bit_and-mask 1 cqe.status, phase_eq) (ground (arith, real, bit))

  posted_false :
      (cqe : NvmeCompletion) → ¬ IsPosted qp.depth (n + o) cqe → is_posted qp o cqe ≡ false
  unfolding is_posted
  posted_false cqe absent = elim (dec_lt cqe.cid 0xFFFF) [
    | no free ↦ let test : ltb cqe.cid 0xFFFF ≡ false = ground (arith, free) in rw test refl
    | yes real ↦ elim (ℕ_discrete (cqe.status % 2) (phase_of qp.depth (n + o))) [
      | yes bit ↦ absurd (absent (real, bit))
      | no other ↦ rw (bit_and-mask 1 cqe.status, phase_eq) (ground (arith, other))
    ]
  ]

  poll_at-posted :
      (k polls : ℕ) (s : S)
      → k ≤ polls
      → ((i : ℕ) → i < k → ¬ IsPosted qp.depth (n + o) (entry (after_polls wait i s)))
      → IsPosted qp.depth (n + o) (entry (after_polls wait k s))
      → poll_at d wait qp o polls s ≡ (pos 0, entry (after_polls wait k s), after_polls wait k s)
  unfolding poll_at
  poll_at-posted zero zero s within before posted = rw (slot_eq, posted_true (entry s) posted) refl
  poll_at-posted zero (suc polls) s within before posted =
      rw (slot_eq, posted_true (entry s) posted) refl
  poll_at-posted (suc k) zero s within before posted = absurd (omega (arith, within))
  poll_at-posted (suc k) (suc polls) s within before posted =
      let later =
        poll_at-posted k polls (wait s) (omega (arith, within))
          (λ i h. before (suc i) (omega (arith, h))) posted in
      rw (slot_eq, posted_false (entry s) (before 0 (omega arith))) later

  -- In a queue of at most 2 ^ 15 entries, where head and phase stand for a number of completions that
  -- were taken, a thread whose offset is below the depth gets the entry of its number at the first
  -- poll that finds it posted with the phase bit of its round, if one does before the deadline.
  pub reap_at_i-posted :
      (k polls : ℕ) (s : S)
      → k ≤ polls
      → ((i : ℕ) → i < k → ¬ IsPosted qp.depth (n + o) (entry (after_polls wait i s)))
      → IsPosted qp.depth (n + o) (entry (after_polls wait k s))
      → reap_at_i d wait qp o polls s
        ≡ done (pos 0, entry (after_polls wait k s), after_polls wait k s)
  unfolding reap_at_i
  reap_at_i-posted k polls s within before posted =
      let some_depth : (qp.depth == 0) ≡ false = ground (arith, a.some_depth) in
      rw (some_depth, poll_at-posted k polls s within before posted) refl
