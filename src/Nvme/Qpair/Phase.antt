-- ===== src/Nvme/Qpair/Phase.antt =====
-- The head and the phase of a completion queue as a count of the completions that were taken.
use native.Mathlib.Nat.{mod-lt, div-add-mod, mul-add-div, div_self, add-div_right}
use upcie.Prelude.{
  ℕ, ◌+◌, ◌*◌, ◌/◌, ◌%◌, ◌^◌, ◌≤◌, ◌<◌, ◌≡◌, ◌==◌, refl, arith, ap, sym, subst, ◌∙◌, ◌≢◌, bit_and,
  bit_xor, ℕ_discrete, ◌⊎◌, inl, inr,
}
use upcie.Prelude.Bits.{u16, bit_and-mask}
use upcie.Prelude.Blocks.{suc-mod_inside, suc-mod_wrap, add-div_inside}
use upcie.Nvme.Command.{NvmeCompletion}
use upcie.Nvme.Qpair.{Qpair, advance_head, is_fresh}

-- The phase bit of the entry with number `k` in a queue of `depth`: 1 in the first round.
abbrev pub phase_of : ℕ → ℕ → ℕ
phase_of depth k = (k / depth + 1) % 2

-- `n` completions were taken.
pub record IsAt (qp : Qpair) (n : ℕ) : Type 0 where
  pub some_depth : 1 ≤ qp.depth
  pub depth_fits : qp.depth < 2 ^ 16
  pub head_at : qp.head ≡ n % qp.depth
  pub phase_at : qp.phase ≡ phase_of qp.depth n

-- The last entry of a round is followed by the first of the next.
pub suc-div_wrap :
    (depth n : ℕ) → 1 ≤ depth → n % depth + 1 ≡ depth → (n + 1) / depth ≡ n / depth + 1
suc-div_wrap depth n h e =
    let split : n + 1 ≡ depth * (n / depth) + depth = omega (arith, div-add-mod n depth) in
    rw split (mul-add-div h (n / depth) depth ∙ ap (λ (t : ℕ). n / depth + t) (div_self h))

pub flip_phase : (round : ℕ) → bit_xor ((round + 1) % 2) 1 ≡ (round + 1 + 1) % 2
flip_phase round = elim (ℕ_discrete (round % 2) 0) [
  | yes even ↦
      let now : (round + 1) % 2 ≡ 1 = omega arith in
      let then_ : (round + 1 + 1) % 2 ≡ 0 = omega arith in rw (now, then_) refl
  | no odd ↦
      let now : (round + 1) % 2 ≡ 0 = omega arith in
      let then_ : (round + 1 + 1) % 2 ≡ 1 = omega arith in rw (now, then_) refl
]

module _ {qp : Qpair} {n : ℕ} (a : IsAt qp n) where
  head_next : qp.head + 1 ≤ qp.depth
  head_next = omega (arith, a.head_at, mod-lt n a.some_depth)

  -- Where head and phase stand for a number of completions that were taken, the step of the head makes
  -- them stand for one more, also where it wraps.
  pub advance_head-IsAt : IsAt (advance_head qp) (n + 1)
  unfolding advance_head
  advance_head-IsAt = elim (ℕ_discrete (n % qp.depth + 1) qp.depth) [
    | yes wrap ↦
        let moved : advance_head qp ≡ record qp { head = 0; phase = bit_xor qp.phase 1 } =
          ground (arith, a.head_at, a.depth_fits, wrap) in
        subst (λ q. IsAt q (n + 1)) (sym moved)
          (record {
            some_depth = a.some_depth;
            depth_fits = a.depth_fits;
            head_at = sym (suc-mod_wrap qp.depth a.some_depth n wrap);
            phase_at =
                ap (λ (t : ℕ). bit_xor t 1) a.phase_at
                ∙ flip_phase (n / qp.depth)
                ∙ ap (λ (t : ℕ). (t + 1) % 2) (sym (suc-div_wrap qp.depth n a.some_depth wrap));
          })
    | no inside ↦
        let moved : advance_head qp ≡ record qp { head = qp.head + 1 } =
          let small : u16 (qp.head + 1) ≡ qp.head + 1 = omega (arith, head_next, a.depth_fits) in
          rw small (ground (arith, a.head_at, inside)) in
        let less : n % qp.depth + 1 < qp.depth = omega (arith, mod-lt n a.some_depth, inside) in
        subst (λ q. IsAt q (n + 1)) (sym moved)
          (record {
            some_depth = a.some_depth;
            depth_fits = a.depth_fits;
            head_at = omega (arith, a.head_at, suc-mod_inside qp.depth a.some_depth n less);
            phase_at =
                a.phase_at
                ∙ ap (λ (t : ℕ). (t + 1) % 2) (sym (add-div_inside qp.depth a.some_depth n 1 less));
          })
  ]

-- Of an entry of the number that is due and the entry one round before, each with the phase bit of its
-- round and a cid below 0xFFFF, the test of `nvme_qpair_reap_cpl` accepts the first and not the second.
pub is_fresh-lap :
    {qp : Qpair} {n : ℕ} (k : ℕ) (cqe : NvmeCompletion)
    → IsAt qp n
    → cqe.cid < 0xFFFF
    → cqe.status % 2 ≡ phase_of qp.depth k
    → (k ≡ n) ⊎ (k + qp.depth ≡ n)
    → is_fresh qp cqe ≡ (k == n)
unfolding is_fresh
is_fresh-lap {qp} {n} k cqe a h e which =
    let bit : bit_and cqe.status 0x1 ≡ phase_of qp.depth k = bit_and-mask 1 cqe.status ∙ e in
    rw (bit, a.phase_at)
      (elim which [
        | inl same ↦ ground (arith, h)
        | inr before ↦
            let round : n / qp.depth ≡ k / qp.depth + 1 =
              ap (λ (t : ℕ). t / qp.depth) (sym before) ∙ add-div_right k a.some_depth in
            let other : k ≢ n = omega (arith, a.some_depth) in rw round (ground (arith, h, other))
      ])
