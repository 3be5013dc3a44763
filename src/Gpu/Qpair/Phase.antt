-- ===== src/Gpu/Qpair/Phase.antt =====
-- Head and phase as a count of the completions that were taken, as in Nvme/Qpair/Phase.antt, and the
-- entries behind the head.
use native.Mathlib.Nat.{
  mod-lt, div-add-mod, mul-add-div, div-eq_of_lt, mul-add-mod_self_left, mod-eq_of_lt, mod-add-mod,
}
use upcie.Prelude.{
  ℕ, ◌+◌, ◌-◌, ◌*◌, ◌/◌, ◌%◌, ◌^◌, ◌≤◌, ◌<◌, ◌≡◌, refl, arith, ap, sym, subst, ◌∙◌, bit_xor, leb,
  dec_lt, true, false,
}
use upcie.Prelude.Bits.{u16}
use upcie.Prelude.Blocks.{add-mod_inside, add-div_inside}
use upcie.Nvme.Qpair.Phase.{phase_of, flip_phase}
use upcie.Gpu.Qpair.{QpairCuda, expected_phase, move_head}

-- `n` completions were taken.
pub record IsCounting (qp : QpairCuda) (n : ℕ) : Type 0 where
  pub some_depth : 1 ≤ qp.depth
  pub depth_fits : qp.depth ≤ 2 ^ 15
  pub head_at : qp.head ≡ n % qp.depth
  pub phase_at : qp.phase ≡ phase_of qp.depth n

-- `o` entries on, at most a round.
module _ (depth n o : ℕ) (some_depth : 1 ≤ depth) where
  past_mod :
      depth ≤ n % depth + o
      → n % depth + o < depth + depth
      → (n + o) % depth ≡ n % depth + o - depth
  past_mod low high =
      let split : n + o ≡ depth * (n / depth + 1) + (n % depth + o - depth) =
        omega (arith, div-add-mod n depth, low) in
      rw split (
        mul-add-mod_self_left depth (n / depth + 1) (n % depth + o - depth)
        ∙ mod-eq_of_lt (omega (arith, low, high)))

  past_div : depth ≤ n % depth + o → n % depth + o < depth + depth → (n + o) / depth ≡ n / depth + 1
  past_div low high =
      let split : n + o ≡ depth * (n / depth + 1) + (n % depth + o - depth) =
        omega (arith, div-add-mod n depth, low) in
      let small : n % depth + o - depth < depth = omega (arith, low, high) in
      rw split (
        mul-add-div some_depth (n / depth + 1) (n % depth + o - depth)
        ∙ ap (λ (t : ℕ). n / depth + 1 + t) (div-eq_of_lt small)
        ∙ omega arith)

module _ {qp : QpairCuda} {n : ℕ} (a : IsCounting qp n) where
  head-lt : qp.head < qp.depth
  head-lt = omega (arith, a.head_at, mod-lt n a.some_depth)

  -- The slot of an entry up to a round behind the head.
  pub add_head-mod : (o : ℕ) → (qp.head + o) % qp.depth ≡ (n + o) % qp.depth
  add_head-mod o = ap (λ (t : ℕ). (t + o) % qp.depth) a.head_at ∙ mod-add-mod n qp.depth o

  -- The phase of an entry up to a round behind the head.
  pub expected_phase-phase_of :
      (o : ℕ) → o ≤ qp.depth → expected_phase qp o ≡ phase_of qp.depth (n + o)
  unfolding expected_phase
  expected_phase-phase_of o h =
      let plain : u16 (qp.head + o) ≡ qp.head + o = omega (arith, head-lt, h, a.depth_fits) in
      elim (dec_lt (qp.head + o) qp.depth) [
        | yes inside ↦
            let test : leb qp.depth (qp.head + o) ≡ false = ground (arith, inside) in
            rw (plain, test)
              (a.phase_at
                ∙ ap (λ (t : ℕ). (t + 1) % 2)
                    (sym (
                      add-div_inside qp.depth a.some_depth n o (omega (arith, a.head_at, inside)))))
        | no past ↦
            let test : leb qp.depth (qp.head + o) ≡ true = ground (arith, past) in
            rw (plain, test)
              (ap (λ (t : ℕ). bit_xor t 1) a.phase_at
                ∙ flip_phase (n / qp.depth)
                ∙ ap (λ (t : ℕ). (t + 1) % 2)
                    (sym (
                      past_div qp.depth n o a.some_depth (omega (arith, a.head_at, past))
                        (omega (arith, a.head_at, head-lt, h)))))
      ]

  -- Where head and phase stand for a number of completions that were taken, in a queue of at most
  -- 2 ^ 15 entries, taking up to a round of completions at once makes them stand for as many more, also
  -- where the head wraps.
  pub move_head-IsCounting : (o : ℕ) → o ≤ qp.depth → IsCounting (move_head qp o) (n + o)
  unfolding move_head
  move_head-IsCounting o h =
      let plain : u16 (qp.head + o) ≡ qp.head + o = omega (arith, head-lt, h, a.depth_fits) in
      elim (dec_lt (qp.head + o) qp.depth) [
        | yes inside ↦
            let test : leb qp.depth (qp.head + o) ≡ false = ground (arith, inside) in
            let moved : move_head qp o ≡ record qp { head = qp.head + o } = rw (plain, test) refl in
            let less : n % qp.depth + o < qp.depth = omega (arith, a.head_at, inside) in
            subst (λ q. IsCounting q (n + o)) (sym moved)
              (record {
                some_depth = a.some_depth;
                depth_fits = a.depth_fits;
                head_at = omega (arith, a.head_at, add-mod_inside qp.depth a.some_depth n o less);
                phase_at =
                    a.phase_at
                    ∙ ap (λ (t : ℕ). (t + 1) % 2)
                        (sym (add-div_inside qp.depth a.some_depth n o less));
              })
        | no past ↦
            let test : leb qp.depth (qp.head + o) ≡ true = ground (arith, past) in
            let moved : move_head qp o
                ≡ record qp { head = qp.head + o - qp.depth; phase = bit_xor qp.phase 1 } =
              rw (plain, test) refl in
            let low : qp.depth ≤ n % qp.depth + o = omega (arith, a.head_at, past) in
            let high : n % qp.depth + o < qp.depth + qp.depth =
              omega (arith, a.head_at, head-lt, h) in
            subst (λ q. IsCounting q (n + o)) (sym moved)
              (record {
                some_depth = a.some_depth;
                depth_fits = a.depth_fits;
                head_at = omega (arith, a.head_at, past_mod qp.depth n o a.some_depth low high);
                phase_at =
                    ap (λ (t : ℕ). bit_xor t 1) a.phase_at
                    ∙ flip_phase (n / qp.depth)
                    ∙ ap (λ (t : ℕ). (t + 1) % 2)
                        (sym (past_div qp.depth n o a.some_depth low high));
              })
      ]
