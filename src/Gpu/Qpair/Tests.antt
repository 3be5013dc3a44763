-- ===== src/Gpu/Qpair/Tests.antt =====
-- A queue pair of four entries in GPU memory, three of which were taken.
use upcie.Prelude.{ℕ, zero, suc, ◌+◌, ◌<◌, ◌≡◌, refl, arith, ltb, if◌then◌else◌, pos, done}
use upcie.Mmio.{Device}
use upcie.Mmio.Sample.{sample_post}
use upcie.Gpu.Qpair.{QpairCuda, move_head, reap_at_i}
use upcie.Gpu.Qpair.Phase.{IsCounting, move_head-IsCounting}
use upcie.Gpu.Qpair.Posted.{reap_at_i-posted, IsPosted, after_polls, entry}

abbrev qpair : QpairCuda
qpair = record {
  sq = 4096;
  cq = 8192;
  sqdb = 12288;
  cqdb = 12292;
  qid = 1;
  depth = 4;
  tail = 3;
  head = 3;
  phase = 1;
  timeout_ms = 1000;
  clocks_per_ms = 1000000;
}

qpair-IsCounting : IsCounting qpair 3
qpair-IsCounting = record {
  some_depth = omega arith;
  depth_fits = omega arith;
  head_at = refl;
  phase_at = refl;
}

move_head-IsCounting_example : IsCounting (move_head qpair 2) (3 + 2)
move_head-IsCounting_example = move_head-IsCounting qpair-IsCounting 2 (omega arith)

-- A device whose state is the number of polls, which posts the fifth entry after two of them.
abbrev device : Device ℕ
device = record {
  read32 = λ a s. (0, s);
  write32 = λ a v s. s;
  usleep = λ us s. s;
  load_cqe = λ cq i s. if ltb s 2 then sample_post 1 i else sample_post 0 i;
  store_sqe = λ sq i cmd s. s;
  store_prps = λ a prps s. s;
  zero_memory = λ a nbytes s. s;
}

not_yet :
    (i : ℕ)
    → i < 2
    → ¬ IsPosted 4 4
        (entry device (λ s. s + 1) qpair-IsCounting 1 (omega arith) (after_polls (λ s. s + 1) i 0))
not_yet zero h (real, bit) = absurd (omega (arith, bit))
not_yet (suc zero) h (real, bit) = absurd (omega (arith, bit))
not_yet (suc (suc i)) h posted = absurd (omega (arith, h))

reap_at_i-posted_example :
    reap_at_i device (λ s. s + 1) qpair 1 10 0 ≡ done (pos 0, sample_post 0 0, 2)
reap_at_i-posted_example =
    reap_at_i-posted device (λ s. s + 1) qpair-IsCounting 1 (omega arith) 2 10 0 (omega arith)
      not_yet (omega arith, refl)
