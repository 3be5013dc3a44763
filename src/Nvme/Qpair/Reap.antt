-- ===== src/Nvme/Qpair/Reap.antt =====
-- Reaping against a controller that posts completions in order.
use upcie.Prelude.{
  ℕ, zero, suc, ◌+◌, ◌/◌, ◌%◌, ◌≤◌, ◌<◌, ◌≡◌, refl, arith, ap, ◌∙◌, bit_and, true, false,
  if◌then◌else◌, List, [], ◌∷◌, pos, neg, eagain, inl,
}
use upcie.Prelude.Bits.{u64, bit_and-mask}
use upcie.Mmio.{Device, mmio_write32}
use upcie.Nvme.Command.{NvmeCompletion}
use upcie.Nvme.Qpair.{Qpair, Reaped, advance_head, is_fresh, is_zero, reap_cpl}
use upcie.Nvme.Qpair.Phase.{IsAt, phase_of, advance_head-IsAt, is_fresh-lap}

-- The queue keeps its place and length.
pub advance_head-cq : (qp : Qpair) → (advance_head qp).cq ≡ qp.cq
unfolding advance_head
advance_head-cq qp = ground arith

pub advance_head-depth : (qp : Qpair) → (advance_head qp).depth ≡ qp.depth
unfolding advance_head
advance_head-depth qp = ground arith

module _ {S : Type 0} (d : Device S) where
  -- Neither time nor a doorbell changes the queue: the controller posts nothing more.
  pub record IsQuiet : Type 0 where
    pub load-usleep : (cq i us : ℕ) (s : S) → d.load_cqe cq i (d.usleep us s) ≡ d.load_cqe cq i s
    pub load-write32 :
        (cq i a v : ℕ) (s : S) → d.load_cqe cq i (d.write32 a v s) ≡ d.load_cqe cq i s

  -- From number `lo` on, `count` entries of `post` stand in the queue, each with the phase bit of its
  -- round, and the slot after them has the bit of the round before.
  pub record Holds (cq depth : ℕ) (post : ℕ → NvmeCompletion) (lo count : ℕ) (s : S) : Type 0 where
    pub cids : (k : ℕ) → (post k).cid < 0xFFFF
    pub phases : (k : ℕ) → (post k).status % 2 ≡ phase_of depth k
    pub held : (k : ℕ) → lo ≤ k → k < lo + count → d.load_cqe cq (k % depth) s ≡ post k
    pub old : (d.load_cqe cq ((lo + count) % depth) s).status % 2 ≡ (lo + count) / depth % 2

  -- As many reaps as `rounds`, or up to the first that finds nothing.
  pub reap_many : ℕ → Qpair → ℕ → NvmeCompletion → S → List NvmeCompletion
  reap_many zero qp timeout_ms cpl s = []
  reap_many (suc rounds) qp timeout_ms cpl s =
      let w = reap_cpl d qp timeout_ms cpl s in
      let rest = reap_many rounds w.qp timeout_ms w.cpl w.dev in
      if is_zero w.err then w.cpl ∷ rest else []

  -- The entries of `post` with `count` numbers from `lo` on.
  pub posts_from : (ℕ → NvmeCompletion) → ℕ → ℕ → List NvmeCompletion
  posts_from post lo zero = []
  posts_from post lo (suc count) = post lo ∷ posts_from post (lo + 1) count

  -- An entry of the round before is told by its phase bit.
  is_fresh_stale :
      {qp : Qpair} (n : ℕ) (cqe : NvmeCompletion)
      → IsAt qp n
      → cqe.status % 2 ≡ n / qp.depth % 2
      → is_fresh qp cqe ≡ false
  unfolding is_fresh
  is_fresh_stale {qp} n cqe a old =
      let bit : bit_and cqe.status 0x1 ≡ n / qp.depth % 2 = bit_and-mask 1 cqe.status ∙ old in
      rw (bit, a.phase_at) (ground arith)

  module _ (quiet : IsQuiet) where
    -- An entry of the round before is never taken.
    reap_cpl_stale :
        (qp : Qpair) (n timeout_ms : ℕ) (cpl : NvmeCompletion) (s : S)
        → IsAt qp n
        → (d.load_cqe qp.cq (n % qp.depth) s).status % 2 ≡ n / qp.depth % 2
        → (w : Reaped S) × (reap_cpl d qp timeout_ms cpl s ≡ w)
          × (w.err ≡ neg (pos eagain))
          × (w.qp ≡ qp)
          × (w.cpl ≡ cpl)
    unfolding reap_cpl
    reap_cpl_stale qp n zero cpl s a old = (_, refl, refl, refl, refl)
    reap_cpl_stale qp n (suc left) cpl s a old =
        let cqe : NvmeCompletion = d.load_cqe qp.cq qp.head s in
        let missed : is_fresh qp cqe ≡ false =
          rw a.head_at (is_fresh_stale n (d.load_cqe qp.cq (n % qp.depth) s) a old) in
        let next =
          reap_cpl_stale qp n left cpl (d.usleep 1000 s) a
            (rw (quiet.load-usleep qp.cq (n % qp.depth) 1000 s) old) in
        let skip : reap_cpl d qp (suc left) cpl s ≡ reap_cpl d qp left cpl (d.usleep 1000 s) =
          rw missed refl in
        (next.0, skip ∙ next.1, next.2, next.3, next.4)

    -- The entry at the head is taken at the first poll.
    reap_cpl_fresh :
        (qp : Qpair) (n left : ℕ) (cpl cqe : NvmeCompletion) (s : S)
        → IsAt qp n
        → d.load_cqe qp.cq (n % qp.depth) s ≡ cqe
        → cqe.cid < 0xFFFF
        → cqe.status % 2 ≡ phase_of qp.depth n
        → reap_cpl d qp (suc left) cpl s ≡ record {
          err = pos 0;
          cpl = cqe;
          qp = advance_head qp;
          dev = mmio_write32 d qp.cqdb 0 (advance_head qp).head s;
        }
    unfolding reap_cpl
    reap_cpl_fresh qp n left cpl cqe s a at cid bit =
        let fresh : is_fresh qp cqe ≡ true =
          is_fresh-lap n cqe a cid bit (inl refl) ∙ ground arith in
        let there : d.load_cqe qp.cq qp.head s ≡ cqe = rw a.head_at at in rw (there, fresh) refl

    -- What stands in the queue after the entry at the head.
    next-Holds :
        (qp : Qpair) (post : ℕ → NvmeCompletion) (lo count : ℕ) (s : S)
        → Holds qp.cq qp.depth post lo (suc count) s
        → Holds
            (advance_head qp).cq
            (advance_head qp).depth
            post
            (lo + 1)
            count
            (mmio_write32 d qp.cqdb 0 (advance_head qp).head s)
    next-Holds qp post lo count s h =
        let a : ℕ = u64 (qp.cqdb + 0) in
        let v : ℕ = (advance_head qp).head in
        let index : lo + 1 + count ≡ lo + suc count = omega arith in
        rw (advance_head-cq qp, advance_head-depth qp)
          (record {
            cids = h.cids;
            phases = h.phases;
            held = λ k p q.
                quiet.load-write32 qp.cq (k % qp.depth) a v s
                ∙ h.held k (omega arith) (omega arith);
            old = rw (index, quiet.load-write32 qp.cq ((lo + suc count) % qp.depth) a v s) h.old;
          })

    -- A controller has posted `count` entries from number `lo` on and the head stands at the first:
    -- reaping once more than that delivers them all, in order and once each, and then nothing.
    pub reap_many-fifo :
        (qp : Qpair) (post : ℕ → NvmeCompletion) (lo count timeout_ms : ℕ) (cpl : NvmeCompletion)
        (s : S)
        → IsAt qp lo
        → 1 ≤ timeout_ms
        → Holds qp.cq qp.depth post lo count s
        → reap_many (suc count) qp timeout_ms cpl s ≡ posts_from post lo count
    unfolding reap_many posts_from
    reap_many-fifo qp post lo zero timeout_ms cpl s a t h =
        let at : lo + 0 ≡ lo = omega arith in
        let old = rw at at h.old in
        let stale = reap_cpl_stale qp lo timeout_ms cpl s a old in
        let timed_out : is_zero (reap_cpl d qp timeout_ms cpl s).err ≡ false =
          ap (λ (w : Reaped S). is_zero w.err) stale.1 ∙ ap is_zero stale.2 in
        rw timed_out refl
    reap_many-fifo qp post lo (suc count) zero cpl s a t h = absurd (omega arith)
    reap_many-fifo qp post lo (suc count) (suc left) cpl s a t h =
        let at = h.held lo (omega arith) (omega arith) in
        let rest = next-Holds qp post lo count s h in
        rw (reap_cpl_fresh qp lo left cpl (post lo) s a at (h.cids lo) (h.phases lo)) (
          ap (λ l. post lo ∷ l)
            (reap_many-fifo (advance_head qp) post (lo + 1) count (suc left) (post lo)
              (mmio_write32 d qp.cqdb 0 (advance_head qp).head s) (advance_head-IsAt a) t rest))
