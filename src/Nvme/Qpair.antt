-- ===== src/Nvme/Qpair.antt =====
-- include/upcie/nvme/nvme_qpair.h: submission and completion queues. `S` is the state of the device
-- and of the memory shared with it. The pointer to the heap is left out: what uses it takes the
-- heap's window.
pub mod Phase
pub mod Reap
pub mod Sync
pub mod Setup
pub mod Teardown
pub mod Transfer
use upcie.Prelude.{
  ℕ, List, zero, suc, ◌+◌, ◌%◌, ◌==◌, ◌&&◌, ltb, if◌then◌else◌, bit_and, bit_xor, ℤ, pos, neg,
  negsuc, eagain, eio, is_zero, Bool, true, false, Outcome, done, fault, ◌>>=◌, read, get_elem?,
}
use upcie.Prelude.Bits.{u16}
use upcie.Mmio.{Device, mmio_write32}
use upcie.Nvme.Command.{NvmeCommand, NvmeCompletion}
use upcie.Nvme.Request.{NvmeRequest, RequestPool, request_alloc, request_free}
use upcie.Nvme.Prps.{DmaWindow, Prepared, prep_contig}
use upcie.Nvme.Prps.Iov.{Iovec, prep_iov}

-- `struct nvme_qpair`.
pub record Qpair : Type 0 where
  pub sq : ℕ
  pub cq : ℕ
  pub sqdb : ℕ
  pub cqdb : ℕ
  pub qid : ℕ
  pub depth : ℕ
  pub tail : ℕ
  pub tail_last_written : ℕ
  pub head : ℕ
  pub phase : ℕ
  pub rpool : RequestPool

-- What a call that may wait for a completion leaves: `cpl` is the caller's struct.
pub record Reaped (S : Type 0) : Type 0 where
  pub err : ℤ
  pub cpl : NvmeCompletion
  pub qp : Qpair
  pub dev : S

-- The step of the head over an entry.
unfoldable pub advance_head : Qpair → Qpair
advance_head qp =
    let head = u16 (qp.head + 1) in
    if head == qp.depth
    then record qp { head = 0; phase = bit_xor qp.phase 1 }
    else record qp { head = head }

-- The test of an entry.
unfoldable pub is_fresh : Qpair → NvmeCompletion → Bool
is_fresh qp cqe = ltb cqe.cid 0xFFFF && (bit_and cqe.status 0x1 == qp.phase)

module _ {S : Type 0} (d : Device S) where
  -- `timeout_ms` counts down the rounds of the loop.
  unfoldable pub reap_cpl : Qpair → ℕ → NvmeCompletion → S → Reaped S
  unfolding advance_head is_fresh
  reap_cpl qp zero cpl s = record { err = neg (pos eagain); cpl = cpl; qp = qp; dev = s }
  reap_cpl qp (suc left) cpl s =
      let cqe = d.load_cqe qp.cq qp.head s in
      let rest = reap_cpl qp left cpl (d.usleep 1000 s) in
      if is_fresh qp cqe
      then record {
        err = pos 0;
        cpl = cqe;
        qp = advance_head qp;
        dev = mmio_write32 d qp.cqdb 0 (advance_head qp).head s;
      }
      else rest

  unfoldable pub sqdb_update : Qpair → S → Qpair × S
  sqdb_update qp s =
      if qp.tail == qp.tail_last_written
      then (qp, s)
      else (record qp { tail_last_written = qp.tail }, mmio_write32 d qp.sqdb 0 qp.tail s)

  -- With a depth of 0 the remainder is undefined in C.
  unfoldable pub enqueue : Qpair → NvmeCommand → S → Outcome (ℤ × Qpair × S)
  enqueue qp cmd s =
      let s = d.store_sqe qp.sq qp.tail cmd s in
      if qp.depth == 0
      then fault
      else done (pos 0, record qp { tail = u16 ((qp.tail + 1) % qp.depth) }, s)

  -- What the `nvme_qpair_submit_sync*` functions do once the completion was waited for.
  unfoldable pub complete_sync : ℕ → Reaped S → Outcome (Reaped S)
  complete_sync cid w =
      if is_zero w.err
      then (do
        rpool ← request_free w.qp.rpool cid
        done (record w {
          err = if bit_and w.cpl.status 0x1FE == 0 then w.err else neg (pos eio);
          qp = record w.qp { rpool = rpool };
        }))
      else done (record w { err = neg w.err })

  -- The three functions `nvme_qpair_submit_sync*` differ in what they do between the allocation of
  -- the request and the enqueueing of the command, `prep`.
  unfoldable pub submit_with :
      (NvmeRequest → NvmeCommand → S → Outcome (NvmeCommand × S))
      → Qpair
      → NvmeCommand
      → ℕ
      → NvmeCompletion
      → S
      → Outcome (Reaped S)
  submit_with prep qp cmd timeout_ms cpl s = do
    (index, rpool) ← request_alloc qp.rpool
    req ← read (get_elem? rpool.reqs index)
    (cmd, s) ← prep req (record cmd { cid = req.cid }) s
    (err, qp, s) ← enqueue (record qp { rpool = rpool }) cmd s
    let updated = sqdb_update qp s
    if is_zero err
        then complete_sync req.cid (reap_cpl updated.0 timeout_ms cpl updated.1)
        else done (record { err = neg err; cpl = cpl; qp = qp; dev = s })

  unfoldable pub submit_sync : Qpair → NvmeCommand → ℕ → NvmeCompletion → S → Outcome (Reaped S)
  unfolding submit_with
  submit_sync qp cmd timeout_ms cpl s =
      submit_with (λ req cmd s. done (cmd, s)) qp cmd timeout_ms cpl s

  -- What the preparation writes to the request's list page.
  unfoldable pub submit_sync_contig_prps :
      Qpair → DmaWindow → ℕ → ℕ → NvmeCommand → ℕ → NvmeCompletion → S → Outcome (Reaped S)
  unfolding submit_with
  submit_sync_contig_prps qp heap dbuf dbuf_nbytes cmd timeout_ms cpl s =
      submit_with
        (λ req cmd s. do
          prepared ← prep_contig heap req.prp_addr dbuf dbuf_nbytes cmd
          done (prepared.cmd, d.store_prps req.prp prepared.prp_list s))
        qp cmd timeout_ms cpl s

  unfoldable pub submit_sync_iov_prps :
      Qpair → DmaWindow → List Iovec → NvmeCommand → ℕ → NvmeCompletion → S → Outcome (Reaped S)
  unfolding submit_with
  submit_sync_iov_prps qp heap dvec cmd timeout_ms cpl s =
      submit_with
        (λ req cmd s. do
          prepared ← prep_iov heap req.prp_addr dvec cmd
          done (prepared.cmd, d.store_prps req.prp prepared.prp_list s))
        qp cmd timeout_ms cpl s
