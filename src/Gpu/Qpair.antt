-- ===== src/Gpu/Qpair.antt =====
-- include/upcie/nvme/nvme_qpair_cuda.h: a queue pair that the threads of a block share. Thread `tid`
-- works on the entry `tid` behind the tail and the head, which only thread 0 moves. A barrier stands
-- between the parts of `nvme_qpair_cuda_io`, so they are functions of their own here.
pub mod Phase
pub mod Posted
mod Tests
use upcie.Prelude.{
  ℕ, zero, suc, ◌+◌, ◌-◌, ◌%◌, ◌==◌, ◌&&◌, ltb, leb, if◌then◌else◌, bit_and, bit_xor, ℤ, pos, neg,
  eagain, Bool, Outcome, done, fault, ◌>>=◌,
}
use upcie.Prelude.Bits.{u16, sub64, shr}
use upcie.Mmio.{Device}
use upcie.Nvme.Command.{NvmeCommand, NvmeCompletion, zero_completion}

-- `struct nvme_qpair_cuda`, without the padding.
pub record QpairCuda : Type 0 where
  pub sq : ℕ
  pub cq : ℕ
  pub sqdb : ℕ
  pub cqdb : ℕ
  pub qid : ℕ
  pub depth : ℕ
  pub tail : ℕ
  pub head : ℕ
  pub phase : ℕ
  pub timeout_ms : ℕ
  pub clocks_per_ms : ℕ

-- The phase bit of the entry `offset` behind the head.
unfoldable pub expected_phase : QpairCuda → ℕ → ℕ
expected_phase qp offset =
    if leb qp.depth (u16 (qp.head + offset)) then bit_xor qp.phase 1 else qp.phase

-- The test of an entry.
unfoldable pub is_posted : QpairCuda → ℕ → NvmeCompletion → Bool
is_posted qp offset cqe = ltb cqe.cid 0xFFFF && (bit_and cqe.status 0x1 == expected_phase qp offset)

-- Head and phase, moved on.
unfoldable pub move_head : QpairCuda → ℕ → QpairCuda
move_head qp increment =
    let new_head = u16 (qp.head + increment) in
    if leb qp.depth new_head
    then record qp { head = new_head - qp.depth; phase = bit_xor qp.phase 1 }
    else record qp { head = new_head }

module _ {S : Type 0} (d : Device S) where
  -- With a depth of 0 the remainders are undefined in C. A command is written as a whole.
  unfoldable pub enqueue_at_i : QpairCuda → NvmeCommand → ℕ → S → Outcome S
  enqueue_at_i qp cmd offset s =
      if qp.depth == 0
      then fault
      else done (d.store_sqe qp.sq (u16 ((qp.tail + offset) % qp.depth)) cmd s)

  unfoldable pub sq_update : QpairCuda → ℕ → S → Outcome (QpairCuda × S)
  sq_update qp increment s =
      let tail = u16 ((qp.tail + increment) % qp.depth) in
      if qp.depth == 0 then fault else done (record qp { tail = tail }, d.write32 qp.sqdb tail s)

  -- The loop of `nvme_qpair_cuda_reap_at_i`; `polls` is how often the clock is found below the deadline,
  -- and `wait` what the device does in between.
  unfoldable pub poll_at : (S → S) → QpairCuda → ℕ → ℕ → S → ℤ × NvmeCompletion × S
  unfolding is_posted expected_phase
  poll_at wait qp offset zero s =
      let cqe = d.load_cqe qp.cq (u16 ((qp.head + offset) % qp.depth)) s in
      if is_posted qp offset cqe then (pos 0, cqe, s) else (neg (pos eagain), zero_completion, s)
  poll_at wait qp offset (suc polls) s =
      let cqe = d.load_cqe qp.cq (u16 ((qp.head + offset) % qp.depth)) s in
      let rest = poll_at wait qp offset polls (wait s) in
      if is_posted qp offset cqe then (pos 0, cqe, s) else rest

  unfoldable pub reap_at_i : (S → S) → QpairCuda → ℕ → ℕ → S → Outcome (ℤ × NvmeCompletion × S)
  reap_at_i wait qp offset polls s =
      if qp.depth == 0 then fault else done (poll_at wait qp offset polls s)

  unfoldable pub cq_update : QpairCuda → ℕ → S → QpairCuda × S
  unfolding move_head
  cq_update qp increment s =
      let moved = move_head qp increment in (moved, d.write32 qp.cqdb moved.head s)

  -- The four parts of `nvme_qpair_cuda_io` of a thread: before the first barrier, between the barriers
  -- the doorbell and the reaping, and after the second one.
  unfoldable pub io_enqueue : QpairCuda → NvmeCommand → ℕ → ℕ → S → Outcome S
  io_enqueue qp cmd tid batch_size s =
      if ltb tid batch_size
      then enqueue_at_i qp (record cmd { cid = u16 tid }) (u16 tid) s
      else done s

  unfoldable pub io_ring : QpairCuda → ℕ → ℕ → S → Outcome (QpairCuda × S)
  io_ring qp tid batch_size s =
      if tid == 0 && ltb 0 batch_size then sq_update qp (u16 batch_size) s else done (qp, s)

  unfoldable pub io_reap : (S → S) → QpairCuda → ℕ → ℕ → ℕ → S → Outcome (ℤ × NvmeCompletion × S)
  io_reap wait qp tid batch_size polls s =
      if ltb tid batch_size
      then reap_at_i wait qp (u16 tid) polls s
      else done (pos 0, zero_completion, s)

  unfoldable pub io_advance : QpairCuda → ℕ → ℕ → S → QpairCuda × S
  io_advance qp tid batch_size s =
      if tid == 0 && ltb 0 batch_size then cq_update qp (u16 batch_size) s else (qp, s)

-- The return value of `nvme_qpair_cuda_io`.
unfoldable pub io_status : ℤ × NvmeCompletion → ℤ
io_status (pos zero, cpl) = pos (shr (bit_and cpl.status 0x1FE) 1)
io_status (err, cpl) = err
