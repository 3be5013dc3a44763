-- ===== src/Nvme/Tests.antt =====
-- The registers and a queue pair at the sample device.
use upcie.Prelude.{
  ℕ, zero, suc, ◌%◌, ◌^◌, ◌<◌, ◌≤◌, ◌≡◌, ◌==◌, if◌then◌else◌, refl, arith, [], replicate,
  length-replicate, done, some, get_elem?, ltb,
}
use upcie.Mmio.Sample.{sample_device, sample_post}
use upcie.Nvme.Command.{NvmeCompletion, zero_command, zero_completion}
use upcie.Nvme.Cc
use upcie.Nvme.Cc.Fields
use upcie.Nvme.Registers.{csts_wait_until_ready, csts_wait_until_not_ready}
use upcie.Nvme.Registers.Wait.{Waited, csts_wait_until_lem}
use upcie.Nvme.Request.{RequestPool, NvmeRequest, pool_len, pool_init}
use upcie.Nvme.Request.Pool.{IsPool, pool_init-IsPool}
use upcie.Nvme.Qpair.{Reaped, Qpair, submit_sync}
use upcie.Nvme.Qpair.Phase.{IsAt, phase_of}
use upcie.Nvme.Qpair.Reap.{IsQuiet, Holds, reap_many, posts_from, reap_many-fifo}
use upcie.Nvme.Qpair.Sync.{IsReady, Kept, Outcomes, Handed, submitted, submit_sync-Outcomes}

abbrev registers : ℕ → ℕ
registers a = 1

field-setter_example :
    Fields.field Fields.iosqes (Fields.setter Fields.mps 0x460001 9)
    ≡ (if 7 == 16 then 9 % 2 ^ 4 else Fields.field Fields.iosqes 0x460001)
field-setter_example = Fields.field-setter Fields.mps Fields.iosqes 0x460001 9 (omega arith)

get_iosqes-set_iosqes_example : Cc.get_iosqes (Cc.set_iosqes 1 6) ≡ Cc.get_iosqes 1
get_iosqes-set_iosqes_example = Fields.get_iosqes-set_iosqes 1 6 (omega arith)

csts_wait_until_lem_example :
    Waited sample_device 4096 1 500 registers
      (csts_wait_until_ready sample_device 4096 500 registers)
    × Waited sample_device 4096 0 500 registers
        (csts_wait_until_not_ready sample_device 4096 500 registers)
csts_wait_until_lem_example = csts_wait_until_lem sample_device 4096 500 registers

abbrev pool : RequestPool
pool = record { reqs = []; stack = replicate 1024 0; top = 1; prps = 0 }

abbrev qpair : Qpair
qpair = record {
  sq = 0;
  cq = 65536;
  sqdb = 8192;
  cqdb = 8196;
  qid = 1;
  depth = 4;
  tail = 0;
  tail_last_written = 65535;
  head = 0;
  phase = 1;
  rpool = pool;
}

qpair-IsAt : IsAt qpair 0
qpair-IsAt = record {
  some_depth = omega arith;
  depth_fits = omega arith;
  head_at = refl;
  phase_at = refl;
}

abbrev post : ℕ → NvmeCompletion
post k = sample_post (phase_of 4 k) k

sample_device-IsQuiet : IsQuiet sample_device
sample_device-IsQuiet = record {
  load-usleep = λ cq i us s. refl;
  load-write32 = λ cq i a v s. refl;
}

sample_device-Holds : Holds sample_device 65536 4 post 0 2 registers
sample_device-Holds = record {
  cids = λ k. omega arith;
  phases = λ k. omega arith;
  held = both;
  old = refl;
}
  where
    both :
        (k : ℕ)
        → 0 ≤ k
        → k < 2
        → (if ltb (k % 4) 2 then sample_post 1 (k % 4) else zero_completion) ≡ post k
    both zero h l = refl
    both (suc zero) h l = refl
    both (suc (suc k)) h l = absurd (omega arith)

reap_many-fifo_example :
    reap_many sample_device 3 qpair 10 zero_completion registers ≡ posts_from sample_device post 0 2
reap_many-fifo_example =
    reap_many-fifo sample_device sample_device-IsQuiet qpair post 0 2 10 zero_completion registers
      qpair-IsAt (omega arith) sample_device-Holds

abbrev blank_request : NvmeRequest
blank_request = record { cid = 0; user = 0; prp_addr = 0; prp = 0 }

-- The pool of a new queue pair.
started :
    (pool' : RequestPool) × (pool_init (record pool { reqs = replicate 1024 blank_request })
      ≡ done pool')
    × IsPool pool'
    × (pool'.top ≡ pool_len)
    × ((i : ℕ)
        → i < pool_len
        → (req : NvmeRequest) × (get_elem? pool'.reqs i ≡ some req) × (req.cid ≡ i))
started =
    pool_init-IsPool (record pool { reqs = replicate 1024 blank_request })
      (length-replicate 1024 blank_request) (length-replicate {A = ℕ} 1024 0)

abbrev started_qpair : Qpair
started_qpair = record qpair { rpool = started.0 }

started_qpair-IsReady : IsReady started_qpair
started_qpair-IsReady = record {
  pool = started.2;
  room = omega (arith, started.3);
  some_depth = omega arith;
  numbered = started.4;
}

submit_sync-Outcomes_example :
    (w : Reaped (ℕ → ℕ)) × (handed : Handed sample_device started_qpair) × (submit_sync
        sample_device started_qpair zero_command 10 zero_completion registers
      ≡ done w)
    × Outcomes sample_device started_qpair 10
        (submitted sample_device started_qpair
          (record zero_command { cid = handed.req.cid })
          registers)
        w
    × Kept started_qpair w.qp
submit_sync-Outcomes_example =
    submit_sync-Outcomes sample_device started_qpair zero_command 10 zero_completion registers
      started_qpair-IsReady
