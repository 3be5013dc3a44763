-- ===== src/Nvme/Qpair/Setup.antt =====
-- include/upcie/nvme/nvme_qpair.h: the set-up and the release of a queue pair.
use upcie.Prelude.{
  ℕ, ◌+◌, ◌*◌, ◌^◌, if◌then◌else◌, Bool, List, Option, some, none, replicate, ℤ, pos, neg, enomem,
  is_zero, Outcome, done, ◌>>=◌,
}
use upcie.Prelude.Bits.{u32, u64}
use upcie.Hostmem.Types.{HeapBlock, HostmemHeap}
use upcie.Hostmem.Dma.Memory.{hostmem_dma_alloc_array, hostmem_dma_free}
use upcie.Mmio.{Device}
use upcie.Nvme.Cap.{get_dstrd}
use upcie.Nvme.Registers.{cap_read}
use upcie.Nvme.Request.{NvmeRequest, RequestPool, pool_len, pool_init}
use upcie.Nvme.Request.Pages.{init_prps, term_prps}
use upcie.Nvme.Qpair.{Qpair}

-- The pointer `rpool` after the set-up: as it was, NULL, to the pool, or to memory that was freed.
pub data PoolPointer : Type 0 where
  untouched : PoolPointer
  null : PoolPointer
  live : PoolPointer
  dangling : PoolPointer

-- What `nvme_qpair_init` leaves.
pub record Setup (S : Type 0) : Type 0 where
  pub err : ℤ
  pub qp : Qpair
  pub rpool_pointer : PoolPointer
  pub heap : HostmemHeap
  pub dev : S

-- `nbytes`, of a queue.
abbrev pub queue_nbytes : ℕ
queue_nbytes = 1024 * 64

-- `-errno` where an allocation failed; each failed allocation sets it.
abbrev pub minus_errno : Option ℕ → ℤ
minus_errno none = pos 0
minus_errno (some code) = neg (pos code)

-- `calloc(1, sizeof(struct nvme_request_pool))`.
abbrev pub zero_request : NvmeRequest
zero_request = record { cid = 0; user = 0; prp_addr = 0; prp = 0 }

abbrev pub zero_pool : RequestPool
zero_pool = record {
  reqs = replicate pool_len zero_request;
  stack = replicate pool_len 0;
  top = 0;
  prps = 0;
}

abbrev with_list : HostmemHeap → List HeapBlock → HostmemHeap
with_list heap list = record heap { freelist = list }

module _ {S : Type 0} (d : Device S) where
  -- The first lines, up to the allocations.
  unfoldable pub init_fields : Qpair → ℕ → ℕ → ℕ → S → Qpair × S
  init_fields qp qid depth bar0 s =
      let (cap, s) = cap_read d bar0 s in
      let dstrd = get_dstrd cap in
      (
        record qp {
          sqdb = u64 (u64 (bar0 + 0x1000) + u32 (u32 (2 * qid) * 2 ^ (2 + dstrd)));
          cqdb = u64 (u64 (bar0 + 0x1000) + u32 (u32 (2 * qid + 1) * 2 ^ (2 + dstrd)));
          qid = qid;
          tail = 0;
          tail_last_written = 0xFFFF;
          head = 0;
          depth = depth;
          phase = 1;
        },
        s,
      )

  -- The last lines, where both queues have their memory.
  unfoldable pub init_pool : Bool → Qpair → HostmemHeap → S → Outcome (Setup S)
  init_pool calloc qp heap s =
      if calloc
      then (do
        pool ← pool_init zero_pool
        set ← init_prps pool heap
        if is_zero set.err
            then done (record {
              err = pos 0;
              qp = record qp { rpool = set.pool };
              rpool_pointer = live;
              heap = set.heap;
              dev = s;
            })
            else (do
              heap ← hostmem_dma_free set.heap qp.sq
              heap ← hostmem_dma_free heap qp.cq
              done (record {
                err = minus_errno set.errno;
                qp = qp;
                rpool_pointer = dangling;
                heap = heap;
                dev = s;
              })))
      else (do
        heap ← hostmem_dma_free heap qp.sq
        heap ← hostmem_dma_free heap qp.cq
        done (record {
          err = neg (pos enomem);
          qp = qp;
          rpool_pointer = null;
          heap = heap;
          dev = s;
        }))

  -- By the pointer to the memory of the completion queue.
  unfoldable pub with_cq : Bool → Qpair → HostmemHeap → S → Option ℕ → Option ℕ → Outcome (Setup S)
  with_cq calloc qp heap s errno none = do
    heap ← hostmem_dma_free heap qp.sq
    done (record {
      err = minus_errno errno;
      qp = record qp { cq = 0 };
      rpool_pointer = untouched;
      heap = heap;
      dev = s;
    })
  with_cq calloc qp heap s errno (some cq) =
      init_pool calloc (record qp { cq = cq }) heap (d.zero_memory cq queue_nbytes s)

  -- By the pointer to the memory of the submission queue.
  unfoldable pub with_sq : Bool → Qpair → HostmemHeap → S → Option ℕ → Option ℕ → Outcome (Setup S)
  unfolding with_cq
  with_sq calloc qp heap s errno none = done (record {
    err = minus_errno errno;
    qp = record qp { sq = 0 };
    rpool_pointer = untouched;
    heap = heap;
    dev = s;
  })
  with_sq calloc qp heap s errno (some sq) = do
    r ← hostmem_dma_alloc_array heap 1 queue_nbytes
    with_cq calloc (record qp { sq = sq }) (with_list heap r.list) (d.zero_memory sq queue_nbytes s)
        r.errno r.ptr

  -- `calloc` says whether the pool gets its memory; that of a pool which did not is that of before.
  unfoldable pub qpair_init : Bool → Qpair → ℕ → ℕ → ℕ → HostmemHeap → S → Outcome (Setup S)
  unfolding with_sq
  qpair_init calloc qp qid depth bar0 heap s = do
    let (qp, s) = init_fields qp qid depth bar0 s
    r ← hostmem_dma_alloc_array heap 1 queue_nbytes
    with_sq calloc qp (with_list heap r.list) s r.errno r.ptr

-- The queue pair itself stays as it is.
unfoldable pub qpair_term : Qpair → HostmemHeap → Outcome HostmemHeap
qpair_term qp heap = do
  heap ← term_prps qp.rpool heap
  heap ← hostmem_dma_free heap qp.sq
  hostmem_dma_free heap qp.cq
