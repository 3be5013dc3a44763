-- ===== src/Nvme/Controller.antt =====
-- include/upcie/nvme/nvme_controller.h: opening and closing a controller, and its I/O queue pairs. The
-- struct's fields `csts`, `cap` and `cc`, which nothing sets, are left out.
pub mod Resources
pub mod Queues
pub mod Delete
mod Tests
use upcie.Prelude.{
  ℕ, zero, suc, ◌+◌, ◌-◌, ◌*◌, ◌^◌, ◌==◌, if◌then◌else◌, bit_and, bit_or, Bool, List, [], ◌∷◌,
  Option, some, none, ℤ, pos, negsuc, neg, enomem, is_zero, Outcome, done, fault, ◌>>=◌, read,
  replicate, get_elem?,
}
use upcie.Prelude.Bits.{u16, u32}
use upcie.Os.{Os}
use upcie.Pci.{PciFunc, PciBar, zero_func, func_open, func_close, bar_map}
use upcie.Pci.Addr.{Text}
use upcie.Hostmem.Types.{HeapBlock, HostmemHeap, Alloced}
use upcie.Hostmem.Dma.{hostmem_dma_v2p}
use upcie.Hostmem.Dma.Memory.{hostmem_dma_malloc, hostmem_dma_free}
use upcie.Mmio.{Device}
use upcie.Nvme.Command.{NvmeCommand, NvmeCompletion, zero_command, zero_completion}
use upcie.Nvme.Cap.{get_to, get_css}
use upcie.Nvme.Cc
use upcie.Nvme.Qid
use upcie.Nvme.Registers.{
  aq_setup, cap_read, cc_write, cc_disable, csts_wait_until_ready, csts_wait_until_not_ready,
}
use upcie.Nvme.Qpair.{Qpair, Reaped, submit_sync}
use upcie.Nvme.Qpair.Setup.{
  Setup, PoolPointer, untouched, null, live, dangling, minus_errno, zero_pool, qpair_init,
  qpair_term,
}

-- `struct nvme_controller`; `rpool_pointer` is the pointer of the admin queue pair to its pool.
pub record Controller : Type 0 where
  pub func : PciFunc
  pub aq : Qpair
  pub rpool_pointer : PoolPointer
  pub qids : List ℕ
  pub heap : HostmemHeap
  pub buf : ℕ
  pub timeout_ms : ℕ

-- What a call on a controller leaves; `qp` is the caller's queue pair.
pub record Called (S : Type 0) : Type 0 where
  pub err : ℤ
  pub ctrlr : Controller
  pub qp : Qpair
  pub dev : S

abbrev pub zero_qpair : Qpair
zero_qpair = record {
  sq = 0;
  cq = 0;
  sqdb = 0;
  cqdb = 0;
  qid = 0;
  depth = 0;
  tail = 0;
  tail_last_written = 0;
  head = 0;
  phase = 0;
  rpool = zero_pool;
}

-- `memset` of the struct to 0, with the pointer to the heap.
abbrev pub zero_controller : HostmemHeap → Controller
zero_controller heap = record {
  func = zero_func;
  aq = zero_qpair;
  rpool_pointer = null;
  qids = replicate Qid.qid_bitmap_words 0;
  heap = heap;
  buf = 0;
  timeout_ms = 0;
}

abbrev with_blocks : HostmemHeap → List HeapBlock → HostmemHeap
with_blocks heap list = record heap { freelist = list }

abbrev put_first : List PciBar → PciBar → List PciBar
put_first [] bar = []
put_first (b ∷ bars) bar = bar ∷ bars

abbrev set_bar0 : PciFunc → PciBar → PciFunc
set_bar0 func bar = record func { bars = put_first func.bars bar }

-- The pointer to the pool after a set-up, which may not have come to it.
abbrev pointer_after : PoolPointer → PoolPointer → PoolPointer
pointer_after before untouched = before
pointer_after before null = null
pointer_after before live = live
pointer_after before dangling = dangling

-- The value that enables the controller.
unfoldable pub enable_value : ℕ → ℕ
enable_value cap =
    let css : ℕ = if bit_and (get_css cap) (2 ^ 6) == 0 then 0x0 else 0x6 in
    let cc = Cc.set_css 0 css in
    let cc = Cc.set_shn cc 0x0 in
    let cc = Cc.set_mps cc 0x0 in
    let cc = Cc.set_ams cc 0x0 in
    let cc = Cc.set_iosqes cc 6 in let cc = Cc.set_iocqes cc 4 in Cc.set_en cc 0x1

-- The commands that create and delete queues.
unfoldable pub create_cq_command : ℕ → ℕ → ℕ → NvmeCommand
create_cq_command prp1 depth qid = record zero_command {
  opc = 0x5;
  prp1 = prp1;
  cdw10 = bit_or (u32 (u32 (depth + 2 ^ 32 - 1) * 2 ^ 16)) qid;
  cdw11 = 0x1;
}

unfoldable pub create_sq_command : ℕ → ℕ → ℕ → NvmeCommand
create_sq_command prp1 depth qid = record zero_command {
  opc = 0x1;
  prp1 = prp1;
  cdw10 = bit_or (u32 (u32 (depth + 2 ^ 32 - 1) * 2 ^ 16)) qid;
  cdw11 = bit_or (u32 (qid * 2 ^ 16)) 0x1;
}

unfoldable pub delete_command : ℕ → ℕ → NvmeCommand
delete_command opc qid = record zero_command { opc = opc; cdw10 = qid }

module _ {S : Type 0} (d : Device S) (os : Os S) where
  -- An error that `nvme_controller_open` returns, with the controller as it is by then.
  abbrev pub stopped : ℤ → Controller → S → Outcome (ℤ × Controller × S)
  stopped err ctrlr s = done (err, ctrlr, s)

  -- From the set-up of the admin queues on.
  unfoldable pub enable : Controller → ℕ → ℕ → S → Outcome (ℤ × Controller × S)
  enable ctrlr bar0 cap s = do
    sq ← hostmem_dma_v2p ctrlr.heap ctrlr.aq.sq
    cq ← hostmem_dma_v2p ctrlr.heap ctrlr.aq.cq
    let s = aq_setup d bar0 sq cq ctrlr.aq.depth s
    let s = cc_write d bar0 (enable_value cap) s
    let (err, s) = csts_wait_until_ready d bar0 ctrlr.timeout_ms s
    done (if is_zero err then pos 0 else neg err, ctrlr, s)

  -- What follows `nvme_qpair_init`.
  unfoldable pub with_admin : Controller → ℕ → ℕ → Setup S → Outcome (ℤ × Controller × S)
  with_admin ctrlr bar0 cap r =
      let ctrlr : Controller = record ctrlr {
        aq = r.qp;
        rpool_pointer = pointer_after ctrlr.rpool_pointer r.rpool_pointer;
        heap = r.heap;
      } in
      if is_zero r.err then enable ctrlr bar0 cap r.dev else stopped (neg r.err) ctrlr r.dev

  -- From the mapped BAR on.
  unfoldable pub with_bar0 : Bool → Controller → ℕ → S → Outcome (ℤ × Controller × S)
  unfolding enable with_admin
  with_bar0 calloc ctrlr bar0 s = do
    let (cap, s) = cap_read d bar0 s
    let ctrlr : Controller = record ctrlr { timeout_ms = get_to cap * 500 }
    let s = cc_disable d bar0 s
    let waited = csts_wait_until_not_ready d bar0 ctrlr.timeout_ms s
    if is_zero waited.0
        then (do
          r ← qpair_init d calloc ctrlr.aq 0 256 bar0 ctrlr.heap waited.1
          with_admin ctrlr bar0 cap r)
        else stopped (neg waited.0) ctrlr waited.1

  -- From the function on.
  unfoldable pub with_func : Bool → Controller → ℤ × PciFunc × S → Outcome (ℤ × Controller × S)
  unfolding with_bar0
  with_func calloc ctrlr (err, func, s) =
      let ctrlr : Controller = record ctrlr { func = func } in
      if is_zero err
      then (do
        bar ← read (get_elem? func.bars 0)
        let mapped = bar_map os func.bdf 0 bar s
        let ctrlr : Controller = record ctrlr { func = set_bar0 func mapped.1 }
        if is_zero mapped.0
            then with_bar0 calloc ctrlr mapped.1.region mapped.2
            else stopped (neg mapped.0) ctrlr mapped.2)
      else stopped (neg err) ctrlr s

  -- From the buffer on.
  unfoldable pub with_buf :
      Text → Bool → List ℕ → Controller → Option ℕ → Option ℕ → S → Outcome (ℤ × Controller × S)
  unfolding with_func
  with_buf text calloc bdf ctrlr errno none s = stopped (minus_errno errno) ctrlr s
  with_buf text calloc bdf ctrlr errno (some buf) s = do
    let s = d.zero_memory buf 4096 s
    qids ← read (Qid.bitmap_init ctrlr.qids)
    with_func calloc (record ctrlr { buf = buf; qids = qids.0 })
        (func_open os text bdf ctrlr.func s)

  -- `calloc` says whether the pool of the admin queue pair gets its memory.
  unfoldable pub controller_open :
      Text → Bool → List ℕ → HostmemHeap → S → Outcome (ℤ × Controller × S)
  unfolding with_buf
  controller_open text calloc bdf heap s = do
    r ← hostmem_dma_malloc heap 4096
    with_buf text calloc bdf (zero_controller (with_blocks heap r.list)) r.errno r.ptr s

  -- A pointer to memory that was freed is used.
  unfoldable pub close_aq : PoolPointer → Qpair → HostmemHeap → Outcome HostmemHeap
  close_aq live aq heap = qpair_term aq heap
  close_aq null aq heap = done heap
  close_aq dangling aq heap = fault
  close_aq untouched aq heap = fault

  -- The heap as it is left, and the rest of the controller cleared.
  unfoldable pub controller_close : Controller → S → Outcome (Controller × S)
  unfolding close_aq
  controller_close ctrlr s = do
    heap ← close_aq ctrlr.rpool_pointer ctrlr.aq ctrlr.heap
    heap ← hostmem_dma_free heap ctrlr.buf
    let (func, s) = func_close os ctrlr.func s
    done (zero_controller heap, s)

module _ {S : Type 0} (d : Device S) where
  -- A command on the admin queue pair, and the controller after it.
  unfoldable pub admin : Controller → NvmeCommand → S → Outcome (Reaped S × Controller)
  admin ctrlr cmd s = do
    w ← submit_sync d ctrlr.aq cmd ctrlr.timeout_ms zero_completion s
    done (w, record ctrlr { aq = w.qp })

  unfoldable pub delete_io_qpair : Controller → Qpair → S → Outcome (Called S)
  unfolding admin
  delete_io_qpair ctrlr qpair s = do
    let qid = u16 qpair.qid
    (sq, ctrlr) ← admin ctrlr (delete_command 0x0 qid) s
    (cq, ctrlr) ← admin ctrlr (delete_command 0x4 qid) sq.dev
    heap ← qpair_term qpair ctrlr.heap
    qids ← read (Qid.free ctrlr.qids qid)
    done (record {
      err = cq.err;
      ctrlr = record ctrlr { heap = heap; qids = qids.0 };
      qp = qpair;
      dev = cq.dev;
    })

  -- The second command of the creation.
  unfoldable pub create_sq : Controller → Qpair → ℕ → ℕ → S → Outcome (Called S)
  unfolding admin
  create_sq ctrlr qpair qid depth s = do
    prp1 ← hostmem_dma_v2p ctrlr.heap qpair.sq
    (w, ctrlr) ← admin ctrlr (create_sq_command prp1 depth qid) s
    done (record { err = w.err; ctrlr = ctrlr; qp = qpair; dev = w.dev })

  -- The first command and what follows it.
  unfoldable pub create_queues : Controller → Qpair → ℕ → ℕ → S → Outcome (Called S)
  unfolding create_sq admin
  create_queues ctrlr qpair qid depth s = do
    prp1 ← hostmem_dma_v2p ctrlr.heap qpair.cq
    (w, ctrlr) ← admin ctrlr (create_cq_command prp1 depth qid) s
    if is_zero w.err
        then create_sq ctrlr qpair qid depth w.dev
        else done (record { err = w.err; ctrlr = ctrlr; qp = qpair; dev = w.dev })

  -- What follows `nvme_qpair_init`.
  unfoldable pub with_qpair : Controller → ℕ → ℕ → Setup S → Outcome (Called S)
  unfolding create_queues
  with_qpair ctrlr qid depth r =
      let ctrlr : Controller = record ctrlr { heap = r.heap } in
      if is_zero r.err then create_queues ctrlr r.qp qid depth r.dev else (do
        qids ← read (Qid.free ctrlr.qids qid)
        done (record {
          err = r.err;
          ctrlr = record ctrlr { qids = qids.0 };
          qp = r.qp;
          dev = r.dev;
        }))

  -- From the identifier on.
  unfoldable pub with_qid : Bool → ℕ → Controller → Qpair → ℕ → ℕ → S → Outcome (Called S)
  unfolding with_qpair
  with_qid calloc bar0 ctrlr qpair qid depth s = do
    taken ← read (Qid.alloc ctrlr.qids qid)
    let ctrlr : Controller = record ctrlr { qids = taken.0 }
    if is_zero taken.1
        then (do
          r ← qpair_init d calloc qpair qid depth bar0 ctrlr.heap s
          with_qpair ctrlr qid depth r)
        else done (record { err = taken.1; ctrlr = ctrlr; qp = qpair; dev = s })

  -- By the result of `nvme_qid_find_free`.
  unfoldable pub with_found : Bool → ℕ → Controller → Qpair → ℤ → ℕ → S → Outcome (Called S)
  unfolding with_qid
  with_found calloc bar0 ctrlr qpair (pos (suc q)) depth s =
      with_qid calloc bar0 ctrlr qpair (u16 (suc q)) depth s
  with_found calloc bar0 ctrlr qpair err depth s =
      done (record { err = neg (pos enomem); ctrlr = ctrlr; qp = qpair; dev = s })

  unfoldable pub create_io_qpair : Bool → Controller → Qpair → ℕ → S → Outcome (Called S)
  unfolding with_found
  create_io_qpair calloc ctrlr qpair depth s = do
    found ← read (Qid.find_free ctrlr.qids)
    bar ← read (get_elem? ctrlr.func.bars 0)
    with_found calloc bar.region ctrlr qpair found depth s
