-- ===== src/Nvme/Controller/Tests.antt =====
-- The pages of a pool, queue pairs and a controller at a heap of eight hugepages.
use upcie.Prelude.{
  ℕ, ◌+◌, ◌<◌, ◌≡◌, ◌==◌, if◌then◌else◌, refl, arith, ◌∙◌, true, false, List, [], ◌∷◌, some, pos,
  done, replicate, length-replicate, get_elem?,
}
use upcie.Hostmem.Types.{HeapBlock}
use upcie.Hostmem.Sample.{large, whole, large-IsMapped, large-IsHeap}
use upcie.Hostmem.Dma.Memory.{hostmem_dma_free}
use upcie.Hostmem.Heap.{block_free, mark_free, coalesce_list, coalesce, merge}
use upcie.Hostmem.Heap.Tiles.{last, more}
use upcie.Hostmem.Heap.RoundTrip.{IsHeap, with_list}
use upcie.Mmio.Sample.{sample_device}
use upcie.Nvme.Qid.{is_allocated}
use upcie.Nvme.Qid.Bits.{IsBitmap, tracked, cleared-IsBitmap, is_allocated-taken, taken-cleared}
use upcie.Nvme.Qid.Laws.{alloc_lem}
use upcie.Nvme.Request.{NvmeRequest, RequestPool, pool_len, pool_init}
use upcie.Nvme.Request.Pool.{IsPool, pool_init-IsPool}
use upcie.Nvme.Request.Pages.{PagesSet, init_prps, term_prps}
use upcie.Nvme.Request.Paged.{Outcomes, init_prps-Outcomes, IsMapped-with_list}
use upcie.Nvme.Command.{zero_command, zero_completion}
use upcie.Hostmem.Dma.{hostmem_dma_v2p}
use upcie.Nvme.Prps.Device.{device_address}
use upcie.Nvme.Prps
use upcie.Nvme.Prps.Host.{host_window, prep_command_prps_contig}
use upcie.Nvme.Qpair.{Qpair, Reaped, submit_sync_contig_prps}
use upcie.Nvme.Qpair.Sync.{IsReady, Kept}
use upcie.Nvme.Qpair.Sync
use upcie.Nvme.Qpair.Transfer.{submit_sync_contig_prps-Outcomes}
use upcie.Nvme.Qpair.Setup.{Setup, live, qpair_init, qpair_term, zero_request, zero_pool}
use upcie.Nvme.Qpair.Teardown.{Prepared, qpair_init-Prepared}
use upcie.Pci.{PciBar, zero_func}
use upcie.Nvme.Controller.{Controller, Called, zero_qpair, create_io_qpair, delete_io_qpair}
use upcie.Nvme.Controller.Resources.{IsController}
use upcie.Nvme.Controller.Delete.{Deleted, delete_io_qpair-Created}
use upcie.Nvme.Controller.Queues.{Holding, CreatedBy, create_io_qpair-Created}

-- The pool of a new queue pair.
started :
    (pool' : RequestPool) × (pool_init zero_pool ≡ done pool')
    × IsPool pool'
    × (pool'.top ≡ pool_len)
    × ((i : ℕ)
        → i < pool_len
        → (req : NvmeRequest) × (get_elem? pool'.reqs i ≡ some req) × (req.cid ≡ i))
started =
    pool_init-IsPool zero_pool (length-replicate 1024 zero_request)
      (length-replicate {A = ℕ} 1024 0)

init_prps-Outcomes_example :
    (r : PagesSet) × (init_prps zero_pool large ≡ done r)
    × IsHeap r.heap
    × (r.heap ≡ with_list large r.heap.freelist)
    × Outcomes large zero_pool r
init_prps-Outcomes_example =
    init_prps-Outcomes large-IsHeap large-IsMapped zero_pool (length-replicate 1024 zero_request)

qpair_init-Prepared_example :
    (r : Setup (ℕ → ℕ)) × (qpair_init sample_device true zero_qpair 1 256 4096 large (λ a. 0)
      ≡ done r)
    × IsHeap r.heap
    × (r.heap ≡ with_list large r.heap.freelist)
    × Prepared large 1 256 r
qpair_init-Prepared_example =
    qpair_init-Prepared sample_device large-IsHeap large-IsMapped zero_qpair 1 256 4096 (λ a. 0)
      true

abbrev bar : PciBar
bar = record { size = 16384; region = 4096; id = 0; fd = pos 5 }

abbrev admin_qpair : Qpair
admin_qpair = record zero_qpair { depth = 256; phase = 1; rpool = started.0 }

-- The bitmap with qid 0 in use.
fresh :
    (qids : List ℕ) × IsBitmap qids
    × (is_allocated qids 0 ≡ some (pos 1))
    × (is_allocated qids 1 ≡ some (pos 0))
fresh =
    let start = cleared-IsBitmap (replicate 1023 0) (length-replicate {A = ℕ} 1023 0) in
    let (qids, _, valid, answers) = alloc_lem start 0 (omega arith) in
    (
      qids,
      valid,
      answers 0 (omega arith),
      answers 1 (omega arith)
          ∙ rw
              (
                is_allocated-taken start 1 (omega arith),
                taken-cleared (replicate 1023 0) (length-replicate {A = ℕ} 1023 0) 1,
              )
              refl,
    )

abbrev controller : Controller
controller = record {
  func = record zero_func { bars = bar ∷ [] };
  aq = admin_qpair;
  rpool_pointer = live;
  qids = fresh.0;
  heap = large;
  buf = 0;
  timeout_ms = 10;
}

controller-IsController : IsController controller
controller-IsController = record {
  heap = large-IsHeap;
  mapped = large-IsMapped;
  bitmap = fresh.1;
  admin_qid = fresh.2;
  pool = started.2;
  some_depth = omega arith;
  numbered = started.4;
  bar = bar;
  bar0 = refl;
}

create_io_qpair-Created_example :
    (r : Called (ℕ → ℕ)) × (create_io_qpair sample_device true controller zero_qpair 64 (λ a. 0)
      ≡ done r)
    × CreatedBy sample_device controller r
create_io_qpair-Created_example =
    create_io_qpair-Created sample_device controller-IsController true zero_qpair 64
      (omega (arith, started.3)) (λ a. 0)

-- The qids with 1 in use as well.
taken_one :
    (qids : List ℕ) × IsBitmap qids
    × ((p : ℕ)
        → p < tracked
        → is_allocated qids p ≡ (if p == 1 then some (pos 1) else is_allocated fresh.0 p))
taken_one =
    let (qids, _, valid, answers) = alloc_lem fresh.1 1 (omega arith) in (qids, valid, answers)

-- Blocks for the two queues and the pages, and the free rest.
abbrev queue_block : ℕ → HeapBlock
queue_block addr = record { addr = addr; size = 8192; free = false }

abbrev tail_block : HeapBlock
tail_block = record { addr = 10522624; size = 16740352; free = true }

abbrev blocks : List HeapBlock
blocks = queue_block 10485760 ∷ queue_block 10498048 ∷ queue_block 10510336 ∷ tail_block ∷ []

abbrev io_qpair : Qpair
io_qpair = record zero_qpair {
  sq = 10489856;
  cq = 10502144;
  qid = 1;
  depth = 64;
  phase = 1;
  rpool = record zero_pool { prps = 10514432 };
}

abbrev after : Controller
after = record controller { qids = taken_one.0; heap = with_list large blocks }

after-IsController : IsController after
after-IsController = record {
  heap = record {
    first = queue_block 10485760;
    rest = queue_block 10498048 ∷ queue_block 10510336 ∷ tail_block ∷ [];
    list = refl;
    starts = refl;
    tiles = more (queue_block 10485760) (queue_block 10498048) _ refl (omega arith) (
        more (queue_block 10498048) (queue_block 10510336) _ refl (omega arith)
          (more (queue_block 10510336) tail_block [] refl (omega arith) (last tail_block refl)));
    below = omega arith;
    described = omega arith;
    int_page = omega arith;
  };
  mapped = IsMapped-with_list blocks large-IsMapped;
  bitmap = taken_one.1;
  admin_qid = taken_one.2 0 (omega arith) ∙ fresh.2;
  pool = started.2;
  some_depth = omega arith;
  numbered = started.4;
  bar = bar;
  bar0 = refl;
}

after-Holding : Holding controller io_qpair after
unfolding qpair_term term_prps hostmem_dma_free block_free mark_free coalesce_list coalesce merge
after-Holding = record {
  io_qid = omega arith;
  range = omega arith;
  was_free = fresh.3;
  now_taken = taken_one.2;
  list = whole ∷ [];
  released = refl;
  kept = large-IsHeap;
  gone = refl;
}

delete_io_qpair-Created_example :
    (r : Called (ℕ → ℕ)) × (delete_io_qpair sample_device after io_qpair (λ a. 0) ≡ done r)
    × Deleted sample_device controller r
delete_io_qpair-Created_example =
    delete_io_qpair-Created sample_device controller-IsController after-IsController after-Holding
      (omega (arith, started.3)) (λ a. 0)

admin_qpair-IsReady : IsReady admin_qpair
admin_qpair-IsReady = record {
  pool = started.2;
  room = omega (arith, started.3);
  some_depth = omega arith;
  numbered = started.4;
}

submit_sync_contig_prps-Outcomes_example :
    (w : Reaped (ℕ → ℕ)) × (handed : Sync.Handed sample_device admin_qpair)
    × (prepared : Prps.Prepared) × (submit_sync_contig_prps sample_device admin_qpair
          (host_window large)
          (10485760 + 4096)
          8192
          zero_command
          10
          zero_completion
          (λ a. 0)
        ≡ done w)
    × (prep_command_prps_contig handed.req large
          (10485760 + 4096)
          8192
          (record zero_command { cid = handed.req.cid })
        ≡ done prepared)
    × ((j : ℕ)
        → j < 8192
        → (address : ℕ) × (device_address 4096 handed.req.prp_addr prepared 8192 j ≡ some address)
          × (hostmem_dma_v2p large (10485760 + 4096 + j) ≡ done address))
    × Sync.Outcomes sample_device admin_qpair 10
        (Sync.submitted sample_device admin_qpair prepared.cmd
          (sample_device.store_prps handed.req.prp prepared.prp_list (λ a. 0)))
        w
    × Kept admin_qpair w.qp
submit_sync_contig_prps-Outcomes_example =
    submit_sync_contig_prps-Outcomes sample_device admin_qpair large 4096 8192 zero_command 10
      zero_completion (λ a. 0) admin_qpair-IsReady large-IsMapped (omega arith) (omega arith)
      (omega arith)
