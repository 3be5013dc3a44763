-- ===== src/Nvme/Qpair/Teardown.antt =====
-- What the set-up of a queue pair takes from the heap, its release gives back.
use upcie.Prelude.{
  ℕ, suc, ◌+◌, ◌<◌, ◌≤◌, ◌≡◌, ◌≢◌, refl, arith, ap, sym, ◌∙◌, subst, inl, inr, Bool, true, false,
  List, length-replicate, pos, neg, enomem, done,
}
use upcie.Hostmem.Types.{HeapBlock, HostmemHeap, Alloced}
use upcie.Hostmem.Dma.Translate.{IsMapped}
use upcie.Hostmem.Dma.Memory.{hostmem_dma_alloc_array, hostmem_dma_free}
use upcie.Hostmem.Heap.Tiles.{allocated}
use upcie.Hostmem.Heap.Free.{without}
use upcie.Hostmem.Heap.Inserted.{Inserted}
use upcie.Hostmem.Heap.Owned.{
  Has, Has-fresh, Has-old, Has-without_keep, not-Has-without, without_comm,
}
use upcie.Hostmem.Heap.RoundTrip.{
  IsHeap, heap_end, owned, with_list, Grown, alloc_array-Grown, block_free-Shrunk, without-grown,
}
use upcie.Mmio.{Device}
use upcie.Nvme.Request.{RequestPool, pool_len}
use upcie.Nvme.Request.Pool.{pool_init-IsPool}
use upcie.Nvme.Request.Pages.{term_prps}
use upcie.Nvme.Request.Paged.{HasPage, refused, given, init_prps-Outcomes, IsMapped-with_list}
use upcie.Nvme.Qpair.{Qpair}
use upcie.Nvme.Qpair.Setup.{
  Setup, null, live, dangling, untouched, queue_nbytes, zero_request, zero_pool, init_fields,
  init_pool, qpair_init, qpair_term,
}

-- A release through the interface for DMA.
dma_free-Shrunk :
    {heap : HostmemHeap} (v : IsHeap heap) (addr : ℕ)
    → Has addr (owned heap)
    → (list : List HeapBlock) × (hostmem_dma_free heap (addr + heap.config.pagesize)
        ≡ done (with_list heap list))
      × IsHeap (with_list heap list)
      × (allocated list ≡ without addr (owned heap))
unfolding hostmem_dma_free
dma_free-Shrunk v addr has = block_free-Shrunk v addr has

-- The memory of a queue.
queue-Grown :
    {heap : HostmemHeap} (v : IsHeap heap)
    → (r : Alloced) × (hostmem_dma_alloc_array heap 1 queue_nbytes ≡ done r)
      × IsHeap (with_list heap r.list)
      × Grown heap queue_nbytes r
unfolding hostmem_dma_alloc_array
queue-Grown v = alloc_array-Grown v 1 queue_nbytes (omega arith) (omega arith) (omega arith)

-- Two blocks that were put in one after the other, and that are released in this order.
record Both (heap : HostmemHeap) (sq cq : ℕ) (old : List HeapBlock) : Type 0 where
  between : List HeapBlock
  list : List HeapBlock
  first : hostmem_dma_free heap (sq + heap.config.pagesize) ≡ done (with_list heap between)
  second :
      hostmem_dma_free (with_list heap between) (cq + heap.config.pagesize)
      ≡ done (with_list heap list)
  kept : IsHeap (with_list heap list)
  gone : allocated list ≡ old

dma_free-dma_free :
    {heap : HostmemHeap} (v : IsHeap heap) {sq cq : HeapBlock} {old middle new : List HeapBlock}
    → Inserted sq old middle
    → Inserted cq middle new
    → without sq.addr middle ≡ old
    → without cq.addr new ≡ middle
    → owned heap ≡ new
    → Both heap sq.addr cq.addr old
dma_free-dma_free {heap = heap} v {sq = sq} {cq = cq} {old = old} {middle = middle} {new = new} one
      two without_one without_two now =
    let apart : cq.addr ≢ sq.addr = λ same. not-Has-without cq.addr new (
      subst (λ l. Has cq.addr l) (sym without_two)
        (subst (λ (a : ℕ). Has a middle) (sym same) (Has-fresh one))) in
    let (between, first, kept, left) =
      dma_free-Shrunk v sq.addr
        (subst (λ l. Has sq.addr l) (sym now) (Has-old sq.addr two (Has-fresh one))) in
    let rest : allocated between ≡ without sq.addr new = left ∙ ap (without sq.addr) now in
    let (list, second, kept', left') = dma_free-Shrunk kept cq.addr (
      subst (λ l. Has cq.addr l) (sym rest)
        (Has-without_keep cq.addr sq.addr new apart (Has-fresh two))) in
    record {
      between = between;
      list = list;
      first = first;
      second = second;
      kept = kept';
      gone =
          left'
          ∙ ap (without cq.addr) rest
          ∙ without_comm cq.addr sq.addr new
          ∙ ap (without sq.addr) without_two
          ∙ without_one;
    }

-- A queue that lies in the memory of a heap.
pub record InHeap (heap : HostmemHeap) (queue : ℕ) : Type 0 where
  pub from_start : heap.memory.virt ≤ queue
  pub to_end : queue + queue_nbytes ≤ heap_end heap

-- What `nvme_qpair_init` leaves of a heap: an errno and the blocks of before, or a queue pair at its
-- start, all of whose requests are free and have their pages, and whose release gives the blocks
-- back.
pub data Prepared {S : Type 0} (heap : HostmemHeap) (qid depth : ℕ) (r : Setup S) : Type 0 where
  failed :
      (code : ℕ)
      → r.err ≡ neg (pos (suc code))
      → owned r.heap ≡ owned heap
      → Prepared heap qid depth r
  ready :
      (list : List HeapBlock)
      → r.err ≡ pos 0
      → (r.qp.qid ≡ qid)
        × (r.qp.depth ≡ depth)
        × (r.qp.head ≡ 0)
        × (r.qp.tail ≡ 0)
        × (r.qp.phase ≡ 1)
        × (r.qp.rpool.top ≡ pool_len)
      → InHeap heap r.qp.sq × InHeap heap r.qp.cq
      → ((i : ℕ) → i < pool_len → HasPage r.heap r.qp.rpool.prps i r.qp.rpool)
      → qpair_term r.qp r.heap ≡ done (with_list heap list)
      → IsHeap (with_list heap list)
      → allocated list ≡ owned heap
      → Prepared heap qid depth r

abbrev Result : {S : Type 0} → HostmemHeap → ℕ → ℕ → Setup S → Type 0
Result heap qid depth r =
    IsHeap r.heap × (r.heap ≡ with_list heap r.heap.freelist) × Prepared heap qid depth r

-- Where both queues have their memory, in two blocks more than there were.
module _ {S : Type 0} (d : Device S) {heap : HostmemHeap} (m : IsMapped heap) (q : Qpair) (s : S)
    {sq cq : HeapBlock} (list middle old : List HeapBlock) (v : IsHeap (with_list heap list))
    (one : Inserted sq old middle) (two : Inserted cq middle (allocated list))
    (without_one : without sq.addr middle ≡ old) (was : owned heap ≡ old)
    (inside : InHeap heap (sq.addr + heap.config.pagesize)
      × InHeap heap (cq.addr + heap.config.pagesize)) where
  abbrev full : HostmemHeap
  full = with_list heap list

  -- The queue pair with both queues.
  abbrev queues : Qpair
  queues = record q { sq = sq.addr + heap.config.pagesize; cq = cq.addr + heap.config.pagesize }

  -- A heap with the same blocks releases both.
  release :
      (now : List HeapBlock)
      → IsHeap (with_list heap now)
      → allocated now ≡ allocated list
      → Both (with_list heap now) sq.addr cq.addr old
  release now w same = dma_free-dma_free w one two without_one (without-grown heap v two) same

  -- So does one with the pages of the pool as well.
  give_back :
      {fresh : HeapBlock} (now : List HeapBlock)
      → IsHeap (with_list heap now)
      → Inserted fresh (allocated list) (allocated now)
      → (pool : RequestPool) → pool.prps ≡ fresh.addr + heap.config.pagesize
      → (back : List HeapBlock) × (qpair_term (record queues { rpool = pool }) (with_list heap now)
          ≡ done (with_list heap back))
        × IsHeap (with_list heap back)
        × (allocated back ≡ old)
  unfolding qpair_term term_prps
  give_back {fresh = fresh} now w ins pool at =
      let (less, freed, kept, left) = dma_free-Shrunk w fresh.addr (Has-fresh ins) in
      let b = release less kept (left ∙ without-grown heap w ins) in
      (b.list, rw (at, freed, b.first, b.second) refl, b.kept, b.gone)

  no_pool : (r : Setup S) × (init_pool d false queues full s ≡ done r) × Result heap q.qid q.depth r
  unfolding init_pool
  no_pool =
      let b = release list v refl in
      (
        record {
          err = neg (pos enomem);
          qp = queues;
          rpool_pointer = null;
          heap = with_list heap b.list;
          dev = s;
        },
        rw (b.first, b.second) refl,
        (b.kept, refl, failed 11 refl (b.gone ∙ sym was)),
      )

  with_pool :
      q.head ≡ 0
      → q.tail ≡ 0
      → q.phase ≡ 1
      → (r : Setup S) × (init_pool d true queues full s ≡ done r) × Result heap q.qid q.depth r
  unfolding init_pool
  with_pool head tail phase =
      let (pool, made, ip, top, _) =
        pool_init-IsPool zero_pool (length-replicate pool_len zero_request)
          (length-replicate {A = ℕ} pool_len 0) in
      let (set, returns, kept, same, o) =
        init_prps-Outcomes v (IsMapped-with_list list m) pool ip.whole_reqs in
      elim o [
        | refused code err errno now ↦
            let b = release set.heap.freelist (subst IsHeap same kept) now in
            (
              record {
                err = neg (pos (suc code));
                qp = queues;
                rpool_pointer = dangling;
                heap = with_list heap b.list;
                dev = s;
              },
              rw (made, returns, err, errno, same, b.first, b.second) refl,
              (b.kept, refl, failed code refl (b.gone ∙ sym was)),
            )
        | given fresh err paged ins pages ↦
            let (back, freed, kept', gone) =
              give_back set.heap.freelist (subst IsHeap same kept) ins set.pool
                (ap (λ (p : RequestPool). p.prps) paged) in
            (
              record {
                err = pos 0;
                qp = record queues { rpool = set.pool };
                rpool_pointer = live;
                heap = set.heap;
                dev = s;
              },
              rw (made, returns, err) refl,
              (
                kept,
                same,
                ready back refl
                    (refl, refl, head, tail, phase, ap (λ (p : RequestPool). p.top) paged ∙ top)
                    inside pages
                    (subst
                      (λ h.
                        qpair_term (record queues { rpool = set.pool }) h
                        ≡ done (with_list heap back))
                      (sym same) freed)
                    kept' (gone ∙ sym was),
              ),
            )
      ]

  with_queues :
      (calloc : Bool)
      → q.head ≡ 0
      → q.tail ≡ 0
      → q.phase ≡ 1
      → (r : Setup S) × (init_pool d calloc queues full s ≡ done r) × Result heap q.qid q.depth r
  with_queues true head tail phase = with_pool head tail phase
  with_queues false head tail phase = no_pool

module _ {S : Type 0} (d : Device S) {heap : HostmemHeap} (v : IsHeap heap) (m : IsMapped heap)
    (qp : Qpair) (qid depth bar0 : ℕ) (s : S) where
  -- The queue pair and the device at the first allocation.
  abbrev start : Qpair × S
  start = init_fields d qp qid depth bar0 s

  start_fields :
      (start.0.qid ≡ qid)
      × (start.0.depth ≡ depth)
      × (start.0.head ≡ 0)
      × (start.0.tail ≡ 0)
      × (start.0.phase ≡ 1)
  unfolding init_fields
  start_fields = (refl, refl, refl, refl, refl)

  -- The set-up of a queue pair on a mapped heap in order returns and leaves the heap in order: with
  -- an error other than 0 and the allocated blocks of before, whichever allocation failed, or with
  -- 0 and a queue pair at its start, all of whose requests are free and have a page each; the
  -- release of this queue pair leaves a heap in order with the allocated blocks of before.
  pub qpair_init-Prepared :
      (calloc : Bool)
      → (r : Setup S) × (qpair_init d calloc qp qid depth bar0 heap s ≡ done r)
        × IsHeap r.heap
        × (r.heap ≡ with_list heap r.heap.freelist)
        × Prepared heap qid depth r
  unfolding qpair_init init_fields
  qpair_init-Prepared calloc =
      let (one, first, w, grown) = queue-Grown v in
      elim grown [
        | inl (no_pointer, (code, errno), same) ↦ (
          record {
            err = neg (pos (suc code));
            qp = record start.0 { sq = 0 };
            rpool_pointer = untouched;
            heap = with_list heap one.list;
            dev = start.1;
          },
          rw (first, no_pointer, errno) refl,
          w,
          refl,
          failed code refl same,
        )
        | inr (sq, at, _, above, within, ins) ↦
            let q : Qpair = record start.0 { sq = sq.addr + heap.config.pagesize } in
            let s' : S = d.zero_memory q.sq queue_nbytes start.1 in
            let (two, second, w', grown') = queue-Grown w in
            elim grown' [
              | inl (no_pointer, (code, errno), same) ↦
                  let (list, freed, kept, gone) =
                    dma_free-Shrunk w' sq.addr
                      (subst (λ l. Has sq.addr l) (sym same) (Has-fresh ins)) in
                  (
                    record {
                      err = neg (pos (suc code));
                      qp = record q { cq = 0 };
                      rpool_pointer = untouched;
                      heap = with_list heap list;
                      dev = s';
                    },
                    rw (first, at, second, no_pointer, errno, freed) refl,
                    kept,
                    refl,
                    failed code refl (gone ∙ ap (without sq.addr) same ∙ without-grown heap w ins),
                  )
              | inr (cq, at', _, above', within', ins') ↦
                  let (r, returns, result) =
                    with_queues d m q
                      (d.zero_memory (cq.addr + heap.config.pagesize) queue_nbytes s') two.list
                      (allocated one.list) (owned heap) w' ins ins' (without-grown heap w ins) refl
                      (
                        record {
                          from_start = omega (arith, above);
                          to_end = omega (arith, within);
                        },
                        record {
                          from_start = omega (arith, above');
                          to_end = omega (arith, within');
                        },
                      )
                      calloc refl refl refl in
                  (r, rw (first, at, second, at') returns, result.0, result.1, result.2)
            ]
      ]
