-- ===== src/Nvme/Request/Paged.antt =====
-- The pages of a pool: which memory they take, and what the requests hold.
use upcie.Prelude.{
  ℕ, zero, suc, ◌+◌, ◌-◌, ◌*◌, ◌≤◌, ◌<◌, ◌≡◌, false, refl, arith, ap, ◌∙◌, subst, inl, inr, List,
  some, pos, neg, enomem, done, ◌==◌, get_elem?, set, length, length-set, get_elem?-some,
  get_elem?-set_self, get_elem?-set_ne, ℕ_discrete,
}
use upcie.Prelude.Bits.{u64}
use native.Mathlib.Nat.{mul-le-mul_left}
use upcie.Hostmem.Types.{HeapBlock, HostmemHeap}
use upcie.Hostmem.Dma.{hostmem_dma_v2p}
use upcie.Hostmem.Dma.Translate.{IsMapped, phys_at, hostmem_dma_v2p-phys_at}
use upcie.Hostmem.Dma.Memory.{hostmem_dma_alloc_array}
use upcie.Hostmem.Heap.Inserted.{Inserted}
use upcie.Hostmem.Heap.RoundTrip.{IsHeap, owned, with_list, alloc_array-Grown}
use upcie.Nvme.Request.{NvmeRequest, RequestPool, pool_len}
use upcie.Nvme.Request.Pages.{PagesSet, set_page, set_pages, init_prps}

-- The request has the page with its number, at the address that the controller has for it.
pub record HasPage (heap : HostmemHeap) (prps i : ℕ) (pool : RequestPool) : Type 0 where
  pub req : NvmeRequest
  pub at : get_elem? pool.reqs i ≡ some req
  pub page : req.prp ≡ prps + i * heap.config.pagesize
  pub address : hostmem_dma_v2p heap req.prp ≡ done req.prp_addr

-- The memory at `prps` holds a page for each request.
module _ {heap : HostmemHeap} (m : IsMapped heap) (prps offset : ℕ)
    (place : prps ≡ heap.memory.virt + offset)
    (room : offset + pool_len * heap.config.pagesize ≤ heap.memory.size)
    (some_page : 1 ≤ heap.config.pagesize) where
  abbrev pagesize : ℕ
  pagesize = heap.config.pagesize

  module _ (i : ℕ) (h : i < pool_len) where
    inside : offset + i * pagesize < heap.memory.size
    inside = omega (arith, room, some_page, mul-le-mul_left pagesize h)

    page_at : u64 (prps + i * pagesize) ≡ prps + i * pagesize
    page_at = omega (arith, place, inside, m.below)

    translated :
        hostmem_dma_v2p heap (prps + i * pagesize) ≡ done (phys_at heap (offset + i * pagesize))
    translated =
        ap (λ (a : ℕ). hostmem_dma_v2p heap a) (omega (arith, place))
        ∙ hostmem_dma_v2p-phys_at m (offset + i * pagesize) inside

    -- The request that a round writes.
    abbrev paged : NvmeRequest → NvmeRequest
    paged req = record req {
      prp = prps + i * pagesize;
      prp_addr = phys_at heap (offset + i * pagesize);
    }

    set_page_lem :
        (pool : RequestPool) (req : NvmeRequest)
        → pool.prps ≡ prps
        → get_elem? pool.reqs i ≡ some req
        → set_page heap i pool ≡ done (record pool { reqs = set pool.reqs i (paged req) })
    unfolding set_page
    set_page_lem pool req e at = rw (at, e, page_at, translated) refl

  -- The loop gives each request from the index on its page and keeps those before it.
  set_pages-HasPage :
      (left i : ℕ) (pool : RequestPool)
      → i + left ≡ pool_len
      → pool.prps ≡ prps
      → length pool.reqs ≡ pool_len
      → ((j : ℕ) → j < i → HasPage heap prps j pool)
      → (pool' : RequestPool) × (set_pages heap left i pool ≡ done pool')
        × (pool' ≡ record pool { reqs = pool'.reqs })
        × (length pool'.reqs ≡ pool_len)
        × ((j : ℕ) → j < pool_len → HasPage heap prps j pool')
  unfolding set_pages
  set_pages-HasPage zero i pool whole e sized before =
      (pool, refl, refl, sized, λ j h. before j (omega (arith, whole)))
  set_pages-HasPage (suc left) i pool whole e sized before =
      let here : i < pool_len = omega (arith, whole) in
      let (req, at) = get_elem?-some pool.reqs i (omega (arith, sized, here)) in
      let next : RequestPool = record pool { reqs = set pool.reqs i (paged i here req) } in
      let (pool', returns, kept, sized', all) =
        set_pages-HasPage left (i + 1) next (omega (arith, whole)) e
          (length-set pool.reqs i (paged i here req) ∙ sized)
          (λ j h. elim (ℕ_discrete i j) [
            | yes same ↦
                subst (λ (k : ℕ). HasPage heap prps k next) same
                  (record {
                    req = paged i here req;
                    at =
                        get_elem?-set_self pool.reqs i (paged i here req)
                          (omega (arith, sized, here));
                    page = refl;
                    address = translated i here;
                  })
            | no apart ↦
                let old = before j (omega (arith, apart)) in
                record {
                  req = old.req;
                  at = get_elem?-set_ne pool.reqs i j (paged i here req) apart ∙ old.at;
                  page = old.page;
                  address = old.address;
                }
          ]) in
      (pool', rw (set_page_lem i here pool req e at) returns, kept, sized', all)

-- The table says nothing of the blocks.
pub IsMapped-with_list :
    {heap : HostmemHeap} (list : List HeapBlock) → IsMapped heap → IsMapped (with_list heap list)
IsMapped-with_list list m = record {
  page_shift = m.page_shift;
  huge_shift = m.huge_shift;
  shifts = m.shifts;
  int_shift = m.int_shift;
  entries = m.entries;
  covered = m.covered;
  aligned = m.aligned;
  below = m.below;
  phys = m.phys;
}

-- What `nvme_request_pool_init_prps` leaves: -ENOMEM and the blocks of before, or one block more,
-- with a page for each request.
pub data Outcomes (heap : HostmemHeap) (pool : RequestPool) (r : PagesSet) : Type 0 where
  refused :
      (code : ℕ)
      → r.err ≡ neg (pos enomem)
      → r.errno ≡ some (suc code)
      → owned r.heap ≡ owned heap
      → Outcomes heap pool r
  given :
      (fresh : HeapBlock)
      → r.err ≡ pos 0
      → r.pool ≡ record pool { reqs = r.pool.reqs; prps = fresh.addr + heap.config.pagesize }
      → Inserted fresh (owned heap) (owned r.heap)
      → ((i : ℕ) → i < pool_len → HasPage r.heap r.pool.prps i r.pool)
      → Outcomes heap pool r

-- On a mapped heap in order, for a pool with all its requests, `nvme_request_pool_init_prps`
-- returns and leaves the heap in order: with -ENOMEM and the allocated blocks of before, or with 0
-- and one block more, in which each request has a page of its own number, and the address that
-- `hostmem_dma_v2p` gives of it.
pub init_prps-Outcomes :
    {heap : HostmemHeap} (v : IsHeap heap) (m : IsMapped heap) (pool : RequestPool)
    → length pool.reqs ≡ pool_len
    → (r : PagesSet) × (init_prps pool heap ≡ done r)
      × IsHeap r.heap
      × (r.heap ≡ with_list heap r.heap.freelist)
      × Outcomes heap pool r
unfolding init_prps hostmem_dma_alloc_array
init_prps-Outcomes {heap = heap} v m pool sized =
    let some_page : 1 ≤ heap.config.pagesize = omega (arith, v.described) in
    let tested : (heap.config.pagesize == 0) ≡ false = ground (arith, some_page) in
    let (r, returns, kept, grown) =
      alloc_array-Grown v pool_len heap.config.pagesize (omega arith) some_page
        (omega (arith, v.int_page)) in
    elim grown [
      | inl (null, (code, errno), same) ↦ (
        record {
          err = neg (pos enomem);
          errno = r.errno;
          pool = record pool { prps = 0 };
          heap = with_list heap r.list;
        },
        rw (tested, returns, null) refl,
        kept,
        refl,
        refused code refl errno same,
      )
      | inr (fresh, at, enough, above, within, ins) ↦
          let prps : ℕ = fresh.addr + heap.config.pagesize in
          let offset : ℕ = fresh.addr + heap.config.pagesize - heap.memory.virt in
          let (pool', paged, same, _, all) =
            set_pages-HasPage (IsMapped-with_list r.list m) prps offset (omega (arith, above))
              (omega (arith, within, above)) some_page pool_len 0 (record pool { prps = prps }) refl
              refl sized (λ j h. absurd (omega (arith, h))) in
          (
            record { err = pos 0; errno = r.errno; pool = pool'; heap = with_list heap r.list },
            rw (tested, returns, at, paged) refl,
            kept,
            refl,
            given fresh refl same ins (λ i h. rw (ap (λ (p : RequestPool). p.prps) same) (all i h)),
          )
    ]
