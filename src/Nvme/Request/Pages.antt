-- ===== src/Nvme/Request/Pages.antt =====
-- include/upcie/nvme/nvme_request.h: the memory for the PRP lists of a pool, a page for each request.
use upcie.Prelude.{
  ℕ, zero, suc, ◌+◌, ◌*◌, Option, some, none, ℤ, pos, neg, enomem, Outcome, done, ◌>>=◌, read,
  get_elem?, set,
}
use upcie.Prelude.Bits.{u64}
use upcie.Hostmem.Types.{HostmemHeap}
use upcie.Hostmem.Dma.{hostmem_dma_v2p}
use upcie.Hostmem.Dma.Memory.{hostmem_dma_alloc_array, hostmem_dma_free}
use upcie.Nvme.Request.{RequestPool, pool_len}

-- The request with its page.
unfoldable pub set_page : HostmemHeap → ℕ → RequestPool → Outcome RequestPool
set_page heap i pool = do
  req ← read (get_elem? pool.reqs i)
  let prp = u64 (pool.prps + i * heap.config.pagesize)
  prp_addr ← hostmem_dma_v2p heap prp
  done (record pool { reqs = set pool.reqs i (record req { prp = prp; prp_addr = prp_addr }) })

-- The loop from index `i` on, with `left` rounds to go.
unfoldable pub set_pages : HostmemHeap → ℕ → ℕ → RequestPool → Outcome RequestPool
set_pages heap zero i pool = done pool
set_pages heap (suc left) i pool = do pool ← set_page heap i pool; set_pages heap left (i + 1) pool

-- What `nvme_request_pool_init_prps` leaves; `errno` is what the allocation set it to, if it did.
pub record PagesSet : Type 0 where
  pub err : ℤ
  pub errno : Option ℕ
  pub pool : RequestPool
  pub heap : HostmemHeap

-- What follows the allocation, by the pointer it gave.
unfoldable pub with_pages : RequestPool → HostmemHeap → Option ℕ → Option ℕ → Outcome PagesSet
with_pages pool heap errno none =
    done (record {
      err = neg (pos enomem);
      errno = errno;
      pool = record pool { prps = 0 };
      heap = heap;
    })
with_pages pool heap errno (some prps) = do
  pool ← set_pages heap pool_len 0 (record pool { prps = prps })
  done (record { err = pos 0; errno = errno; pool = pool; heap = heap })

unfoldable pub init_prps : RequestPool → HostmemHeap → Outcome PagesSet
unfolding with_pages
init_prps pool heap = do
  r ← hostmem_dma_alloc_array heap pool_len heap.config.pagesize
  with_pages pool (record heap { freelist = r.list }) r.errno r.ptr

unfoldable pub term_prps : RequestPool → HostmemHeap → Outcome HostmemHeap
term_prps pool heap = hostmem_dma_free heap pool.prps
