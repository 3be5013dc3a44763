-- ===== src/Nvme/Request.antt =====
-- include/upcie/nvme/nvme_request.h: the pool of requests, whose stack holds the command
-- identifiers that are free. A pointer into `reqs` is its index, which is the identifier. The
-- assertions are compiled in.
pub mod Pool
pub mod InFlight
pub mod Pages
pub mod Paged
mod Tests
use upcie.Prelude.{
  ℕ, zero, suc, ◌+◌, ◌-◌, ◌*◌, List, Outcome, done, ◌>>=◌, ◌>>◌, assert, read, get_elem?, set, ltb,
}
use upcie.Prelude.Bits.{u64}

abbrev pub pool_len : ℕ
pool_len = 1024

-- `struct nvme_request`.
pub record NvmeRequest : Type 0 where
  pub cid : ℕ
  pub user : ℕ
  pub prp_addr : ℕ
  pub prp : ℕ

-- `struct nvme_request_pool`.
pub record RequestPool : Type 0 where
  pub reqs : List NvmeRequest
  pub stack : List ℕ
  pub top : ℕ
  pub prps : ℕ

-- One round of the loop of `nvme_request_pool_init`.
unfoldable pub init_request : ℕ → RequestPool → Outcome RequestPool
init_request i pool = do
  req ← read (get_elem? pool.reqs i)
  slot ← read (get_elem? pool.stack (pool_len - 1 - i))
  done (record pool {
    reqs = set pool.reqs i (record req { cid = i });
    stack = set pool.stack (pool_len - 1 - i) i;
  })

-- The loop from index `i` on, with `left` rounds to go.
unfoldable pub init_requests : ℕ → ℕ → RequestPool → Outcome RequestPool
init_requests zero i pool = done pool
init_requests (suc left) i pool = do pool ← init_request i pool; init_requests left (i + 1) pool

unfoldable pub pool_init : RequestPool → Outcome RequestPool
unfolding init_requests init_request
pool_init pool = init_requests pool_len 0 (record pool { top = pool_len })

unfoldable pub request_alloc : RequestPool → Outcome (ℕ × RequestPool)
request_alloc pool = do
  assert (ltb 0 pool.top)
  cid ← read (get_elem? pool.stack (pool.top - 1))
  done (cid, record pool { top = pool.top - 1 })

unfoldable pub request_free : RequestPool → ℕ → Outcome RequestPool
request_free pool cid = do
  assert (ltb pool.top pool_len)
  slot ← read (get_elem? pool.stack pool.top)
  done (record pool { stack = set pool.stack pool.top cid; top = pool.top + 1 })

unfoldable pub request_get : RequestPool → ℕ → Outcome ℕ
request_get pool cid = do assert (ltb cid pool_len); done cid
