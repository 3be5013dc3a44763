-- ===== src/Nvme/Request/Tests.antt =====
-- The request pool at a concrete pool, and its theorems there.
use upcie.Prelude.{
  ℕ, ◌<◌, ◌≡◌, refl, arith, [], ◌∷◌, done, some, replicate, length-replicate, get_elem?,
}
use upcie.Nvme.Request.{NvmeRequest, RequestPool, pool_len, pool_init, request_free}
use upcie.Nvme.Request.Pool.{IsPool, Popped, request_alloc-Popped, pool_init-IsPool}
use upcie.Nvme.Request.InFlight.{Driver, submit, here, next, IsTracked, complete_proceeds}

abbrev blank_request : NvmeRequest
blank_request = record { cid = 0; user = 0; prp_addr = 0; prp = 0 }

abbrev blank_pool : RequestPool
blank_pool = record {
  reqs = replicate 1024 blank_request;
  stack = replicate 1024 0;
  top = 0;
  prps = 0;
}

-- The pool after initialisation, and the identifier that it hands out first.
ready :
    (pool' : RequestPool) × (pool_init blank_pool ≡ done pool')
    × IsPool pool'
    × (pool'.top ≡ pool_len)
    × ((i : ℕ)
        → i < pool_len
        → (req : NvmeRequest) × (get_elem? pool'.reqs i ≡ some req) × (req.cid ≡ i))
ready =
    pool_init-IsPool blank_pool (length-replicate 1024 blank_request)
      (length-replicate {A = ℕ} 1024 0)

first : (cid : ℕ) × (pool' : RequestPool) × Popped ready.0 cid pool'
first = request_alloc-Popped ready.2 (omega (arith, ready.3))

abbrev in_flight : Driver
in_flight = record { pool = first.1; flight = first.0 ∷ [] }

complete_proceeds_example :
    IsTracked in_flight × (pool' : RequestPool) × (request_free first.1 first.0 ≡ done pool')
complete_proceeds_example =
    complete_proceeds blank_pool in_flight 0 first.0 (length-replicate 1024 blank_request)
      (length-replicate {A = ℕ} 1024 0) ready.0 ready.1
      (next here (submit (record { pool = ready.0; flight = [] }) first.0 first.1 first.2.returns))
      refl
