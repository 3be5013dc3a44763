-- ===== src/Nvme/Controller/Resources.antt =====
-- A controller whose parts are in order, and commands on its admin queue pair.
use upcie.Prelude.{
  ℕ, ◌+◌, ◌-◌, ◌<◌, ◌≤◌, ◌≡◌, refl, arith, ap, ◌∙◌, inl, inr, some, pos, done, get_elem?,
}
use upcie.Pci.{PciBar}
use upcie.Hostmem.Types.{HostmemHeap}
use upcie.Hostmem.Dma.{hostmem_dma_v2p}
use upcie.Hostmem.Dma.Translate.{IsMapped, phys_at, hostmem_dma_v2p-phys_at}
use upcie.Hostmem.Heap.RoundTrip.{IsHeap, heap_end}
use upcie.Mmio.{Device}
use upcie.Nvme.Command.{NvmeCommand, zero_completion}
use upcie.Nvme.Qid.{is_allocated}
use upcie.Nvme.Qid.Bits.{IsBitmap}
use upcie.Nvme.Request.{NvmeRequest, RequestPool, pool_len}
use upcie.Nvme.Request.Pool.{IsPool}
use upcie.Nvme.Qpair.{Reaped}
use upcie.Nvme.Qpair.Setup.{queue_nbytes}
use upcie.Nvme.Qpair.Sync.{IsReady, submit_sync-Outcomes}
use upcie.Nvme.Controller.{Controller, admin}

-- A controller with an admin queue pair, a bitmap in which qid 0 is taken, and a mapped heap in order.
pub record IsController (c : Controller) : Type 0 where
  pub heap : IsHeap c.heap
  pub mapped : IsMapped c.heap
  pub bitmap : IsBitmap c.qids
  pub admin_qid : is_allocated c.qids 0 ≡ some (pos 1)
  pub pool : IsPool c.aq.rpool
  pub some_depth : 1 ≤ c.aq.depth
  pub numbered :
      (i : ℕ)
      → i < pool_len
      → (req : NvmeRequest) × (get_elem? c.aq.rpool.reqs i ≡ some req) × (req.cid ≡ i)
  pub bar : PciBar
  pub bar0 : get_elem? c.func.bars 0 ≡ some bar

-- The requests that are free on the admin queue pair.
abbrev pub room : Controller → ℕ
room c = c.aq.rpool.top

-- Memory of a queue in a mapped heap is translated.
pub v2p-done :
    {heap : HostmemHeap} (queue : ℕ)
    → IsMapped heap
    → heap.memory.virt ≤ queue
    → queue + queue_nbytes ≤ heap_end heap
    → (address : ℕ) × (hostmem_dma_v2p heap queue ≡ done address)
v2p-done {heap} queue m low high =
    let offset : ℕ = queue - heap.memory.virt in
    (
      phys_at heap offset,
      ap (hostmem_dma_v2p heap) (omega (arith, low))
          ∙ hostmem_dma_v2p-phys_at m offset (omega (arith, low, high)),
    )

module _ {S : Type 0} (d : Device S) where
  -- A command returns, uses up at most one request, and leaves the rest in order.
  pub record Commanded (c : Controller) (cmd : NvmeCommand) (s : S) : Type 0 where
    pub reaped : Reaped S
    pub returns : admin d c cmd s ≡ done (reaped, record c { aq = reaped.qp })
    pub valid : IsController (record c { aq = reaped.qp })
    pub used : room c ≤ reaped.qp.rpool.top + 1

  pub admin-Commanded :
      {c : Controller}
      → IsController c
      → (cmd : NvmeCommand) (s : S) → 1 ≤ room c
      → Commanded c cmd s
  unfolding admin
  admin-Commanded {c} v cmd s enough =
      let ready : IsReady c.aq = record {
        pool = v.pool;
        room = enough;
        some_depth = v.some_depth;
        numbered = v.numbered;
      } in
      let (w, handed, returns, outcomes, kept) =
        submit_sync-Outcomes d c.aq cmd c.timeout_ms zero_completion s ready in
      record {
        reaped = w;
        returns = rw returns refl;
        valid = record {
          heap = v.heap;
          mapped = v.mapped;
          bitmap = v.bitmap;
          admin_qid = v.admin_qid;
          pool = kept.pool;
          some_depth = omega (arith, kept.depth_kept, v.some_depth);
          numbered = λ i h.
              let (req, at, is_cid) = v.numbered i h in
              (req, ap (λ l. get_elem? l i) kept.reqs_kept ∙ at, is_cid);
          bar = v.bar;
          bar0 = v.bar0;
        };
        used = elim outcomes [
          | inl (_, _, same) ↦ omega (arith, ap (λ (p : RequestPool). p.top) same)
          | inr (_, _, less) ↦ omega (arith, less)
        ];
      }
