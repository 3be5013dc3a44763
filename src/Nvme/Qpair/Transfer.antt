-- ===== src/Nvme/Qpair/Transfer.antt =====
-- The submission of a command with a buffer.
use upcie.Prelude.{◌<◌, some, sym, subst, ◌∙◌, Outcome, ℕ, ◌+◌, ◌%◌, ◌≤◌, ◌≡◌, refl, done, ◌>>=◌}
use upcie.Hostmem.Types.{HostmemHeap}
use upcie.Hostmem.Dma.Translate.{IsMapped}
use upcie.Mmio.{Device}
use upcie.Nvme.Command.{NvmeCommand, NvmeCompletion}
use upcie.Nvme.Request.{NvmeRequest}
use upcie.Hostmem.Dma.{hostmem_dma_v2p}
use upcie.Nvme.Prps.{Prepared, prep_contig}
use upcie.Nvme.Prps.Device.{pages_of, device_address}
use upcie.Nvme.Prps.Host.{
  host_window, prep_command_prps_contig, device_address-prep_command_prps_contig,
}
use upcie.Nvme.Qpair.{Qpair, Reaped, submit_sync_contig_prps}
use upcie.Nvme.Qpair.Sync.{IsReady, Kept, Outcomes, Handed, submitted, submit_with-Outcomes}

-- The preparation of the command and of the request's list page.
abbrev prepare :
    {S : Type 0}
    → Device S
    → HostmemHeap
    → ℕ
    → ℕ
    → NvmeRequest
    → NvmeCommand
    → S
    → Outcome (NvmeCommand × S)
prepare d heap dbuf nbytes req cmd s = do
  prepared ← prep_contig (host_window heap) req.prp_addr dbuf nbytes cmd
  done (prepared.cmd, d.store_prps req.prp prepared.prp_list s)

done_inj : {a b : Prepared} → done a ≡ done b → a ≡ b
done_inj e = cc

-- With a buffer of at least one byte inside a mapped heap that spans at most 513 pages, on a queue pair
-- that can take a command, the submission returns. It puts a command into the submission queue whose
-- fields, with the list that it writes to the page of the request, lead the controller for every
-- byte of the buffer to the address that `hostmem_dma_v2p` gives of it, and rings the doorbell. The
-- first completion that is found by then, one poll for each millisecond, is returned, with 0 or, if
-- its status is an error, -EIO, and the pool as it was. If none of the polls finds one, the result
-- is EAGAIN, a positive number, and one request fewer is free. The depth and the requests stay, and
-- the pool is in order.
pub submit_sync_contig_prps-Outcomes :
    {S : Type 0} (d : Device S) (qp : Qpair) (heap : HostmemHeap) (offset nbytes : ℕ)
    (cmd : NvmeCommand) (timeout_ms : ℕ) (cpl : NvmeCompletion) (s : S)
    → IsReady qp
    → IsMapped heap
    → offset + nbytes ≤ heap.memory.size
    → pages_of heap.config.pagesize (offset % heap.config.pagesize) nbytes ≤ 513
    → 1 ≤ nbytes
    → (w : Reaped S) × (handed : Handed d qp) × (prepared : Prepared) × (submit_sync_contig_prps d
          qp
          (host_window heap)
          (heap.memory.virt + offset)
          nbytes
          cmd
          timeout_ms
          cpl
          s
        ≡ done w)
      × (prep_command_prps_contig handed.req heap
            (heap.memory.virt + offset)
            nbytes
            (record cmd { cid = handed.req.cid })
          ≡ done prepared)
      × ((j : ℕ)
          → j < nbytes
          → (address : ℕ) × (device_address heap.config.pagesize handed.req.prp_addr prepared nbytes
                j
              ≡ some address)
            × (hostmem_dma_v2p heap (heap.memory.virt + offset + j) ≡ done address))
      × Outcomes d qp timeout_ms
          (submitted d qp prepared.cmd (d.store_prps handed.req.prp prepared.prp_list s))
          w
      × Kept qp w.qp
unfolding submit_sync_contig_prps prep_command_prps_contig
submit_sync_contig_prps-Outcomes {S} d qp heap offset nbytes cmd timeout_ms cpl s v m fits short
      some_byte =
    let (w, handed, returns, ends, kept) =
      submit_with-Outcomes d (prepare d heap (heap.memory.virt + offset) nbytes) total qp cmd
        timeout_ms cpl s v in
    (
      w,
      handed,
      (fields handed.req (record cmd { cid = handed.req.cid })).0,
      returns,
      (fields handed.req (record cmd { cid = handed.req.cid })).1,
      (λ j h.
          let (other, address, same, leads, translates) =
            device_address-prep_command_prps_contig handed.req heap offset nbytes j
              (record cmd { cid = handed.req.cid }) m fits short h in
          let (own, prepares) = fields handed.req (record cmd { cid = handed.req.cid }) in
          (
            address,
            subst
                (λ (p : Prepared).
                  device_address heap.config.pagesize handed.req.prp_addr p nbytes j ≡ some address)
                (done_inj (sym same ∙ prepares)) leads,
            translates,
          )),
      ends,
      kept,
    )
  where
    fields :
        (req : NvmeRequest) (cmd : NvmeCommand)
        → (prepared : Prepared) × (prep_contig
              (host_window heap)
              req.prp_addr
              (heap.memory.virt + offset)
              nbytes
              cmd
            ≡ done prepared)
    fields req cmd =
        let (prepared, _, returns, _, _) =
          device_address-prep_command_prps_contig req heap offset nbytes 0 cmd m fits short
            some_byte in
        (prepared, returns)

    total :
        (req : NvmeRequest) (cmd : NvmeCommand) (s : S)
        → (cmd' : NvmeCommand) × (s' : S) × (prepare d heap
              (heap.memory.virt + offset)
              nbytes
              req
              cmd
              s
            ≡ done (cmd', s'))
    total req cmd s =
        let (prepared, returns) = fields req cmd in
        (prepared.cmd, d.store_prps req.prp prepared.prp_list s, rw returns refl)
