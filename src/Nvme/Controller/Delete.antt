-- ===== src/Nvme/Controller/Delete.antt =====
-- The deletion of I/O queue pairs.
use upcie.Prelude.{◌≤◌, ◌≡◌, refl, arith, ap, ◌∙◌, some, pos, done, ℕ_discrete}
use upcie.Prelude.Bits.{u16}
use upcie.Hostmem.Heap.RoundTrip.{owned, with_list}
use upcie.Mmio.{Device}
use upcie.Nvme.Qid.{is_allocated}
use upcie.Nvme.Qid.Laws.{free_lem}
use upcie.Nvme.Request.Paged.{IsMapped-with_list}
use upcie.Nvme.Qpair.{Qpair}
use upcie.Nvme.Controller.{Controller, Called, delete_command, delete_io_qpair}
use upcie.Nvme.Controller.Resources.{IsController, room, admin-Commanded}
use upcie.Nvme.Controller.Queues.{SameQueries, Holding}

module _ {S : Type 0} (d : Device S) where
  -- What the deletion of a queue pair leaves: the qids and the memory of `before`.
  pub record Deleted (before : Controller) (r : Called S) : Type 0 where
    pub valid : IsController r.ctrlr
    pub same_qids : SameQueries before.qids r.ctrlr.qids
    pub same_memory : owned r.ctrlr.heap ≡ owned before.heap

  -- Deleting the I/O queue pair that a creation left, on a controller in order with two requests free on
  -- its admin queue pair, returns. Whatever the commands returned, the bitmap then answers as before the
  -- creation and the memory in use is that of before, and the controller is in order.
  pub delete_io_qpair-Created :
      {before c : Controller} {qp : Qpair}
      → IsController before
      → IsController c
      → Holding before qp c
      → 2 ≤ room c
      → (s : S) → (r : Called S) × (delete_io_qpair d c qp s ≡ done r) × Deleted before r
  unfolding delete_io_qpair
  delete_io_qpair-Created {before} {c} {qp} u v held enough s =
      let fits : u16 qp.qid ≡ qp.qid = omega (arith, held.range) in
      let one = admin-Commanded d v (delete_command 0x0 (u16 qp.qid)) s (omega (arith, enough)) in
      let two =
        admin-Commanded d one.valid (delete_command 0x4 (u16 qp.qid)) one.reaped.dev
          (omega (arith, enough, one.used)) in
      let (left, free, valid, answers) = free_lem v.bitmap qp.qid held.range in
      let zero_left : is_allocated left 0 ≡ some (pos 1) =
        answers 0 (omega arith) ∙ ground (arith, held.io_qid, v.admin_qid) in
      (
        record {
          err = two.reaped.err;
          ctrlr = record c {
            aq = two.reaped.qp;
            heap = with_list before.heap held.list;
            qids = left;
          };
          qp = qp;
          dev = two.reaped.dev;
        },
        rw (one.returns, two.returns, held.released, fits, free) refl,
        record {
          valid = record {
            heap = held.kept;
            mapped = IsMapped-with_list held.list u.mapped;
            bitmap = valid;
            admin_qid = zero_left;
            pool = two.valid.pool;
            some_depth = two.valid.some_depth;
            numbered = two.valid.numbered;
            bar = v.bar;
            bar0 = v.bar0;
          };
          same_qids = λ p l. elim (ℕ_discrete p qp.qid) [
            | yes here ↦
                answers p l
                ∙ ground (arith, here, held.was_free, ap (is_allocated before.qids) here)
            | no apart ↦ answers p l ∙ ground (arith, apart, held.now_taken p l)
          ];
          same_memory = held.gone;
        },
      )
