-- ===== src/Nvme/Controller/Queues.antt =====
-- The creation of I/O queue pairs.
use upcie.Prelude.{
  ℕ, zero, suc, ◌+◌, ◌<◌, ◌≤◌, ◌≡◌, ◌≢◌, ◌==◌, refl, arith, ap, ap₂, sym, subst, ◌∙◌, inl, inr,
  Bool, Bool-cases, List, some, pos, neg, enomem, is_zero, done, if◌then◌else◌, ℕ_discrete,
}
use upcie.Prelude.Bits.{u16}
use upcie.Hostmem.Types.{HeapBlock, HostmemHeap}
use upcie.Hostmem.Dma.Translate.{IsMapped}
use upcie.Hostmem.Heap.Tiles.{allocated}
use upcie.Hostmem.Heap.RoundTrip.{IsHeap, owned, with_list}
use upcie.Mmio.{Device}
use upcie.Nvme.Qid.{is_allocated}
use upcie.Nvme.Qid.Bits.{IsBitmap, tracked}
use upcie.Nvme.Qid.Laws.{alloc_lem, free_lem}
use upcie.Nvme.Qid.Search.{find_free-lowest}
use upcie.Nvme.Request.Paged.{IsMapped-with_list}
use upcie.Nvme.Qpair.{Qpair}
use upcie.Nvme.Qpair.Setup.{qpair_term}
use upcie.Nvme.Qpair.Teardown.{InHeap, failed, ready, qpair_init-Prepared}
use upcie.Nvme.Controller.{
  Controller, Called, create_sq_command, create_cq_command, create_sq, create_queues, with_qpair,
  with_qid, with_found, create_io_qpair,
}
use upcie.Nvme.Controller.Resources.{IsController, room, v2p-done, admin-Commanded}

-- Queries of the bitmap answer as before.
abbrev pub SameQueries : List ℕ → List ℕ → Type 0
SameQueries before after = (p : ℕ) → p < tracked → is_allocated after p ≡ is_allocated before p

-- A queue pair with a qid that was free, and with memory whose release leaves the blocks of before.
pub record Holding (c : Controller) (qp : Qpair) (after : Controller) : Type 0 where
  pub io_qid : 1 ≤ qp.qid
  pub range : qp.qid < tracked
  pub was_free : is_allocated c.qids qp.qid ≡ some (pos 0)
  pub now_taken :
      (p : ℕ)
      → p < tracked
      → is_allocated after.qids p ≡ (if p == qp.qid then some (pos 1) else is_allocated c.qids p)
  pub list : List HeapBlock
  pub released : qpair_term qp after.heap ≡ done (with_list c.heap list)
  pub kept : IsHeap (with_list c.heap list)
  pub gone : allocated list ≡ owned c.heap

-- What the creation of an I/O queue pair leaves: an error with the qids and the memory of before, or
-- a queue pair that holds a qid and memory, whatever the commands returned.
pub data Created {S : Type 0} (c : Controller) (r : Called S) : Type 0 where
  refused :
      r.err ≢ pos 0
      → SameQueries c.qids r.ctrlr.qids
      → owned r.ctrlr.heap ≡ owned c.heap
      → Created c r
  holding : Holding c r.qp r.ctrlr → Created c r

module _ {S : Type 0} (d : Device S) where
  -- The two commands of the creation, on a controller whose heap and bitmap they leave alone.
  module _ {c : Controller} (v : IsController c) (qp : Qpair) (qid depth : ℕ) where
    -- What the commands leave: a controller in order, but for its admin queue pair the one of before.
    record Ran (r : Called S) : Type 0 where
      valid : IsController r.ctrlr
      used : room c ≤ room r.ctrlr + 2
      same_heap : r.ctrlr.heap ≡ c.heap
      same_qids : r.ctrlr.qids ≡ c.qids
      same_qp : r.qp ≡ qp

    create_queues-Ran :
        InHeap c.heap qp.sq × InHeap c.heap qp.cq
        → 2 ≤ room c
        → (s : S) → (r : Called S) × (create_queues d c qp qid depth s ≡ done r) × Ran r
    unfolding create_queues create_sq
    create_queues-Ran (sq, cq) enough s =
        let (cq_address, found) = v2p-done qp.cq v.mapped cq.from_start cq.to_end in
        let one =
          admin-Commanded d v (create_cq_command cq_address depth qid) s (omega (arith, enough)) in
        let (sq_address, found') = v2p-done qp.sq v.mapped sq.from_start sq.to_end in
        let two =
          admin-Commanded d one.valid (create_sq_command sq_address depth qid) one.reaped.dev
            (omega (arith, enough, one.used)) in
        elim (Bool-cases (is_zero one.reaped.err)) [
          | inl ok ↦ (
            record {
              err = two.reaped.err;
              ctrlr = record c { aq = two.reaped.qp };
              qp = qp;
              dev = two.reaped.dev;
            },
            rw (found, one.returns, ok, found', two.returns) refl,
            record {
              valid = two.valid;
              used = omega (arith, one.used, two.used);
              same_heap = refl;
              same_qids = refl;
              same_qp = refl;
            },
          )
          | inr bad ↦ (
            record {
              err = one.reaped.err;
              ctrlr = record c { aq = one.reaped.qp };
              qp = qp;
              dev = one.reaped.dev;
            },
            rw (found, one.returns, bad) refl,
            record {
              valid = one.valid;
              used = omega (arith, one.used);
              same_heap = refl;
              same_qids = refl;
              same_qp = refl;
            },
          )
        ]

  -- The creation on a controller in order with two requests free on its admin queue pair returns and
  -- leaves the controller in order with at most two requests fewer.
  abbrev pub CreatedBy : Controller → Called S → Type 0
  CreatedBy c r = IsController r.ctrlr × (room c ≤ room r.ctrlr + 2) × Created c r

  module _ {c : Controller} (v : IsController c) (calloc : Bool) (qp : Qpair) (depth : ℕ)
      (enough : 2 ≤ room c) (s : S) where
    -- A controller with another bitmap in order, in which qid 0 is taken, and another state of its
    -- heap.
    moved :
        (qids : List ℕ) (heap : HostmemHeap)
        → IsBitmap qids
        → is_allocated qids 0 ≡ some (pos 1)
        → IsHeap heap
        → heap ≡ with_list c.heap heap.freelist
        → IsController (record c { qids = qids; heap = heap })
    moved qids heap b zero_taken h same = record {
      heap = h;
      mapped = subst IsMapped (sym same) (IsMapped-with_list heap.freelist v.mapped);
      bitmap = b;
      admin_qid = zero_taken;
      pool = v.pool;
      some_depth = v.some_depth;
      numbered = v.numbered;
      bar = v.bar;
      bar0 = v.bar0;
    }

    with_qid-Created :
        (qid : ℕ)
        → 1 ≤ qid
        → qid < tracked
        → is_allocated c.qids qid ≡ some (pos 0)
        → (r : Called S) × (with_qid d calloc v.bar.region c qp qid depth s ≡ done r)
          × CreatedBy c r
    unfolding with_qid with_qpair
    with_qid-Created qid io range was_free =
        let (taken, alloc, valid, answers) = alloc_lem v.bitmap qid range in
        let zero_taken : is_allocated taken 0 ≡ some (pos 1) =
          answers 0 (omega arith) ∙ ground (arith, io, v.admin_qid) in
        let (r, returns, heap, same, prepared) =
          qpair_init-Prepared d v.heap v.mapped qp qid depth v.bar.region s calloc in
        elim prepared [
          | failed code err back ↦
              let (left, free, valid', answers') = free_lem valid qid range in
              let zero_left : is_allocated left 0 ≡ some (pos 1) =
                answers' 0 (omega arith) ∙ ground (arith, io, zero_taken) in
              (
                record {
                  err = r.err;
                  ctrlr = record c { qids = left; heap = r.heap };
                  qp = r.qp;
                  dev = r.dev;
                },
                rw (alloc, returns, ap is_zero err, free) refl,
                (
                  moved left r.heap valid' zero_left heap same,
                  omega arith,
                  refused (λ e. no_zero code (sym err ∙ e))
                      (λ p l. elim (ℕ_discrete p qid) [
                        | yes here ↦
                            answers' p l
                            ∙ ground (arith, here, was_free, ap (is_allocated c.qids) here)
                        | no apart ↦ answers' p l ∙ ground (arith, apart, answers p l)
                      ])
                      back,
                ),
              )
          | ready list err fields inside pages released kept gone ↦
              let c' : Controller = record c { qids = taken; heap = r.heap } in
              let v' : IsController c' = moved taken r.heap valid zero_taken heap same in
              let start : c'.heap.memory.virt ≡ c.heap.memory.virt =
                ap (λ (h : HostmemHeap). h.memory.virt) same in
              let size : c'.heap.memory.size ≡ c.heap.memory.size =
                ap (λ (h : HostmemHeap). h.memory.size) same in
              let (ran, ends, result) =
                create_queues-Ran v' r.qp qid depth
                  (
                    record {
                      from_start = omega (arith, start, inside.0.from_start);
                      to_end = omega (arith, start, size, inside.0.to_end);
                    },
                    record {
                      from_start = omega (arith, start, inside.1.from_start);
                      to_end = omega (arith, start, size, inside.1.to_end);
                    },
                  )
                  enough r.dev in
              let is_qid : ran.qp.qid ≡ qid = ap (λ (q : Qpair). q.qid) result.same_qp ∙ fields.0 in
              (
                ran,
                rw (alloc, returns, ap is_zero err) ends,
                (
                  result.valid,
                  omega (arith, result.used),
                  holding (record {
                    io_qid = omega (arith, is_qid, io);
                    range = omega (arith, is_qid, range);
                    was_free = ap (is_allocated c.qids) is_qid ∙ was_free;
                    now_taken = λ p l.
                        ap (λ b. is_allocated b p) result.same_qids
                        ∙ answers p l
                        ∙ ap (λ (q : ℕ). if p == q then some (pos 1) else is_allocated c.qids p)
                            (sym is_qid);
                    list = list;
                    released =
                        ap₂ (λ q h. qpair_term q h) result.same_qp result.same_heap ∙ released;
                    kept = kept;
                    gone = gone;
                  }),
                ),
              )
        ]
      where
        no_zero : (code : ℕ) → neg (pos (suc code)) ≢ pos 0
        no_zero code e = cc

    -- By the qid that the search found.
    with_found-Created :
        (q : ℕ)
        → q < tracked
        → is_allocated c.qids q ≡ some (pos 0)
        → (r : Called S) × (with_found d calloc v.bar.region c qp (pos q) depth s ≡ done r)
          × CreatedBy c r
    unfolding with_found
    with_found-Created zero range was_free = absurd (ground (arith, was_free, v.admin_qid))
    with_found-Created (suc q) range was_free =
        let fits : suc q ≡ u16 (suc q) = omega arith in
        let (r, returns, created) = with_qid-Created (suc q) (omega arith) range was_free in
        (
          r,
          ap (λ (n : ℕ). with_qid d calloc v.bar.region c qp n depth s) (sym fits) ∙ returns,
          created,
        )

    -- Creating an I/O queue pair, with two requests free on the admin queue pair of a controller in
    -- order, returns. An error of the search or of the set-up leaves the qids and the memory as they
    -- were; otherwise the queue pair holds a qid that was free and memory that can be released, whatever
    -- the commands returned. The controller is in order, with at most two requests fewer.
    pub create_io_qpair-Created :
        (r : Called S) × (create_io_qpair d calloc c qp depth s ≡ done r) × CreatedBy c r
    unfolding create_io_qpair
    create_io_qpair-Created = elim (find_free-lowest v.bitmap) [
      | inl (q, found, range, was_free, lower, _) ↦
          let (r, returns, created) = with_found-Created q range was_free in
          (r, rw (found, v.bar0) returns, created)
      | inr (full, all) ↦ (
        record { err = neg (pos enomem); ctrlr = c; qp = qp; dev = s },
        rw (full, v.bar0) (unfold with_found in refl),
        (v, omega arith, refused (λ e. cc) (λ p l. refl) refl),
      )
    ]
