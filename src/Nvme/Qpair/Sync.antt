-- ===== src/Nvme/Qpair/Sync.antt =====
-- Every outcome of the synchronous submission.
use upcie.Prelude.{
  ℕ, zero, suc, ◌+◌, ◌%◌, ◌≤◌, ◌<◌, ◌≡◌, ◌==◌, refl, arith, ap, sym, subst, ◌∙◌, bit_and,
  Bool-cases, true, false, if◌then◌else◌, pos, neg, eagain, eio, inl, inr, ◌⊎◌, Outcome, done, some,
  get_elem?,
}
use upcie.Prelude.Bits.{u16}
use upcie.Mmio.{Device, mmio_write32}
use upcie.Nvme.Command.{NvmeCommand, NvmeCompletion}
use upcie.Nvme.Request.{NvmeRequest, RequestPool, pool_len, request_alloc, request_free}
use upcie.Nvme.Request.Pool.{IsPool, request_alloc-inversion, request_free-request_alloc}
use upcie.Nvme.Qpair.{
  Qpair, Reaped, advance_head, is_fresh, reap_cpl, sqdb_update, enqueue, complete_sync, submit_with,
  submit_sync,
}

-- A queue pair that can take a command: a request is free, and the requests stand under their own
-- identifiers.
pub record IsReady (qp : Qpair) : Type 0 where
  pub pool : IsPool qp.rpool
  pub room : 1 ≤ qp.rpool.top
  pub some_depth : 1 ≤ qp.depth
  pub numbered :
      (i : ℕ)
      → i < pool_len
      → (req : NvmeRequest) × (get_elem? qp.rpool.reqs i ≡ some req) × (req.cid ≡ i)

-- What a command leaves alone: the depth, and the requests, in a pool in order.
pub record Kept (qp qp' : Qpair) : Type 0 where
  pub depth_kept : qp'.depth ≡ qp.depth
  pub pool : IsPool qp'.rpool
  pub reqs_kept : qp'.rpool.reqs ≡ qp.rpool.reqs

advance_head-depth : (qp : Qpair) → (advance_head qp).depth ≡ qp.depth
unfolding advance_head
advance_head-depth qp = ground arith

advance_head-rpool : (qp : Qpair) → (advance_head qp).rpool ≡ qp.rpool
unfolding advance_head
advance_head-rpool qp = ground arith

module _ {S : Type 0} (d : Device S) where
  -- The device after `i` waits of a millisecond.
  abbrev pub waited : ℕ → S → S
  waited zero s = s
  waited (suc i) s = waited i (d.usleep 1000 s)

  -- The entry at the head at the poll behind `i` waits.
  abbrev pub polled : Qpair → ℕ → S → NvmeCompletion
  polled qp i s = d.load_cqe qp.cq qp.head (waited i s)

  -- None of the polls finds a completion.
  abbrev pub AllStale : Qpair → ℕ → S → Type 0
  AllStale qp polls s = (i : ℕ) → i < polls → is_fresh qp (polled qp i s) ≡ false

  -- The first of the polls that finds a completion, and this completion.
  pub record Arrives (qp : Qpair) (polls : ℕ) (s : S) (cpl : NvmeCompletion) : Type 0 where
    pub i : ℕ
    pub in_time : i < polls
    pub found : polled qp i s ≡ cpl
    pub fresh : is_fresh qp cpl ≡ true
    pub earlier : AllStale qp i s

  -- Behind a poll that finds none.
  stale_first :
      (qp : Qpair) (polls : ℕ) (s : S)
      → is_fresh qp (polled qp 0 s) ≡ false
      → AllStale qp polls (d.usleep 1000 s)
      → AllStale qp (suc polls) s
  stale_first qp polls s stale later zero h = stale
  stale_first qp polls s stale later (suc i) h = later i (omega (arith, h))

  -- What reaping ends with: 0 and the first completion in time, or -EAGAIN.
  abbrev Reaps : Qpair → ℕ → S → Reaped S → Type 0
  Reaps qp polls s w =
      ((w.err ≡ pos 0) × Arrives qp polls s w.cpl)
      ⊎ ((w.err ≡ neg (pos eagain)) × AllStale qp polls s)

  -- Reaping leaves the requests alone.
  reap_cpl-Reaps :
      (qp : Qpair) (timeout_ms : ℕ) (cpl : NvmeCompletion) (s : S)
      → ((reap_cpl d qp timeout_ms cpl s).qp.rpool ≡ qp.rpool)
        × Reaps qp timeout_ms s (reap_cpl d qp timeout_ms cpl s)
  unfolding reap_cpl
  reap_cpl-Reaps qp zero cpl s = (refl, inr (refl, λ i h. absurd (omega (arith, h))))
  reap_cpl-Reaps qp (suc left) cpl s =
      let rest = reap_cpl-Reaps qp left cpl (d.usleep 1000 s) in
      elim (Bool-cases (is_fresh qp (d.load_cqe qp.cq qp.head s))) [
        | inl fresh ↦
            let returns : reap_cpl d qp (suc left) cpl s ≡ record {
              err = pos 0;
              cpl = d.load_cqe qp.cq qp.head s;
              qp = advance_head qp;
              dev = mmio_write32 d qp.cqdb 0 (advance_head qp).head s;
            } =
              ground (arith, fresh) in
            subst (λ w. (w.qp.rpool ≡ qp.rpool) × Reaps qp (suc left) s w) (sym returns)
              (
                advance_head-rpool qp,
                inl (
                  refl,
                  record {
                    i = 0;
                    in_time = omega arith;
                    found = refl;
                    fresh = fresh;
                    earlier = λ i h. absurd (omega (arith, h));
                  },
                ),
              )
        | inr stale ↦
            let returns : reap_cpl d qp (suc left) cpl s
                ≡ reap_cpl d qp left cpl (d.usleep 1000 s) =
              ground (arith, stale) in
            subst (λ w. (w.qp.rpool ≡ qp.rpool) × Reaps qp (suc left) s w) (sym returns)
              (
                rest.0,
                elim rest.1 [
                  | inl (ok, arrives) ↦ inl (
                    ok,
                    record {
                      i = suc arrives.i;
                      in_time = omega (arith, arrives.in_time);
                      found = arrives.found;
                      fresh = arrives.fresh;
                      earlier = stale_first qp arrives.i s stale arrives.earlier;
                    },
                  )
                  | inr (late, all) ↦ inr (late, stale_first qp left s stale all)
                ],
              )
      ]

  reap_cpl-depth :
      (qp : Qpair) (timeout_ms : ℕ) (cpl : NvmeCompletion) (s : S)
      → (reap_cpl d qp timeout_ms cpl s).qp.depth ≡ qp.depth
  unfolding reap_cpl
  reap_cpl-depth qp zero cpl s = refl
  reap_cpl-depth qp (suc left) cpl s =
      elim (Bool-cases (is_fresh qp (d.load_cqe qp.cq qp.head s))) [
        | inl fresh ↦ rw fresh (advance_head-depth qp)
        | inr stale ↦ rw stale (reap_cpl-depth qp left cpl (d.usleep 1000 s))
      ]

  sqdb_update-depth : (qp : Qpair) (s : S) → (sqdb_update d qp s).0.depth ≡ qp.depth
  unfolding sqdb_update
  sqdb_update-depth qp s = ground arith

  sqdb_update-rpool : (qp : Qpair) (s : S) → (sqdb_update d qp s).0.rpool ≡ qp.rpool
  unfolding sqdb_update
  sqdb_update-rpool qp s = ground arith

  -- The device once a command is in the submission queue and the doorbell was rung.
  abbrev pub submitted : Qpair → NvmeCommand → S → S
  submitted qp cmd s =
      let tail = u16 ((qp.tail + 1) % qp.depth) in
      let s = d.store_sqe qp.sq qp.tail cmd s in
      if tail == qp.tail_last_written then s else mmio_write32 d qp.sqdb 0 tail s

  -- The outcomes of a synchronous command, waited for from a state of the device on: the first
  -- completion that a poll found says whether it failed, and the pool is what it was before, or no poll
  -- found one, and then one request fewer is free.
  abbrev pub Outcomes : Qpair → ℕ → S → Reaped S → Type 0
  Outcomes qp timeout_ms s w =
      (Arrives qp timeout_ms s w.cpl
        × (w.err ≡ (if bit_and w.cpl.status 0x1FE == 0 then pos 0 else neg (pos eio)))
        × (w.qp.rpool ≡ qp.rpool))
      ⊎ (AllStale qp timeout_ms s × (w.err ≡ pos eagain) × (w.qp.rpool.top + 1 ≡ qp.rpool.top))

  complete_sync-Outcomes :
      (qp : Qpair) (timeout_ms : ℕ) (s : S) (pool' : RequestPool) (cid : ℕ) (w : Reaped S)
      → request_free pool' cid ≡ done qp.rpool
      → pool'.top + 1 ≡ qp.rpool.top
      → w.qp.rpool ≡ pool'
      → Reaps qp timeout_ms s w
      → (r : Reaped S) × (complete_sync d cid w ≡ done r)
        × Outcomes qp timeout_ms s r
        × (r.qp.depth ≡ w.qp.depth)
        × ((r.qp.rpool ≡ qp.rpool) ⊎ (r.qp.rpool ≡ pool'))
  unfolding complete_sync
  complete_sync-Outcomes qp timeout_ms s pool' cid w freed less same which = elim which [
    | inl (ok, arrives) ↦ (
      record w {
        err = if bit_and w.cpl.status 0x1FE == 0 then pos 0 else neg (pos eio);
        qp = record w.qp { rpool = qp.rpool };
      },
      rw (ok, same, freed) refl,
      inl (arrives, refl, refl),
      refl,
      inl refl,
    )
    | inr (late, all) ↦ (
      record w { err = neg w.err },
      rw late refl,
      inr (all, ap neg late, ap (λ (p : RequestPool). p.top + 1) same ∙ less),
      refl,
      inr same,
    )
  ]

  -- The doorbell is rung with the new tail, if that is not what it was rung with last.
  sqdb_update-dev :
      (qp : Qpair) (s : S)
      → (sqdb_update d qp s).1
        ≡ (if qp.tail == qp.tail_last_written then s else mmio_write32 d qp.sqdb 0 qp.tail s)
  unfolding sqdb_update
  sqdb_update-dev qp s = ground arith

  -- The polls do not depend on the pool and on the submission queue.
  Reaps-cq :
      (qp : Qpair) (rpool : RequestPool) (tail last polls : ℕ) (s : S) (w : Reaped S)
      → Reaps (record qp { rpool = rpool; tail = tail; tail_last_written = last }) polls s w
      → Reaps qp polls s w
  unfolding is_fresh
  Reaps-cq qp rpool tail last polls s w (inl (ok, arrives)) = inl (
    ok,
    record {
      i = arrives.i;
      in_time = arrives.in_time;
      found = arrives.found;
      fresh = arrives.fresh;
      earlier = arrives.earlier;
    },
  )
  Reaps-cq qp rpool tail last polls s w (inr stale) = inr stale

  -- Ringing the doorbell leaves the completion queue alone.
  sqdb_update-Reaps :
      (qp : Qpair) (rpool : RequestPool) (tail polls : ℕ) (s t : S) (w : Reaped S)
      → Reaps (sqdb_update d (record qp { rpool = rpool; tail = tail }) s).0 polls t w
      → Reaps qp polls t w
  unfolding sqdb_update
  sqdb_update-Reaps qp rpool tail polls s t w reaps =
      elim (Bool-cases (tail == qp.tail_last_written)) [
        | inl rung ↦ Reaps-cq qp rpool tail qp.tail_last_written polls t w (rw rung at reaps)
        | inr new ↦ Reaps-cq qp rpool tail tail polls t w (rw new at reaps)
      ]

  -- The request that the pool hands out, under its own identifier.
  pub record Handed (qp : Qpair) : Type 0 where
    pub cid : ℕ
    pub left : RequestPool
    pub allocates : request_alloc qp.rpool ≡ done (cid, left)
    pub req : NvmeRequest
    pub at : get_elem? qp.rpool.reqs cid ≡ some req
    pub own : req.cid ≡ cid

  -- The submission with a preparation that succeeds.
  pub submit_with-Outcomes :
      (prep : NvmeRequest → NvmeCommand → S → Outcome (NvmeCommand × S))
      (total : (req : NvmeRequest) (cmd : NvmeCommand) (s : S)
        → (cmd' : NvmeCommand) × (s' : S) × (prep req cmd s ≡ done (cmd', s')))
      (qp : Qpair) (cmd : NvmeCommand) (timeout_ms : ℕ) (cpl : NvmeCompletion) (s : S)
      → IsReady qp
      → (w : Reaped S) × (handed : Handed qp) × (submit_with d prep qp cmd timeout_ms cpl s
          ≡ done w)
        × Outcomes qp timeout_ms
            (submitted qp
              (total handed.req (record cmd { cid = handed.req.cid }) s).0
              (total handed.req (record cmd { cid = handed.req.cid }) s).1)
            w
        × Kept qp w.qp
  unfolding submit_with enqueue
  submit_with-Outcomes prep total qp cmd timeout_ms cpl s ready =
      let (cid, pool', alloc, freed, range, reqs, less) =
        request_free-request_alloc ready.pool ready.room in
      let (req, at, is_cid) = ready.numbered cid range in
      let there : get_elem? pool'.reqs cid ≡ some req = rw reqs at in
      let cmd' : NvmeCommand = (total req (record cmd { cid = req.cid }) s).0 in
      let s' : S = (total req (record cmd { cid = req.cid }) s).1 in
      let prepared = (total req (record cmd { cid = req.cid }) s).2 in
      let nonzero : (qp.depth == 0) ≡ false = ground (arith, ready.some_depth) in
      let put : Qpair = record qp { rpool = pool'; tail = u16 ((qp.tail + 1) % qp.depth) } in
      let stored : S = d.store_sqe qp.sq qp.tail cmd' s' in
      let updated : Qpair × S = sqdb_update d put stored in
      let start : S = submitted qp cmd' s' in
      let rung : updated.1 ≡ start = sqdb_update-dev put stored in
      let reaped = reap_cpl-Reaps updated.0 timeout_ms cpl updated.1 in
      let same : (reap_cpl d updated.0 timeout_ms cpl updated.1).qp.rpool ≡ pool' =
        reaped.0 ∙ sqdb_update-rpool put stored in
      let reaps : Reaps qp timeout_ms start (reap_cpl d updated.0 timeout_ms cpl updated.1) =
        subst (λ t. Reaps qp timeout_ms t (reap_cpl d updated.0 timeout_ms cpl updated.1)) rung
          (sqdb_update-Reaps qp pool' (u16 ((qp.tail + 1) % qp.depth)) timeout_ms stored updated.1
            (reap_cpl d updated.0 timeout_ms cpl updated.1) reaped.1) in
      let back : request_free pool' req.cid ≡ done qp.rpool = rw is_cid freed in
      let (w, e, ends, depth, which) =
        complete_sync-Outcomes qp timeout_ms start pool' req.cid
          (reap_cpl d updated.0 timeout_ms cpl updated.1) back less same reaps in
      let popped = request_alloc-inversion cid ready.pool alloc in
      (
        w,
        record { cid = cid; left = pool'; allocates = alloc; req = req; at = at; own = is_cid },
        rw (alloc, there, prepared, nonzero) e,
        ends,
        record {
          depth_kept =
              depth
              ∙ reap_cpl-depth updated.0 timeout_ms cpl updated.1
              ∙ sqdb_update-depth put stored;
          pool = elim which [
            | inl old ↦ subst IsPool (sym old) ready.pool
            | inr less ↦ subst IsPool (sym less) popped.valid
          ];
          reqs_kept = elim which [
            | inl old ↦ ap (λ (p : RequestPool). p.reqs) old
            | inr less ↦ ap (λ (p : RequestPool). p.reqs) less ∙ reqs
          ];
        },
      )

  -- On a queue pair that can take a command a synchronous submission returns. It puts the command
  -- into the submission queue under the identifier that the pool hands out and rings the doorbell
  -- with the new tail. The first completion that is found by then, one poll for each millisecond,
  -- is returned, with 0 or, if its status is an error, -EIO, and the pool as it was. If none of
  -- the polls finds one, the result is EAGAIN, a positive number, and one request fewer is free.
  -- The depth and the requests stay, and the pool is in order.
  pub submit_sync-Outcomes :
      (qp : Qpair) (cmd : NvmeCommand) (timeout_ms : ℕ) (cpl : NvmeCompletion) (s : S)
      → IsReady qp
      → (w : Reaped S) × (handed : Handed qp) × (submit_sync d qp cmd timeout_ms cpl s ≡ done w)
        × Outcomes qp timeout_ms (submitted qp (record cmd { cid = handed.req.cid }) s) w
        × Kept qp w.qp
  unfolding submit_sync
  submit_sync-Outcomes =
      submit_with-Outcomes (λ req cmd s. done (cmd, s)) (λ req cmd s. (cmd, s, refl))
