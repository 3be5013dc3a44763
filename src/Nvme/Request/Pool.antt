-- ===== src/Nvme/Request/Pool.antt =====
-- The pool as a set of free identifiers.
use upcie.Prelude.{
  ℕ, zero, suc, ◌+◌, ◌-◌, ◌≤◌, ◌<◌, ◌≡◌, ◌≢◌, refl, subst, arith, done, aborted, some, get_elem?,
  set, length, length-set, set_same, get_elem?-some, get_elem?-set_self, get_elem?-set_ne,
  ℕ_discrete, ◌⊎◌, inl, inr, sym, ap, ◌∙◌,
}
use upcie.Nvme.Request.{
  NvmeRequest, RequestPool, pool_len, init_request, init_requests, pool_init, request_alloc,
  request_free,
}

-- Both arrays are whole, the identifiers on the stack are in range, and none stands on it twice.
pub record IsPool (pool : RequestPool) : Type 0 where
  pub whole_reqs : length pool.reqs ≡ pool_len
  pub whole_stack : length pool.stack ≡ pool_len
  pub top_in : pool.top ≤ pool_len
  pub in_range :
      (i : ℕ) {cid : ℕ} → i < pool.top → get_elem? pool.stack i ≡ some cid → cid < pool_len
  pub distinct :
      (i j : ℕ) {cid : ℕ}
      → i < pool.top
      → j < pool.top
      → get_elem? pool.stack i ≡ some cid
      → get_elem? pool.stack j ≡ some cid
      → i ≡ j

-- The identifier is not on the stack.
abbrev pub IsTaken : RequestPool → ℕ → Type 0
IsTaken pool cid = (i : ℕ) → i < pool.top → get_elem? pool.stack i ≢ some cid

-- What `nvme_request_alloc` leaves: the identifier off the stack.
pub record Popped (pool : RequestPool) (cid : ℕ) (pool' : RequestPool) : Type 0 where
  pub returns : request_alloc pool ≡ done (cid, pool')
  pub valid : IsPool pool'
  pub range : cid < pool_len
  pub taken : IsTaken pool' cid
  pub others : (c : ℕ) → IsTaken pool c → (c ≢ cid) × IsTaken pool' c
  pub top_down : pool'.top + 1 ≡ pool.top

module _ {pool : RequestPool} (v : IsPool pool) where
  -- Allocation from a well-formed pool with a free identifier returns one that is in range and was
  -- free and now is taken, and keeps the pool well-formed and the taken identifiers taken.
  pub request_alloc-Popped :
      0 < pool.top → (cid : ℕ) × (pool' : RequestPool) × Popped pool cid pool'
  request_alloc-Popped h =
      let (cid, e) =
        get_elem?-some pool.stack (pool.top - 1) (omega (arith, v.whole_stack, v.top_in)) in
      (
        cid,
        record pool { top = pool.top - 1 },
        record {
          returns = unfold request_alloc in ground (arith, e);
          valid = record {
            whole_reqs = v.whole_reqs;
            whole_stack = v.whole_stack;
            top_in = omega (arith, v.top_in);
            in_range = λ i l p. v.in_range i (omega arith) p;
            distinct = λ i j l k p q. v.distinct i j (omega arith) (omega arith) p q;
          };
          range = v.in_range (pool.top - 1) (omega arith) e;
          taken = λ i l p.
              absurd (omega (arith, v.distinct i (pool.top - 1) (omega arith) (omega arith) p e));
          others =
              λ c t. (λ same. t (pool.top - 1) (omega arith) (rw same e), λ i l. t i (omega arith));
          top_down = omega arith;
        },
      )

  -- With nothing on the stack the assertion fails.
  pub request_alloc_empty : pool.top ≡ 0 → request_alloc pool ≡ aborted
  unfolding request_alloc
  request_alloc_empty e = ground arith

-- What `nvme_request_alloc` hands out can be given back at once, and the pool is what it was.
pub request_free-request_alloc :
    {pool : RequestPool}
    → IsPool pool
    → 0 < pool.top
    → (cid : ℕ) × (pool' : RequestPool) × (request_alloc pool ≡ done (cid, pool'))
      × (request_free pool' cid ≡ done pool)
      × (cid < pool_len)
      × (pool'.reqs ≡ pool.reqs)
      × (pool'.top + 1 ≡ pool.top)
request_free-request_alloc {pool} v h =
    let (cid, e) =
      get_elem?-some pool.stack (pool.top - 1) (omega (arith, v.whole_stack, v.top_in)) in
    let same : set pool.stack (pool.top - 1) cid ≡ pool.stack =
      set_same pool.stack (pool.top - 1) cid e in
    let back : pool.top - 1 + 1 ≡ pool.top = omega arith in
    (
      cid,
      record pool { top = pool.top - 1 },
      unfold request_alloc in ground (arith, e),
      unfold request_free in rw (e, same, back) (ground (arith, v.top_in)),
      v.in_range (pool.top - 1) (omega arith) e,
      refl,
      omega arith,
    )

-- What `nvme_request_free` leaves: the identifier on top of the stack.
pub record Pushed (pool : RequestPool) (cid : ℕ) (pool' : RequestPool) : Type 0 where
  pub returns : request_free pool cid ≡ done pool'
  pub valid : IsPool pool'
  pub others : (c : ℕ) → c ≢ cid → IsTaken pool c → IsTaken pool' c
  pub again : request_alloc pool' ≡ done (cid, record pool' { top = pool.top })
  pub top_up : pool'.top ≡ pool.top + 1

module _ {pool : RequestPool} (v : IsPool pool) (cid : ℕ) (h : pool.top < pool_len) where
  abbrev pushed : RequestPool
  pushed = record pool { stack = set pool.stack pool.top cid; top = pool.top + 1 }

  -- The stack after the write, below the new entry and at it.
  below_top :
      (i : ℕ) → i < pool.top → get_elem? (set pool.stack pool.top cid) i ≡ get_elem? pool.stack i
  below_top i l = get_elem?-set_ne pool.stack pool.top i cid (λ e. omega arith)

  at_top : get_elem? (set pool.stack pool.top cid) pool.top ≡ some cid
  at_top = get_elem?-set_self pool.stack pool.top cid (omega (arith, v.whole_stack))

  -- An entry of the new stack is the identifier at the top, or an old one below.
  entry :
      (i c : ℕ)
      → i < pool.top + 1
      → get_elem? (set pool.stack pool.top cid) i ≡ some c
      → ((i ≡ pool.top) × (c ≡ cid)) ⊎ ((i < pool.top) × (get_elem? pool.stack i ≡ some c))
  entry i c l e = elim (ℕ_discrete i pool.top) [
    | yes same ↦ inl (
      same,
      let here : get_elem? (set pool.stack pool.top cid) i ≡ some cid = rw same at_top in cc,
    )
    | no apart ↦ inr (omega arith, sym (below_top i (omega arith)) ∙ e)
  ]

  pushed-distinct :
      IsTaken pool cid
      → (i j : ℕ) {c : ℕ} → i < pool.top + 1
      → j < pool.top + 1
      → get_elem? (set pool.stack pool.top cid) i ≡ some c
      → get_elem? (set pool.stack pool.top cid) j ≡ some c
      → i ≡ j
  pushed-distinct t i j {c} l k p q = elim (entry i c l p) [
    | inl (i_top, is_cid) ↦ elim (entry j c k q) [
      | inl (j_top, same) ↦ i_top ∙ sym j_top
      | inr (j_low, old) ↦ absurd (t j j_low (old ∙ ap some is_cid))
    ]
    | inr (i_low, old) ↦ elim (entry j c k q) [
      | inl (j_top, is_cid) ↦ absurd (t i i_low (old ∙ ap some is_cid))
      | inr (j_low, other) ↦ v.distinct i j i_low j_low old other
    ]
  ]

  -- Freeing an identifier in range that is taken, in a pool with room on its stack, keeps the pool
  -- well-formed and every other taken identifier taken, and the next allocation returns the
  -- identifier and the stack height of before.
  pub request_free-Pushed :
      cid < pool_len → IsTaken pool cid → (pool' : RequestPool) × Pushed pool cid pool'
  request_free-Pushed range taken = (
    pushed,
    record {
      returns =
          let old = get_elem?-some pool.stack pool.top (omega (arith, v.whole_stack)) in
          unfold request_free in ground (arith, old.1);
      valid = record {
        whole_reqs = v.whole_reqs;
        whole_stack = length-set pool.stack pool.top cid ∙ v.whole_stack;
        top_in = omega arith;
        in_range = λ i {cid = c} l e. elim (entry i c l e) [
          | inl (i_top, is_cid) ↦ rw is_cid range
          | inr (i_low, old) ↦ v.in_range i i_low old
        ];
        distinct = pushed-distinct taken;
      };
      others = λ c ne t i l e. elim (entry i c l e) [
        | inl (i_top, is_cid) ↦ ne is_cid
        | inr (i_low, old) ↦ t i i_low old
      ];
      again =
          let one_less : pool.top + 1 - 1 ≡ pool.top = omega arith in
          unfold request_alloc in rw (one_less, at_top) (ground arith);
      top_up = refl;
    },
  )

-- The entries that `nvme_request_pool_init` has written once `n` rounds are done.
record IsFilled (n : ℕ) (pool : RequestPool) : Type 0 where
  whole_reqs : length pool.reqs ≡ pool_len
  whole_stack : length pool.stack ≡ pool_len
  full : pool.top ≡ pool_len
  filled : (i : ℕ) → i < n → get_elem? pool.stack (pool_len - 1 - i) ≡ some i
  numbered :
      (i : ℕ) → i < n → (req : NvmeRequest) × (get_elem? pool.reqs i ≡ some req) × (req.cid ≡ i)

init_request-IsFilled :
    (n : ℕ) (pool : RequestPool)
    → n < pool_len
    → IsFilled n pool
    → (pool' : RequestPool) × (init_request n pool ≡ done pool') × IsFilled (suc n) pool'
init_request-IsFilled n pool h f =
    let (req, e) = get_elem?-some pool.reqs n (omega (arith, f.whole_reqs)) in
    let (old, p) = get_elem?-some pool.stack (pool_len - 1 - n) (omega (arith, f.whole_stack)) in
    (
      record pool {
        reqs = set pool.reqs n (record req { cid = n });
        stack = set pool.stack (pool_len - 1 - n) n;
      },
      unfold init_request in ground (arith, e, p),
      record {
        whole_reqs = length-set pool.reqs n (record req { cid = n }) ∙ f.whole_reqs;
        whole_stack = length-set pool.stack (pool_len - 1 - n) n ∙ f.whole_stack;
        full = f.full;
        filled = λ i l. elim (ℕ_discrete i n) [
          | yes same ↦
              rw same
                (get_elem?-set_self pool.stack (pool_len - 1 - n) n (omega (arith, f.whole_stack)))
          | no apart ↦
              get_elem?-set_ne pool.stack (pool_len - 1 - n) (pool_len - 1 - i) n (λ q. omega arith)
              ∙ f.filled i (omega arith)
        ];
        numbered = λ i l. elim (ℕ_discrete i n) [
          | yes same ↦ (
            record req { cid = n },
            rw same (
                get_elem?-set_self pool.reqs n (record req { cid = n })
                  (omega (arith, f.whole_reqs))),
            sym same,
          )
          | no apart ↦
              let (r, found, is_i) = f.numbered i (omega arith) in
              (
                r,
                get_elem?-set_ne pool.reqs n i (record req { cid = n }) (λ q. omega arith) ∙ found,
                is_i,
              )
        ];
      },
    )

init_requests-IsFilled :
    (left n : ℕ) (pool : RequestPool)
    → n + left ≡ pool_len
    → IsFilled n pool
    → (pool' : RequestPool) × (init_requests left n pool ≡ done pool') × IsFilled pool_len pool'
unfolding init_requests
init_requests-IsFilled zero n pool h f =
    let all : n ≡ pool_len = omega arith in (pool, refl, subst (λ k. IsFilled k pool) all f)
init_requests-IsFilled (suc left) n pool h f =
    let (pool', e, f') = init_request-IsFilled n pool (omega arith) f in
    let index : suc n ≡ n + 1 = omega arith in
    let (last, e', f'') =
      init_requests-IsFilled left (n + 1) pool' (omega arith)
        (subst (λ k. IsFilled k pool') index f') in
    (last, rw e e', f'')

module _ {pool : RequestPool} (f : IsFilled pool_len pool) where
  slot_value : (i c : ℕ) → i < pool_len → get_elem? pool.stack i ≡ some c → c ≡ pool_len - 1 - i
  slot_value i c h e =
      let mirrored : pool_len - 1 - (pool_len - 1 - i) ≡ i = omega arith in
      let written : get_elem? pool.stack i ≡ some (pool_len - 1 - i) =
        subst (λ k. get_elem? pool.stack k ≡ some (pool_len - 1 - i)) mirrored
          (f.filled (pool_len - 1 - i) (omega arith)) in
      cc

  filled-IsPool : IsPool pool
  filled-IsPool = record {
    whole_reqs = f.whole_reqs;
    whole_stack = f.whole_stack;
    top_in = omega (arith, f.full);
    in_range = λ i {cid = c} p q. omega (arith, slot_value i c (omega (arith, f.full)) q);
    distinct = λ i j {cid = c} p q a b. omega (
      arith,
      f.full,
      slot_value i c (omega (arith, f.full)) a,
      slot_value j c (omega (arith, f.full)) b,
    );
  }

start-IsFilled :
    (pool : RequestPool)
    → length pool.reqs ≡ pool_len
    → length pool.stack ≡ pool_len
    → IsFilled 0 (record pool { top = pool_len })
start-IsFilled pool h l = record {
  whole_reqs = h;
  whole_stack = l;
  full = refl;
  filled = λ i p. absurd (omega arith);
  numbered = λ i p. absurd (omega arith);
}

-- Initialisation, whatever the arrays held, gives a well-formed pool with all 1024 identifiers on
-- its stack and each request under its own identifier.
pub pool_init-IsPool :
    (pool : RequestPool)
    → length pool.reqs ≡ pool_len
    → length pool.stack ≡ pool_len
    → (pool' : RequestPool) × (pool_init pool ≡ done pool')
      × IsPool pool'
      × (pool'.top ≡ pool_len)
      × ((i : ℕ)
          → i < pool_len
          → (req : NvmeRequest) × (get_elem? pool'.reqs i ≡ some req) × (req.cid ≡ i))
pool_init-IsPool pool h l =
    let (pool', e, f) =
      init_requests-IsFilled pool_len 0 (record pool { top = pool_len }) refl
        (start-IsFilled pool h l) in
    (pool', unfold pool_init in e, filled-IsPool f, f.full, f.numbered)

pub done-injective {ℓ} : {A : Type ℓ} {a b : A} → done a ≡ done b → a ≡ b
done-injective e = cc

-- A call that returns has done what the records above say.
pub request_alloc-inversion :
    {pool pool' : RequestPool} (cid : ℕ)
    → IsPool pool
    → request_alloc pool ≡ done (cid, pool')
    → Popped pool cid pool'
request_alloc-inversion {pool} {pool'} cid v e = elim (ℕ_discrete pool.top 0) [
  | yes empty ↦ absurd (done_ne_aborted (sym e ∙ request_alloc_empty v empty))
  | no more ↦
      let (c, p, popped) = request_alloc-Popped v (omega arith) in
      subst (λ (r : ℕ × RequestPool). Popped pool r.0 r.1) (done-injective (sym popped.returns ∙ e))
        popped
]
  where
    done_ne_aborted : {A : Type 0} {a : A} → ¬ (done a ≡ aborted)
    done_ne_aborted q = cc

pub request_free-inversion :
    {pool pool' : RequestPool} (cid : ℕ)
    → IsPool pool
    → cid < pool_len
    → IsTaken pool cid
    → request_free pool cid ≡ done pool'
    → Pushed pool cid pool'
request_free-inversion {pool} {pool'} cid v range taken e =
    let room : pool.top < pool_len = unfold request_free in ground (arith, v.top_in) in
    let (p, pushed) = request_free-Pushed v cid room range taken in
    subst (λ r. Pushed pool cid r) (done-injective (sym pushed.returns ∙ e)) pushed
