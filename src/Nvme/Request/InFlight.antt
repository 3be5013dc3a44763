-- ===== src/Nvme/Request/InFlight.antt =====
-- A driver that takes identifiers for its commands and gives them back on completion, in any order:
-- what the pool guarantees to it.
use upcie.Prelude.{
  ℕ, zero, suc, ◌+◌, ◌<◌, ◌≡◌, ◌≢◌, refl, subst, arith, List, [], ◌∷◌, done, some, get_elem?,
  length, remove, length-remove, get_elem?-remove, sym, ap, ◌∙◌, dec_lt, if◌then◌else◌, ltb,
  get_elem?-lt,
}
use upcie.Nvme.Request.{RequestPool, pool_len, pool_init, request_alloc, request_free}
use upcie.Nvme.Request.Pool.{
  IsPool, IsTaken, request_free-Pushed, done-injective, request_alloc-inversion,
  request_free-inversion, pool_init-IsPool,
}

-- The pool and the identifiers of the commands in flight, the latest first.
pub record Driver : Type 0 where
  pub pool : RequestPool
  pub flight : List ℕ

pub data Step : Driver → Driver → Type 0 where
  submit :
      (d : Driver) (cid : ℕ) (pool' : RequestPool)
      → request_alloc d.pool ≡ done (cid, pool')
      → Step d (record { pool = pool'; flight = cid ∷ d.flight })
  complete :
      (d : Driver) (i cid : ℕ) (pool' : RequestPool)
      → get_elem? d.flight i ≡ some cid
      → request_free d.pool cid ≡ done pool'
      → Step d (record { pool = pool'; flight = remove i d.flight })

pub data Reach (d : Driver) : Driver → Type 0 where
  here : Reach d d
  next : {e f : Driver} → Reach d e → Step e f → Reach d f

-- The identifiers in flight are in range, taken, and pairwise different, and with the free ones
-- they make up the whole pool.
pub record IsTracked (d : Driver) : Type 0 where
  pub valid : IsPool d.pool
  pub taken : (i : ℕ) {cid : ℕ} → get_elem? d.flight i ≡ some cid → IsTaken d.pool cid
  pub range : (i : ℕ) {cid : ℕ} → get_elem? d.flight i ≡ some cid → cid < pool_len
  pub distinct :
      (i j : ℕ) {cid : ℕ}
      → get_elem? d.flight i ≡ some cid
      → get_elem? d.flight j ≡ some cid
      → i ≡ j
  pub accounted : d.pool.top + length d.flight ≡ pool_len

-- What holds of a new element and of all old ones holds of every element.
submit-taken :
    (flight : List ℕ) (cid : ℕ) (P : ℕ → Type 0)
    → P cid
    → ((i c : ℕ) → get_elem? flight i ≡ some c → P c)
    → (i : ℕ) {c : ℕ} → get_elem? (cid ∷ flight) i ≡ some c
    → P c
submit-taken flight cid P new old zero {c} e = let same : cid ≡ c = cc in subst P same new
submit-taken flight cid P new old (suc i) {c} e = old i c e

-- A new identifier, different from all in flight, keeps them different.
fresh-distinct :
    (flight : List ℕ) (cid : ℕ)
    → ((i : ℕ) → get_elem? flight i ≢ some cid)
    → ((i j c : ℕ) → get_elem? flight i ≡ some c → get_elem? flight j ≡ some c → i ≡ j)
    → (i j : ℕ) {c : ℕ} → get_elem? (cid ∷ flight) i ≡ some c
    → get_elem? (cid ∷ flight) j ≡ some c
    → i ≡ j
fresh-distinct flight cid new old zero zero p q = refl
fresh-distinct flight cid new old zero (suc j) p q = absurd (new j (q ∙ sym p))
fresh-distinct flight cid new old (suc i) zero p q = absurd (new i (p ∙ sym q))
fresh-distinct flight cid new old (suc i) (suc j) {c} p q = ap suc (old i j c p q)

-- Where an element that is left after a removal stood before.
kept :
    (flight : List ℕ) (i j c : ℕ)
    → get_elem? (remove i flight) j ≡ some c
    → (k : ℕ) × (k ≢ i) × (get_elem? flight k ≡ some c) × (k ≡ (if ltb j i then j else suc j))
kept flight i j c e = elim (dec_lt j i) [
  | yes p ↦ (j, λ q. omega arith, ground (arith, get_elem?-remove i flight j), ground arith)
  | no p ↦ (suc j, λ q. omega arith, ground (arith, get_elem?-remove i flight j), ground arith)
]

submit-IsTracked :
    {d : Driver} (cid : ℕ) (pool' : RequestPool)
    → request_alloc d.pool ≡ done (cid, pool')
    → IsTracked d
    → IsTracked (record { pool = pool'; flight = cid ∷ d.flight })
submit-IsTracked {d} cid pool' e t =
    let p = request_alloc-inversion cid t.valid e in
    record {
      valid = p.valid;
      taken =
          submit-taken d.flight cid (λ c. IsTaken pool' c) p.taken
            (λ i c q. (p.others c (t.taken i q)).1);
      range = submit-taken d.flight cid (λ c. c < pool_len) p.range (λ i c q. t.range i q);
      distinct =
          fresh-distinct d.flight cid (λ i q. (p.others cid (t.taken i q)).0 refl)
            (λ i j c q q'. t.distinct i j q q');
      accounted = omega (arith, p.top_down, t.accounted);
    }

complete-IsTracked :
    {d : Driver} (i cid : ℕ) (pool' : RequestPool)
    → get_elem? d.flight i ≡ some cid
    → request_free d.pool cid ≡ done pool'
    → IsTracked d
    → IsTracked (record { pool = pool'; flight = remove i d.flight })
complete-IsTracked {d} i cid pool' at e t =
    let p = request_free-inversion cid t.valid (t.range i at) (t.taken i at) e in
    record {
      valid = p.valid;
      taken = λ j {cid = c} q.
          let (k, apart, old, moved) = kept d.flight i j c q in
          p.others c (λ same. apart (t.distinct k i old (at ∙ ap some (sym same)))) (t.taken k old);
      range = λ j {cid = c} q. let (k, apart, old, moved) = kept d.flight i j c q in t.range k old;
      distinct = λ j j' {cid = c} q q'.
          let (k, apart, old, moved) = kept d.flight i j c q in
          let (k', apart', old', moved') = kept d.flight i j' c q' in
          ground (arith, t.distinct k k' old old');
      accounted =
          omega
            (arith, p.top_up, t.accounted, length-remove i d.flight (get_elem?-lt d.flight i at));
    }

Step-IsTracked : {d e : Driver} → Step d e → IsTracked d → IsTracked e
Step-IsTracked (submit d cid pool' e) t = submit-IsTracked cid pool' e t
Step-IsTracked (complete d i cid pool' at e) t = complete-IsTracked i cid pool' at e t

pub Reach-IsTracked : {d e : Driver} → Reach d e → IsTracked d → IsTracked e
Reach-IsTracked here t = t
Reach-IsTracked (next r s) t = Step-IsTracked s (Reach-IsTracked r t)

start-IsTracked :
    (start : RequestPool)
    → IsPool start
    → start.top ≡ pool_len
    → IsTracked (record { pool = start; flight = [] })
start-IsTracked start v full = record {
  valid = v;
  taken = λ i q. absurd (nothing i q);
  range = λ i q. absurd (nothing i q);
  distinct = λ i j q q'. absurd (nothing i q);
  accounted = omega (arith, full);
}
  where
    nothing : (i : ℕ) {c : ℕ} → ¬ (get_elem? {A = ℕ} [] i ≡ some c)
    nothing i q = cc

-- From initialisation on, whatever the pool's arrays held and whatever order commands are submitted
-- and completed in, the identifiers in flight are pairwise different, and a completion never fails
-- the assertion of `nvme_request_free`.
pub complete_proceeds :
    (pool : RequestPool) (d : Driver) (i cid : ℕ)
    → length pool.reqs ≡ pool_len
    → length pool.stack ≡ pool_len
    → (start : RequestPool) → pool_init pool ≡ done start
    → Reach (record { pool = start; flight = [] }) d
    → get_elem? d.flight i ≡ some cid
    → IsTracked d × (pool' : RequestPool) × (request_free d.pool cid ≡ done pool')
complete_proceeds pool d i cid h l start e r at =
    let (filled, returns, valid, full, numbered) = pool_init-IsPool pool h l in
    let same : filled ≡ start = done-injective (sym returns ∙ e) in
    let t : IsTracked d = Reach-IsTracked r (
      start-IsTracked start (subst IsPool same valid)
        (ap (λ (p : RequestPool). p.top) (sym same) ∙ full)) in
    let (pool', pushed) =
      request_free-Pushed t.valid cid (omega (arith, t.accounted, get_elem?-lt d.flight i at))
        (t.range i at) (t.taken i at) in
    (t, pool', pushed.returns)
