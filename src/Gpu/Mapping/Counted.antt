-- ===== src/Gpu/Mapping/Counted.antt =====
-- The reference count of one chunk, and what the rounds of the loops make of it.
use upcie.Prelude.{
  ℕ, zero, suc, ◌+◌, ◌-◌, ◌^◌, ◌≤◌, ◌<◌, ◌≡◌, ◌≢◌, ◌==◌, leb, true, false, refl, arith, ap, sym,
  ◌∙◌, subst, inl, inr, ℕ_discrete, Outcome, done, ℤ, pos, ◌⊎◌,
}
use upcie.Prelude.Bits.{u32, shl}
use upcie.Gpu.Dmabuf.{Dmabuf}
use upcie.Gpu.Mapping.{
  ChunkMeta, Registry, no_dmabuf, write, deref_one, bump, fill, bumped, stuck, bump_one,
}
use upcie.Gpu.Populate.{Populated, populated, failed}

-- A chunk that `n` registrations hold: an idle one has no address and no dma-buf, and the others have
-- the address that populating the chunk gives.
pub record Counted (base_of : ℕ → ℕ) (r : Registry) (idx n : ℕ) : Type 0 where
  pub count : (r.lut_meta idx).rc ≡ n
  pub idle : n ≡ 0 → (r.lut_phys idx ≡ 0) × ((r.lut_meta idx).attach ≡ no_dmabuf)
  pub live : 1 ≤ n → r.lut_phys idx ≡ base_of idx

-- What the loops leave of a registry.
pub record IsFrame (r r' : Registry) : Type 0 where
  pub gran_shift : r'.gran_shift ≡ r.gran_shift
  pub gran_mask : r'.gran_mask ≡ r.gran_mask
  pub lut_capacity : r'.lut_capacity ≡ r.lut_capacity
  pub list : r'.list ≡ r.list

pub same-IsFrame : (r : Registry) → IsFrame r r
same-IsFrame r = record { gran_shift = refl; gran_mask = refl; lut_capacity = refl; list = refl }

pub IsFrame-trans : {a b c : Registry} → IsFrame a b → IsFrame b c → IsFrame a c
IsFrame-trans f g = record {
  gran_shift = g.gran_shift ∙ f.gran_shift;
  gran_mask = g.gran_mask ∙ f.gran_mask;
  lut_capacity = g.lut_capacity ∙ f.lut_capacity;
  list = g.list ∙ f.list;
}

write_here : {A : Type 0} (table : ℕ → A) (idx : ℕ) (v : A) → write table idx v idx ≡ v
write_here table idx v = let here : (idx == idx) ≡ true = ground arith in rw here refl

write_other :
    {A : Type 0} (table : ℕ → A) (idx j : ℕ) (v : A) → j ≢ idx → write table idx v j ≡ table j
write_other table idx j v ne = let other : (j == idx) ≡ false = ground (arith, ne) in rw other refl

-- A round at one chunk touches no other.
module _ (base_of : ℕ → ℕ) (r : Registry) (idx : ℕ) where
  elsewhere :
      (r' : Registry) (j n : ℕ)
      → r'.lut_meta j ≡ r.lut_meta j
      → r'.lut_phys j ≡ r.lut_phys j
      → Counted base_of r j n
      → Counted base_of r' j n
  elsewhere r' j n meta phys c = record {
    count = ap (λ (m : ChunkMeta). m.rc) meta ∙ c.count;
    idle = λ z. (phys ∙ (c.idle z).0, ap (λ (m : ChunkMeta). m.attach) meta ∙ (c.idle z).1);
    live = λ h. phys ∙ c.live h;
  }

  -- The branches of a round of the release.
  deref_last :
      (r.lut_meta idx).rc ≡ 1
      → deref_one r idx ≡ record r {
        lut_meta = write r.lut_meta idx (record { rc = 0; attach = no_dmabuf });
        lut_phys = write r.lut_phys idx 0;
      }
  unfolding deref_one
  deref_last one = ground (arith, one)

  deref_more :
      (n : ℕ)
      → (r.lut_meta idx).rc ≡ suc (suc n)
      → deref_one r idx ≡ record r {
        lut_meta = write r.lut_meta idx (record (r.lut_meta idx) { rc = (r.lut_meta idx).rc - 1 });
      }
  unfolding deref_one
  deref_more n more = ground (arith, more)

  pub deref_one-Counted :
      (n : ℕ) → Counted base_of r idx (suc n) → Counted base_of (deref_one r idx) idx n
  deref_one-Counted zero c =
      subst (λ x. Counted base_of x idx 0) (sym (deref_last c.count))
        (record {
          count =
              ap (λ (m : ChunkMeta). m.rc)
                (write_here r.lut_meta idx (record { rc = 0; attach = no_dmabuf }));
          idle = λ z. (
            write_here r.lut_phys idx 0,
            ap (λ (m : ChunkMeta). m.attach)
                (write_here r.lut_meta idx (record { rc = 0; attach = no_dmabuf })),
          );
          live = λ h. absurd (omega (arith, h));
        })
  deref_one-Counted (suc n) c =
      let at =
        write_here r.lut_meta idx (record (r.lut_meta idx) { rc = (r.lut_meta idx).rc - 1 }) in
      subst (λ x. Counted base_of x idx (suc n)) (sym (deref_more n c.count))
        (record {
          count = ap (λ (m : ChunkMeta). m.rc) at ∙ omega (arith, c.count);
          idle = λ z. absurd (omega (arith, z));
          live = λ h. c.live (omega arith);
        })

  -- The other chunks, in each branch.
  pub deref_one-other :
      (j n : ℕ) → j ≢ idx → Counted base_of r j n → Counted base_of (deref_one r idx) j n
  unfolding deref_one
  deref_one-other j n ne c =
      let other : (j == idx) ≡ false = ground (arith, ne) in
      elsewhere (deref_one r idx) j n (ground (arith, other)) (ground (arith, other)) c

  pub deref_one-IsFrame : IsFrame r (deref_one r idx)
  unfolding deref_one
  deref_one-IsFrame = record {
    gran_shift = ground arith;
    gran_mask = ground arith;
    lut_capacity = ground arith;
    list = ground arith;
  }

-- What populating a chunk comes to: the address that the chunk has, or an error.
abbrev pub Delivers : (ℕ → ℕ) → ℕ → (ℕ → Outcome Populated) → Type 0
Delivers base_of gran_shift populate =
    (idx : ℕ)
    → ((attach : Dmabuf) × (populate (shl idx gran_shift) ≡ done (populated (base_of idx) attach)))
      ⊎ ((err : ℤ) × (err ≢ pos 0) × (populate (shl idx gran_shift) ≡ done (failed err)))

-- What a round of an addition leaves: one more reference of the chunk, or the same registry.
pub record Bumps (base_of : ℕ → ℕ) (r : Registry) (idx n : ℕ) (r' : Registry) : Type 0 where
  pub here : Counted base_of r' idx (suc n)
  pub elsewhere : (j m : ℕ) → j ≢ idx → Counted base_of r j m → Counted base_of r' j m
  pub frame : IsFrame r r'

module _ (base_of : ℕ → ℕ) (r : Registry) (idx n : ℕ) (c : Counted base_of r idx n)
    (small : n + 1 < 2 ^ 32) where
  bump-Bumps : 1 ≤ n → Bumps base_of r idx n (bump r idx)
  bump-Bumps some_ref =
      let at =
        write_here r.lut_meta idx
          (record (r.lut_meta idx) { rc = u32 ((r.lut_meta idx).rc + 1) }) in
      record {
        here = record {
          count = ap (λ (m : ChunkMeta). m.rc) at ∙ omega (arith, c.count, small);
          idle = λ z. absurd (omega (arith, z));
          live = λ h. c.live some_ref;
        };
        elsewhere = λ j m ne d.
            elsewhere base_of r idx (bump r idx) j m
              (write_other r.lut_meta idx j
                (record (r.lut_meta idx) { rc = u32 ((r.lut_meta idx).rc + 1) }) ne)
              refl d;
        frame = record { gran_shift = refl; gran_mask = refl; lut_capacity = refl; list = refl };
      }

  fill-Bumps :
      (attach : Dmabuf) → n ≡ 0 → Bumps base_of r idx n (bump (fill r idx (base_of idx) attach) idx)
  fill-Bumps attach none_yet =
      let before : Registry = fill r idx (base_of idx) attach in
      let filled_at = write_here r.lut_meta idx (record (r.lut_meta idx) { attach = attach }) in
      let at =
        write_here before.lut_meta idx
          (record (before.lut_meta idx) { rc = u32 ((before.lut_meta idx).rc + 1) }) in
      record {
        here = record {
          count =
              ap (λ (m : ChunkMeta). m.rc) at
              ∙ ap (λ (m : ChunkMeta). u32 (m.rc + 1)) filled_at
              ∙ omega (arith, c.count, small);
          idle = λ z. absurd (omega (arith, z));
          live = λ h. write_here r.lut_phys idx (base_of idx);
        };
        elsewhere = λ j m ne d.
            elsewhere base_of r idx (bump before idx) j m
              (write_other before.lut_meta idx j
                  (record (before.lut_meta idx) { rc = u32 ((before.lut_meta idx).rc + 1) }) ne
                ∙ write_other r.lut_meta idx j (record (r.lut_meta idx) { attach = attach }) ne)
              (write_other r.lut_phys idx j (base_of idx) ne) d;
        frame = record { gran_shift = refl; gran_mask = refl; lut_capacity = refl; list = refl };
      }

  pub bump_one-Bumps :
      (populate : ℕ → Outcome Populated)
      → idx < r.lut_capacity
      → Delivers base_of r.gran_shift populate
      → ((r' : Registry) × (bump_one populate r idx ≡ done (bumped r')) × Bumps base_of r idx n r')
        ⊎ ((err : ℤ) × (err ≢ pos 0) × (bump_one populate r idx ≡ done (stuck err r)))
  unfolding bump_one
  bump_one-Bumps populate inside delivers =
      let room : leb r.lut_capacity idx ≡ false = ground (arith, inside) in
      elim (ℕ_discrete n 0) [
        | no held ↦
            let test : ((r.lut_meta idx).rc == 0) ≡ false = ground (arith, c.count, held) in
            inl (bump r idx, rw (room, test) refl, bump-Bumps (omega (arith, held)))
        | yes none_yet ↦
            let test : ((r.lut_meta idx).rc == 0) ≡ true = ground (arith, c.count, none_yet) in
            elim (delivers idx) [
              | inl (attach, e) ↦ inl (
                bump (fill r idx (base_of idx) attach) idx,
                rw (room, test, e) refl,
                fill-Bumps attach none_yet,
              )
              | inr (err, ne, e) ↦ inr (err, ne, rw (room, test, e) refl)
            ]
      ]
