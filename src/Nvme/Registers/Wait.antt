-- ===== src/Nvme/Registers/Wait.antt =====
-- The waits for CSTS.RDY.
use upcie.Prelude.{
  ℕ, zero, suc, ◌<◌, ◌≡◌, ◌≢◌, refl, arith, bit_and, ℤ, pos, neg, etimedout, ◌⊎◌, inl, inr,
  ℕ_discrete,
}
use upcie.Mmio.{Device}
use upcie.Nvme.Registers.{
  csts_read, csts_wait_until, csts_wait_until_ready, csts_wait_until_not_ready,
}

module _ {S : Type 0} (d : Device S) (mmio : ℕ) where
  -- The state of the device when CSTS is read for the time with index `k`.
  abbrev pub at_poll : ℕ → S → S
  at_poll zero s = s
  at_poll (suc k) s = at_poll k (d.usleep 1000 (csts_read d mmio s).1)

  -- CSTS.RDY as it is read then.
  abbrev pub rdy_at : ℕ → S → ℕ
  rdy_at k s = bit_and (csts_read d mmio (at_poll k s)).0 0x1

  -- What a wait for the value `rdy` ends with: the first poll that reads it, or a timeout after all.
  abbrev pub Waited : ℕ → ℕ → S → ℤ × S → Type 0
  Waited rdy timeout_ms s r =
      ((k : ℕ) × (k < timeout_ms)
        × (rdy_at k s ≡ rdy)
        × ((j : ℕ) → j < k → rdy_at j s ≢ rdy)
        × (r ≡ (pos 0, (csts_read d mmio (at_poll k s)).1)))
      ⊎ (((j : ℕ) → j < timeout_ms → rdy_at j s ≢ rdy)
          × (r ≡ (neg (pos etimedout), at_poll timeout_ms s)))

  -- None of the polls up to `k` reads the value if the first does not and none after it does.
  later :
      (rdy k : ℕ) (s : S)
      → rdy_at 0 s ≢ rdy
      → ((j : ℕ) → j < k → rdy_at j (d.usleep 1000 (csts_read d mmio s).1) ≢ rdy)
      → (j : ℕ) → j < suc k
      → rdy_at j s ≢ rdy
  later rdy k s first rest zero h = first
  later rdy k s first rest (suc j) h = rest j (omega arith)

  wait_lem :
      (rdy timeout_ms : ℕ) (s : S)
      → Waited rdy timeout_ms s (csts_wait_until d rdy mmio timeout_ms s)
  unfolding csts_wait_until
  wait_lem rdy zero s = inr (λ j h. absurd (omega arith), refl)
  wait_lem rdy (suc left) s = elim (ℕ_discrete (rdy_at 0 s) rdy) [
    | yes e ↦ inl (0, omega arith, e, λ j h. absurd (omega arith), ground (arith, e))
    | no ne ↦ elim (wait_lem rdy left (d.usleep 1000 (csts_read d mmio s).1)) [
      | inl (k, h, e, earlier, r) ↦
          inl (suc k, omega arith, e, later rdy k s ne earlier, ground (arith, r, ne))
      | inr (none_ready, r) ↦ inr (later rdy left s ne none_ready, ground (arith, r, ne))
    ]
  ]

  -- Each wait ends with 0 at the first poll that reads the value of CSTS.RDY it waits for, or, if
  -- none of `timeout_ms` polls does, with -ETIMEDOUT after the last.
  pub csts_wait_until_lem :
      (timeout_ms : ℕ) (s : S)
      → Waited 1 timeout_ms s (csts_wait_until_ready d mmio timeout_ms s)
        × Waited 0 timeout_ms s (csts_wait_until_not_ready d mmio timeout_ms s)
  unfolding csts_wait_until_ready csts_wait_until_not_ready
  csts_wait_until_lem timeout_ms s = (wait_lem 1 timeout_ms s, wait_lem 0 timeout_ms s)
