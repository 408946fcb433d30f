-- ===== src/Decay/Projection.antt =====
-- The projected block of an energy (`DecayModel::first_clearing_elapsed` of
-- `crates/quip-coordinator/src/decay.rs`) under the rules of the runtimes.
use quip_miner.Prelude.{
  ℕ, ◌≤◌, ◌<◌, ◌≡◌, refl, ◌⊎◌, inl, inr, Bool-cases, Option, some, none, arith, leb, leb→le,
}
use quip_miner.Prelude.Int.{ℤ, ◌≤ℤ◌, ◌<ℤ◌, InI64}
use quip_miner.Decay.Rules.{FloatOps, EnergyCurve}
use quip_miner.Decay.{
  DecayModel, stepwise, gated, threshold_at, first_clearing, first_clearing_elapsed,
}
use quip_miner.Decay.Threshold.{threshold_at-le, threshold_at-gated, threshold_at_mono}
use quip_miner.Decay.Search.{Found, first_clearing-Found, first_clearing_least}

module _ (ops : FloatOps) (m : DecayModel) (energy : ℤ) where
  -- Under every rule, a projected block clears the energy, lies within the horizon and is block 0
  -- or the successor of a block that does not clear; with no projection neither block 0 nor the
  -- horizon clears.
  pub first_clearing_elapsed-Found :
      (horizon : ℕ)
      → Found (threshold_at ops m) energy horizon (first_clearing_elapsed ops m energy horizon)
  unfolding first_clearing_elapsed
  first_clearing_elapsed-Found horizon = first_clearing-Found (threshold_at ops m) energy horizon

  -- Under the runtime-117 rule the projection is exact: if some block up to the horizon clears the
  -- energy, the block returned clears it too and comes no later.
  pub first_clearing_elapsed-stepwise :
      (curve : EnergyCurve) (horizon k : ℕ)
      → m.curve ≡ some curve
      → m.algorithm ≡ stepwise
      → InI64 curve.max_milli
      → InI64 m.base_max_energy_milli
      → m.base_max_energy_milli ≤ℤ curve.max_milli
      → k ≤ horizon
      → energy <ℤ threshold_at ops m k
      → (h : ℕ) × (first_clearing_elapsed ops m energy horizon ≡ some h)
        × (h ≤ k)
        × (energy <ℤ threshold_at ops m h)
  unfolding first_clearing_elapsed
  first_clearing_elapsed-stepwise curve horizon k e al hc hu base le clears =
      let (h, found, before) =
        first_clearing_least (threshold_at ops m) energy
          (λ a b. threshold_at_mono ops m curve a b e al hc hu base) horizon k le clears in
      (
        h,
        found,
        before,
        clears_at h found (first_clearing-Found (threshold_at ops m) energy horizon),
      )
    where
      clears_at :
          (h : ℕ)
          → first_clearing (threshold_at ops m) energy horizon ≡ some h
          → Found
              (threshold_at ops m)
              energy
              horizon
              (first_clearing (threshold_at ops m) energy horizon)
          → energy <ℤ threshold_at ops m h
      clears_at h found f = (rw found at f).1

  -- Under the runtime-119 rule no block of the hold is projected: the block returned is block 0 or
  -- comes after the hundredth.
  pub first_clearing_elapsed-gated :
      (horizon h : ℕ)
      → m.algorithm ≡ gated
      → first_clearing_elapsed ops m energy horizon ≡ some h
      → (h ≡ 0) ⊎ (100 < h)
  first_clearing_elapsed-gated horizon h al found =
      go (rw found at (first_clearing_elapsed-Found horizon))
    where
      go : Found (threshold_at ops m) energy horizon (some h) → (h ≡ 0) ⊎ (100 < h)
      go (_, clears, inl z) = inl z
      go (_, clears, inr (l, e, low)) = elim (Bool-cases (leb h 100)) [
        | inl held ↦
            let le = leb→le h 100 held in
            let at : energy <ℤ m.base_max_energy_milli =
              rw (threshold_at-gated ops m h al le) at clears in
            let below : m.base_max_energy_milli ≤ℤ energy =
              rw (threshold_at-gated ops m l al (omega (arith, le))) at low in
            absurd (omega (arith, at, below))
        | inr after ↦ inr (ground (arith, after))
      ]

  -- Under every rule an energy at or above the easy bound is never projected.
  pub first_clearing_elapsed-none :
      (curve : EnergyCurve) (horizon : ℕ)
      → m.curve ≡ some curve
      → InI64 curve.max_milli
      → InI64 m.base_max_energy_milli
      → m.base_max_energy_milli ≤ℤ curve.max_milli
      → curve.max_milli ≤ℤ energy
      → first_clearing_elapsed ops m energy horizon ≡ none
  first_clearing_elapsed-none curve horizon e hc hu base above =
      go (first_clearing_elapsed ops m energy horizon) (first_clearing_elapsed-Found horizon)
    where
      go : (o : Option ℕ) → Found (threshold_at ops m) energy horizon o → o ≡ none
      go none f = refl
      go (some h) (_, clears, _) =
          let under = threshold_at-le ops m curve h e hc hu base in absurd (omega (arith, under))
