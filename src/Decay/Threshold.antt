-- ===== src/Decay/Threshold.antt =====
-- The threshold that a model gives at a block (`DecayModel::threshold_at` of
-- `crates/quip-coordinator/src/decay.rs`), under each of the three rules.
use native.Mathlib.Nat.{le-div_iff_mul-le, div-mul-le_self, le_trans}
use quip_miner.Prelude.{
  ℕ, ◌-◌, ◌/◌, ◌≤◌, ◌<◌, ◌≡◌, inl, inr, Bool-cases, some, arith, if_ind, if◌then◌else◌, ◌==◌,
}
use quip_miner.Prelude.Int.{
  ℤ, pos, ◌≤ℤ◌, min_ℤ, saturate, saturating_add, saturating_sub, InI64, min_ℤ-le, +ℤ_parts,
  -ℤ_parts,
}
use quip_miner.Decay.Rules.{
  FloatOps, EnergyCurve, ease_room, phases, overdue_rate, ease_continuous, ease_gated,
}
use quip_miner.Decay.Stepwise.{ease_stepwise_bounds, ease_stepwise_mono}
use quip_miner.Decay.{DecayAlgorithm, stepwise, continuous, gated, DecayModel, ease, threshold_at}

-- Adding no more than the saturated room to a value keeps it under the cap.
add_room :
    (current cap amount : ℤ)
    → InI64 cap
    → InI64 current
    → current ≤ℤ cap
    → amount ≤ℤ saturating_sub cap current
    → saturating_add current amount ≤ℤ cap
unfolding saturating_add saturating_sub saturate
add_room current cap amount hc hu h k =
    let d = -ℤ_parts cap current in let e = +ℤ_parts current amount in ground (arith, d, e)

div_mono : (a b e : ℕ) → 0 < e → a ≤ b → a / e ≤ b / e
div_mono a b e p h = (le-div_iff_mul-le p).1 (le_trans (div-mul-le_self a e) h)

room_nonneg : (current cap : ℤ) → current ≤ℤ cap → pos 0 ≤ℤ saturating_sub cap current
unfolding saturating_sub saturate
room_nonneg current cap h = let d = -ℤ_parts cap current in ground (arith, d)

module _ (ops : FloatOps) where
  ease_room-le :
      (room : ℤ) (blocks epoch_length : ℕ) (rate : ops.Float)
      → pos 0 ≤ℤ room
      → ease_room ops room blocks epoch_length rate ≤ℤ room
  unfolding ease_room min_ℤ
  ease_room-le room blocks epoch_length rate h = ground arith

  ease_continuous-le :
      (current : ℤ) (elapsed epoch_length : ℕ) (curve : EnergyCurve)
      → InI64 curve.max_milli
      → InI64 current
      → current ≤ℤ curve.max_milli
      → ease_continuous ops current elapsed epoch_length curve ≤ℤ curve.max_milli
  unfolding ease_continuous
  ease_continuous-le current elapsed epoch_length curve hc hu h =
      let room = saturating_sub curve.max_milli current in
      let amount = min_ℤ (phases ops room elapsed epoch_length) room in
      let under =
        add_room current curve.max_milli amount hc hu h
          ((min_ℤ-le (phases ops room elapsed epoch_length) room).1) in
      ground (arith, under)

  ease_gated-le :
      (current : ℤ) (elapsed epoch_length : ℕ) (curve : EnergyCurve)
      → InI64 curve.max_milli
      → InI64 current
      → current ≤ℤ curve.max_milli
      → ease_gated ops current elapsed epoch_length curve ≤ℤ curve.max_milli
  unfolding ease_gated
  ease_gated-le current elapsed epoch_length curve hc hu h =
      let room = saturating_sub curve.max_milli current in
      let eased =
        ease_room-le room (elapsed - 100) epoch_length (overdue_rate ops)
          (room_nonneg current curve.max_milli h) in
      let under = add_room current curve.max_milli _ hc hu h eased in ground (arith, under)

  ease-le :
      (rule : DecayAlgorithm) (base : ℤ) (elapsed epoch_length : ℕ) (curve : EnergyCurve)
      → InI64 curve.max_milli
      → InI64 base
      → base ≤ℤ curve.max_milli
      → ease ops rule base elapsed epoch_length curve ≤ℤ curve.max_milli
  unfolding ease
  ease-le stepwise base elapsed epoch_length curve hc hu h =
      (ease_stepwise_bounds ops curve hc base (elapsed / epoch_length) hu h).1
  ease-le continuous base elapsed epoch_length curve hc hu h =
      ease_continuous-le base elapsed epoch_length curve hc hu h
  ease-le gated base elapsed epoch_length curve hc hu h =
      ease_gated-le base elapsed epoch_length curve hc hu h

  -- The value of `threshold_at` under a curve.
  threshold_at-some :
      (m : DecayModel) (curve : EnergyCurve) (elapsed : ℕ)
      → m.curve ≡ some curve
      → threshold_at ops m elapsed ≡ (
          if m.epoch_length == 0
          then m.base_max_energy_milli
          else ease ops m.algorithm m.base_max_energy_milli elapsed m.epoch_length curve)
  unfolding threshold_at
  threshold_at-some m curve elapsed e = rw (e, threshold_at)

  pub threshold_at-le :
      (m : DecayModel) (curve : EnergyCurve) (elapsed : ℕ)
      → m.curve ≡ some curve
      → InI64 curve.max_milli
      → InI64 m.base_max_energy_milli
      → m.base_max_energy_milli ≤ℤ curve.max_milli
      → threshold_at ops m elapsed ≤ℤ curve.max_milli
  threshold_at-le m curve elapsed e hc hu h = rw (threshold_at-some m curve elapsed e) (
      if_ind (λ t. t ≤ℤ curve.max_milli) (m.epoch_length == 0) h
        (ease-le m.algorithm m.base_max_energy_milli elapsed m.epoch_length curve hc hu h))

  -- The runtime-119 rule holds the base through the first 100 blocks of a round.
  pub threshold_at-gated :
      (m : DecayModel) (elapsed : ℕ)
      → m.algorithm ≡ gated
      → elapsed ≤ 100
      → threshold_at ops m elapsed ≡ m.base_max_energy_milli
  unfolding threshold_at ease_gated
  threshold_at-gated m elapsed e h = ground arith

  -- Under the runtime-117 rule the threshold never falls from block to block.
  pub threshold_at_mono :
      (m : DecayModel) (curve : EnergyCurve) (a b : ℕ)
      → m.curve ≡ some curve
      → m.algorithm ≡ stepwise
      → InI64 curve.max_milli
      → InI64 m.base_max_energy_milli
      → m.base_max_energy_milli ≤ℤ curve.max_milli
      → a ≤ b
      → threshold_at ops m a ≤ℤ threshold_at ops m b
  threshold_at_mono m curve a b e al hc hu h le =
      rw (threshold_at-some m curve a e, threshold_at-some m curve b e, al)
        (elim (Bool-cases (m.epoch_length == 0)) [
          | inl z ↦ rw z (omega arith)
          | inr z ↦ rw z (
              unfold ease in
              ease_stepwise_mono ops curve hc m.base_max_energy_milli (a / m.epoch_length)
                (b / m.epoch_length) hu h (div_mono a b m.epoch_length (ground (arith, z)) le))
        ])
