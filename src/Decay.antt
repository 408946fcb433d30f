-- ===== src/Decay.antt =====
-- The difficulty decay: `crates/quip-coordinator/src/decay.rs`.
--
-- The code computes in `f64`. The floating-point type and its operations are a parameter
-- (`FloatOps`): the operations of the language, `libm::log`, `libm::pow` and the two roundings. The
-- operations of the code follow the source's expressions over them, in the source's order. An `i64`
-- or `u64` is an integer or a number; `saturating_add` and `saturating_sub` are written out, and a
-- plain `+` or `-` of the source is exact here.
pub mod Rules
pub mod Stepwise
pub mod Threshold
pub mod Search
pub mod Projection
pub mod Fixtures
mod Examples
use quip_miner.Prelude.{ℕ, ◌+◌, ◌-◌, ◌/◌, zero, suc, Option, none, some, Bool, ◌||◌, min}
use quip_miner.Prelude.{leb, ltb, ◌==◌, if◌then◌else◌}
use quip_miner.Prelude.Int.{ℤ, ltb_ℤ}
use Rules.{FloatOps, EnergyCurve, ease_stepwise, ease_continuous, ease_gated}

abbrev pub continuous_decay_spec_version : ℕ
continuous_decay_spec_version = 118

abbrev pub gated_decay_spec_version : ℕ
gated_decay_spec_version = 119

pub data DecayAlgorithm : Type 0 where
  stepwise continuous gated : DecayAlgorithm

unfoldable pub for_spec_version : ℕ → DecayAlgorithm
for_spec_version spec_version =
    if leb gated_decay_spec_version spec_version
    then gated
    else if leb continuous_decay_spec_version spec_version
    then continuous
    else stepwise

pub record DecayModel : Type 0 where
  pub base_max_energy_milli : ℤ
  pub curve : Option EnergyCurve
  pub epoch_length : ℕ
  pub algorithm : DecayAlgorithm

module _ (ops : FloatOps) where
  -- The `match` on the rule.
  unfoldable pub ease : DecayAlgorithm → ℤ → ℕ → ℕ → EnergyCurve → ℤ
  ease stepwise base elapsed_blocks epoch_length curve =
      ease_stepwise ops base (elapsed_blocks / epoch_length) curve
  ease continuous base elapsed_blocks epoch_length curve =
      ease_continuous ops base elapsed_blocks epoch_length curve
  ease gated base elapsed_blocks epoch_length curve =
      ease_gated ops base elapsed_blocks epoch_length curve

  unfoldable pub threshold_at : DecayModel → ℕ → ℤ
  unfolding ease
  threshold_at m elapsed_blocks = elim m.curve [
    | none ↦ m.base_max_energy_milli
    | some curve ↦
        if m.epoch_length == 0
        then m.base_max_energy_milli
        else ease m.algorithm m.base_max_energy_milli elapsed_blocks m.epoch_length curve
  ]

-- The `while` loop of `first_clearing_elapsed`, over the threshold as a function of the block. The
-- fuel bounds the rounds; a loop that ran out would return the `hi` it had reached.
unfoldable pub bisect : (ℕ → ℤ) → ℤ → ℕ → ℕ → ℕ → ℕ
bisect threshold energy zero lo hi = hi
bisect threshold energy (suc fuel) lo hi =
    let mid = lo + (hi - lo) / 2 in
    let left = bisect threshold energy fuel lo mid in
    let right = bisect threshold energy fuel mid hi in
    let rest = if ltb_ℤ energy (threshold mid) then left else right in
    if ltb 1 (hi - lo) then rest else hi

-- `first_clearing_elapsed` over a threshold; the horizon is fuel enough, since every round shortens
-- the interval.
unfoldable pub first_clearing : (ℕ → ℤ) → ℤ → ℕ → Option ℕ
unfolding bisect
first_clearing threshold energy_milli horizon_blocks =
    if ltb_ℤ energy_milli (threshold 0)
    then some 0
    else if ltb_ℤ energy_milli (threshold horizon_blocks)
    then some (bisect threshold energy_milli horizon_blocks 0 horizon_blocks)
    else none

unfoldable pub first_clearing_elapsed : FloatOps → DecayModel → ℤ → ℕ → Option ℕ
unfolding first_clearing
first_clearing_elapsed ops m energy_milli horizon_blocks =
    first_clearing (threshold_at ops m) energy_milli horizon_blocks
