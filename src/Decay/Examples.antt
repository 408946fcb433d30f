-- ===== src/Decay/Examples.antt =====
-- Runs of `crates/quip-coordinator/src/decay.rs`, the values of its unit tests among them, and the
-- theorems at an input.
use quip_miner.Prelude.{ℕ, ◌≤◌, ◌≡◌, refl, some, arith}
use quip_miner.Prelude.Int.{
  negsuc, ◌<ℤ◌, ◌+ℤ◌, ◌-ℤ◌, min_ℤ, max_ℤ, saturate, saturating_add, saturating_sub,
}
use quip_miner.Decay.Rules.{EnergyCurve, geometric_floored, ease_step, ease_stepwise}
use quip_miner.Decay.{
  DecayModel, stepwise, gated, threshold_at, first_clearing_elapsed, for_spec_version, continuous,
}
use quip_miner.Decay.Fixtures.{thousandths}
use quip_miner.Decay.Stepwise.{ease_stepwise_arrives}
use quip_miner.Decay.Search.{Found}
use quip_miner.Decay.Projection.{first_clearing_elapsed-Found, first_clearing_elapsed-stepwise}

-- The curve of the unit tests, its easy bound at -1000.
abbrev test_curve : EnergyCurve
test_curve = record { min_milli = negsuc 99999; knee_milli = negsuc 49999; max_milli = negsuc 999 }

abbrev test_model : DecayModel
test_model = record {
  base_max_energy_milli = negsuc 49999;
  curve = some test_curve;
  epoch_length = 100;
  algorithm = stepwise;
}

abbrev gated_model : DecayModel
gated_model = record test_model { algorithm = gated }

ease_step_first : ease_step thousandths (negsuc 49999) test_curve ≡ negsuc 48774
unfolding ease_step geometric_floored saturating_sub saturating_add saturate ◌+ℤ◌ ◌-ℤ◌ min_ℤ max_ℤ
ease_step_first = refl

ease_stepwise_third : ease_stepwise thousandths (negsuc 49999) 3 test_curve ≡ negsuc 46415
unfolding ease_stepwise ease_step geometric_floored saturating_sub saturating_add saturate ◌+ℤ◌ ◌-ℤ◌
    min_ℤ max_ℤ
ease_stepwise_third = refl

rules_by_spec :
    (for_spec_version 117 ≡ stepwise)
    × (for_spec_version 118 ≡ continuous)
    × (for_spec_version 119 ≡ gated)
unfolding for_spec_version
rules_by_spec = (refl, refl, refl)

ease_stepwise_arrives_example : ease_stepwise thousandths (negsuc 49999) 49 test_curve ≡ negsuc 999
unfolding ◌+ℤ◌
ease_stepwise_arrives_example =
    ease_stepwise_arrives thousandths test_curve (omega arith) (negsuc 49999) 49 (omega arith)
      (omega arith) (omega arith) (omega arith)

first_clearing_elapsed-Found_example :
    Found
      (threshold_at thousandths test_model)
      (negsuc 48774)
      500
      (first_clearing_elapsed thousandths test_model (negsuc 48774) 500)
first_clearing_elapsed-Found_example =
    first_clearing_elapsed-Found thousandths test_model (negsuc 48774) 500

first_clearing_elapsed-stepwise_example :
    (h : ℕ) × (first_clearing_elapsed thousandths test_model (negsuc 48774) 500 ≡ some h)
    × (h ≤ 200)
    × (negsuc 48774 <ℤ threshold_at thousandths test_model h)
unfolding threshold_at ease_stepwise ease_step geometric_floored saturating_sub saturating_add
    saturate ◌+ℤ◌ ◌-ℤ◌ min_ℤ max_ℤ
first_clearing_elapsed-stepwise_example =
    first_clearing_elapsed-stepwise thousandths test_model (negsuc 48774) test_curve 500 200 refl
      refl (omega arith) (omega arith) (omega arith) (omega arith) (omega arith)
