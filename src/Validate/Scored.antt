-- ===== src/Validate/Scored.antt =====
-- What a validated result promises (`validate_scored` of
-- `crates/quip-coordinator/src/validate.rs`).
use quip_miner.Prelude.{
  ◌%◌, ◌≤◌, List, [], ◌≡◌, refl, All, length, length-take, take, ◌==◌, if_ind, arith,
}
use quip_miner.Prelude.Int.{◌<ℤ◌}
use quip_miner.Stash.{SpinRow}
use quip_miner.Validate.{
  Diversity, QualityGates, spins_of, admit, unique, select_and_score, validate_scored,
  max_proof_solutions, u32_modulus,
}
use quip_miner.Validate.Unique.{
  IsDistinct, HasTwin, unique-IsDistinct, unique-HasTwin, All-unique, admit-lt, All-pick,
  length-pick,
}

module _ (crate : Diversity) (scored : List SpinRow) (gates : QualityGates) where
  -- The rows to submit all lie under the ceiling and are at most as many as a proof can hold.
  pub validate_scored-selected :
      All
        (λ r. r.energy_milli <ℤ gates.min_energy_milli)
        (validate_scored crate scored gates).selected_solutions
      × (length (validate_scored crate scored gates).selected_solutions ≤ max_proof_solutions)
  unfolding validate_scored
  validate_scored-selected =
      let valid = unique [] (admit gates.min_energy_milli scored) in
      let selected = (select_and_score crate (spins_of valid) gates.min_solutions).0 in
      let first = take max_proof_solutions selected in
      if_ind
        (λ (rows : List SpinRow).
          All (λ r. r.energy_milli <ℤ gates.min_energy_milli) rows
          × (length rows ≤ max_proof_solutions))
        (length valid == 0) (tt, omega arith)
        (
          All-pick (λ r. r.energy_milli <ℤ gates.min_energy_milli) first valid
              (All-unique (λ r. r.energy_milli <ℤ gates.min_energy_milli) []
                (admit gates.min_energy_milli scored) (admit-lt gates.min_energy_milli scored)),
          omega (arith, length-pick first valid, length-take max_proof_solutions selected),
        )

  -- The count of valid solutions is the number of states under the ceiling, modulo the range of a
  -- `u32`: it is the length of a list of rows under the ceiling, no two of them the same state, that
  -- has the state of every row under the ceiling.
  pub validate_scored-n_valid :
      (states : List SpinRow) × ((validate_scored crate scored gates).n_valid
        ≡ length states % u32_modulus)
      × All (λ r. r.energy_milli <ℤ gates.min_energy_milli) states
      × IsDistinct states
      × All (HasTwin states) (admit gates.min_energy_milli scored)
  unfolding validate_scored
  validate_scored-n_valid =
      let admitted = admit gates.min_energy_milli scored in
      (
        unique [] admitted,
        refl,
        All-unique (λ r. r.energy_milli <ℤ gates.min_energy_milli) [] admitted
            (admit-lt gates.min_energy_milli scored),
        unique-IsDistinct [] admitted,
        unique-HasTwin admitted,
      )
