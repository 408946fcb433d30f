-- ===== src/Validate/Examples.antt =====
-- Runs of `crates/quip-coordinator/src/validate.rs` and the theorems at an input: four rows of
-- three spins, the second the flip of the first. Selection takes the first rows here, and diversity
-- grows with their number.
use quip_miner.Prelude.{
  ℕ, zero, suc, ◌+◌, ◌*◌, ◌%◌, ◌≤◌, Bool, true, false, List, [], ◌∷◌, Option, none, some, ◌≡◌, refl,
  All, length, leb, arith,
}
use quip_miner.Prelude.Int.{ℤ, pos, negsuc, ◌<ℤ◌}
use quip_miner.Stash.{SpinRow}
use quip_miner.Validate.{
  Diversity, QualityGates, indices, admit, lowest, energy_of_row, canonicalize_spins,
  check_proof_gates, stash_rows, validate_scored, max_proof_solutions, u32_modulus,
}
use quip_miner.Validate.Energy.{energy_of_row-canonicalize_spins}
use quip_miner.Validate.Scored.{validate_scored-selected}
use quip_miner.Validate.Held.{eased_to, check_proof_gates-stash_rows}

abbrev first_rows : Diversity
first_rows = record {
  select_diverse = λ rows n. some (indices 0 n);
  calculate_diversity = λ rows. some (length rows * 100);
}

abbrev up : List ℤ
up = pos 1 ∷ pos 1 ∷ negsuc 0 ∷ []

abbrev down : List ℤ
down = negsuc 0 ∷ negsuc 0 ∷ pos 1 ∷ []

abbrev row : List ℤ → ℤ → SpinRow
row spins e = record { spins = spins; energy_milli = e }

abbrev rows : List SpinRow
rows =
    row up (negsuc 1999)
    ∷ row down (negsuc 1999)
    ∷ row (pos 1 ∷ negsuc 0 ∷ pos 1 ∷ []) (negsuc 2999)
    ∷ row (pos 1 ∷ pos 1 ∷ pos 1 ∷ []) (pos 500)
    ∷ []

abbrev live_gates : QualityGates
live_gates = record { min_energy_milli = negsuc 999; min_diversity_milli = 150; min_solutions = 2 }

flip_counts_once : (validate_scored first_rows rows live_gates).n_valid ≡ 2
unfolding validate_scored quip_miner.Validate.unique admit canonicalize_spins
    quip_miner.Prelude.Int.◌-ℤ◌
flip_counts_once = refl

energy_up :
    energy_of_row up (pos 0 ∷ pos 0 ∷ pos 0 ∷ []) ((0, 2) ∷ []) (pos 1000 ∷ []) ≡ some (negsuc 999)
unfolding energy_of_row quip_miner.Prelude.Int.◌+ℤ◌ quip_miner.Prelude.Int.◌*ℤ◌
energy_up = refl

energy_of_row-canonicalize_spins_example :
    energy_of_row
      (canonicalize_spins down)
      (pos 0 ∷ pos 0 ∷ pos 0 ∷ [])
      ((0, 2) ∷ [])
      (pos 1000 ∷ [])
    ≡ energy_of_row down (pos 0 ∷ pos 0 ∷ pos 0 ∷ []) ((0, 2) ∷ []) (pos 1000 ∷ [])
energy_of_row-canonicalize_spins_example =
    energy_of_row-canonicalize_spins down 3 ((0, 2) ∷ []) (pos 1000 ∷ [])

validate_scored-selected_example :
    All
      (λ r. r.energy_milli <ℤ negsuc 999)
      (validate_scored first_rows rows live_gates).selected_solutions
    × (length (validate_scored first_rows rows live_gates).selected_solutions ≤ 32)
validate_scored-selected_example = validate_scored-selected first_rows rows live_gates

two_admitted : length (admit (pos 0) (stash_rows first_rows rows live_gates)) ≡ 2
unfolding admit stash_rows quip_miner.Validate.extended quip_miner.Prelude.Sort.sort_by_key
    canonicalize_spins quip_miner.Validate.select_and_score quip_miner.Validate.pick
    quip_miner.Validate.selection indices quip_miner.Prelude.Int.◌-ℤ◌
two_admitted = refl

check_proof_gates-stash_rows_example :
    (check_proof_gates first_rows
      (stash_rows first_rows rows live_gates)
      (eased_to first_rows live_gates (pos 0))).accepted
    ≡ leb 2 (length (admit (pos 0) (stash_rows first_rows rows live_gates)))
check_proof_gates-stash_rows_example =
    check_proof_gates-stash_rows first_rows live_gates rows (pos 0) (λ _. omega arith)
      (omega (arith, two_admitted))
