-- ===== src/Stash/Examples.antt =====
-- Runs of `crates/quip-coordinator/src/stash.rs` and the theorems at an input.
use quip_miner.Prelude.{
  ℕ, ◌+◌, ◌*◌, ◌/◌, ◌-◌, ◌≤◌, min, true, false, List, [], ◌∷◌, ◌++◌, some, none, ◌≡◌, refl, All,
  leb, length, arith,
}
use quip_miner.Prelude.Int.{ℤ, negsuc}
use quip_miner.Prelude.Bytes.{Bytes}
use quip_miner.Decay.{DecayModel, stepwise, gated, continuous, first_clearing_elapsed}
use quip_miner.Decay.Fixtures.{thousandths}
use quip_miner.Stash.{
  Candidate, WinStash, new, reset, insert, is_due, improves, viability_block, due_improving,
  mark_submitted,
}
use quip_miner.Stash.Ranking.{IsRanked, IsValid, run, Call, resets, inserts, marks, run-new-IsValid}
use quip_miner.Stash.Due.{BestOf, due_improving-best}

abbrev round_model : DecayModel
round_model = record {
  base_max_energy_milli = negsuc 49999;
  curve = none;
  epoch_length = 100;
  algorithm = stepwise;
}

abbrev candidate : Bytes → ℤ → Candidate
candidate job_id energy = record {
  job_id = job_id;
  salt = none;
  generation = 4;
  best_energy_milli = energy;
  diversity_milli = 300;
  n_valid = 5;
  solutions = [];
  is_pow = true;
  order_id = [];
  device_access_time_us = 0;
  submitted = false;
}

abbrev deep : Candidate
deep = candidate (1 ∷ []) (negsuc 59999)

abbrev deeper : Candidate
deeper = candidate (2 ∷ []) (negsuc 60999)

abbrev armed : WinStash
armed = reset 4 (some round_model) 700 (new 1)

abbrev calls : List Call
calls = resets 4 (some round_model) 700 ∷ inserts deep ∷ inserts deeper ∷ marks (2 ∷ []) ∷ []

viable_at_once : viability_block thousandths armed (negsuc 59999) ≡ some 700
unfolding viability_block reset first_clearing_elapsed quip_miner.Decay.threshold_at
viable_at_once = refl

never_viable : viability_block thousandths armed (negsuc 9) ≡ none
unfolding viability_block reset first_clearing_elapsed quip_miner.Decay.threshold_at
never_viable = refl

second_evicts_first :
    (insert thousandths deeper (insert thousandths deep armed).0).0.candidates ≡ deeper ∷ []
unfolding insert viability_block reset first_clearing_elapsed quip_miner.Decay.threshold_at new
    quip_miner.Prelude.Sort.sort_by_key
second_evicts_first = refl

run-new-IsValid_example : IsValid (run thousandths calls (new 1))
run-new-IsValid_example = run-new-IsValid thousandths 1 calls

abbrev pair : WinStash
pair = record (new 2) {
  candidates = deeper ∷ deep ∷ [];
  model = some round_model;
  last_proof_block = 700;
}

pair-IsRanked : IsRanked pair.candidates
pair-IsRanked = ((omega arith, tt), (tt, tt))

deeper_due : due_improving thousandths pair 700 (some (negsuc 59999)) ≡ some deeper
unfolding due_improving viability_block first_clearing_elapsed quip_miner.Decay.threshold_at
    quip_miner.Stash.due_at is_due
deeper_due = refl

none_improves : due_improving thousandths pair 700 (some (negsuc 69999)) ≡ none
unfolding due_improving viability_block first_clearing_elapsed quip_miner.Decay.threshold_at
    quip_miner.Stash.due_at is_due
none_improves = refl

due_improving-best_example :
    (deeper.submitted ≡ false)
    × ((b : ℕ) × (viability_block thousandths pair (negsuc 60999) ≡ some b) × (b ≤ 700))
    × (improves (some (negsuc 59999)) deeper ≡ true)
    × BestOf (is_due thousandths pair 700) deeper pair.candidates
due_improving-best_example =
    due_improving-best thousandths pair 700 (some (negsuc 59999)) deeper pair-IsRanked deeper_due
