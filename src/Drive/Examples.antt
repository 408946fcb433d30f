-- ===== src/Drive/Examples.antt =====
-- Runs of the drive mode's sources (`crates/quip-coordinator/src/drive`) and their theorems at inputs.
use quip_miner.Prelude.{max, [], ◌∷◌, none, ◌≡◌, refl, inr, All}
use quip_miner.Prelude.Int.{pos}
use quip_miner.Prelude.Bytes.{Bytes}
use quip_miner.Router.Fixtures.{tags}
use quip_miner.Drive.{
  TopologyHash, TopologySpecJson, edge_unknown_node, TopologySpec, spec_of, validate_spec, new,
  next_job,
}
use quip_miner.Drive.Checks.{SpecExplains, validate_spec-Explains}
use quip_miner.Drive.Leases.{range, named, HasCount, drain_source, drain_source-new}

abbrev no_hash : TopologyHash
no_hash nodes edges h j spin = []

-- The second edge ends at 9, which is no node.
abbrev raw : TopologySpecJson
raw = record {
  nodes = 4 ∷ 7 ∷ [];
  edges = (4, 7) ∷ (7, 9) ∷ [];
  allowed_h_milli = pos 0 ∷ [];
  allowed_j_milli = pos 1000 ∷ [];
  allowed_spin_milli = [];
  gates = none;
}

outside_named : validate_spec no_hash raw ≡ inr (edge_unknown_node 1 9)
unfolding validate_spec
outside_named = refl

abbrev spec : TopologySpec
spec = spec_of no_hash (record raw { edges = (4, 7) ∷ [] })

validate_spec-Explains_example : SpecExplains no_hash raw (validate_spec no_hash raw)
validate_spec-Explains_example = validate_spec-Explains no_hash raw

abbrev blake : Bytes → Bytes
blake text = text

three_leases : named (drain_source tags 5 (new blake spec [] 0 5 2)).0 ≡ 0 ∷ 1 ∷ 2 ∷ 3 ∷ 4 ∷ []
unfolding drain_source new next_job
three_leases = refl

drain_source-new_example :
    let d = drain_source tags 5 (new blake spec [] 0 5 2) in
    (named d.0 ≡ range 0 5) × All (HasCount (max 2 1)) d.0 × (next_job tags d.1 ≡ none)
drain_source-new_example = drain_source-new tags blake spec [] 0 5 2
