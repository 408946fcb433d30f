-- ===== src/Drive.antt =====
-- Work for the drive mode: the topology spec with its checks (`drive/topology_spec.rs` and `topology.rs`
-- of `crates/quip-coordinator/src`) and the source of salt leases (`drive/lease_source.rs`,
-- `build_lease_job` of `lease.rs`). The hashes of external crates, and so the canonical encodings under
-- them, are parameters; the JSON text is read by an external crate, so a spec starts from its fields.
pub mod Leases
pub mod Checks
mod Examples
use quip_miner.Prelude.{
  ℕ, zero, suc, ◌+◌, ◌-◌, ◌/◌, ◌%◌, min, max, Bool, true, false, not, ◌||◌, List, [], ◌∷◌, ◌++◌,
  Option, none, some, ◌⊎◌, inl, inr, leb, ◌==◌, if◌then◌else◌, replicate,
}
use quip_miner.Prelude.Int.{ℤ, pos, negsuc, i64_max}
use quip_miner.Prelude.Bytes.{Bytes, bytes_eq}
use quip_miner.Wire.{WireTags, Job}
use quip_miner.Snapshot.{MiningSnapshot}
use quip_miner.Text.{codes}
use quip_miner.Survey.{is_nil}

pub record Topology : Type 0 where
  pub hash : Bytes
  pub nodes : List ℕ
  pub edges : List ℕ × List ℕ
  pub allowed_h : List ℤ
  pub allowed_j : List ℤ

-- `topology_hash_sets`
abbrev pub TopologyHash : Type 0
TopologyHash = List ℕ → List (ℕ × ℕ) → List ℤ → List ℤ → List ℤ → Bytes

abbrev pub unzip : List (ℕ × ℕ) → List ℕ × List ℕ
unzip [] = ([], [])
unzip ((u, v) ∷ es) = (u ∷ (unzip es).0, v ∷ (unzip es).1)

abbrev pub zip_edges : List ℕ → List ℕ → List (ℕ × ℕ)
zip_edges [] vs = []
zip_edges (u ∷ us) [] = []
zip_edges (u ∷ us) (v ∷ vs) = (u, v) ∷ zip_edges us vs

unfoldable pub from_nodes_edges :
    TopologyHash → List ℕ → List (ℕ × ℕ) → List ℤ → List ℤ → List ℤ → Topology
from_nodes_edges topology_hash nodes edges h j spin = record {
  hash = topology_hash nodes edges h j spin;
  nodes = nodes;
  edges = unzip edges;
  allowed_h = h;
  allowed_j = j;
}

unfoldable pub edge_pairs : Topology → List (ℕ × ℕ)
edge_pairs t = zip_edges t.edges.0 t.edges.1

pub record Gates : Type 0 where
  pub min_solutions : ℕ
  pub max_energy_milli : ℤ
  pub min_diversity_milli : ℕ

abbrev pub default_gates : Gates
default_gates = record { min_solutions = 0; max_energy_milli = i64_max; min_diversity_milli = 0 }

-- The fields of the JSON document, defaults filled in.
pub record TopologySpecJson : Type 0 where
  pub nodes : List ℕ
  pub edges : List (ℕ × ℕ)
  pub allowed_h_milli : List ℤ
  pub allowed_j_milli : List ℤ
  pub allowed_spin_milli : List ℤ
  pub gates : Option Gates

-- Without the error of the JSON decoder.
pub data TopologySpecError : Type 0 where
  empty_nodes : TopologySpecError
  empty_allowed_h : TopologySpecError
  empty_allowed_j : TopologySpecError
  edge_unknown_node : (edge_index endpoint : ℕ) → TopologySpecError

pub record TopologySpec : Type 0 where
  pub topology : Topology
  pub allowed_h_milli : List ℤ
  pub allowed_j_milli : List ℤ
  pub allowed_spin_milli : List ℤ
  pub min_solutions : ℕ
  pub max_energy_milli : ℤ
  pub min_diversity_milli : ℕ

unfoldable pub has_node : List ℕ → ℕ → Bool
has_node [] n = false
has_node (x ∷ xs) n = x == n || has_node xs n

-- The first endpoint that is no node, from an index on.
unfoldable pub validate_edges : List ℕ → ℕ → List (ℕ × ℕ) → Option TopologySpecError
unfolding has_node
validate_edges nodes i [] = none
validate_edges nodes i ((u, v) ∷ es) =
    if not (has_node nodes u)
    then some (edge_unknown_node i u)
    else if not (has_node nodes v)
    then some (edge_unknown_node i v)
    else validate_edges nodes (i + 1) es

-- -1000 and 1000
abbrev pub default_spin_set : List ℤ
default_spin_set = negsuc 999 ∷ pos 1000 ∷ []

abbrev pub spins_or_default : List ℤ → List ℤ
spins_or_default spins = if is_nil spins then default_spin_set else spins

abbrev pub gates_or_default : Option Gates → Gates
gates_or_default none = default_gates
gates_or_default (some g) = g

unfoldable pub spec_of : TopologyHash → TopologySpecJson → TopologySpec
unfolding from_nodes_edges
spec_of topology_hash raw = record {
  topology =
      from_nodes_edges topology_hash raw.nodes raw.edges raw.allowed_h_milli raw.allowed_j_milli
        (spins_or_default raw.allowed_spin_milli);
  allowed_h_milli = raw.allowed_h_milli;
  allowed_j_milli = raw.allowed_j_milli;
  allowed_spin_milli = spins_or_default raw.allowed_spin_milli;
  min_solutions = (gates_or_default raw.gates).min_solutions;
  max_energy_milli = (gates_or_default raw.gates).max_energy_milli;
  min_diversity_milli = (gates_or_default raw.gates).min_diversity_milli;
}

unfoldable pub validate_spec : TopologyHash → TopologySpecJson → TopologySpec ⊎ TopologySpecError
unfolding validate_edges
validate_spec topology_hash raw =
    if is_nil raw.nodes
    then inr empty_nodes
    else if is_nil raw.allowed_h_milli
    then inr empty_allowed_h
    else if is_nil raw.allowed_j_milli
    then inr empty_allowed_j
    else elim (validate_edges raw.nodes 0 raw.edges) [
      | some e ↦ inr e
      | none ↦ inl (spec_of topology_hash raw)
    ]

abbrev pub zeros : Bytes
zeros = replicate 32 0

unfoldable pub to_snapshot : TopologySpec → MiningSnapshot
unfolding edge_pairs
to_snapshot spec = record {
  head_hash = zeros;
  last_proof_block_hash = zeros;
  topology_hash = spec.topology.hash;
  nodes = spec.topology.nodes;
  edges = edge_pairs spec.topology;
  allowed_h_milli = spec.allowed_h_milli;
  allowed_j_milli = spec.allowed_j_milli;
  allowed_spin_milli = spec.allowed_spin_milli;
  min_solutions = spec.min_solutions;
  max_energy_milli = spec.max_energy_milli;
  min_diversity_milli = spec.min_diversity_milli;
  block_number = 0;
  spec_version = 0;
}

-- The lowest bytes of a number, lowest first.
unfoldable pub le_bytes : ℕ → ℕ → Bytes
le_bytes zero n = []
le_bytes (suc k) n = (n % 256) ∷ le_bytes k (n / 256)

unfoldable pub lease_job_id : ℕ → Bytes
unfolding le_bytes
lease_job_id salt_start = codes "lease:" ++ le_bytes 8 salt_start

unfoldable pub build_lease_job : WireTags → MiningSnapshot → Bytes → ℕ → ℕ → ℕ → Job
build_lease_job tags snap miner_identity salt_start salt_count generation = record {
  job_id = lease_job_id salt_start;
  kind = tags.ising_generate;
  generation = generation;
  deadline_ms = 0;
  ising = none;
  provenance = some (record { is_pow = true; order_id = [] });
  generator = some (record {
    algorithm = tags.blake3_chacha8_v1;
    topology = snap.topology_hash;
    last_proof_block_hash = snap.last_proof_block_hash;
    miner_account = miner_identity;
    base_salt = zeros;
    salt_start = salt_start;
    salt_count = salt_count;
  });
}

pub record LeaseSource : Type 0 where
  pub snapshot : MiningSnapshot
  pub miner_account : Bytes
  pub salts : ℕ
  pub lease_size : ℕ
  pub next_start : ℕ

-- `blake3` hashes the text and the seed's eight bytes.
unfoldable pub new : (Bytes → Bytes) → TopologySpec → Bytes → ℕ → ℕ → ℕ → LeaseSource
unfolding to_snapshot le_bytes
new blake3 spec miner_account seed salts lease_size = record {
  snapshot = record (to_snapshot spec) {
    last_proof_block_hash = blake3 (codes "quip-drive-lease" ++ le_bytes 8 seed);
  };
  miner_account = miner_account;
  salts = salts;
  lease_size = max lease_size 1;
  next_start = 0;
}

unfoldable pub next_job : WireTags → LeaseSource → Option (Job × LeaseSource)
unfolding build_lease_job
next_job tags s =
    if leb s.salts s.next_start
    then none
    else let count = min s.lease_size (s.salts - s.next_start) in
      some (
        build_lease_job tags s.snapshot s.miner_account s.next_start count 1,
        record s { next_start = s.next_start + count },
      )
