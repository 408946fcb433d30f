-- ===== src/Snapshot.antt =====
-- What a round is mined against: `MiningSnapshot` of
-- `crates/quip-coordinator/src/chain/snapshot.rs`, and the proof of `chain/scale_types.rs` with the
-- pending one of `chain/pool.rs`. Hashes and accounts are byte strings, a 256-bit number a number.
use quip_miner.Prelude.{ℕ, List}
use quip_miner.Prelude.Int.{ℤ}
use quip_miner.Prelude.Bytes.{Bytes}

pub record MiningSnapshot : Type 0 where
  pub head_hash : Bytes
  pub last_proof_block_hash : Bytes
  pub topology_hash : Bytes
  pub nodes : List ℕ
  pub edges : List (ℕ × ℕ)
  pub allowed_h_milli : List ℤ
  pub allowed_j_milli : List ℤ
  pub allowed_spin_milli : List ℤ
  pub min_solutions : ℕ
  pub max_energy_milli : ℤ
  pub min_diversity_milli : ℕ
  pub block_number : ℕ
  pub spec_version : ℕ

pub record QuantumProof : Type 0 where
  pub topology_hash : Bytes
  pub nonce : ℕ
  pub salt : Bytes
  pub solutions : List Bytes
  pub device_access_time_us : ℕ

pub record PendingProof : Type 0 where
  pub extrinsic_hash : Bytes
  pub account : Bytes
  pub proof : QuantumProof
