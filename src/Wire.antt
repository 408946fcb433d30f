-- ===== src/Wire.antt =====
-- The messages of the miner protocol (`quip_proto::v1`) as far as the coordinator's code reads and
-- writes them, and the tag values of the protocol's enums. The protocol crate is not part of the
-- repository: the tags are a parameter. An `i32` tag is only compared, so it is a number here.
use quip_miner.Prelude.{ℕ, Bool, List, Option}
use quip_miner.Prelude.Int.{ℤ}
use quip_miner.Prelude.Bytes.{Bytes}

pub record WireTags : Type 0 where
  -- `JobKind::IsingGenerate`.
  pub ising_generate : ℕ
  -- `JobKind::IsingSample`.
  pub ising_sample : ℕ
  -- `GeneratorAlgorithm::Blake3Chacha8V1`.
  pub blake3_chacha8_v1 : ℕ
  -- `RejectReason::UnsupportedKind`.
  pub unsupported_kind : ℕ
  -- `CoefficientEncoding::I32`.
  pub i32_encoding : ℕ

pub data Graph : Type 0 where
  topology_hash : Bytes → Graph
  edges : (u v : List ℕ) → Graph

pub record IsingProblem : Type 0 where
  pub graph : Option Graph
  pub encoding : ℕ
  pub scale : ℕ
  pub h : Bytes
  pub j : Bytes

pub record Provenance : Type 0 where
  pub is_pow : Bool
  pub order_id : Bytes

pub record Generator : Type 0 where
  pub algorithm : ℕ
  pub topology : Bytes
  pub last_proof_block_hash : Bytes
  pub miner_account : Bytes
  pub base_salt : Bytes
  pub salt_start : ℕ
  pub salt_count : ℕ

pub record Job : Type 0 where
  pub job_id : Bytes
  pub kind : ℕ
  pub generation : ℕ
  pub deadline_ms : ℕ
  pub ising : Option IsingProblem
  pub provenance : Option Provenance
  pub generator : Option Generator

-- The difficulty that a session advertises, and a solution with its spins still packed.
pub record SetTarget : Type 0 where
  pub max_energy_milli : ℤ
  pub min_solutions : ℕ
  pub min_diversity_milli : ℕ
  pub max_proof_solutions : ℕ

pub record Solution : Type 0 where
  pub spins : Bytes
  pub energy_milli : ℤ

-- The codecs of `quip_protocol::wire`; none is an error.
pub record Codec : Type 0 where
  pub decode_i32_le : Bytes → Option (List ℤ)
  pub encode_i32_le : List ℤ → Bytes
  pub decode_spins_packed : Bytes → ℕ → Option (List ℤ)

-- A miner's messages. `device_access_time_us` is that of the sampler's metadata, none without it.
pub record MinerResult : Type 0 where
  pub job_id : Bytes
  pub solutions : List Solution
  pub device_access_time_us : Option ℕ

pub record LeaseDone : Type 0 where
  pub job_id : Bytes
  pub salts_done : ℕ

pub record Reject : Type 0 where
  pub job_id : Bytes
  pub reason : ℕ

pub record Status : Type 0 where
  pub abandoned_generation : ℕ
  pub sampler_stats : List (Bytes × Bytes)
