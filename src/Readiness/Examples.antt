-- ===== src/Readiness/Examples.antt =====
-- Runs of `crates/quip-coordinator/src/readiness.rs` and its theorems at inputs.
use quip_miner.Prelude.{
  ℕ, true, false, List, [], ◌∷◌, Option, none, some, ◌≡◌, refl, ◌⊎◌, inl, ◌==◌, if◌then◌else◌,
  arith,
}
use quip_miner.Prelude.Int.{pos}
use quip_miner.Prelude.Bytes.{Bytes}
use quip_miner.Mempool.{MinerKind}
use quip_miner.Snapshot.{MiningSnapshot}
use quip_miner.Text.{Text, codes}
use quip_miner.Survey.Sanitize.{sanitize}
use quip_miner.Survey.Examples.{build, raw}
use quip_miner.Sync.{SyncStatus, synced, begin, wait_until_synced}
use quip_miner.Funding.{FundingParams}
use quip_miner.Submit.{filed, declared, RegistrationOutcome, registered}
use quip_miner.Readiness.{
  info, DescriptorParams, NodeDescriptor, payload, build_descriptor_payload,
  declare_round_participation,
}
use quip_miner.Readiness.Payload.{Fits, build_descriptor_payload-Fits}
use quip_miner.Readiness.Latches.{FilingCall}
use quip_miner.Readiness.Participation.{Call, settled_ids, IsRising, settled_ids-IsRising}
use quip_miner.Readiness.Startup.{
  ReadinessError, Chain, Latches, Explains, prepare_round, prepare_round-Explains,
}

abbrev ss58 : Bytes → Text
ss58 account = codes "5F"

abbrev params : DescriptorParams
params = record {
  node_id = none;
  node_name = some (codes " ");
  public_host = some (codes "node.example");
  public_port = some 0;
  auto_mine = true;
  log_level = info;
  rpc_endpoints = codes "ws://a" ∷ codes "" ∷ [];
  miners = record { kind = MinerKind.cpu; label = none; backend = none; device_id = none } ∷ [];
  system_info = some (sanitize build raw).system;
  runtime = some (sanitize build raw).runtime;
}

abbrev descriptor : NodeDescriptor
descriptor = payload params (codes "ab") (codes "5F")

built : build_descriptor_payload ss58 params (171 ∷ []) ≡ some descriptor
unfolding build_descriptor_payload
built = refl

build_descriptor_payload-Fits_example : Fits descriptor
build_descriptor_payload-Fits_example =
    build_descriptor_payload-Fits ss58 params (171 ∷ []) descriptor built

-- Two errors, then an answer.
abbrev late : ℕ → Option RegistrationOutcome
late n = if n == 2 then some registered else none

abbrev first_call : FilingCall
first_call = record { params = params; account = 171 ∷ []; answers = λ n. none }

abbrev next_call : FilingCall
next_call = record { params = params; account = 171 ∷ []; answers = λ n. some filed }

-- The second call reads the same id, the third fails and the fourth declares the next one.
abbrev calls : List Call
calls =
    (some (some 10), λ id. some declared)
    ∷ (some (some 10), λ id. some declared)
    ∷ (some (some 11), λ id. none)
    ∷ (some (some 11), λ id. some declared)
    ∷ []

settled_run : settled_ids calls none ≡ 11 ∷ 12 ∷ []
unfolding settled_ids declare_round_participation
settled_run = refl

settled_ids-IsRising_example : IsRising none (settled_ids calls none)
settled_ids-IsRising_example = settled_ids-IsRising calls none 0 tt (omega arith)

abbrev snap : MiningSnapshot
snap = record {
  head_hash = [];
  last_proof_block_hash = [];
  topology_hash = [];
  nodes = 0 ∷ [];
  edges = [];
  allowed_h_milli = [];
  allowed_j_milli = [];
  allowed_spin_milli = [];
  min_solutions = 1;
  max_energy_milli = pos 0;
  min_diversity_milli = 0;
  block_number = 1;
  spec_version = 117;
}

abbrev clear : SyncStatus
clear = record {
  is_syncing = false;
  peers = 1;
  should_have_peers = true;
  current_block = none;
  highest_block = none;
}

abbrev chain : Chain
chain = record {
  sync = some clear ∷ [];
  free_balance = λ n. inl 100;
  faucet = none;
  registration = λ n. some registered;
  snapshot = some (some snap);
  descriptor = λ n. some filed;
}

abbrev funding : FundingParams
funding = record { faucet_url = none; min_balance = 1; top_up = 1; timeout = 0 }

abbrev fresh : Latches
fresh = record { descriptor_filed = false; miner_registered = false }

waited : wait_until_synced chain.sync begin ≡ some synced
unfolding wait_until_synced
waited = refl

prepare_round-Explains_example :
    (r : MiningSnapshot ⊎ ReadinessError) × ((prepare_round ss58 chain
        (171 ∷ [])
        funding
        params
        fresh).result
      ≡ some r)
    × Explains ss58 chain
        (171 ∷ [])
        funding
        fresh
        (prepare_round ss58 chain (171 ∷ []) funding params fresh)
        r
prepare_round-Explains_example =
    prepare_round-Explains ss58 chain (171 ∷ []) funding params fresh synced waited
