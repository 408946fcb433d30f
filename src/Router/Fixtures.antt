-- ===== src/Router/Fixtures.antt =====
-- Miners and jobs for the runs and the witnesses about the router
-- (`crates/quip-coordinator/src/router.rs`).
use quip_miner.Prelude.{ℕ, Bool, true, List, [], ◌∷◌, none}
use quip_miner.Wire.{WireTags, Job}
use quip_miner.Router.State.{MinerCaps, MinerQueue, Router}

abbrev pub tags : WireTags
tags = record {
  ising_generate = 2;
  ising_sample = 1;
  blake3_chacha8_v1 = 1;
  unsupported_kind = 3;
  i32_encoding = 1;
}

abbrev pub plain_caps : MinerCaps
plain_caps = record {
  backend = [];
  algorithm = [];
  supported_kinds = [];
  max_nodes = 0;
  max_edges = 0;
  max_degree = none;
  native_topology_hash = none;
  features = [];
  generators = [];
  stream_width = 0;
}

abbrev pub lease_caps : MinerCaps
lease_caps = record plain_caps { supported_kinds = 1 ∷ 2 ∷ []; generators = 1 ∷ [] }

abbrev pub job : ℕ → ℕ → ℕ → Job
job id kind generation = record {
  job_id = id ∷ [];
  kind = kind;
  generation = generation;
  deadline_ms = 0;
  ising = none;
  provenance = none;
  generator = none;
}

abbrev pub queue : MinerCaps → List Job → ℕ → MinerQueue
queue caps jobs credits = record {
  caps = caps;
  staged = jobs;
  granted_credits = credits;
  consumed_since_poll = 0;
  salts_since_poll = 0;
  round_salts = 0;
  completed = 0;
  unsupported_kinds = [];
}

-- Miner 5 took a lease before it was known that it cannot run one.
abbrev pub stale_queue : MinerQueue
stale_queue = queue plain_caps (job 1 2 7 ∷ job 2 1 7 ∷ job 3 1 0 ∷ []) 2

abbrev pub fleet : Router
fleet = record {
  miners = (5 ∷ [], stale_queue) ∷ (3 ∷ [], queue lease_caps [] 1) ∷ [];
  topology = none;
  unroutable = [];
  drops = [];
}

abbrev pub any : Job → Bool
any j = true
