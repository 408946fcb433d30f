-- ===== src/MockMiner/Examples.antt =====
-- Runs of `crates/quip-mock-miner/src/main.rs` and its theorems at inputs.
use quip_miner.Prelude.{true, [], ◌∷◌, none, some, ◌≡◌, refl, ◌⊎◌}
use quip_miner.Prelude.Int.{pos, negsuc, min_ℤ}
use quip_miner.Prelude.Bytes.{bytes_eq}
use quip_miner.Router.Fixtures.{tags}
use quip_miner.Wire.{Job, Generator, SetTarget, edges}
use quip_miner.MockMiner.{
  result, reject, lease_done, job_request, expired, TopologyMsg, Protocol, handle_job, handle_lease,
}
use quip_miner.MockMiner.Replies.{IsRejected, IsSolved, handle_job-Answers}
use quip_miner.MockMiner.Leases.{Answers, handle_lease-Answers}

-- A codec that reads two fields, and one problem for every nonce, that meets the target.
abbrev protocol : Protocol
protocol = record {
  codec = record {
    decode_i32_le = λ bytes. some (pos 0 ∷ pos 0 ∷ []);
    encode_i32_le = λ values. [];
    decode_spins_packed = λ bytes n. none;
  };
  encode_spins_packed = λ spins. 3 ∷ [];
  energy_milli = λ spins h j es. negsuc 0;
  lease_salts = λ g. some g.salt_count;
  salt = λ g i. some (i ∷ []);
  nonce = λ g i. some (i ∷ []);
  num_nodes = λ t. some 2;
  draw = λ t nonce. some ([], []);
  energy_from_milli = λ t spins h j. negsuc 4;
  meets_target = λ target spins energy. true;
}

abbrev generator : Generator
generator = record {
  algorithm = 1;
  topology = 9 ∷ [];
  last_proof_block_hash = [];
  miner_account = [];
  base_salt = [];
  salt_start = 0;
  salt_count = 2;
}

abbrev job : Job
job = record {
  job_id = 8 ∷ [];
  kind = 1;
  generation = 1;
  deadline_ms = 50;
  ising = some (record {
    graph = some (edges (0 ∷ []) (1 ∷ []));
    encoding = 1;
    scale = 1000;
    h = [];
    j = [];
  });
  provenance = none;
  generator = some generator;
}

abbrev topo : TopologyMsg
topo = record { hash = 9 ∷ []; nodes = 0 ∷ 1 ∷ []; edges = none }

abbrev target : SetTarget
target = record {
  max_energy_milli = pos 0;
  min_solutions = 1;
  min_diversity_milli = 0;
  max_proof_solutions = 1;
}

late_refused : handle_job tags protocol 60 job none ≡ reject (8 ∷ []) expired ∷ job_request 1 ∷ []
unfolding handle_job
late_refused = refl

in_time_solved :
    handle_job tags protocol 50 job none
    ≡ result (8 ∷ []) (3 ∷ []) (negsuc 0) [] [] ∷ job_request 1 ∷ []
unfolding handle_job
in_time_solved = refl

two_winners :
    handle_lease tags protocol job (some topo) (some target)
    ≡ result (8 ∷ []) (3 ∷ []) (negsuc 4) (0 ∷ []) (0 ∷ [])
      ∷ result (8 ∷ []) (3 ∷ []) (negsuc 4) (1 ∷ []) (1 ∷ [])
      ∷ lease_done (8 ∷ []) 2 (negsuc 4)
      ∷ job_request 1
      ∷ []
unfolding handle_lease bytes_eq min_ℤ
two_winners = refl

handle_job-Answers_example :
    IsRejected (8 ∷ []) (handle_job tags protocol 50 job none)
    ⊎ IsSolved tags protocol 50 job none (handle_job tags protocol 50 job none)
handle_job-Answers_example = handle_job-Answers tags protocol 50 job none

handle_lease-Answers_example :
    Answers tags protocol job (handle_lease tags protocol job (some topo) (some target))
handle_lease-Answers_example = handle_lease-Answers tags protocol job (some topo) (some target)
