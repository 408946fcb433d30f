-- ===== src/Feeder/Examples.antt =====
-- Runs of `crates/quip-coordinator/src/runtime.rs` and the theorems at an input.
use quip_miner.Prelude.{◌+◌, true, false, List, [], ◌∷◌, none, some, ◌≡◌, refl, arith}
use quip_miner.Prelude.Int.{pos}
use quip_miner.Router.Fixtures.{tags, fleet, job, any}
use quip_miner.Router.Held.{held, staged}
use quip_miner.Session.{CoordinatorState, new}
use quip_miner.Snapshot.{MiningSnapshot}
use quip_miner.Mempool.Fixtures.{plain_codec, order}
use quip_miner.Round.{stop_mining}
use quip_miner.Feeder.{
  order_gates, stage_loop, stage_mempool_orders, enter_generation, Answers, mining, drive_to_mining,
}
use quip_miner.Feeder.Orders.{new_jobs, stage_mempool_orders_twice, held-stage_loop}
use quip_miner.Feeder.Turnover.{is_stale, enter_generation_lem}
use quip_miner.Feeder.Drive.{drive_to_mining-Arrives}

abbrev started : CoordinatorState
started = record new {
  router = fleet;
  inflight = (7 ∷ [], job 7 1 7) ∷ [];
  inflight_owner = (7 ∷ [], 5 ∷ []) ∷ [];
}

stage_mempool_orders_twice_example :
    (stage_mempool_orders tags plain_codec
      (some (order ∷ []))
      (stage_mempool_orders tags plain_codec (some (order ∷ [])) started).0).0
    ≡ (stage_mempool_orders tags plain_codec (some (order ∷ [])) started).0
stage_mempool_orders_twice_example =
    stage_mempool_orders_twice tags plain_codec (order ∷ []) started

held-stage_loop_example :
    held any (stage_loop tags plain_codec (order ∷ order ∷ []) started).router
    ≡ held any started.router
      + new_jobs tags plain_codec any started.mempool_orders (order ∷ order ∷ [])
held-stage_loop_example = held-stage_loop tags plain_codec any (order ∷ order ∷ []) started

enter_generation_lem_example :
    (staged (is_stale 8) (enter_generation 8 started).0.router.miners ≡ 0)
    × ((enter_generation 8 started).0.salts ≡ [])
    × ((enter_generation 8 started).0.current_best_milli ≡ none)
    × ((enter_generation 8 started).0.stash.candidates ≡ [])
    × ((enter_generation 8 started).0.generation ≡ 8)
enter_generation_lem_example = enter_generation_lem 8 started

abbrev snap : MiningSnapshot
snap = record {
  head_hash = [];
  last_proof_block_hash = 7 ∷ [];
  topology_hash = 9 ∷ [];
  nodes = 0 ∷ 1 ∷ [];
  edges = (0, 1) ∷ [];
  allowed_h_milli = [];
  allowed_j_milli = [];
  allowed_spin_milli = [];
  min_solutions = 1;
  max_energy_milli = pos 0;
  min_diversity_milli = 0;
  block_number = 42;
  spec_version = 117;
}

abbrev all_well : Answers
all_well = record { funded = true; registered = true; snapshot = some snap; stop = false }

abbrev unfunded : Answers
unfunded = record all_well { funded = false }

abbrev passes : List Answers
passes = all_well ∷ all_well ∷ unfunded ∷ all_well ∷ all_well ∷ all_well ∷ all_well ∷ []

drive_to_mining-Arrives_example :
    (s : MiningSnapshot) × ((drive_to_mining passes stop_mining 8 none started).1 ≡ mining (some s))
unfolding quip_miner.Feeder.Drive.goods
drive_to_mining-Arrives_example =
    drive_to_mining-Arrives passes stop_mining 8 none started tt
      (refl, (refl, (refl, (refl, (refl, (refl, (refl, tt))))))) (omega arith)
