-- ===== src/Feeder.antt =====
-- The feeder: `crates/quip-coordinator/src/runtime.rs`. The chain's answers are parameters. The poll
-- loop around the parts below, its timing and its output to the miners are not modelled.
pub mod Orders
pub mod Turnover
pub mod Drive
mod Examples
use quip_miner.Prelude.{
  ℕ, suc, ◌+◌, ◌-◌, ◌*◌, ◌/◌, min, max, Bool, true, false, ◌&&◌, ◌||◌, List, [], ◌∷◌, Option, none,
  some, ltb, if◌then◌else◌, length,
}
use quip_miner.Prelude.Int.{ℤ, pos, i64_max, saturating_add}
use quip_miner.Prelude.Bytes.{Bytes}
use quip_miner.Prelude.Assoc.{get, insert}
use quip_miner.Wire.{WireTags, Job, Codec, SetTarget}
use quip_miner.Router.State.{Router, u64_max}
use quip_miner.Router.{route}
use quip_miner.Router.Counters.{cancel, reset_round_salts, miner_ids}
use quip_miner.Validate.{QualityGates, max_proof_solutions}
use quip_miner.Stash
use quip_miner.Session.{CoordinatorState, cancel_inflight, clear_salts, wake_dispatcher}
use quip_miner.Snapshot.{MiningSnapshot}
use quip_miner.Mempool.{JobOrder, job_order_to_job}
use quip_miner.Round.{
  RoundState, RoundEvent, stop_mining, validator_synced, account_funded, miner_registered,
  requirements_downloaded, descriptor_filed, start_mining, awaiting_q_block, succeeded, failed,
  new_head, shutdown, win_pending, resume, transition,
}
use quip_miner.Round

abbrev pub max_stage_bytes_per_miner : ℕ
max_stage_bytes_per_miner = 67_108_864

-- Saturating at the largest `usize` of 64 bits.
unfoldable pub est_job_bytes : ℕ → ℕ → ℕ
est_job_bytes num_nodes num_edges = max (min (4 * min (num_nodes + num_edges) u64_max) u64_max) 1

unfoldable pub stage_ceiling : ℕ → ℕ → ℕ → ℕ
unfolding est_job_bytes
stage_ceiling num_nodes num_edges floor =
    max floor (max_stage_bytes_per_miner / est_job_bytes num_nodes num_edges)

unfoldable pub target_from_snapshot : MiningSnapshot → SetTarget
target_from_snapshot snap = record {
  max_energy_milli = snap.max_energy_milli;
  min_solutions = snap.min_solutions;
  min_diversity_milli = snap.min_diversity_milli;
  max_proof_solutions = max_proof_solutions;
}

abbrev pub energy_gate : Option ℤ → ℤ
energy_gate none = i64_max
energy_gate (some e) = saturating_add e (pos 1)

abbrev pub diversity_gate : Option ℕ → ℕ
diversity_gate none = 0
diversity_gate (some d) = d

abbrev pub count_gate : Option ℕ → ℕ → ℕ
count_gate none diversity = if ltb 0 diversity then 2 else 1
count_gate (some n) diversity = n

unfoldable pub order_gates : JobOrder → QualityGates
order_gates order = record {
  min_energy_milli = energy_gate order.min_energy_milli;
  min_diversity_milli = diversity_gate order.min_diversity_milli;
  min_solutions = count_gate order.min_solutions (diversity_gate order.min_diversity_milli);
}

abbrev pub is_empty : List Bytes → Bool
is_empty [] = true
is_empty (id ∷ ids) = false

abbrev pub wake : Option Bytes → CoordinatorState → CoordinatorState
wake none s = s
wake (some miner) s = wake_dispatcher miner s

module _ (tags : WireTags) (codec : Codec) where
  -- A new order: its gates, and its job with a miner that can take it.
  unfoldable pub stage_order : JobOrder → CoordinatorState → CoordinatorState
  stage_order order s =
      let s' = record s {
        mempool_orders = insert order.order_id (order_gates order) s.mempool_orders;
      } in
      elim (job_order_to_job tags codec order) [
        | none ↦ s'
        | some job ↦
            let (router, taken) = route tags s'.router job in
            wake taken (record s' { router = router })
      ]

  unfoldable pub stage_loop : List JobOrder → CoordinatorState → CoordinatorState
  unfolding stage_order
  stage_loop [] s = s
  stage_loop (order ∷ orders) s = elim (get order.order_id s.mempool_orders) [
    | some gates ↦ stage_loop orders s
    | none ↦ stage_loop orders (stage_order order s)
  ]

  -- `orders` are those that the chain gives; none is an error.
  unfoldable pub stage_mempool_orders :
      Option (List JobOrder) → CoordinatorState → CoordinatorState × Bool
  unfolding stage_loop
  stage_mempool_orders orders s = elim (is_empty (miner_ids s.router)) [
    | true ↦ (s, false)
    | false ↦ elim orders [ none ↦ (s, false) | some os ↦ (stage_loop os s, true) ]
  ]

-- `stop_mining`, which enters a generation; with the count of staged jobs dropped.
unfoldable pub enter_generation : ℕ → CoordinatorState → CoordinatorState × ℕ
enter_generation generation s =
    let (router, dropped) = cancel (generation - 1) s.router in
    let fresh = record s {
      generation = generation;
      current_best_milli = none;
      stash = Stash.reset generation none 0 s.stash;
      router = router;
    } in
    let cleared = clear_salts (cancel_inflight (generation - 1) fresh).0 in
    (record cleared { router = reset_round_salts cleared.router }, dropped)

-- What the outside answers while the walk is in a state: whether the funding and the registration
-- succeed, the snapshot if one is there, and whether a shutdown is requested.
pub record Answers : Type 0 where
  pub funded : Bool
  pub registered : Bool
  pub snapshot : Option MiningSnapshot
  pub stop : Bool

abbrev pub event_if : Bool → RoundEvent
event_if true = succeeded
event_if false = failed

abbrev pub event_of_snapshot : Option MiningSnapshot → RoundEvent
event_of_snapshot none = failed
event_of_snapshot (some s) = succeeded

-- The event of a state's step.
abbrev pub step_event : RoundState → Answers → RoundEvent
step_event stop_mining a = succeeded
step_event validator_synced a = succeeded
step_event account_funded a = event_if a.funded
step_event miner_registered a = event_if a.registered
step_event requirements_downloaded a = event_of_snapshot a.snapshot
step_event descriptor_filed a = succeeded
step_event start_mining a = succeeded
step_event awaiting_q_block a = resume

-- The states that wait for the outside, and so see a shutdown.
abbrev pub waits : RoundState → Bool
waits validator_synced = true
waits account_funded = true
waits miner_registered = true
waits requirements_downloaded = true
waits _ = false

abbrev pub is_failed : RoundEvent → Bool
is_failed failed = true
is_failed _ = false

-- The snapshot held after the step.
abbrev pub snapshot_after : RoundState → Answers → Option MiningSnapshot → Option MiningSnapshot
snapshot_after requirements_downloaded a held = elim a.snapshot [ none ↦ held | some s ↦ some s ]
snapshot_after _ a held = held

abbrev pub state_after : RoundState → ℕ → CoordinatorState → CoordinatorState
state_after stop_mining generation s = (enter_generation generation s).0
state_after _ generation s = s

-- How a walk ends: in mining, with the snapshot held if there is one; by a shutdown or the end of the
-- machine; or not with the answers given.
pub data WalkEnd : Type 0 where
  mining : Option MiningSnapshot → WalkEnd
  ended : WalkEnd
  unfinished : WalkEnd

-- `drive_to_mining`: one round of answers for each pass of the loop. A failed step sleeps, and sees a
-- shutdown there too.
unfoldable pub drive_to_mining :
    List Answers
    → RoundState
    → ℕ
    → Option MiningSnapshot
    → CoordinatorState
    → CoordinatorState × WalkEnd
unfolding enter_generation transition
drive_to_mining as' start_mining generation held s = (s, mining held)
drive_to_mining [] machine generation held s = (s, unfinished)
drive_to_mining (a ∷ as') machine generation held s =
    let event = step_event machine a in
    elim (a.stop && (waits machine || is_failed event)) [
      | true ↦ (s, ended)
      | false ↦ elim (transition machine event) [
        | none ↦ (state_after machine generation s, ended)
        | some next ↦
            drive_to_mining as' next generation (snapshot_after machine a held)
              (state_after machine generation s)
      ]
    ]
