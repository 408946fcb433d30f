-- ===== src/Session/Messages.antt =====
-- Taking a `Result` message (`crates/quip-coordinator/src/session.rs`): what happens under the lock
-- before the result is settled, and the checks of a lease's result, with `verify_and_select` of
-- `crates/quip-coordinator/src/lease.rs`. The verification of a lease is a parameter.
use quip_miner.Prelude.{ℕ, Bool, true, false, not, List, [], ◌∷◌, Option, none, some, take}
use quip_miner.Prelude.Bytes.{Bytes}
use quip_miner.Prelude.Assoc.{get, remove}
use quip_miner.Wire.{WireTags, Job, Generator, SetTarget, Solution, Codec, MinerResult}
use quip_miner.Router.Capable.{is_lease}
use quip_miner.Router.Counters.{record_completion}
use quip_miner.Ledger.{SubmitAction, success, retry, stop_round_stale, stop_fatal}
use quip_miner.Stash.{SpinRow}
use quip_miner.Validate.{
  or_zero, Diversity, Validated, gates_from_target, validate_result, validate_scored,
}
use quip_miner.Session.{CoordinatorState, complete_inflight, note_result, take_salt}
use quip_miner.Session.Settle.{Proof, PowOutcome, order_id_of}

-- What is left to do with a result once it is taken.
pub data Next : Type 0 where
  nothing : Next
  mempool : Job → Next
  settle : PowOutcome → Next

pub record Verified : Type 0 where
  pub nonce : Bytes
  pub salt : Bytes

-- A job with a provenance that is not proof of work.
abbrev pub is_mempool_job : Job → Bool
is_mempool_job job = elim job.provenance [ none ↦ false | some p ↦ not p.is_pow ]

abbrev pub max_order_solutions : ℕ
max_order_solutions = 20

abbrev pub is_lease_job : WireTags → Option Job → Bool
is_lease_job tags none = false
is_lease_job tags (some job) = is_lease tags job

-- The job counts for the miner and, in the current round, for the round.
abbrev pub note_taken : Bytes → Option Job → CoordinatorState → CoordinatorState
note_taken miner_id none s = s
note_taken miner_id (some job) s =
    note_result job.generation (record s { router = record_completion miner_id s.router })

abbrev pub mempool_proof : Job → Validated → ℕ → Proof
mempool_proof job validated device_us = record {
  job_id = job.job_id;
  best_energy_milli = validated.best_energy_milli;
  diversity_milli = validated.diversity_milli;
  n_valid = validated.n_valid;
  solutions = take max_order_solutions validated.selected_solutions;
  is_pow = false;
  order_id = order_id_of job;
  generation = 0;
  salt = [];
  device_access_time_us = device_us;
}

-- A solution that was not delivered lets the order be staged again.
abbrev pub after_solution : Bytes → Option SubmitAction → CoordinatorState → CoordinatorState
after_solution order (some success) s = s
after_solution order (some stop_round_stale) s = s
after_solution order (some stop_fatal) s = s
after_solution order (some retry) s = record s { mempool_orders = remove order s.mempool_orders }
after_solution order none s = record s { mempool_orders = remove order s.mempool_orders }

module _ (tags : WireTags) (codec : Codec) (crate : Diversity) where
  -- The outcome to settle, by the target and the best of the state before.
  unfoldable pub scored : MinerResult → Option Bytes → CoordinatorState → Job → Option PowOutcome
  scored result salt s job = elim job.ising [
    | none ↦ none
    | some ising ↦ some (record {
      job = job;
      job_id = result.job_id;
      salt = salt;
      validated =
          validate_result tags codec crate ising result.solutions (gates_from_target s.target)
            s.resolved_topo;
      current_best_milli = s.current_best_milli;
      device_access_time_us = or_zero result.device_access_time_us;
    })
  ]

  abbrev pub next_of : Option PowOutcome → Next
  next_of none = nothing
  next_of (some o) = settle o

  -- A result of a plain job: the job is complete, whatever becomes of the result.
  unfoldable pub take_result : Bytes → MinerResult → CoordinatorState → CoordinatorState × Next
  unfolding scored
  take_result miner_id result s =
      let (s', found) = complete_inflight result.job_id s in
      let (s'', salt) = take_salt result.job_id (note_taken miner_id found s') in
      (
        s'',
        elim found [
          | none ↦ nothing
          | some job ↦ elim (is_mempool_job job) [
            | true ↦ mempool job
            | false ↦ next_of (scored result salt s'' job)
          ]
        ],
      )

  -- The chain's answer to the solution, a parameter; none where no solution is sent.
  unfoldable pub mempool_answer :
      (Proof → Option SubmitAction)
      → Job
      → MinerResult
      → CoordinatorState
      → Option (Option SubmitAction)
  mempool_answer submit_solution job result s = elim job.ising [
    | none ↦ none
    | some ising ↦ elim (get job.job_id s.mempool_orders) [
      | none ↦ none
      | some gates ↦
          let validated = validate_result tags codec crate ising result.solutions gates [] in
          elim validated.accepted [
            | false ↦ none
            | true ↦ some (
                submit_solution
                  (mempool_proof job validated (or_zero result.device_access_time_us)))
          ]
    ]
  ]

  unfoldable pub submit_mempool_result :
      (Proof → Option SubmitAction) → Job → MinerResult → CoordinatorState → CoordinatorState
  unfolding mempool_answer
  submit_mempool_result submit_solution job result s =
      elim (mempool_answer submit_solution job result s) [
        | none ↦ s
        | some answer ↦ after_solution job.job_id answer s
      ]

  -- The rows of a lease's result that decode, with the energies the miner reports.
  unfoldable pub decoded_rows : ℕ → List Solution → List SpinRow
  decoded_rows num_nodes [] = []
  decoded_rows num_nodes (sol ∷ sols) =
      let rest = decoded_rows num_nodes sols in
      elim (codec.decode_spins_packed sol.spins num_nodes) [
        | none ↦ rest
        | some spins ↦ record { spins = spins; energy_milli = sol.energy_milli } ∷ rest
      ]

  module _ (verify_lease_result : Generator → ℕ → MinerResult → Option Verified) where
    -- `num_nodes` is the size of the lease's topology.
    unfoldable pub verify_and_select :
        Generator → ℕ → SetTarget → MinerResult → Option (Verified × Validated)
    unfolding decoded_rows
    verify_and_select generator num_nodes target result =
        elim (verify_lease_result generator num_nodes result) [
          | none ↦ none
          | some verified ↦ some (
            verified,
            validate_scored crate (decoded_rows num_nodes result.solutions)
                (gates_from_target (some target)),
          )
        ]

    -- The checks of a lease's result, with the job in flight.
    unfoldable pub checked_lease :
        MinerResult → CoordinatorState → Option (Job × Verified × Validated)
    unfolding verify_and_select
    checked_lease result s = elim (get result.job_id s.inflight) [
      | none ↦ none
      | some job ↦ elim job.generator [
        | none ↦ none
        | some generator ↦ elim s.lease_nodes [
          | none ↦ none
          | some num_nodes ↦ elim s.target [
            | none ↦ none
            | some target ↦ elim result.solutions [
              | [] ↦ none
              | _ ∷ _ ↦ elim (verify_and_select generator num_nodes target result) [
                | none ↦ none
                | some (verified, validated) ↦ some (job, verified, validated)
              ]
            ]
          ]
        ]
      ]
    ]

    -- A result of a lease: the lease stays in flight.
    unfoldable pub take_lease_result : MinerResult → CoordinatorState → CoordinatorState × Next
    take_lease_result result s = elim (checked_lease result s) [
      | none ↦ (s, nothing)
      | some (job, verified, validated) ↦ (
        note_result job.generation s,
        settle (record {
          job = job;
          job_id = verified.nonce;
          salt = some verified.salt;
          validated = validated;
          current_best_milli = s.current_best_milli;
          device_access_time_us = or_zero result.device_access_time_us;
        }),
      )
    ]

    -- A `Result` message, by the kind of its job in flight.
    unfoldable pub receive_result : Bytes → MinerResult → CoordinatorState → CoordinatorState × Next
    unfolding take_result take_lease_result
    receive_result miner_id result s = elim (is_lease_job tags (get result.job_id s.inflight)) [
      | true ↦ take_lease_result result s
      | false ↦ take_result miner_id result s
    ]
