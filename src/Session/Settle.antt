-- ===== src/Session/Settle.antt =====
-- Settling a proof-of-work result: `settle_pow_result` of
-- `crates/quip-coordinator/src/session.rs`. The chain's answer to a proof is a parameter; none is
-- an error of the chain client. The attempt record, the metrics and the notification that ends a
-- drive run are not modelled.
use quip_miner.Prelude.{ℕ, suc, Bool, true, false, not, ◌&&◌, ◌||◌, List, [], Option, none, some}
use quip_miner.Prelude.Int.{ℤ}
use quip_miner.Prelude.Bytes.{Bytes}
use quip_miner.Wire.{Job}
use quip_miner.Decay.Rules.{FloatOps}
use quip_miner.Ledger.{SubmitAction, success, retry, stop_round_stale, stop_fatal}
use quip_miner.Stash.{SpinRow, Candidate, WinStash}
use quip_miner.Stash
use quip_miner.Validate.{Validated, beats_current}
use quip_miner.Session.{CoordinatorState}

pub record Proof : Type 0 where
  pub job_id : Bytes
  pub best_energy_milli : ℤ
  pub diversity_milli : ℕ
  pub n_valid : ℕ
  pub solutions : List SpinRow
  pub is_pow : Bool
  pub order_id : Bytes
  pub generation : ℕ
  pub salt : Bytes
  pub device_access_time_us : ℕ

-- `current_best_milli` is the best that was current when the result was taken.
pub record PowOutcome : Type 0 where
  pub job : Job
  pub job_id : Bytes
  pub salt : Option Bytes
  pub validated : Validated
  pub current_best_milli : Option ℤ
  pub device_access_time_us : ℕ

abbrev pub is_pow_job : Job → Bool
is_pow_job job = elim job.provenance [ none ↦ false | some p ↦ p.is_pow ]

abbrev pub order_id_of : Job → Bytes
order_id_of job = elim job.provenance [ none ↦ [] | some p ↦ p.order_id ]

abbrev pub or_empty : Option Bytes → Bytes
or_empty none = []
or_empty (some b) = b

unfoldable pub proof_of : PowOutcome → Proof
proof_of o = record {
  job_id = o.job_id;
  best_energy_milli = o.validated.best_energy_milli;
  diversity_milli = o.validated.diversity_milli;
  n_valid = o.validated.n_valid;
  solutions = o.validated.selected_solutions;
  is_pow = is_pow_job o.job;
  order_id = order_id_of o.job;
  generation = o.job.generation;
  salt = or_empty o.salt;
  device_access_time_us = o.device_access_time_us;
}

unfoldable pub candidate_of : PowOutcome → Candidate
candidate_of o = record {
  job_id = o.job_id;
  salt = o.salt;
  generation = o.job.generation;
  best_energy_milli = o.validated.raw_best_energy_milli;
  diversity_milli = o.validated.diversity_milli;
  n_valid = o.validated.n_valid;
  solutions = o.validated.stash_solutions;
  is_pow = is_pow_job o.job;
  order_id = order_id_of o.job;
  device_access_time_us = o.device_access_time_us;
  submitted = false;
}

-- What came of the submit, if there was one.
pub data SubmitOutcome : Type 0 where
  not_sent : SubmitOutcome
  landed : SubmitOutcome
  to_retry : SubmitOutcome
  dropped : SubmitOutcome

abbrev pub outcome_of : Option SubmitAction → SubmitOutcome
outcome_of (some success) = landed
outcome_of (some retry) = to_retry
outcome_of (some stop_round_stale) = dropped
outcome_of (some stop_fatal) = dropped
outcome_of none = to_retry

abbrev pub wants_submit : PowOutcome → Bool
wants_submit o =
    o.validated.accepted && beats_current o.validated.best_energy_milli o.current_best_milli

abbrev pub retains : SubmitOutcome → Bool
retains not_sent = false
retains landed = false
retains to_retry = true
retains dropped = false

abbrev pub note_landed : ℤ → SubmitOutcome → CoordinatorState → CoordinatorState
note_landed best not_sent s = s
note_landed best landed s = record s { current_best_milli = some best }
note_landed best to_retry s = s
note_landed best dropped s = s

module _ (ops : FloatOps) (submit_proof : Proof → Option SubmitAction) where
  unfoldable pub submit : PowOutcome → SubmitOutcome
  submit o = elim (wants_submit o) [
    | false ↦ not_sent
    | true ↦ outcome_of (submit_proof (proof_of o))
  ]

  -- The second half, under the lock again.
  unfoldable pub record_outcome : PowOutcome → SubmitOutcome → CoordinatorState → CoordinatorState
  record_outcome o sent s = elim (not o.validated.accepted || retains sent) [
    | false ↦ record s { results_validated = suc s.results_validated }
    | true ↦ record s {
      results_validated = suc s.results_validated;
      stash = (Stash.insert ops (candidate_of o) s.stash).0;
    }
  ]

  unfoldable pub settle_pow_result : PowOutcome → CoordinatorState → CoordinatorState
  unfolding submit record_outcome
  settle_pow_result o s =
      record_outcome o (submit o) (note_landed o.validated.best_energy_milli (submit o) s)
