-- ===== src/Session/Kept.antt =====
-- Every stretch under the lock keeps the tracking of the jobs in flight
-- (`crates/quip-coordinator/src/session.rs`).
use quip_miner.Prelude.{
  ℕ, zero, suc, List, [], ◌∷◌, Option, none, some, refl, not, ◌||◌, ◌==◌, ltb, if_ind, inl, inr,
  Bool-cases, Option-cases,
}
use quip_miner.Prelude.Int.{ℤ}
use quip_miner.Prelude.Bytes.{Bytes}
use quip_miner.Prelude.Assoc.{get}
use quip_miner.Wire.{WireTags, Job, Generator, Codec, MinerResult, Reject, LeaseDone}
use quip_miner.Router.{next_job, update_capabilities}
use quip_miner.Router.Counters.{miner_ids, record_lease_salts}
use quip_miner.Decay.Rules.{FloatOps}
use quip_miner.Validate.{Diversity}
use quip_miner.Ledger.{SubmitAction, success, retry, stop_round_stale, stop_fatal}
use quip_miner.Session.{
  CoordinatorState, complete_inflight, wake_dispatcher, wake_all, Capabilities, apply_capabilities,
  note_result, take_salt,
}
use quip_miner.Session.Settle.{
  retains, Proof, PowOutcome, SubmitOutcome, not_sent, landed, to_retry, dropped, note_landed,
  record_outcome,
}
use quip_miner.Session.Handlers.{drain, handle_reject, handle_lease_done}
use quip_miner.Session.Messages.{
  checked_lease, mempool_answer, Verified, after_solution, is_lease_job, note_taken, take_result,
  take_lease_result, receive_result, submit_mempool_result,
}
use quip_miner.Session.Tracking.{
  Tracks, SameJobs, Tracks-same, complete_inflight-Tracks, dispatch_inflight-Tracks,
}

-- What the sessions use and do not implement.
pub record Outside : Type 1 where
  pub tags : WireTags
  pub version : ℕ
  pub ops : FloatOps
  pub codec : Codec
  pub crate : Diversity
  pub verify : Generator → ℕ → MinerResult → Option Verified

pub drain-Tracks :
    (tags : WireTags) (now fuel : ℕ) (miner : Bytes) (s : CoordinatorState) (id : Bytes)
    → Tracks s id
    → Tracks (drain tags now fuel miner s).0 id
unfolding drain
drain-Tracks tags now zero miner s id t = t
drain-Tracks tags now (suc fuel) miner s id t =
    elim (Option-cases (next_job tags miner s.router).1) [
      | inl e ↦ rw (e, drain) t
      | inr (job, e) ↦
          rw (e, drain)
            (drain-Tracks tags now fuel miner _ id (
              dispatch_inflight-Tracks tags now miner job
                (record s { router = (next_job tags miner s.router).0 }) id t))
    ]

pub note_result-Tracks :
    (g : ℕ) (s : CoordinatorState) (id : Bytes) → Tracks s id → Tracks (note_result g s) id
unfolding note_result
note_result-Tracks g s id t = if_ind (λ (u : CoordinatorState). Tracks u id) (g == s.generation) t t

pub handle_reject-Tracks :
    (tags : WireTags) (now : ℕ) (miner : Bytes) (rej : Reject) (s : CoordinatorState) (id : Bytes)
    → Tracks s id
    → Tracks (handle_reject tags now miner rej s) id
unfolding handle_reject
handle_reject-Tracks tags now miner rej s id t =
    let t' = complete_inflight-Tracks rej.job_id s id t in
    elim (Option-cases (complete_inflight rej.job_id s).1) [
      | inl e ↦ rw (e, handle_reject) t'
      | inr (job, e) ↦ rw (e, handle_reject) t'
    ]

pub handle_lease_done-Tracks :
    (miner : Bytes) (done : LeaseDone) (s : CoordinatorState) (id : Bytes)
    → Tracks s id
    → Tracks (handle_lease_done miner done s) id
unfolding handle_lease_done
handle_lease_done-Tracks miner done s id t =
    let counted = record s { router = record_lease_salts miner done.salts_done s.router } in
    let t' = complete_inflight-Tracks done.job_id counted id t in
    elim (Option-cases (complete_inflight done.job_id counted).1) [
      | inl e ↦ rw (e, handle_lease_done) t'
      | inr (job, e) ↦
          rw (e, handle_lease_done)
            (if_ind (λ (u : CoordinatorState). Tracks u id) (ltb 0 done.salts_done)
              (note_result-Tracks job.generation _ id t') t')
    ]

pub note_taken-Tracks :
    (miner : Bytes) (found : Option Job) (s : CoordinatorState) (id : Bytes)
    → Tracks s id
    → Tracks (note_taken miner found s) id
note_taken-Tracks miner none s id t = t
note_taken-Tracks miner (some job) s id t = note_result-Tracks job.generation _ id t

pub wake_dispatcher-SameJobs : (k : Bytes) (s : CoordinatorState) → SameJobs s (wake_dispatcher k s)
unfolding wake_dispatcher
wake_dispatcher-SameJobs k s = elim (Option-cases (get k s.wakeups)) [
  | inl e ↦
      rw (e, wake_dispatcher)
        (record { same_inflight = refl; same_owner = refl; same_issued = refl })
  | inr (g, e) ↦
      rw (e, wake_dispatcher)
        (record { same_inflight = refl; same_owner = refl; same_issued = refl })
]

pub wake_all-Tracks :
    (ks : List Bytes) (s : CoordinatorState) (id : Bytes) → Tracks s id → Tracks (wake_all ks s) id
unfolding wake_all
wake_all-Tracks [] s id t = t
wake_all-Tracks (k ∷ ks) s id t =
    wake_all-Tracks ks (wake_dispatcher k s) id
      (Tracks-same s (wake_dispatcher k s) id (wake_dispatcher-SameJobs k s) t)

pub apply_capabilities-Tracks :
    (tags : WireTags) (version : ℕ) (miner : Bytes) (c : Capabilities) (s : CoordinatorState)
    (id : Bytes)
    → Tracks s id
    → Tracks (apply_capabilities tags version miner c s).0 id
unfolding apply_capabilities
apply_capabilities-Tracks tags version miner c s id t =
    elim (Bool-cases (c.protocol_version == version)) [
      | inr e ↦ rw (e, apply_capabilities) t
      | inl e ↦ elim (Bool-cases (update_capabilities tags miner c.caps s.router).1) [
        | inr u ↦ rw (e, u, apply_capabilities) t
        | inl u ↦
            rw (e, u, apply_capabilities)
              (wake_all-Tracks (miner_ids (update_capabilities tags miner c.caps s.router).0)
                (record s { router = (update_capabilities tags miner c.caps s.router).0 }) id t)
      ]
    ]

pub after_solution-Tracks :
    (order : Bytes) (a : Option SubmitAction) (s : CoordinatorState) (id : Bytes)
    → Tracks s id
    → Tracks (after_solution order a s) id
after_solution-Tracks order none s id t = t
after_solution-Tracks order (some success) s id t = t
after_solution-Tracks order (some retry) s id t = t
after_solution-Tracks order (some stop_round_stale) s id t = t
after_solution-Tracks order (some stop_fatal) s id t = t

pub note_landed-Tracks :
    (best : ℤ) (sent : SubmitOutcome) (s : CoordinatorState) (id : Bytes)
    → Tracks s id
    → Tracks (note_landed best sent s) id
note_landed-Tracks best not_sent s id t = t
note_landed-Tracks best landed s id t = t
note_landed-Tracks best to_retry s id t = t
note_landed-Tracks best dropped s id t = t

module _ (out : Outside) where
  open out use {tags, version, ops, codec, crate, verify}

  pub take_lease_result-Tracks :
      (result : MinerResult) (s : CoordinatorState) (id : Bytes)
      → Tracks s id
      → Tracks (take_lease_result tags codec crate verify result s).0 id
  unfolding take_lease_result
  take_lease_result-Tracks result s id t =
      elim (Option-cases (checked_lease tags codec crate verify result s)) [
        | inl e ↦ rw (e, take_lease_result) t
        | inr ((job, verified, validated), e) ↦
            rw (e, take_lease_result) (note_result-Tracks job.generation s id t)
      ]

  pub receive_result-Tracks :
      (miner : Bytes) (result : MinerResult) (s : CoordinatorState) (id : Bytes)
      → Tracks s id
      → Tracks (receive_result tags codec crate verify miner result s).0 id
  unfolding receive_result
  receive_result-Tracks miner result s id t =
      elim (Bool-cases (is_lease_job tags (get result.job_id s.inflight))) [
        | inl e ↦ rw (e, receive_result) (take_lease_result-Tracks result s id t)
        | inr e ↦
            rw (e, receive_result)
              (unfold take_result take_salt in
                note_taken-Tracks miner _ _ id (complete_inflight-Tracks result.job_id s id t))
      ]

  submit_mempool_result-Tracks :
      (chain : Proof → Option SubmitAction) (job : Job) (result : MinerResult)
      (s : CoordinatorState) (id : Bytes)
      → Tracks s id
      → Tracks (submit_mempool_result tags codec crate chain job result s) id
  unfolding submit_mempool_result
  submit_mempool_result-Tracks chain job result s id t =
      elim (Option-cases (mempool_answer tags codec crate chain job result s)) [
        | inl e ↦ rw (e, submit_mempool_result) t
        | inr (answer, e) ↦
            rw (e, submit_mempool_result) (after_solution-Tracks job.job_id answer s id t)
      ]

  pub record_outcome-Tracks :
      (chain : Proof → Option SubmitAction) (o : PowOutcome) (sent : SubmitOutcome)
      (s : CoordinatorState) (id : Bytes)
      → Tracks s id
      → Tracks (record_outcome ops chain o sent s) id
  unfolding record_outcome
  record_outcome-Tracks chain o sent s id t =
      elim (Bool-cases (not o.validated.accepted || retains sent)) [
        | inl e ↦ rw (e, record_outcome) t
        | inr e ↦ rw (e, record_outcome) t
      ]
