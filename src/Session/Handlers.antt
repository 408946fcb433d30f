-- ===== src/Session/Handlers.antt =====
-- What a session does with the messages of its miner, under the lock
-- (`crates/quip-coordinator/src/session.rs`).
use quip_miner.Prelude.{
  ℕ, zero, suc, false, List, [], ◌∷◌, Option, none, some, ltb, ◌==◌, if◌then◌else◌,
}
use quip_miner.Prelude.Bytes.{Bytes}
use quip_miner.Prelude.Assoc.{get, insert}
use quip_miner.Wire.{WireTags, Job, Reject, Status, LeaseDone}
use quip_miner.Router.State.{Router}
use quip_miner.Router.{next_job, on_reject}
use quip_miner.Router.Counters.{
  grant_credits, record_lease_salts, record_round_salts, record_completion, read,
}
use quip_miner.Liveness.{MinerLiveness, evaluate_status}
use quip_miner.Session.{CoordinatorState, complete_inflight, dispatch_inflight, note_result}

-- The credits a miner has.
abbrev pub credits_of : Bytes → Router → ℕ
credits_of id r = read (λ q. q.granted_credits) id r

module _ (tags : WireTags) (now : ℕ) where
  -- `while let Some(job) = next_job(…)`, with the jobs pushed.
  unfoldable pub drain : ℕ → Bytes → CoordinatorState → CoordinatorState × List Job
  drain zero id s = (s, [])
  drain (suc fuel) id s =
      let (router, found) = next_job tags id s.router in
      elim found [
        | none ↦ (record s { router = router }, [])
        | some job ↦
            let (last, jobs) =
              drain fuel id (dispatch_inflight tags now id job (record s { router = router })) in
            (last, job ∷ jobs)
      ]

  -- Every job takes a credit, so a round more than the credits is enough.
  unfoldable pub dispatch_granted : Bytes → ℕ → CoordinatorState → CoordinatorState × List Job
  unfolding drain
  dispatch_granted id credits s =
      let granted = grant_credits id credits s.router in
      drain (suc (credits_of id granted)) id (record s { router = granted })

  unfoldable pub handle_reject : Bytes → Reject → CoordinatorState → CoordinatorState
  handle_reject miner_id rej s =
      let (s', found) = complete_inflight rej.job_id s in
      elim found [
        | none ↦ s'
        | some job ↦ record s' {
          router =
              on_reject tags now miner_id job rej.reason (record_completion miner_id s'.router);
        }
      ]

unfoldable pub handle_lease_done : Bytes → LeaseDone → CoordinatorState → CoordinatorState
handle_lease_done miner_id done s =
    let (s', found) =
      complete_inflight done.job_id
        (record s { router = record_lease_salts miner_id done.salts_done s.router }) in
    elim found [
      | none ↦ s'
      | some job ↦
          let completed = record_completion miner_id s'.router in
          let counted =
            if job.generation == s'.generation
            then record_round_salts miner_id done.salts_done completed
            else completed in
          let s'' = record s' { router = counted } in
          if ltb 0 done.salts_done then note_result job.generation s'' else s''
    ]

abbrev pub no_liveness : MinerLiveness
no_liveness = record { paused = false; reason = none; generation = none }

-- `unwrap_or_default`.
abbrev or_none : Option MinerLiveness → MinerLiveness
or_none none = no_liveness
or_none (some l) = l

unfoldable pub handle_status : Bytes → Status → CoordinatorState → CoordinatorState
handle_status miner_id status s =
    let (next, events) =
      evaluate_status (or_none (get miner_id s.miner_liveness)) status.sampler_stats s.generation in
    record s {
      last_abandoned_generation =
          if ltb 0 status.abandoned_generation
          then status.abandoned_generation
          else s.last_abandoned_generation;
      miner_liveness = insert miner_id next s.miner_liveness;
    }
