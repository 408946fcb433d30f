-- ===== src/Session/Reachable.antt =====
-- Every state that the sessions reach (`crates/quip-coordinator/src/session.rs`). A step is a
-- stretch under the lock. A result is taken in one step and settled in others, with steps of other
-- sessions between, as in the source, and so is a solution of an order. The feeder sets the topology
-- and the target, stages jobs and orders and turns the round over.
use quip_miner.Prelude.{ℕ, suc, List, Option, none}
use quip_miner.Prelude.Int.{ℤ}
use quip_miner.Prelude.Bytes.{Bytes}
use quip_miner.Prelude.Assoc.{get}
use quip_miner.Wire.{MinerResult, Reject, Status, LeaseDone, SetTarget}
use quip_miner.Router.State.{Router}
use quip_miner.Router.Counters.{grant_credits}
use quip_miner.Ledger.{SubmitAction}
use quip_miner.Stash.{WinStash}
use quip_miner.Validate.{QualityGates}
use quip_miner.Session.{
  CoordinatorState, new, cancel_inflight, reclaim_miner, register_outbound, register_wakeup,
  deregister_outbound, wake_dispatcher, Capabilities, apply_capabilities, record_salt, clear_salts,
}
use quip_miner.Session.Settle.{Proof, PowOutcome, SubmitOutcome, note_landed, record_outcome}
use quip_miner.Session.Handlers.{
  dispatch_granted, handle_reject, handle_lease_done, handle_status, credits_of,
}
use quip_miner.Session.Messages.{receive_result, after_solution}
use quip_miner.Session.Tracking.{Tracks, Tracks-same, cancel_inflight-Tracks, reclaim_miner-Tracks}
use quip_miner.Session.Kept.{
  Outside, drain-Tracks, handle_reject-Tracks, handle_lease_done-Tracks, wake_dispatcher-SameJobs,
  apply_capabilities-Tracks, note_landed-Tracks, receive_result-Tracks, after_solution-Tracks,
  record_outcome-Tracks,
}

module _ (out : Outside) where
  open out use {tags, version, ops, codec, crate, verify}

  pub data Step (s : CoordinatorState) : CoordinatorState → Type 0 where
    registers : (id : Bytes) (tx : ℕ) → Step s (register_outbound id tx s)
    registers_wakeup : (id : Bytes) → Step s (register_wakeup id s)
    leaves : (id : Bytes) → Step s (deregister_outbound id s)
    grants : (now : ℕ) (id : Bytes) (n : ℕ) → Step s (dispatch_granted tags now id n s).0
    receives :
        (id : Bytes) (result : MinerResult)
        → Step s (receive_result tags codec crate verify id result s).0
    lands : (best : ℤ) (sent : SubmitOutcome) → Step s (note_landed best sent s)
    settles :
        (chain : Proof → Option SubmitAction) (o : PowOutcome) (sent : SubmitOutcome)
        → Step s (record_outcome ops chain o sent s)
    answers_order :
        (order : Bytes) (answer : Option SubmitAction) → Step s (after_solution order answer s)
    stages_orders :
        (orders : List (Bytes × QualityGates)) → Step s (record s { mempool_orders = orders })
    rejects : (now : ℕ) (id : Bytes) (rej : Reject) → Step s (handle_reject tags now id rej s)
    ends_lease : (id : Bytes) (done : LeaseDone) → Step s (handle_lease_done id done s)
    reports : (id : Bytes) (status : Status) → Step s (handle_status id status s)
    changes : (id : Bytes) (c : Capabilities) → Step s (apply_capabilities tags version id c s).0
    crashes : (id : Bytes) → Step s (reclaim_miner id s).0
    cancels : (n : ℕ) → Step s (cancel_inflight n s).0
    wakes : (id : Bytes) → Step s (wake_dispatcher id s)
    salts : (id salt : Bytes) → Step s (record_salt id salt s)
    forgets_salts : Step s (clear_salts s)
    routes : (router : Router) → Step s (record s { router = router })
    retargets :
        (nodes : Option ℕ) (edges : List (ℕ × ℕ)) (target : Option SetTarget)
        → Step s (record s { lease_nodes = nodes; resolved_topo = edges; target = target })
    turns_over :
        (generation : ℕ) (stash : WinStash)
        → Step s (record s { generation = generation; stash = stash; current_best_milli = none })

  pub data Reach : CoordinatorState → Type 0 where
    here : Reach new
    next : {s u : CoordinatorState} → Reach s → Step s u → Reach u

  Step-Tracks : (s u : CoordinatorState) (k : Bytes) → Step s u → Tracks s k → Tracks u k
  Step-Tracks s u k (registers id tx) t = unfold register_outbound in t
  Step-Tracks s u k (registers_wakeup id) t = unfold register_wakeup in t
  Step-Tracks s u k (leaves id) t = unfold deregister_outbound in t
  Step-Tracks s u k (grants now id n) t =
      unfold dispatch_granted in
      drain-Tracks tags now (suc (credits_of id (grant_credits id n s.router))) id
        (record s { router = grant_credits id n s.router }) k t
  Step-Tracks s u k (receives id result) t = receive_result-Tracks out id result s k t
  Step-Tracks s u k (lands best sent) t = note_landed-Tracks best sent s k t
  Step-Tracks s u k (settles chain o sent) t = record_outcome-Tracks out chain o sent s k t
  Step-Tracks s u k (answers_order order answer) t = after_solution-Tracks order answer s k t
  Step-Tracks s u k (stages_orders orders) t = t
  Step-Tracks s u k (rejects now id rej) t = handle_reject-Tracks tags now id rej s k t
  Step-Tracks s u k (ends_lease id done) t = handle_lease_done-Tracks id done s k t
  Step-Tracks s u k (reports id status) t = unfold handle_status in t
  Step-Tracks s u k (changes id c) t = apply_capabilities-Tracks tags version id c s k t
  Step-Tracks s u k (crashes id) t = reclaim_miner-Tracks id s k t
  Step-Tracks s u k (cancels n) t = cancel_inflight-Tracks n s k t
  Step-Tracks s u k (wakes id) t =
      Tracks-same s (wake_dispatcher id s) k (wake_dispatcher-SameJobs id s) t
  Step-Tracks s u k (salts id salt) t = unfold record_salt in t
  Step-Tracks s u k forgets_salts t = unfold clear_salts in t
  Step-Tracks s u k (routes router) t = t
  Step-Tracks s u k (retargets nodes edges target) t = t
  Step-Tracks s u k (turns_over generation stash) t = t

  -- In every state that the sessions and the feeder reach, in any order of their steps, a job is in
  -- flight under its own id and exactly if it has an owner, and no lease clock runs without one.
  pub Reach-Tracks : (s : CoordinatorState) (k : Bytes) → Reach s → Tracks s k
  Reach-Tracks s k here = unfold new get in tt
  Reach-Tracks s k (next {s = s'} r st) = Step-Tracks s' s k st (Reach-Tracks s' k r)
