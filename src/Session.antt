-- ===== src/Session.antt =====
-- The state that the sessions share: `CoordinatorState` of
-- `crates/quip-coordinator/src/session.rs`. Left out are the fields that no function here reads or
-- writes (tokens, configurations, labels, the timing tracker) and the counters and records for the
-- dashboard. A channel is a number; a wakeup channel is the grants in it that are not read yet.
pub mod Handlers
pub mod Settle
pub mod Messages
pub mod Tracking
pub mod Removal
pub mod Dispatch
pub mod Outcomes
pub mod Settled
pub mod Kept
pub mod Reachable
mod Examples
use quip_miner.Prelude.{
  ℕ, zero, suc, ◌+◌, Bool, true, false, not, ◌&&◌, List, [], ◌∷◌, ◌++◌, Option, none, some, ltb,
  leb, ◌==◌, if◌then◌else◌, length,
}
use quip_miner.Prelude.Int.{ℤ}
use quip_miner.Prelude.Bytes.{Bytes, bytes_eq}
use quip_miner.Prelude.Assoc.{get, insert, update, remove, keys}
use quip_miner.Wire.{WireTags, Job, SetTarget}
use quip_miner.Router.State.{MinerCaps, Router}
use quip_miner.Router.State
use quip_miner.Router.{admitted, update_capabilities}
use quip_miner.Router.Counters.{reclaim, miner_ids}
use quip_miner.Router.Capable.{is_lease}
use quip_miner.Liveness.{MinerLiveness}
use quip_miner.Validate.{QualityGates}
use quip_miner.Stash.{WinStash}
use quip_miner.Stash

abbrev pub win_stash_k : ℕ
win_stash_k = 8

abbrev pub grant_channel_depth : ℕ
grant_channel_depth = 1024

pub record CoordinatorState : Type 0 where
  pub router : Router
  pub lease_nodes : Option ℕ
  pub resolved_topo : List (ℕ × ℕ)
  pub target : Option SetTarget
  pub inflight : List (Bytes × Job)
  pub inflight_owner : List (Bytes × Bytes)
  pub lease_issued_at : List (Bytes × ℕ)
  pub outbound : List (Bytes × ℕ)
  pub wakeups : List (Bytes × List ℕ)
  pub salts : List (Bytes × Bytes)
  pub current_best_milli : Option ℤ
  pub results_validated : ℕ
  pub last_abandoned_generation : ℕ
  pub stash : WinStash
  pub generation : ℕ
  pub mined_generation : Option ℕ
  pub miner_liveness : List (Bytes × MinerLiveness)
  pub mempool_orders : List (Bytes × QualityGates)

unfoldable pub new : CoordinatorState
new = record {
  router = State.new;
  lease_nodes = none;
  resolved_topo = [];
  target = none;
  inflight = [];
  inflight_owner = [];
  lease_issued_at = [];
  outbound = [];
  wakeups = [];
  salts = [];
  current_best_milli = none;
  results_validated = 0;
  last_abandoned_generation = 0;
  stash = Stash.new win_stash_k;
  generation = 0;
  mined_generation = none;
  miner_liveness = [];
  mempool_orders = [];
}

unfoldable pub record_salt : Bytes → Bytes → CoordinatorState → CoordinatorState
record_salt job_id salt s = record s { salts = insert job_id salt s.salts }

unfoldable pub take_salt : Bytes → CoordinatorState → CoordinatorState × Option Bytes
take_salt job_id s = (record s { salts = remove job_id s.salts }, get job_id s.salts)

unfoldable pub clear_salts : CoordinatorState → CoordinatorState
clear_salts s = record s { salts = [] }

unfoldable pub complete_inflight : Bytes → CoordinatorState → CoordinatorState × Option Job
complete_inflight job_id s = (
  record s {
    inflight_owner = remove job_id s.inflight_owner;
    lease_issued_at = remove job_id s.lease_issued_at;
    inflight = remove job_id s.inflight;
  },
  get job_id s.inflight,
)

-- A proof-of-work job of a generation up to the bound.
abbrev pub is_cancelled : ℕ → Option Job → Bool
is_cancelled max_generation none = false
is_cancelled max_generation (some job) =
    not (job.generation == 0) && leb job.generation max_generation

unfoldable pub complete_all : List Bytes → CoordinatorState → CoordinatorState
unfolding complete_inflight
complete_all [] s = s
complete_all (id ∷ ids) s = complete_all ids (complete_inflight id s).0

-- The ids of `iter().filter(…)`: the keys whose job is cancelled.
unfoldable pub cancelled_ids : ℕ → CoordinatorState → List Bytes
cancelled_ids max_generation s =
    admitted (λ id. is_cancelled max_generation (get id s.inflight)) (keys s.inflight)

unfoldable pub cancel_inflight : ℕ → CoordinatorState → CoordinatorState × ℕ
unfolding complete_all cancelled_ids
cancel_inflight max_generation s =
    (complete_all (cancelled_ids max_generation s) s, length (cancelled_ids max_generation s))

module _ (tags : WireTags) where
  -- `now` is `Instant::now()`.
  unfoldable pub dispatch_inflight : ℕ → Bytes → Job → CoordinatorState → CoordinatorState
  dispatch_inflight now miner_id job s = record s {
    inflight_owner = insert job.job_id miner_id s.inflight_owner;
    lease_issued_at =
        if is_lease tags job then insert job.job_id now s.lease_issued_at else s.lease_issued_at;
    inflight = insert job.job_id job s.inflight;
  }

unfoldable pub note_result : ℕ → CoordinatorState → CoordinatorState
note_result job_generation s =
    if job_generation == s.generation
    then record s { mined_generation = some job_generation }
    else s

unfoldable pub round_mined : CoordinatorState → Bool
round_mined s = elim s.mined_generation [ none ↦ false | some g ↦ g == s.generation ]

abbrev pub is_owned_by : Bytes → Option Bytes → Bool
is_owned_by miner_id none = false
is_owned_by miner_id (some m) = bytes_eq m miner_id

unfoldable pub owned_ids : Bytes → CoordinatorState → List Bytes
owned_ids miner_id s =
    admitted (λ id. is_owned_by miner_id (get id s.inflight_owner)) (keys s.inflight_owner)

-- The loop over the owned ids, with the jobs pushed.
unfoldable pub take_owned : List Bytes → CoordinatorState → CoordinatorState × List Job
unfolding complete_inflight
take_owned [] s = (s, [])
take_owned (id ∷ ids) s =
    let (s', found) = complete_inflight id s in
    let (last, jobs) = take_owned ids s' in
    (last, elim found [ none ↦ jobs | some job ↦ job ∷ jobs ])

unfoldable pub reclaim_miner : Bytes → CoordinatorState → CoordinatorState × List Job
unfolding take_owned owned_ids
reclaim_miner miner_id s =
    let (s', jobs) = take_owned (owned_ids miner_id s) s in
    let (router, staged) = reclaim miner_id s'.router in
    (record s' { router = router; outbound = remove miner_id s'.outbound }, jobs ++ staged)

unfoldable pub register_outbound : Bytes → ℕ → CoordinatorState → CoordinatorState
register_outbound miner_id tx s = record s { outbound = insert miner_id tx s.outbound }

unfoldable pub register_wakeup : Bytes → CoordinatorState → CoordinatorState
register_wakeup miner_id s = record s { wakeups = insert miner_id [] s.wakeups }

unfoldable pub deregister_outbound : Bytes → CoordinatorState → CoordinatorState
deregister_outbound miner_id s = record s {
  outbound = remove miner_id s.outbound;
  wakeups = remove miner_id s.wakeups;
}

-- `try_send`: a full channel drops the grant.
abbrev pub try_send : ℕ → List ℕ → List ℕ
try_send credits grants =
    if ltb (length grants) grant_channel_depth then grants ++ credits ∷ [] else grants

unfoldable pub wake_dispatcher : Bytes → CoordinatorState → CoordinatorState
wake_dispatcher miner_id s = elim (get miner_id s.wakeups) [
  | none ↦ s
  | some grants ↦ record s { wakeups = update miner_id (try_send 0 grants) s.wakeups }
]

unfoldable pub wake_all : List Bytes → CoordinatorState → CoordinatorState
unfolding wake_dispatcher
wake_all [] s = s
wake_all (id ∷ ids) s = wake_all ids (wake_dispatcher id s)

-- A capability snapshot: the version of the protocol and the envelope of
-- `MinerCaps::from_capabilities`.
pub record Capabilities : Type 0 where
  pub protocol_version : ℕ
  pub caps : MinerCaps

module _ (tags : WireTags) (protocol_version : ℕ) where
  unfoldable pub apply_capabilities :
      Bytes → Capabilities → CoordinatorState → CoordinatorState × Bool
  unfolding wake_all
  apply_capabilities miner_id c s = elim (c.protocol_version == protocol_version) [
    | false ↦ (s, false)
    | true ↦
        let (router, known) = update_capabilities tags miner_id c.caps s.router in
        elim known [
          | false ↦ (record s { router = router }, false)
          | true ↦ (wake_all (miner_ids router) (record s { router = router }), true)
        ]
  ]
