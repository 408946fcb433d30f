-- ===== src/Session/Tracking.antt =====
-- The jobs in flight, their owners and the clocks of the leases go together
-- (`CoordinatorState` of `crates/quip-coordinator/src/session.rs`).
use quip_miner.Prelude.{
  ℕ, false, List, [], ◌∷◌, Option, none, some, ◌≡◌, refl, if◌then◌else◌, if_ind, inl, inr,
  Bool-cases,
}
use quip_miner.Prelude.Bytes.{Bytes, bytes_eq, bytes_eq→≡}
use quip_miner.Prelude.Assoc.{get, insert, get-insert, get-remove}
use quip_miner.Wire.{WireTags, Job}
use quip_miner.Router.Capable.{is_lease}
use quip_miner.Session.{
  CoordinatorState, complete_inflight, complete_all, cancelled_ids, cancel_inflight,
  dispatch_inflight, take_owned, owned_ids, reclaim_miner,
}

-- What is kept of an id: its job in flight, its owner, and when its lease was issued. A job in
-- flight has an owner and stands under its own id; without a job there is no owner and no lease.
abbrev pub TracksId : Bytes → Option Job → Option Bytes → Option ℕ → Type 0
TracksId id none none none = Unit
TracksId id none none (some t) = ⊥
TracksId id none (some m) t = ⊥
TracksId id (some job) none t = ⊥
TracksId id (some job) (some m) t = job.job_id ≡ id

abbrev pub Tracks : CoordinatorState → Bytes → Type 0
Tracks s id = TracksId id (get id s.inflight) (get id s.inflight_owner) (get id s.lease_issued_at)

-- The parts of two states that tracking reads are the same.
pub record SameJobs (s s' : CoordinatorState) : Type 0 where
  pub same_inflight : s'.inflight ≡ s.inflight
  pub same_owner : s'.inflight_owner ≡ s.inflight_owner
  pub same_issued : s'.lease_issued_at ≡ s.lease_issued_at

pub Tracks-same :
    (s s' : CoordinatorState) (id : Bytes) → SameJobs s s' → Tracks s id → Tracks s' id
Tracks-same s s' id e t = rw (e.same_inflight, e.same_owner, e.same_issued) t

pub complete_inflight-Tracks :
    (k : Bytes) (s : CoordinatorState) (id : Bytes)
    → Tracks s id
    → Tracks (complete_inflight k s).0 id
unfolding complete_inflight
complete_inflight-Tracks k s id t = elim (Bool-cases (bytes_eq k id)) [
  | inl e ↦
      rw
        (
          get-remove k id s.inflight,
          get-remove k id s.inflight_owner,
          get-remove k id s.lease_issued_at,
          e,
        )
        tt
  | inr e ↦
      rw
        (
          get-remove k id s.inflight,
          get-remove k id s.inflight_owner,
          get-remove k id s.lease_issued_at,
          e,
        )
        t
]

pub complete_all-Tracks :
    (ks : List Bytes) (s : CoordinatorState) (id : Bytes)
    → Tracks s id
    → Tracks (complete_all ks s) id
unfolding complete_all
complete_all-Tracks [] s id t = t
complete_all-Tracks (k ∷ ks) s id t =
    complete_all-Tracks ks (complete_inflight k s).0 id (complete_inflight-Tracks k s id t)

pub cancel_inflight-Tracks :
    (n : ℕ) (s : CoordinatorState) (id : Bytes) → Tracks s id → Tracks (cancel_inflight n s).0 id
unfolding cancel_inflight
cancel_inflight-Tracks n s id t = complete_all-Tracks (cancelled_ids n s) s id t

pub dispatch_inflight-Tracks :
    (tags : WireTags) (now : ℕ) (miner : Bytes) (job : Job) (s : CoordinatorState) (id : Bytes)
    → Tracks s id
    → Tracks (dispatch_inflight tags now miner job s) id
unfolding dispatch_inflight
dispatch_inflight-Tracks tags now miner job s id t = elim (Bool-cases (bytes_eq job.job_id id)) [
  | inl e ↦
      rw
        (
          get-insert job.job_id id job s.inflight,
          get-insert job.job_id id miner s.inflight_owner,
          e,
        )
        (bytes_eq→≡ job.job_id id e)
  | inr e ↦
      rw
        (
          get-insert job.job_id id job s.inflight,
          get-insert job.job_id id miner s.inflight_owner,
          e,
          issued e,
        )
        t
]
  where
    issued :
        bytes_eq job.job_id id ≡ false
        → get id (
            if is_lease tags job
            then insert job.job_id now s.lease_issued_at
            else s.lease_issued_at)
          ≡ get id s.lease_issued_at
    issued e =
        if_ind (λ (m : List (Bytes × ℕ)). get id m ≡ get id s.lease_issued_at) (is_lease tags job)
          (rw (get-insert job.job_id id now s.lease_issued_at, e) refl) refl

pub take_owned-Tracks :
    (ks : List Bytes) (s : CoordinatorState) (id : Bytes)
    → Tracks s id
    → Tracks (take_owned ks s).0 id
unfolding take_owned
take_owned-Tracks [] s id t = t
take_owned-Tracks (k ∷ ks) s id t =
    take_owned-Tracks ks (complete_inflight k s).0 id (complete_inflight-Tracks k s id t)

pub reclaim_miner-Tracks :
    (miner : Bytes) (s : CoordinatorState) (id : Bytes)
    → Tracks s id
    → Tracks (reclaim_miner miner s).0 id
unfolding reclaim_miner
reclaim_miner-Tracks miner s id t = take_owned-Tracks (owned_ids miner s) s id t
