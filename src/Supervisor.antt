-- ===== src/Supervisor.antt =====
-- The restarts of a miner process: `crates/quip-coordinator/src/supervisor.rs`. The exits of the
-- child, each with its code and time, are the input; the spawn, the waits and the shutdown are input
-- and output and not modelled, nor is the command line.
pub mod History
pub mod Reclaim
mod Examples
use quip_miner.Prelude.{
  ℕ, zero, suc, ◌+◌, ◌-◌, ◌*◌, ◌^◌, min, Bool, true, false, ◌||◌, List, [], ◌∷◌, ◌++◌, ltb, ◌==◌,
  if◌then◌else◌, length,
}
use quip_miner.Prelude.Int.{ℤ, pos, negsuc}
use quip_miner.Prelude.Bytes.{Bytes}
use quip_miner.Wire.{WireTags, Job}
use quip_miner.Router.State.{Router, add_u32, u64_max}
use quip_miner.Router.{route}
use quip_miner.Session.{CoordinatorState, reclaim_miner}

pub data Restart : Type 0 where
  on_demand : Restart
  never : Restart
  backoff : Restart

abbrev pub is_usage_error : ℕ → Bool
is_usage_error code = code == 2 || code == 64 || code == 69 || code == 77

unfoldable pub restart_policy : ℤ → Restart
restart_policy (pos zero) = on_demand
restart_policy (pos (suc n)) = if is_usage_error (suc n) then never else backoff
restart_policy (negsuc n) = backoff

pub data RestartAction : Type 0 where
  respawn : RestartAction
  stay_down : RestartAction
  back_off : ℕ → RestartAction
  unhealthy : RestartAction

pub record BackoffPolicy : Type 0 where
  pub base_ms : ℕ
  pub max_ms : ℕ
  pub budget : ℕ
  pub window_ms : ℕ

pub record RestartTracker : Type 0 where
  pub policy : BackoffPolicy
  pub consecutive : ℕ
  pub crashes : List ℕ

unfoldable pub new : BackoffPolicy → RestartTracker
new policy = record { policy = policy; consecutive = 0; crashes = [] }

-- `while front() < cutoff { pop_front() }`.
unfoldable pub drop_old : ℕ → List ℕ → List ℕ
drop_old cutoff [] = []
drop_old cutoff (t ∷ ts) = let rest = drop_old cutoff ts in if ltb t cutoff then rest else t ∷ ts

-- 2^consecutive times the base, saturating and capped; the exponent stops at 16.
unfoldable pub delay_of : BackoffPolicy → ℕ → ℕ
delay_of policy consecutive =
    min (min (policy.base_ms * 2 ^ min consecutive 16) u64_max) policy.max_ms

-- The window with the crash in it.
abbrev pub window : RestartTracker → ℕ → List ℕ
window t now_ms = drop_old (now_ms - t.policy.window_ms) t.crashes ++ now_ms ∷ []

unfoldable pub on_crash : ℕ → RestartTracker → RestartTracker × RestartAction
unfolding drop_old delay_of
on_crash now_ms t =
    if ltb t.policy.budget (length (window t now_ms))
    then (record t { crashes = window t now_ms }, unhealthy)
    else (
      record t { crashes = window t now_ms; consecutive = add_u32 t.consecutive 1 },
      back_off (delay_of t.policy t.consecutive),
    )

unfoldable pub on_exit : ℤ → ℕ → RestartTracker → RestartTracker × RestartAction
unfolding on_crash restart_policy
on_exit exit_code now_ms t = elim (restart_policy exit_code) [
  | on_demand ↦ (record t { consecutive = 0 }, respawn)
  | never ↦ (t, stay_down)
  | backoff ↦ on_crash now_ms t
]

-- An exit of the child: its code and the time of it.
pub record Exit : Type 0 where
  pub code : ℤ
  pub at_ms : ℕ

-- Whether the loop spawns the child again.
abbrev pub restarts : RestartAction → Bool
restarts respawn = true
restarts (back_off delay) = true
restarts stay_down = false
restarts unhealthy = false

-- The decisions of the loop of `supervise_miner`, which ends at the first that does not restart.
unfoldable pub supervise : RestartTracker → List Exit → List RestartAction
unfolding on_exit
supervise t [] = []
supervise t (e ∷ es) =
    let rest = supervise (on_exit e.code e.at_ms t).0 es in
    (on_exit e.code e.at_ms t).1 ∷ (if restarts (on_exit e.code e.at_ms t).1 then rest else [])

module _ (tags : WireTags) where
  unfoldable pub route_all : List Job → Router → Router
  route_all [] r = r
  route_all (job ∷ jobs) r = route_all jobs (route tags r job).0

  -- What the loop does to the shared state after every exit of its own.
  unfoldable pub child_exited : Bytes → CoordinatorState → CoordinatorState
  unfolding route_all
  child_exited miner_id s =
      let (s', jobs) = reclaim_miner miner_id s in record s' { router = route_all jobs s'.router }
