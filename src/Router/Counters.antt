-- ===== src/Router/Counters.antt =====
-- The operations of the router that touch a queue alone: credits, counters, cancellation and
-- reclaiming (`crates/quip-coordinator/src/router.rs`).
use quip_miner.Prelude.{
  ℕ, ◌+◌, ◌-◌, Bool, ◌||◌, List, [], ◌∷◌, Option, none, some, ltb, ◌==◌, if◌then◌else◌, length,
}
use quip_miner.Prelude.Bytes.{Bytes}
use quip_miner.Prelude.Assoc.{get, update, keys}
use quip_miner.Wire.{Job}
use quip_miner.Router.State.{MinerCaps, MinerQueue, Router, add_u32, add_u64}
use quip_miner.Router.{modify, sort}

unfoldable pub grant_credits : Bytes → ℕ → Router → Router
unfolding modify
grant_credits id credits =
    modify id (λ q. record q { granted_credits = add_u32 q.granted_credits credits })

unfoldable pub record_lease_salts : Bytes → ℕ → Router → Router
unfolding modify
record_lease_salts id salts =
    modify id (λ q. record q { salts_since_poll = add_u64 q.salts_since_poll salts })

unfoldable pub record_round_salts : Bytes → ℕ → Router → Router
unfolding modify
record_round_salts id salts =
    modify id (λ q. record q { round_salts = add_u64 q.round_salts salts })

unfoldable pub record_completion : Bytes → Router → Router
unfolding modify
record_completion id = modify id (λ q. record q { completed = add_u64 q.completed 1 })

-- `map_or(0, …)` over the queue of an id.
abbrev pub read : (MinerQueue → ℕ) → Bytes → Router → ℕ
read field id r = elim (get id r.miners) [ none ↦ 0 | some q ↦ field q ]

unfoldable pub round_salts : Bytes → Router → ℕ
round_salts = read (λ q. q.round_salts)

unfoldable pub jobs_completed : Bytes → Router → ℕ
jobs_completed = read (λ q. q.completed)

-- A change of every queue (`values_mut`).
unfoldable pub map_queues :
    (MinerQueue → MinerQueue) → List (Bytes × MinerQueue) → List (Bytes × MinerQueue)
map_queues f [] = []
map_queues f ((id, q) ∷ m) = (id, f q) ∷ map_queues f m

unfoldable pub reset_round_salts : Router → Router
unfolding map_queues
reset_round_salts r = record r { miners = map_queues (λ q. record q { round_salts = 0 }) r.miners }

unfoldable pub take_lease_salts : Bytes → Router → Router × ℕ
unfolding modify
take_lease_salts id r =
    (modify id (λ q. record q { salts_since_poll = 0 }) r, read (λ q. q.salts_since_poll) id r)

unfoldable pub take_consumed : Bytes → Router → Router × ℕ
unfolding modify
take_consumed id r = (
  modify id (λ q. record q { consumed_since_poll = 0 }) r,
  read (λ q. q.consumed_since_poll) id r,
)

-- `retain`.
unfoldable pub retain : (Job → Bool) → List Job → List Job
retain p [] = []
retain p (j ∷ js) = if p j then j ∷ retain p js else retain p js

-- The jobs that a cancel up to a generation leaves alone.
abbrev pub survives : ℕ → Job → Bool
survives max_generation j = j.generation == 0 || ltb max_generation j.generation

unfoldable pub dropped_in : ℕ → List (Bytes × MinerQueue) → ℕ
unfolding retain
dropped_in max_generation [] = 0
dropped_in max_generation ((id, q) ∷ m) =
    (length q.staged - length (retain (survives max_generation) q.staged))
    + dropped_in max_generation m

unfoldable pub cancel : ℕ → Router → Router × ℕ
unfolding map_queues dropped_in
cancel max_generation r = (
  record r {
    miners =
        map_queues (λ q. record q { staged = retain (survives max_generation) q.staged }) r.miners;
  },
  dropped_in max_generation r.miners,
)

unfoldable pub reclaim : Bytes → Router → Router × List Job
reclaim id r = elim (get id r.miners) [
  | none ↦ (r, [])
  | some q ↦ (
    record r { miners = update id (record q { granted_credits = 0; staged = [] }) r.miners },
    q.staged,
  )
]

unfoldable pub caps : Bytes → Router → Option MinerCaps
caps id r = elim (get id r.miners) [ none ↦ none | some q ↦ some q.caps ]

unfoldable pub miner_ids : Router → List Bytes
unfolding sort
miner_ids r = sort (keys r.miners)
