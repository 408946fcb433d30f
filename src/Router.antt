-- ===== src/Router.antt =====
-- The router: `Router` of `crates/quip-coordinator/src/router.rs`. A method takes the router and
-- returns the new one, with its result. `State` has the state, `Capable` the capability tests and
-- `Graph` the session graph. What a method logs is left out; the drop counters that gate the log
-- are kept. `Instant::now()` of `note_drop` is the argument `now`.
pub mod State
pub mod Capable
pub mod Counters
pub mod Choice
pub mod Held
pub mod Rounds
pub mod Conservation
pub mod Departures
pub mod Dispatch
pub mod Rejects
pub mod Cancel
pub mod Fixtures
mod Examples
use quip_miner.Prelude.{
  ℕ, zero, suc, ◌+◌, ◌-◌, Bool, true, false, not, ◌&&◌, ◌||◌, List, [], ◌∷◌, ◌++◌, Option, none,
  some, ltb, ◌==◌, if◌then◌else◌, length,
}
use quip_miner.Prelude.Bytes.{Bytes, bytes_eq, bytes_le}
use quip_miner.Prelude.Assoc.{get, update, insert, keys}
use quip_miner.Wire.{WireTags, Job}
use State.{
  MinerCaps, MinerQueue, DropLog, RoutingTopology, Router, contains, add_u32, add_u64,
  drop_warn_interval,
}
use Capable.{capable}

-- `if let Some(q) = self.miners.get_mut(id) { … }`.
unfoldable pub modify : Bytes → (MinerQueue → MinerQueue) → Router → Router
modify id f r = elim (get id r.miners) [
  | none ↦ r
  | some q ↦ record r { miners = update id (f q) r.miners }
]

unfoldable pub set_topology : Option RoutingTopology → Router → Router
set_topology topology r = record r { topology = topology }

abbrev fresh_queue : MinerCaps → MinerQueue
fresh_queue caps = record {
  caps = caps;
  staged = [];
  granted_credits = 0;
  consumed_since_poll = 0;
  salts_since_poll = 0;
  round_salts = 0;
  completed = 0;
  unsupported_kinds = [];
}

unfoldable pub register_miner : Bytes → MinerCaps → Router → Router
register_miner id caps r = elim (get id r.miners) [
  | some q ↦ record r {
    miners =
        update id
          (record q {
            caps = caps;
            granted_credits = 0;
            consumed_since_poll = 0;
            salts_since_poll = 0;
            unsupported_kinds = [];
          })
          r.miners;
  }
  | none ↦ record r { miners = insert id (fresh_queue caps) r.miners }
]

-- `push_back`.
abbrev pub push_staged : Job → MinerQueue → MinerQueue
push_staged job q = record q { staged = q.staged ++ job ∷ [] }

insert_sorted : Bytes → List Bytes → List Bytes
insert_sorted k [] = k ∷ []
insert_sorted k (j ∷ js) = if bytes_le k j then k ∷ j ∷ js else j ∷ insert_sorted k js

-- `candidates.sort()`.
unfoldable pub sort : List Bytes → List Bytes
unfolding insert_sorted
sort [] = []
sort (k ∷ ks) = insert_sorted k (sort ks)

abbrev first : List Bytes → Option Bytes
first [] = none
first (k ∷ ks) = some k

-- The ids that a test admits, in the order of the map.
unfoldable pub admitted : (Bytes → Bool) → List Bytes → List Bytes
admitted p [] = []
admitted p (k ∷ ks) = if p k then k ∷ admitted p ks else admitted p ks

-- `exclude != Some(id)`.
abbrev pub not_excluded : Option Bytes → Bytes → Bool
not_excluded none id = true
not_excluded (some x) id = not (bytes_eq x id)

abbrev pub with_caps : MinerCaps → MinerQueue → MinerQueue
with_caps caps q = record q { caps = caps; unsupported_kinds = []; staged = [] }

-- A set: adding a member twice is adding it once.
abbrev pub add_kind : ℕ → MinerQueue → MinerQueue
add_kind kind q = record q { unsupported_kinds = kind ∷ q.unsupported_kinds }

-- `staged.pop_front()` and the accounting of a dispatch.
abbrev pub pop : Bytes → MinerQueue → List Job → Router → Router
pop id q rest r = record r { miners = update id (record q { staged = rest }) r.miners }

abbrev pub spend : MinerQueue → MinerQueue
spend q = record q {
  granted_credits = q.granted_credits - 1;
  consumed_since_poll = add_u32 q.consumed_since_poll 1;
}

-- How a round of the loop of `next_job` ends: an early return, a `continue` after the job was
-- routed elsewhere, or a dispatch.
pub data Attempt : Type 0 where
  idle : Attempt
  rerouted : Router → Attempt
  sent : Router → Job → Attempt

-- The counters of `note_drop`. `duration_since` is zero where `now` is earlier.
unfoldable pub note_drop : ℕ → Bytes → Router → Router
note_drop now id r = elim (get id r.drops) [
  | none ↦ record r { drops = insert id (record { since_warn = 0; last_warn = now }) r.drops }
  | some log ↦
      if ltb (now - log.last_warn) drop_warn_interval
      then record r { drops = update id (record log { since_warn = log.since_warn + 1 }) r.drops }
      else record r { drops = update id (record { since_warn = 0; last_warn = now }) r.drops }
]

-- The end of a round, with the rest of the loop for a `continue`.
abbrev pub finish : (Router → Router × Option Job) → Router → Attempt → Router × Option Job
finish rest r idle = (r, none)
finish rest r (rerouted r') = rest r'
finish rest r (sent r' job) = (r', some job)

module _ (tags : WireTags) where
  unfoldable pub is_capable : Router → Bytes → Job → Bool
  is_capable r id job = elim (get id r.miners) [
    | none ↦ false
    | some q ↦ capable tags q job r.topology
  ]

  unfoldable pub candidates : Router → Job → Option Bytes → List Bytes
  candidates r job exclude =
      sort (admitted (λ id. not_excluded exclude id && is_capable r id job) (keys r.miners))

  unfoldable pub route_excluding : Router → Job → Option Bytes → Router × Option Bytes
  route_excluding r job exclude = elim (first (candidates r job exclude)) [
    | none ↦ (record r { unroutable = r.unroutable ++ job ∷ [] }, none)
    | some id ↦ (modify id (push_staged job) r, some id)
  ]

  unfoldable pub route : Router → Job → Router × Option Bytes
  route r job = route_excluding r job none

  -- The loop of `update_capabilities` over the jobs taken from the queue.
  unfoldable pub restage : Bytes → List Job → Router → Router
  restage id [] r = r
  restage id (job ∷ jobs) r = restage id jobs (
      if is_capable r id job
      then modify id (push_staged job) r
      else (route_excluding r job (some id)).0)

  unfoldable pub update_capabilities : Bytes → MinerCaps → Router → Router × Bool
  unfolding restage
  update_capabilities id caps r = elim (get id r.miners) [
    | none ↦ (r, false)
    | some q ↦
        (restage id q.staged (record r { miners = update id (with_caps caps q) r.miners }), true)
  ]

  -- One round of the loop of `next_job`.
  unfoldable pub attempt : Bytes → Router → Attempt
  attempt id r = elim (get id r.miners) [
    | none ↦ idle
    | some q ↦ elim (q.granted_credits == 0) [
      | true ↦ idle
      | false ↦ elim q.staged [
        | [] ↦ idle
        | job ∷ rest ↦ elim (is_capable (pop id q rest r) id job) [
          | false ↦ rerouted (route_excluding (pop id q rest r) job (some id)).0
          | true ↦ sent (modify id spend (pop id q rest r)) job
        ]
      ]
    ]
  ]

  unfoldable pub next_job_loop : ℕ → Bytes → Router → Router × Option Job
  unfolding attempt
  next_job_loop zero id r = (r, none)
  next_job_loop (suc fuel) id r = finish (next_job_loop fuel id) r (attempt id r)

  unfoldable pub staged_len : Router → Bytes → ℕ
  staged_len r id = elim (get id r.miners) [ none ↦ 0 | some q ↦ length q.staged ]

  -- Each round takes one job off the queue, so a round more than the queue holds is enough.
  unfoldable pub next_job : Bytes → Router → Router × Option Job
  unfolding next_job_loop staged_len
  next_job id r = next_job_loop (suc (staged_len r id)) id r

  abbrev pub mark_unsupported : Bytes → Job → ℕ → Router → Router
  mark_unsupported id job reason r =
      if reason == tags.unsupported_kind then modify id (add_kind job.kind) r else r

  unfoldable pub on_reject : ℕ → Bytes → Job → ℕ → Router → Router
  unfolding note_drop
  on_reject now id job reason r =
      let (routed, chosen) = route_excluding (mark_unsupported id job reason r) job (some id) in
      elim chosen [ none ↦ note_drop now id routed | some other ↦ routed ]

  unfoldable pub stage_on : Bytes → Job → Router → Router × Bool
  stage_on id job r = elim (is_capable r id job) [
    | false ↦ (r, false)
    | true ↦ elim (get id r.miners) [
      | none ↦ (r, false)
      | some q ↦ (modify id (push_staged job) r, true)
    ]
  ]
