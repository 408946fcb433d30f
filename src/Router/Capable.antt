-- ===== src/Router/Capable.antt =====
-- Which jobs a miner can take: `capable`, `native_compatible` and the job measures of
-- `crates/quip-coordinator/src/router.rs`. Lengths are below the range of a `usize`.
use quip_miner.Prelude.{
  ℕ, zero, suc, ◌*◌, ◌/◌, ◌%◌, Bool, true, false, not, ◌&&◌, ◌||◌, List, [], ◌∷◌, Option, none,
  some, min, max, ltb, ◌==◌, if◌then◌else◌, length,
}
use quip_miner.Prelude.Bytes.{Bytes, bytes_eq}
use quip_miner.Wire.{WireTags, Job, IsingProblem, topology_hash, edges}
use quip_miner.Router.State.{
  MinerCaps, MinerQueue, RoutingTopology, contains, u32_max, add_u32, accepts_leases,
}

-- `MILLI_SCALE` of `producer/problem.rs`.
abbrev pub milli_scale : ℕ
milli_scale = 1000

-- One more endpoint at a node.
bump : ℕ → List (ℕ × ℕ) → List (ℕ × ℕ)
bump node [] = (node, 1) ∷ []
bump node ((k, d) ∷ degrees) =
    if k == node then (k, add_u32 d 1) ∷ degrees else (k, d) ∷ bump node degrees

count_degrees : List (ℕ × ℕ) → List (ℕ × ℕ) → List (ℕ × ℕ)
count_degrees degrees [] = degrees
count_degrees degrees ((u, v) ∷ es) = count_degrees (bump v (bump u degrees)) es

max_value : List (ℕ × ℕ) → ℕ
max_value [] = 0
max_value ((k, d) ∷ degrees) = max d (max_value degrees)

unfoldable pub maximum_degree : List (ℕ × ℕ) → ℕ
unfolding bump count_degrees max_value
maximum_degree es = max_value (count_degrees [] es)

-- `zip`, which stops at the shorter list.
unfoldable pub zip : List ℕ → List ℕ → List (ℕ × ℕ)
zip [] vs = []
zip (u ∷ us) [] = []
zip (u ∷ us) (v ∷ vs) = (u, v) ∷ zip us vs

-- `u32::try_from(n).unwrap_or(u32::MAX)`.
abbrev to_u32 : ℕ → ℕ
to_u32 n = min n u32_max

abbrev same_hash : Bytes → Option RoutingTopology → Option RoutingTopology
same_hash hash none = none
same_hash hash (some t) = if bytes_eq t.hash hash then some t else none

abbrev graph_hash : Option IsingProblem → Option Bytes
graph_hash none = none
graph_hash (some ising) = elim ising.graph [
  | none ↦ none
  | some g ↦ elim g [ topology_hash hash ↦ some hash | edges u v ↦ none ]
]

-- `all` over `0..n`.
all_below : ℕ → (ℕ → Bool) → Bool
all_below zero p = true
all_below (suc n) p = all_below n p && p n

edge_in : ℕ → ℕ → List (ℕ × ℕ) → Bool
edge_in u v [] = false
edge_in u v ((a, b) ∷ es) = ((a == u) && (b == v)) || edge_in u v es

edge_fits : ℕ → List (ℕ × ℕ) → ℕ → ℕ → Bool
unfolding edge_in
edge_fits n_nodes es u v =
    ltb u n_nodes && (ltb v n_nodes && (not (u == v) && edge_in (min u v) (max u v) es))

edges_fit : ℕ → List (ℕ × ℕ) → List (ℕ × ℕ) → Bool
unfolding edge_fits
edges_fit n_nodes es [] = true
edges_fit n_nodes es ((u, v) ∷ uvs) = edge_fits n_nodes es u v && edges_fit n_nodes es uvs

module _ (tags : WireTags) where
  unfoldable pub is_lease : Job → Bool
  is_lease job = job.kind == tags.ising_generate

  unfoldable pub job_topology : Job → Option RoutingTopology → Option RoutingTopology
  unfolding is_lease
  job_topology job topology =
      let hash : Option Bytes =
        if is_lease job
        then elim job.generator [ none ↦ none | some g ↦ some g.topology ]
        else graph_hash job.ising in
      elim hash [ none ↦ none | some h ↦ same_hash h topology ]

  unfoldable pub job_node_count : Job → Option RoutingTopology → ℕ
  unfolding job_topology
  job_node_count job topology =
      if is_lease job
      then elim (job_topology job topology) [ none ↦ 0 | some t ↦ t.n_nodes ]
      else elim job.ising [ none ↦ 0 | some ising ↦ to_u32 (length ising.h / 4) ]

  abbrev ising_edge_count : IsingProblem → ℕ
  ising_edge_count ising = elim ising.graph [
    | none ↦ length ising.j / 4
    | some g ↦ elim g [ topology_hash hash ↦ length ising.j / 4 | edges u v ↦ length u ]
  ]

  unfoldable pub job_edge_count : Job → Option RoutingTopology → ℕ
  unfolding job_topology
  job_edge_count job topology =
      if is_lease job
      then elim (job_topology job topology) [ none ↦ 0 | some t ↦ t.n_edges ]
      else elim job.ising [ none ↦ 0 | some ising ↦ to_u32 (ising_edge_count ising) ]

  abbrev ising_max_degree : IsingProblem → Option ℕ
  ising_max_degree ising = elim ising.graph [
    | none ↦ if length ising.j == 0 then some 0 else none
    | some g ↦ elim g [
      | topology_hash hash ↦ none
      | edges u v ↦ if length u == length v then some (maximum_degree (zip u v)) else none
    ]
  ]

  unfoldable pub job_max_degree : Job → Option RoutingTopology → Option ℕ
  unfolding job_topology
  job_max_degree job topology = elim (job_topology job topology) [
    | some t ↦ some t.max_degree
    | none ↦ elim job.ising [ none ↦ none | some ising ↦ ising_max_degree ising ]
  ]

  -- The inline edge list against the session graph.
  unfoldable pub edges_compatible :
      Bytes → IsingProblem → List ℕ → List ℕ → Job → RoutingTopology → Bool
  unfolding all_below edges_fit zip job_node_count
  edges_compatible native_hash ising u v job t =
      let n_nodes = job_node_count job (some t) in
      bytes_eq native_hash t.native_hash
      && (length u == length v
          && (ising.encoding == tags.i32_encoding
              && (ising.scale == milli_scale
                  && (length ising.h % 4 == 0
                      && (length ising.j == length u * 4
                          && (all_below n_nodes (contains t.nodes)
                              && edges_fit n_nodes t.edges (zip u v)))))))

  abbrev graph_compatible : Bytes → IsingProblem → Job → Option RoutingTopology → Bool
  graph_compatible native_hash ising job topology = elim ising.graph [
    | none ↦ false
    | some g ↦ elim topology [
      | none ↦ false
      | some t ↦ elim g [
        | topology_hash hash ↦ bytes_eq t.hash hash
        | edges u v ↦ edges_compatible native_hash ising u v job t
      ]
    ]
  ]

  unfoldable pub native_compatible : MinerCaps → Job → Option RoutingTopology → Bool
  unfolding job_topology edges_compatible
  native_compatible caps job topology = elim caps.native_topology_hash [
    | none ↦ true
    | some native_hash ↦
        if not (length native_hash == 32)
        then false
        else if is_lease job
        then elim (job_topology job topology) [ none ↦ false | some t ↦ true ]
        else elim job.ising [
          | none ↦ false
          | some ising ↦ graph_compatible native_hash ising job topology
        ]
  ]

  -- A degree over a positive limit; a limit of zero is unbounded.
  abbrev over_degree : Option ℕ → Option ℕ → Bool
  over_degree none degree = false
  over_degree (some limit) none = false
  over_degree (some limit) (some degree) = ltb 0 limit && ltb limit degree

  abbrev kind_supported : MinerCaps → ℕ → Bool
  kind_supported caps kind = elim caps.supported_kinds [
    | [] ↦ true
    | k ∷ ks ↦ contains (k ∷ ks) kind
  ]

  unfoldable pub capable : MinerQueue → Job → Option RoutingTopology → Bool
  capable q job topology =
      if contains q.unsupported_kinds job.kind
      then false
      else if not (kind_supported q.caps job.kind)
      then false
      else if is_lease job && not (accepts_leases tags q.caps)
      then false
      else if ltb 0 q.caps.max_nodes && ltb q.caps.max_nodes (job_node_count job topology)
      then false
      else if ltb 0 q.caps.max_edges && ltb q.caps.max_edges (job_edge_count job topology)
      then false
      else if over_degree q.caps.max_degree (job_max_degree job topology)
      then false
      else native_compatible q.caps job topology
