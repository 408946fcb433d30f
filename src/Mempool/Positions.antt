-- ===== src/Mempool/Positions.antt =====
-- The edges of an order's job, between positions, and those of the order, between nodes
-- (`job_order_to_job` of `crates/quip-coordinator/src/producer/mempool.rs`).
use mathlib.Core.Path.{subst}
use quip_miner.Prelude.{
  ℕ, suc, ◌+◌, List, [], ◌∷◌, Option, none, some, ◌≡◌, refl, inl, inr, leb, ◌==◌, ==_iff,
  if◌then◌else◌, get_elem?, Bool-cases, Option-cases, arith,
}
use quip_miner.Wire.{WireTags, Job, Codec, Graph, edges, topology_hash, IsingProblem}
use quip_miner.Router.State.{u32_max}
use quip_miner.Mempool.{JobOrder, position, index_nodes, place_edges, order_job, job_order_to_job}
use quip_miner.Problem.{milli_problem}

-- The nodes at two positions of each edge.
unfoldable pub node_edges : List ℕ → List ℕ → List ℕ → Option (List (ℕ × ℕ))
node_edges nodes [] [] = some []
node_edges nodes [] (v ∷ vs) = none
node_edges nodes (u ∷ us) [] = none
node_edges nodes (u ∷ us) (v ∷ vs) = elim (get_elem? nodes u) [
  | none ↦ none
  | some a ↦ elim (get_elem? nodes v) [
    | none ↦ none
    | some b ↦ elim (node_edges nodes us vs) [ none ↦ none | some es ↦ some ((a, b) ∷ es) ]
  ]
]

-- The edges of a job with an inline graph, as node ids.
abbrev pub named_edges : List ℕ → Option Graph → Option (List (ℕ × ℕ))
named_edges nodes none = none
named_edges nodes (some (topology_hash h)) = none
named_edges nodes (some (edges us vs)) = node_edges nodes us vs

abbrev graph_of : Option IsingProblem → Option Graph
graph_of none = none
graph_of (some p) = p.graph

abbrev pub job_edges : List ℕ → Job → Option (List (ℕ × ℕ))
job_edges nodes job = named_edges nodes (graph_of job.ising)

-- Every position is that of its node.
abbrev IsIndex : List ℕ → List (ℕ × ℕ) → Type 0
IsIndex nodes pos = (n i : ℕ) → position n pos ≡ some i → get_elem? nodes i ≡ some n

-- The nodes stand in the list from the index on.
abbrev Stand : List ℕ → ℕ → List ℕ → Type 0
Stand all i nodes = (k n : ℕ) → get_elem? nodes k ≡ some n → get_elem? all (i + k) ≡ some n

added-IsIndex :
    (all : List ℕ) (i node : ℕ) (pos : List (ℕ × ℕ))
    → IsIndex all pos
    → get_elem? all i ≡ some node
    → IsIndex all ((node, i) ∷ pos)
unfolding position
added-IsIndex all i node pos h here n j e = elim (Bool-cases (node == n)) [
  | inl same ↦
      let at : ◌≡◌ {A = Option ℕ} (some i) (some j) = rw (same, if◌then◌else◌) at e in
      let place : i ≡ j = cc in
      let name : node ≡ n = (==_iff node n).0 same in rw (← place, ← name) here
  | inr other ↦ h n j (rw (other, if◌then◌else◌) at e)
]

index_nodes-IsIndex :
    (all : List ℕ) (i : ℕ) (nodes : List ℕ) (pos found : List (ℕ × ℕ))
    → IsIndex all pos
    → Stand all i nodes
    → index_nodes i nodes pos ≡ some found
    → IsIndex all found
unfolding index_nodes
index_nodes-IsIndex all i [] pos found h s e =
    subst (IsIndex all) (let same : pos ≡ found = cc in same) h
index_nodes-IsIndex all i (node ∷ nodes) pos found h s e = elim (Bool-cases (leb i u32_max)) [
  | inr wide ↦ absurd (let none_left = rw (index_nodes, wide) at e in cc)
  | inl fits ↦ elim (Option-cases (position node pos)) [
    | inr (j, twice) ↦ absurd (let none_left = rw (index_nodes, fits, twice) at e in cc)
    | inl fresh ↦
        let at : i + 0 ≡ i = omega arith in
        let here : get_elem? all i ≡ some node =
          subst (λ j. get_elem? all j ≡ some node) at (s 0 node refl) in
        index_nodes-IsIndex all (suc i) nodes ((node, i) ∷ pos) found
          (added-IsIndex all i node pos h here)
          (λ k n g.
            let next : i + suc k ≡ suc i + k = omega arith in
            subst (λ j. get_elem? all j ≡ some n) next (s (suc k) n g))
          (rw (index_nodes, fits, fresh) at e)
  ]
]

node_edges-place_edges :
    (all : List ℕ) (pos es : List (ℕ × ℕ)) (us vs : List ℕ)
    → IsIndex all pos
    → place_edges pos es ≡ some (us, vs)
    → node_edges all us vs ≡ some es
unfolding place_edges node_edges
node_edges-place_edges all pos [] [] [] h e = refl
node_edges-place_edges all pos [] (u ∷ us) vs h e = absurd (cc)
node_edges-place_edges all pos [] [] (v ∷ vs) h e = absurd (cc)
node_edges-place_edges all pos ((a, b) ∷ es) us vs h e = elim (Option-cases (position a pos)) [
  | inl lost ↦ absurd (let none_left = rw (place_edges, lost) at e in cc)
  | inr (u, at_u) ↦ elim (Option-cases (position b pos)) [
    | inl lost ↦ absurd (let none_left = rw (place_edges, at_u, lost) at e in cc)
    | inr (v, at_v) ↦ elim (Option-cases (place_edges pos es)) [
      | inl lost ↦ absurd (let none_left = rw (place_edges, at_u, at_v, lost) at e in cc)
      | inr ((us', vs'), rest) ↦
          let whole : ◌≡◌ {A = Option (List ℕ × List ℕ)} (some (u ∷ us', v ∷ vs')) (some (us, vs)) =
            rw (place_edges, at_u, at_v, rest) at e in
          let ue : u ∷ us' ≡ us = cc in
          let ve : v ∷ vs' ≡ vs = cc in
          rw
            (
              ← ue,
              ← ve,
              node_edges,
              h a u at_u,
              h b v at_v,
              node_edges-place_edges all pos es us' vs' h rest,
            )
            refl
    ]
  ]
]

-- The job of an order has the order's edges: the nodes of the order at the positions that it names,
-- edge by edge.
pub job_edges-job_order_to_job :
    (tags : WireTags) (codec : Codec) (order : JobOrder) (job : Job)
    → job_order_to_job tags codec order ≡ some job
    → job_edges order.nodes job ≡ some order.edges
unfolding job_order_to_job milli_problem
job_edges-job_order_to_job tags codec order job e =
    elim (Option-cases (index_nodes 0 order.nodes [])) [
      | inl twice ↦ absurd (let none_left = rw (job_order_to_job, twice) at e in cc)
      | inr (pos, indexed) ↦ elim (Option-cases (place_edges pos order.edges)) [
        | inl lost ↦ absurd (let none_left = rw (job_order_to_job, indexed, lost) at e in cc)
        | inr ((us, vs), found) ↦
            let made : ◌≡◌ {A = Option Job} (some (order_job tags codec order us vs)) (some job) =
              rw (job_order_to_job, indexed, found) at e in
            let same : order_job tags codec order us vs ≡ job = cc in
            let index =
              index_nodes-IsIndex order.nodes 0 order.nodes [] pos
                (λ n i p. absurd (unfold position in cc (p)))
                (λ k n g.
                  subst (λ j. get_elem? order.nodes j ≡ some n)
                    (let z : k ≡ 0 + k = omega arith in z) g)
                indexed in
            rw (← same) (node_edges-place_edges order.nodes pos order.edges us vs index found)
      ]
    ]
