-- ===== src/Drive/Checks.antt =====
-- What a spec that passes its checks holds, and what its errors name (`validate_spec` of
-- `crates/quip-coordinator/src/drive/topology_spec.rs`).
use mathlib.Core.Path.{subst}
use quip_miner.Prelude.{
  ℕ, suc, ◌+◌, true, false, List, [], ◌∷◌, Option, none, some, ◌≡◌, refl, ap, ◌⊎◌, inl, inr,
  Bool-cases, Option-cases, All, take, get_elem?, arith,
}
use quip_miner.Prelude.Int.{ℤ}
use quip_miner.Survey.{is_nil}
use quip_miner.Drive.{
  TopologyHash, unzip, zip_edges, from_nodes_edges, edge_pairs, TopologySpecJson, TopologySpecError,
  empty_nodes, empty_allowed_h, empty_allowed_j, edge_unknown_node, TopologySpec, has_node,
  validate_edges, spins_or_default, spec_of, validate_spec, to_snapshot,
}

pub zip_edges-unzip : (es : List (ℕ × ℕ)) → zip_edges (unzip es).0 (unzip es).1 ≡ es
zip_edges-unzip [] = refl
zip_edges-unzip ((u, v) ∷ es) = ap (λ t. (u, v) ∷ t) (zip_edges-unzip es)

-- Both endpoints of an edge are nodes.
abbrev pub IsKnown : List ℕ → ℕ × ℕ → Type 0
IsKnown nodes (u, v) = (has_node nodes u ≡ true) × (has_node nodes v ≡ true)

-- An endpoint of the edge at an index is no node, and the edges before it are known.
pub record FirstBad (nodes : List ℕ) (edges : List (ℕ × ℕ)) (i endpoint : ℕ) : Type 0 where
  pub before : All (IsKnown nodes) (take i edges)
  pub edge : ℕ × ℕ
  pub there : get_elem? edges i ≡ some edge
  pub its_own : (endpoint ≡ edge.0) ⊎ (endpoint ≡ edge.1)
  pub unknown : has_node nodes endpoint ≡ false

abbrev pub Explains : List ℕ → List (ℕ × ℕ) → ℕ → Option TopologySpecError → Type 0
Explains nodes edges from none = All (IsKnown nodes) edges
Explains nodes edges from (some (edge_unknown_node i endpoint)) =
    (k : ℕ) × (i ≡ from + k) × FirstBad nodes edges k endpoint
Explains nodes edges from (some other) = ⊥

later :
    (nodes : List ℕ) (e : ℕ × ℕ) (edges : List (ℕ × ℕ)) (from : ℕ) (o : Option TopologySpecError)
    → IsKnown nodes e
    → Explains nodes edges (from + 1) o
    → Explains nodes (e ∷ edges) from o
later nodes e edges from none h x = (h, x)
later nodes e edges from (some empty_nodes) h x = x
later nodes e edges from (some empty_allowed_h) h x = x
later nodes e edges from (some empty_allowed_j) h x = x
later nodes e edges from (some (edge_unknown_node i endpoint)) h (k, p, b) = (
  suc k,
  omega arith,
  record {
    before = (h, b.before);
    edge = b.edge;
    there = b.there;
    its_own = b.its_own;
    unknown = b.unknown;
  },
)

validate_edges-Explains :
    (nodes : List ℕ) (i : ℕ) (edges : List (ℕ × ℕ))
    → Explains nodes edges i (validate_edges nodes i edges)
unfolding validate_edges
validate_edges-Explains nodes i [] = tt
validate_edges-Explains nodes i ((u, v) ∷ edges) = elim (Bool-cases (has_node nodes u)) [
  | inl hu ↦ elim (Bool-cases (has_node nodes v)) [
    | inl hv ↦
        rw (hu, hv)
          (later nodes (u, v) edges i (validate_edges nodes (i + 1) edges) (hu, hv)
            (validate_edges-Explains nodes (i + 1) edges))
    | inr nv ↦
        rw (hu, nv)
          (
            0,
            omega arith,
            record { before = tt; edge = (u, v); there = refl; its_own = inr refl; unknown = nv },
          )
  ]
  | inr nu ↦ rw nu (
    0,
    omega arith,
    record { before = tt; edge = (u, v); there = refl; its_own = inl refl; unknown = nu },
  )
]

-- What the result of the checks says of the document.
abbrev pub SpecExplains :
    TopologyHash → TopologySpecJson → TopologySpec ⊎ TopologySpecError → Type 0
SpecExplains topology_hash raw (inl spec) =
    ((is_nil raw.nodes ≡ false)
      × (is_nil raw.allowed_h_milli ≡ false)
      × (is_nil raw.allowed_j_milli ≡ false)
      × All (IsKnown raw.nodes) raw.edges)
    × ((to_snapshot spec).nodes ≡ raw.nodes)
    × ((to_snapshot spec).edges ≡ raw.edges)
    × ((to_snapshot spec).topology_hash
        ≡ topology_hash raw.nodes raw.edges raw.allowed_h_milli raw.allowed_j_milli
            spec.allowed_spin_milli)
    × (is_nil spec.allowed_spin_milli ≡ false)
SpecExplains topology_hash raw (inr empty_nodes) = is_nil raw.nodes ≡ true
SpecExplains topology_hash raw (inr empty_allowed_h) = is_nil raw.allowed_h_milli ≡ true
SpecExplains topology_hash raw (inr empty_allowed_j) = is_nil raw.allowed_j_milli ≡ true
SpecExplains topology_hash raw (inr (edge_unknown_node i endpoint)) =
    FirstBad raw.nodes raw.edges i endpoint

spins_filled : (spins : List ℤ) → is_nil (spins_or_default spins) ≡ false
spins_filled [] = refl
spins_filled (s ∷ spins) = refl

module _ (topology_hash : TopologyHash) (raw : TopologySpecJson) where
  abbrev of_edges : Option TopologySpecError → TopologySpec ⊎ TopologySpecError
  of_edges none = inl (spec_of topology_hash raw)
  of_edges (some e) = inr e

  by_edges :
      (o : Option TopologySpecError)
      → is_nil raw.nodes ≡ false
      → is_nil raw.allowed_h_milli ≡ false
      → is_nil raw.allowed_j_milli ≡ false
      → Explains raw.nodes raw.edges 0 o
      → SpecExplains topology_hash raw (of_edges o)
  unfolding spec_of to_snapshot from_nodes_edges edge_pairs
  by_edges none n h j x =
      ((n, h, j, x), refl, zip_edges-unzip raw.edges, refl, spins_filled raw.allowed_spin_milli)
  by_edges (some empty_nodes) n h j x = elim x [ ]
  by_edges (some empty_allowed_h) n h j x = elim x [ ]
  by_edges (some empty_allowed_j) n h j x = elim x [ ]
  by_edges (some (edge_unknown_node i endpoint)) n h j (k, p, b) =
      let same : k ≡ i = omega arith in subst (λ m. FirstBad raw.nodes raw.edges m endpoint) same b

  -- A document that passes has nodes, fields and couplings, and edges between its nodes; the snapshot
  -- made of it has its nodes, its edges and the hash of the graph with the spins in use, of which there
  -- are some. An error names what is empty, or an endpoint of the first edge that has one outside.
  pub validate_spec-Explains : SpecExplains topology_hash raw (validate_spec topology_hash raw)
  unfolding validate_spec
  validate_spec-Explains = elim (Bool-cases (is_nil raw.nodes)) [
    | inl n ↦ rw n n
    | inr n ↦ elim (Bool-cases (is_nil raw.allowed_h_milli)) [
      | inl h ↦ rw (n, h) h
      | inr h ↦ elim (Bool-cases (is_nil raw.allowed_j_milli)) [
        | inl j ↦ rw (n, h, j) j
        | inr j ↦
            let checked =
              by_edges (validate_edges raw.nodes 0 raw.edges) n h j
                (validate_edges-Explains raw.nodes 0 raw.edges) in
            elim (Option-cases (validate_edges raw.nodes 0 raw.edges)) [
              | inl e ↦ rw (n, h, j, e) (rw e at checked)
              | inr (error, e) ↦ rw (n, h, j, e) (rw e at checked)
            ]
      ]
    ]
  ]
