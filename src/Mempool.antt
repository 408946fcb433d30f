-- ===== src/Mempool.antt =====
-- Mempool orders: `JobOrder` of `crates/quip-coordinator/src/chain/mempool.rs` with the access rule,
-- and the job made of one (`job_order_to_job` of `producer/mempool.rs`).
pub mod Positions
pub mod Fixtures
mod Examples
use quip_miner.Prelude.{
  ℕ, suc, Bool, true, false, ◌||◌, List, [], ◌∷◌, Option, none, some, leb, ◌==◌, if◌then◌else◌,
}
use quip_miner.Prelude.Int.{ℤ}
use quip_miner.Prelude.Bytes.{Bytes, bytes_eq}
use quip_miner.Wire.{WireTags, Job, Codec, edges}
use quip_miner.Router.State.{u32_max, contains}
use quip_miner.Problem.{milli_problem}

pub data SolverType : Type 0 where
  cpu gpu qpu_dwave qpu_ibm qpu_ionq qpu_pasqal asic : SolverType

pub data MinerKind : Type 0 where
  cpu gpu qpu_dwave qpu_ibm qpu_ionq qpu_pasqal asic metal : MinerKind

unfoldable pub solver_type_of : MinerKind → SolverType
solver_type_of MinerKind.cpu = SolverType.cpu
solver_type_of MinerKind.gpu = SolverType.gpu
solver_type_of metal = SolverType.gpu
solver_type_of MinerKind.qpu_dwave = SolverType.qpu_dwave
solver_type_of MinerKind.qpu_ibm = SolverType.qpu_ibm
solver_type_of MinerKind.qpu_ionq = SolverType.qpu_ionq
solver_type_of MinerKind.qpu_pasqal = SolverType.qpu_pasqal
solver_type_of MinerKind.asic = SolverType.asic

pub data JobMode : Type 0 where
  open_to_all : JobMode
  bid : (miners : Option (List Bytes)) (miner_types : Option (List ℕ)) → JobMode

pub record JobOrder : Type 0 where
  pub order_id : Bytes
  pub mode : JobMode
  pub nodes : List ℕ
  pub edges : List (ℕ × ℕ)
  pub h_milli : List ℤ
  pub j_milli : List ℤ
  pub min_energy_milli : Option ℤ
  pub min_diversity_milli : Option ℕ
  pub min_solutions : Option ℕ
  pub deadline_ms : ℕ

unfoldable pub type_tag : SolverType → ℕ
type_tag SolverType.cpu = 0
type_tag SolverType.gpu = 1
type_tag SolverType.qpu_dwave = 2
type_tag SolverType.qpu_ibm = 3
type_tag SolverType.qpu_ionq = 4
type_tag SolverType.qpu_pasqal = 5
type_tag SolverType.asic = 6

unfoldable pub has_account : Bytes → List Bytes → Bool
has_account account [] = false
has_account account (a ∷ as') = bytes_eq a account || has_account account as'

abbrev pub account_match : Bytes → Option (List Bytes) → Bool
account_match account none = false
account_match account (some allowed) = has_account account allowed

abbrev pub type_match : ℕ → Option (List ℕ) → Bool
type_match tag none = false
type_match tag (some allowed) = contains allowed tag

abbrev pub admits : JobMode → Bytes → SolverType → Bool
admits open_to_all account solver = true
admits (bid miners miner_types) account solver =
    account_match account miners || type_match (type_tag solver) miner_types

unfoldable pub is_eligible_for : Bytes → SolverType → JobOrder → Bool
unfolding type_tag has_account
is_eligible_for account solver order = admits order.mode account solver

-- `pos.get(&node)`.
unfoldable pub position : ℕ → List (ℕ × ℕ) → Option ℕ
position node [] = none
position node ((n, i) ∷ pos) = if n == node then some i else position node pos

-- The loop over the nodes, from an index on; none where a node stands twice.
unfoldable pub index_nodes : ℕ → List ℕ → List (ℕ × ℕ) → Option (List (ℕ × ℕ))
unfolding position
index_nodes i [] pos = some pos
index_nodes i (node ∷ nodes) pos =
    let rest = index_nodes (suc i) nodes ((node, i) ∷ pos) in
    elim (leb i u32_max) [
      | false ↦ none
      | true ↦ elim (position node pos) [ some previous ↦ none | none ↦ rest ]
    ]

-- The loop over the edges; none where an endpoint is no node.
unfoldable pub place_edges : List (ℕ × ℕ) → List (ℕ × ℕ) → Option (List ℕ × List ℕ)
unfolding position
place_edges pos [] = some ([], [])
place_edges pos ((a, b) ∷ es) = elim (position a pos) [
  | none ↦ none
  | some u ↦ elim (position b pos) [
    | none ↦ none
    | some v ↦ elim (place_edges pos es) [ none ↦ none | some (us, vs) ↦ some (u ∷ us, v ∷ vs) ]
  ]
]

abbrev pub placed : JobOrder → Option (List ℕ × List ℕ)
placed order = elim (index_nodes 0 order.nodes []) [
  | none ↦ none
  | some pos ↦ place_edges pos order.edges
]

module _ (tags : WireTags) (codec : Codec) where
  abbrev pub order_job : JobOrder → List ℕ → List ℕ → Job
  order_job order us vs = record {
    job_id = order.order_id;
    kind = tags.ising_sample;
    generation = 0;
    deadline_ms = order.deadline_ms;
    ising = some (milli_problem tags codec (some (edges us vs)) order.h_milli order.j_milli);
    provenance = some (record { is_pow = false; order_id = order.order_id });
    generator = none;
  }

  unfoldable pub job_order_to_job : JobOrder → Option Job
  unfolding index_nodes place_edges milli_problem
  job_order_to_job order = elim (placed order) [
    | none ↦ none
    | some (us, vs) ↦ some (order_job order us vs)
  ]
