-- ===== src/MockMiner.antt =====
-- The reference miner: the handling of a job and of a lease in `crates/quip-mock-miner/src/main.rs`.
-- The protocol and its functions belong to external crates and are parameters. A field or coupling, in
-- the source a float of v / 1000, is its number v of thousandths. The session around it is input and
-- output.
pub mod Replies
pub mod Leases
mod Examples
use quip_miner.Prelude.{
  ℕ, zero, suc, ◌+◌, Bool, true, false, not, ◌&&◌, ◌||◌, List, [], ◌∷◌, ◌++◌, Option, none, some,
  ◌⊎◌, inl, inr, ltb, leb, ◌==◌, if◌then◌else◌, length, replicate,
}
use quip_miner.Prelude.Int
use quip_miner.Prelude.Int.{ℤ, i64_max, min_ℤ}
use quip_miner.Prelude.Bytes.{Bytes, bytes_eq}
use quip_miner.Wire.{WireTags, Graph, IsingProblem, Generator, Job, SetTarget, Codec}
use quip_miner.Wire
use quip_miner.Mempool.{position}
use quip_miner.Drive.{zip_edges}

pub data RejectReason : Type 0 where
  unsupported_kind malformed expired target_missing topology_missing topology_mismatch :
      RejectReason

-- A result with its one solution, the salt and the nonce.
pub data MinerMsg : Type 0 where
  result : (job_id : Bytes) (spins : Bytes) (energy_milli : ℤ) (salt nonce : Bytes) → MinerMsg
  reject : (job_id : Bytes) → RejectReason → MinerMsg
  lease_done : (job_id : Bytes) (salts_done : ℕ) (best_energy_milli : ℤ) → MinerMsg
  job_request : (credits : ℕ) → MinerMsg

-- The topology message of a session; none for one without edges.
pub record TopologyMsg : Type 0 where
  pub hash : Bytes
  pub nodes : List ℕ
  pub edges : Option (List ℕ × List ℕ)

pub record SessionTopo : Type 0 where
  pub hash : Bytes
  pub edges : List (ℕ × ℕ)
  pub pos : List (ℕ × ℕ)

-- What the protocol's crates give. `lease_salts` is the number of salts of a lease that is well formed,
-- `salt` and `nonce` are those of one of its counters, `num_nodes` is that of a topology that is well
-- formed, and `draw` the fields and the couplings of a problem.
pub record Protocol : Type 0 where
  pub codec : Codec
  pub encode_spins_packed : List ℤ → Bytes
  pub energy_milli : List ℤ → List ℤ → List ℤ → List (ℕ × ℕ) → ℤ
  pub lease_salts : Generator → Option ℕ
  pub salt : Generator → ℕ → Option Bytes
  pub nonce : Generator → ℕ → Option Bytes
  pub num_nodes : TopologyMsg → Option ℕ
  pub draw : TopologyMsg → Bytes → Option (List ℤ × List ℤ)
  pub energy_from_milli : TopologyMsg → List ℤ → List ℤ → List ℤ → ℤ
  pub meets_target : SetTarget → List ℤ → ℤ → Bool

-- The later position of a node that occurs twice stands first.
unfoldable pub index_positions : ℕ → List ℕ → List (ℕ × ℕ) → List (ℕ × ℕ)
index_positions i [] pos = pos
index_positions i (node ∷ nodes) pos = index_positions (suc i) nodes ((node, i) ∷ pos)

abbrev pub edges_of : Option (List ℕ × List ℕ) → List (ℕ × ℕ)
edges_of none = []
edges_of (some (us, vs)) = zip_edges us vs

unfoldable pub from_proto : TopologyMsg → SessionTopo
unfolding index_positions
from_proto t = record {
  hash = t.hash;
  edges = edges_of t.edges;
  pos = index_positions 0 t.nodes [];
}

abbrev pub edge_at : Option ℕ → Option ℕ → Option (ℕ × ℕ)
edge_at (some pu) (some pv) = some (pu, pv)
edge_at (some pu) none = none
edge_at none pv = none

abbrev pub put : Option (ℕ × ℕ) → List (ℕ × ℕ) ⊎ RejectReason → List (ℕ × ℕ) ⊎ RejectReason
put none rest = inr malformed
put (some e) (inl es) = inl (e ∷ es)
put (some e) (inr reason) = inr reason

-- The loop over the edges, each at the positions of its nodes.
unfoldable pub place : List (ℕ × ℕ) → List (ℕ × ℕ) → List (ℕ × ℕ) ⊎ RejectReason
unfolding position
place pos [] = inl []
place pos ((u, v) ∷ es) = put (edge_at (position u pos) (position v pos)) (place pos es)

unfoldable pub resolve_edges : Option Graph → Option SessionTopo → List (ℕ × ℕ) ⊎ RejectReason
unfolding place
resolve_edges none topo = inl []
resolve_edges (some (Wire.edges us vs)) topo = inl (zip_edges us vs)
resolve_edges (some (Wire.topology_hash h)) none = inr topology_missing
resolve_edges (some (Wire.topology_hash h)) (some topo) =
    if bytes_eq h topo.hash then place topo.pos topo.edges else inr topology_mismatch

abbrev pub reject_and_replace : Bytes → RejectReason → List MinerMsg
reject_and_replace job_id reason = reject job_id reason ∷ job_request 1 ∷ []

abbrev pub problem_or_default : Option IsingProblem → IsingProblem
problem_or_default none = record { graph = none; encoding = 0; scale = 0; h = []; j = [] }
problem_or_default (some p) = p

-- An endpoint past the nodes.
unfoldable pub is_outside : ℕ → List (ℕ × ℕ) → Bool
is_outside n [] = false
is_outside n ((u, v) ∷ es) = leb n u || leb n v || is_outside n es

abbrev pub ones : ℕ → List ℤ
ones n = replicate n (Int.pos 1)

-- How the loop over the salts ends: at a problem that cannot be drawn, or with the results, the salts
-- done and the best energy.
pub data LeaseEnd : Type 0 where
  refused : LeaseEnd
  ended : (out : List MinerMsg) (done : ℕ) (best : ℤ) → LeaseEnd

module _ (tags : WireTags) (protocol : Protocol) where
  abbrev pub solve : Bytes → List ℤ → List ℤ → List (ℕ × ℕ) → List MinerMsg
  solve job_id h j es =
      if is_outside (length h) es
      then reject_and_replace job_id malformed
      else result job_id (protocol.encode_spins_packed (ones (length h)))
          (protocol.energy_milli (ones (length h)) h j es) [] []
        ∷ job_request 1
        ∷ []

  abbrev pub on_edges : Bytes → List ℤ → List ℤ → List (ℕ × ℕ) ⊎ RejectReason → List MinerMsg
  on_edges job_id h j (inl es) = solve job_id h j es
  on_edges job_id h j (inr reason) = reject_and_replace job_id reason

  -- The fields, the couplings and the deadline.
  abbrev pub on_coefficients :
      ℕ
      → Job
      → Option Graph
      → Option SessionTopo
      → Option (List ℤ)
      → Option (List ℤ)
      → List MinerMsg
  on_coefficients now job graph topo (some h) (some j) =
      if not (job.deadline_ms == 0) && ltb job.deadline_ms now
      then reject_and_replace job.job_id expired
      else on_edges job.job_id h j (resolve_edges graph topo)
  on_coefficients now job graph topo none j = reject_and_replace job.job_id malformed
  on_coefficients now job graph topo (some h) none = reject_and_replace job.job_id malformed

  -- At a time.
  unfoldable pub handle_job : ℕ → Job → Option SessionTopo → List MinerMsg
  unfolding resolve_edges is_outside
  handle_job now job topo =
      let ising = problem_or_default job.ising in
      if not (job.kind == tags.ising_sample)
      then reject_and_replace job.job_id unsupported_kind
      else if not (ising.encoding == tags.i32_encoding) || not (ising.scale == 1000)
      then reject_and_replace job.job_id malformed
      else on_coefficients now job ising.graph topo (protocol.codec.decode_i32_le ising.h)
          (protocol.codec.decode_i32_le ising.j)

  module _ (job_id : Bytes) (generator : Generator) (topo : TopologyMsg) (target : SetTarget)
      (n : ℕ) where
    abbrev pub energy_of : List ℤ × List ℤ → ℤ
    energy_of (h, j) = protocol.energy_from_milli topo (ones n) h j

    abbrev pub winner : Bytes → Bytes → ℤ → List MinerMsg
    winner salt nonce energy =
        if protocol.meets_target target (ones n) energy
        then result job_id (protocol.encode_spins_packed (ones n)) energy salt nonce ∷ []
        else []

    -- The salts that are left, from counter i on.
    unfoldable pub lease_loop : ℕ → ℕ → List MinerMsg → ℕ → ℤ → LeaseEnd
    lease_loop zero i out done best = ended out done best
    lease_loop (suc left) i out done best = elim (protocol.salt generator i) [
      | none ↦ ended out done best
      | some salt ↦ elim (protocol.nonce generator i) [
        | none ↦ ended out done best
        | some nonce ↦ elim (protocol.draw topo nonce) [
          | none ↦ refused
          | some problem ↦
              lease_loop left (i + 1) (out ++ winner salt nonce (energy_of problem)) (done + 1)
                (min_ℤ best (energy_of problem))
        ]
      ]
    ]

  abbrev pub report : Bytes → LeaseEnd → List MinerMsg
  report job_id refused = reject_and_replace job_id malformed
  report job_id (ended out done best) = out ++ lease_done job_id done best ∷ job_request 1 ∷ []

  abbrev pub on_view : Bytes → Generator → TopologyMsg → SetTarget → ℕ → Option ℕ → List MinerMsg
  on_view job_id generator topo target salts none = reject_and_replace job_id malformed
  on_view job_id generator topo target salts (some n) =
      report job_id (lease_loop job_id generator topo target n salts 0 [] 0 i64_max)

  abbrev pub on_spec : Bytes → Generator → TopologyMsg → SetTarget → Option ℕ → List MinerMsg
  on_spec job_id generator topo target none = reject_and_replace job_id malformed
  on_spec job_id generator topo target (some salts) =
      if bytes_eq generator.topology topo.hash
      then on_view job_id generator topo target salts (protocol.num_nodes topo)
      else reject_and_replace job_id topology_mismatch

  abbrev pub on_generator : Bytes → Option Generator → TopologyMsg → SetTarget → List MinerMsg
  on_generator job_id none topo target = reject_and_replace job_id malformed
  on_generator job_id (some generator) topo target =
      on_spec job_id generator topo target (protocol.lease_salts generator)

  abbrev pub on_topology : Job → Option TopologyMsg → SetTarget → List MinerMsg
  on_topology job none target = reject_and_replace job.job_id topology_missing
  on_topology job (some topo) target = on_generator job.job_id job.generator topo target

  unfoldable pub handle_lease : Job → Option TopologyMsg → Option SetTarget → List MinerMsg
  unfolding lease_loop
  handle_lease job topo none = reject_and_replace job.job_id target_missing
  handle_lease job topo (some target) =
      if ltb 0 target.max_proof_solutions
      then on_topology job topo target
      else reject_and_replace job.job_id target_missing
