-- ===== src/Mempool/Examples.antt =====
-- Runs of `crates/quip-coordinator/src/producer/mempool.rs` and the theorem at an input: an order over
-- the nodes 7, 3 and 9.
use quip_miner.Prelude.{[], ◌∷◌, none, some, ◌≡◌, refl}
use quip_miner.Wire.{Job}
use quip_miner.Router.Fixtures.{tags}
use quip_miner.Mempool.{order_job, job_order_to_job}
use quip_miner.Mempool.Fixtures.{plain_codec, order}
use quip_miner.Mempool.Positions.{job_edges, job_edges-job_order_to_job}

abbrev dense : Job
dense = order_job tags plain_codec order (0 ∷ 2 ∷ []) (1 ∷ 0 ∷ [])

converted : job_order_to_job tags plain_codec order ≡ some dense
unfolding job_order_to_job
converted = refl

-- A node that stands twice.
repeated : job_order_to_job tags plain_codec (record order { nodes = 7 ∷ 3 ∷ 7 ∷ [] }) ≡ none
unfolding job_order_to_job
repeated = refl

job_edges-job_order_to_job_example : job_edges order.nodes dense ≡ some order.edges
job_edges-job_order_to_job_example =
    job_edges-job_order_to_job tags plain_codec order dense converted
