-- ===== src/Mempool/Fixtures.antt =====
-- An order and a codec for the runs and the witnesses about mempool orders
-- (`crates/quip-coordinator/src/chain/mempool.rs`).
use quip_miner.Prelude.{[], ◌∷◌, none, some}
use quip_miner.Prelude.Int.{pos}
use quip_miner.Wire.{Codec}
use quip_miner.Mempool.{JobOrder, open_to_all}

abbrev pub plain_codec : Codec
plain_codec = record {
  decode_i32_le = λ bytes. none;
  encode_i32_le = λ values. [];
  decode_spins_packed = λ bytes n. none;
}

abbrev pub order : JobOrder
order = record {
  order_id = 4 ∷ [];
  mode = open_to_all;
  nodes = 7 ∷ 3 ∷ 9 ∷ [];
  edges = (7, 3) ∷ (9, 7) ∷ [];
  h_milli = [];
  j_milli = [];
  min_energy_milli = some (pos 500);
  min_diversity_milli = none;
  min_solutions = none;
  deadline_ms = 0;
}
