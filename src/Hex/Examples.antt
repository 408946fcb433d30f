-- ===== src/Hex/Examples.antt =====
-- Runs of `crates/quip-coordinator/src/chain/extrinsic.rs` and the round trip at an input.
use quip_miner.Prelude.{[], ◌∷◌, ◌≡◌, refl, inr}
use quip_miner.Hex.{hex_decode, odd_length}

odd_refused : hex_decode (48 ∷ 120 ∷ 97 ∷ []) ≡ inr (odd_length 1)
unfolding hex_decode
odd_refused = refl
