-- ===== src/Liveness/Examples.antt =====
-- Runs of `crates/quip-coordinator/src/liveness.rs` and the theorems at an input.
use quip_miner.Prelude.{ℕ, ◌+◌, List, [], ◌∷◌, Option, none, some, true, false, ◌≡◌, refl}
use quip_miner.Prelude.Bytes.{Bytes}
use quip_miner.Liveness.{
  MinerLiveness, entered_paused, stale_round, state_key, reason_key, generation_key, paused_value,
  evaluate_status, parse_u64,
}

abbrev unpaused : MinerLiveness
unpaused = record { paused = false; reason = none; generation = none }

-- Paused for the reason "b", in generation 3.
abbrev paused_stats : List (Bytes × Bytes)
paused_stats = (state_key, paused_value) ∷ (reason_key, 98 ∷ []) ∷ (generation_key, 51 ∷ []) ∷ []

abbrev mining_stats : List (Bytes × Bytes)
mining_stats = (state_key, 109 ∷ []) ∷ (generation_key, 43 ∷ 52 ∷ []) ∷ []

plus_sign : parse_u64 (43 ∷ 52 ∷ []) ≡ some 4
unfolding parse_u64
plus_sign = refl

paused_and_stale :
    (evaluate_status unpaused paused_stats 5).1
    ≡ entered_paused (some (98 ∷ [])) ∷ stale_round 3 5 ∷ []
unfolding evaluate_status quip_miner.Liveness.is_paused quip_miner.Prelude.Assoc.get
    quip_miner.Prelude.Bytes.bytes_eq quip_miner.Liveness.reported_generation parse_u64
paused_and_stale = refl

abbrev two_reports : List (List (Bytes × Bytes) × ℕ)
two_reports = (paused_stats, 5) ∷ (mining_stats, 5) ∷ []
