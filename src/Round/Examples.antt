-- ===== src/Round/Examples.antt =====
-- Runs of the machine of `crates/quip-coordinator/src/round.rs`, and its theorems at an input.
use quip_miner.Prelude.{◌≤◌, List, [], ◌∷◌, ◌++◌, replicate, ◌≡◌, refl, some}
use quip_miner.Round.{
  RoundEvent, stop_mining, awaiting_q_block, succeeded, failed, new_head, win_pending, resume,
  start, transition, run,
}
use quip_miner.Round.Walk.{successes, mining_needs_walk}

abbrev full_round : List RoundEvent
full_round = new_head ∷ failed ∷ replicate 6 succeeded

win_pending_waits : run start (full_round ++ win_pending ∷ []) ≡ some awaiting_q_block
unfolding run transition start
win_pending_waits = refl

resume_restarts : run start (full_round ++ win_pending ∷ resume ∷ []) ≡ some stop_mining
unfolding run transition start
resume_restarts = refl

mining_needs_walk_example : 6 ≤ successes 0 full_round
unfolding run transition start
mining_needs_walk_example = mining_needs_walk full_round refl
