-- ===== src/Sync/Examples.antt =====
-- Runs of `crates/quip-coordinator/src/chain/sync.rs` and the theorem at an input.
use quip_miner.Prelude.{Bool, true, false, List, [], ◌∷◌, Option, none, some, ◌≡◌, refl, replicate}
use quip_miner.Sync.{SyncStatus, synced, unknown, begin, wait_until_synced}
use quip_miner.Sync.History.{first_verdict, wait_until_synced-first_verdict}

abbrev status : Bool → SyncStatus
status is_syncing = record {
  is_syncing = is_syncing;
  peers = 3;
  should_have_peers = true;
  current_block = none;
  highest_block = none;
}

-- The node flaps once before it is done.
abbrev answers : List (Option SyncStatus)
answers =
    some (status true)
    ∷ some (status false)
    ∷ some (status true)
    ∷ some (status false)
    ∷ none
    ∷ some (status false)
    ∷ []

flapping : wait_until_synced answers begin ≡ some synced
unfolding wait_until_synced
flapping = refl

never_answers : wait_until_synced (replicate 13 none) begin ≡ some unknown
unfolding wait_until_synced
never_answers = refl

wait_until_synced-first_verdict_example : wait_until_synced answers begin ≡ first_verdict [] answers
wait_until_synced-first_verdict_example = wait_until_synced-first_verdict answers
