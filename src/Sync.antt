-- ===== src/Sync.antt =====
-- The wait for the validator: `wait_until_synced` of `crates/quip-coordinator/src/chain/sync.rs`. The
-- node's answers by poll are the input, none for an error. Times are seconds; what is only written to
-- the log (the time waited, the reports) is left out.
pub mod History
mod Examples
use quip_miner.Prelude.{
  ℕ, suc, ◌+◌, ◌-◌, ◌*◌, Bool, true, false, not, ◌&&◌, ◌||◌, List, [], ◌∷◌, Option, none, some, ltb,
  leb, if◌then◌else◌,
}
use quip_miner.Router.State.{add_u32}

abbrev pub poll_interval : ℕ
poll_interval = 5

abbrev pub unreachable_grace : ℕ
unreachable_grace = 60

abbrev pub synced_confirmations : ℕ
synced_confirmations = 2

pub record SyncStatus : Type 0 where
  pub is_syncing : Bool
  pub peers : ℕ
  pub should_have_peers : Bool
  pub current_block : Option ℕ
  pub highest_block : Option ℕ

-- `unknown` is without its text.
pub data SyncOutcome : Type 0 where
  synced : SyncOutcome
  unknown : SyncOutcome

-- The variables of the loop.
pub record Wait : Type 0 where
  pub unreachable_for : ℕ
  pub saw_syncing : Bool
  pub clear_polls : ℕ

abbrev pub begin : Wait
begin = record { unreachable_for = 0; saw_syncing = false; clear_polls = 0 }

abbrev pub on_status : SyncStatus → Wait → Wait
on_status status w =
    if status.is_syncing
    then record w { unreachable_for = 0; saw_syncing = true; clear_polls = 0 }
    else record w { unreachable_for = 0; clear_polls = add_u32 w.clear_polls 1 }

abbrev pub after_poll : Option SyncStatus → Wait → Wait
after_poll none w = record w { unreachable_for = w.unreachable_for + poll_interval }
after_poll (some status) w = on_status status w

-- Whether the loop returns, with the variables after the poll.
abbrev pub returned : Option SyncStatus → Wait → Option SyncOutcome
returned none w = if ltb unreachable_grace w.unreachable_for then some unknown else none
returned (some status) w =
    if not status.is_syncing && (not w.saw_syncing || leb synced_confirmations w.clear_polls)
    then some synced
    else none

-- None where the loop still waits at the end of the answers.
unfoldable pub wait_until_synced : List (Option SyncStatus) → Wait → Option SyncOutcome
wait_until_synced [] w = none
wait_until_synced (answer ∷ answers) w = elim (returned answer (after_poll answer w)) [
  | some outcome ↦ some outcome
  | none ↦ wait_until_synced answers (after_poll answer w)
]
