-- ===== src/Round.antt =====
-- The state machine of a mining round: `crates/quip-coordinator/src/round.rs`. `transition` follows
-- `RoundState::transition`; a log line is no step of the machine and is left out.
pub mod Walk
pub mod Restart
mod Examples
use quip_miner.Prelude.{List, [], ◌∷◌, Option, none, some}

pub data RoundState : Type 0 where
  stop_mining validator_synced account_funded miner_registered : RoundState
  requirements_downloaded descriptor_filed start_mining awaiting_q_block : RoundState

pub data RoundEvent : Type 0 where
  succeeded failed new_head shutdown win_pending resume : RoundEvent

unfoldable pub start : RoundState
start = stop_mining

-- The three inner matches of `transition`.
abbrev on_win_pending : RoundState → RoundState
on_win_pending start_mining = awaiting_q_block
on_win_pending other = other

abbrev on_resume : RoundState → RoundState
on_resume awaiting_q_block = stop_mining
on_resume other = other

abbrev on_succeeded : RoundState → RoundState
on_succeeded stop_mining = validator_synced
on_succeeded validator_synced = account_funded
on_succeeded account_funded = miner_registered
on_succeeded miner_registered = requirements_downloaded
on_succeeded requirements_downloaded = descriptor_filed
on_succeeded descriptor_filed = start_mining
on_succeeded start_mining = start_mining
on_succeeded awaiting_q_block = awaiting_q_block

-- `none` is the end of the machine.
unfoldable pub transition : RoundState → RoundEvent → Option RoundState
transition s shutdown = none
transition s new_head = some stop_mining
transition s failed = some s
transition s win_pending = some (on_win_pending s)
transition s resume = some (on_resume s)
transition s succeeded = some (on_succeeded s)

-- The machine fed a sequence of events, until it ends.
unfoldable pub run : RoundState → List RoundEvent → Option RoundState
run s [] = some s
run s (e ∷ es) = elim (transition s e) [ none ↦ none | some t ↦ run t es ]
