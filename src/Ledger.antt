-- ===== src/Ledger.antt =====
-- The ledger of refused submissions: `SubmitLedger` of
-- `crates/quip-coordinator/src/chain/outcome.rs`. The two ordered maps are association lists, the
-- outer one keyed by the number of a quantum block, the inner ones by job ids.
pub mod Counts
mod Examples
use quip_miner.Prelude.{
  ℕ, suc, ◌-◌, Bool, true, false, List, [], ◌∷◌, Option, none, some, max, leb, ◌==◌, if◌then◌else◌,
  length,
}
use quip_miner.Prelude.Bytes.{Bytes}
use quip_miner.Prelude.Assoc.{get, insert, remove}
use quip_miner.Router.State.{add_u32}

abbrev pub qblock_retention : ℕ
qblock_retention = 8

pub data SubmitAction : Type 0 where
  success : SubmitAction
  retry : SubmitAction
  stop_round_stale : SubmitAction
  stop_fatal : SubmitAction

abbrev pub Blocks : Type 0
Blocks = List (ℕ × List (Bytes × ℕ))

pub record SubmitLedger : Type 0 where
  pub max_attempts : ℕ
  pub counts : Blocks

abbrev pub empty_ledger : ℕ → SubmitLedger
empty_ledger max_attempts = record { max_attempts = max max_attempts 1; counts = [] }

-- `counts.get(&q)`.
unfoldable pub get_block : ℕ → Blocks → Option (List (Bytes × ℕ))
get_block q [] = none
get_block q ((b, jobs) ∷ m) = if b == q then some jobs else get_block q m

-- `counts.insert(q, jobs)`.
unfoldable pub put_block : ℕ → List (Bytes × ℕ) → Blocks → Blocks
put_block q jobs [] = (q, jobs) ∷ []
put_block q jobs ((b, old) ∷ m) = if b == q then (b, jobs) ∷ m else (b, old) ∷ put_block q jobs m

-- `retain(|q, _| *q >= cutoff)`.
unfoldable pub retain_from : ℕ → Blocks → Blocks
retain_from cutoff [] = []
retain_from cutoff ((b, jobs) ∷ m) =
    let rest = retain_from cutoff m in if leb cutoff b then (b, jobs) ∷ rest else rest

-- `unwrap_or(0)` and `or_insert(0)`.
abbrev pub count_of : Bytes → List (Bytes × ℕ) → ℕ
count_of job_id jobs = elim (get job_id jobs) [ none ↦ 0 | some n ↦ n ]

abbrev pub or_default : Option (List (Bytes × ℕ)) → List (Bytes × ℕ)
or_default none = []
or_default (some jobs) = jobs

-- The last block that `prune` drops lies before this one.
abbrev pub cutoff_of : ℕ → ℕ
cutoff_of newest = newest - (qblock_retention - 1)

unfoldable pub prune : ℕ → SubmitLedger → SubmitLedger
unfolding retain_from
prune newest l = record l { counts = retain_from (cutoff_of newest) l.counts }

unfoldable pub attempts : SubmitLedger → ℕ → Bytes → ℕ
attempts l qblock_id job_id = elim (get_block qblock_id l.counts) [
  | none ↦ 0
  | some jobs ↦ count_of job_id jobs
]

-- The entry of the block with the job counted once more.
abbrev pub counted : ℕ → Bytes → SubmitLedger → SubmitLedger
counted qblock_id job_id l =
    let jobs = or_default (get_block qblock_id l.counts) in
    record l {
      counts = put_block qblock_id (insert job_id (add_u32 (count_of job_id jobs) 1) jobs) l.counts;
    }

unfoldable pub record_failure : ℕ → Bytes → SubmitLedger → SubmitLedger × SubmitAction
unfolding prune
record_failure qblock_id job_id l =
    let n = add_u32 (count_of job_id (or_default (get_block qblock_id l.counts))) 1 in
    (
      prune qblock_id (counted qblock_id job_id l),
      if leb l.max_attempts n then stop_fatal else retry,
    )

unfoldable pub record_success : ℕ → Bytes → SubmitLedger → SubmitLedger
record_success qblock_id job_id l = elim (get_block qblock_id l.counts) [
  | none ↦ l
  | some jobs ↦ record l { counts = put_block qblock_id (remove job_id jobs) l.counts }
]

unfoldable pub tracked_qblocks : SubmitLedger → ℕ
tracked_qblocks l = length l.counts
