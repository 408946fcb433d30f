-- ===== src/Ledger/Examples.antt =====
-- Runs of `crates/quip-coordinator/src/chain/outcome.rs` and the theorems at an input.
use quip_miner.Prelude.{ℕ, List, [], ◌∷◌, ◌≡◌, refl, arith}
use quip_miner.Prelude.Bytes.{Bytes}
use quip_miner.Ledger.{
  SubmitLedger, stop_fatal, retry, attempts, record_failure, record_success, empty_ledger,
  tracked_qblocks,
}
use quip_miner.Ledger.Counts.{fail_times, record_failure-fail_times}

abbrev job : Bytes
job = 7 ∷ []

abbrev failed_twice : SubmitLedger
failed_twice = fail_times 2 90 job (empty_ledger 3)

record_failure-fail_times_example : (record_failure 90 job failed_twice).1 ≡ stop_fatal
record_failure-fail_times_example = record_failure-fail_times 2 90 job 3 (omega arith)

-- Failures in the blocks from the last given to the first.
late_failures : List ℕ → SubmitLedger
late_failures [] = empty_ledger 3
late_failures (q ∷ qs) = (record_failure q job (late_failures qs)).0

-- A failure in an older block drops none of the newer ones: nine blocks are kept.
nine_kept : tracked_qblocks (late_failures (92 ∷ 93 ∷ 94 ∷ 95 ∷ 96 ∷ 97 ∷ 98 ∷ 99 ∷ 100 ∷ [])) ≡ 9
unfolding tracked_qblocks late_failures record_failure quip_miner.Ledger.put_block
nine_kept = refl
