-- ===== src/PoolWatch.antt =====
-- The judgement of pending proofs: `crates/quip-coordinator/src/pool_watch.rs`. The consensus crates
-- are parameters. The reason of a malformed proof, a text for the log, is left out.
pub mod Scans
pub mod Lowest
pub mod Expiry
pub mod Hold
mod Examples
use quip_miner.Prelude.{
  ℕ, zero, suc, ◌+◌, ◌-◌, min, max, Bool, true, false, not, ◌&&◌, ◌||◌, List, [], ◌∷◌, ◌++◌, Option,
  none, some, leb, ◌==◌, if◌then◌else◌, length,
}
use quip_miner.Prelude.Int.{ℤ, pos, negsuc, ltb_ℤ}
use quip_miner.Prelude.Bytes.{Bytes, bytes_eq}
use quip_miner.Prelude.Assoc.{get, insert}
use quip_miner.Router.State.{u32_max, add_u32}
use quip_miner.Stash.{SpinRow}
use quip_miner.Validate.{Diversity, lowest, spins_of, pick}
use quip_miner.Snapshot.{MiningSnapshot, QuantumProof, PendingProof}

pub data Verdict : Type 0 where
  clears : ℤ → Verdict
  other_round : Verdict
  below_gates : Verdict
  malformed : Verdict

-- The functions of the consensus crates, and the hash behind `account_identity_bytes`; none is an
-- error.
pub record Consensus : Type 1 where
  pub Index : Type 0
  pub account_identity_bytes : Bytes → Bytes
  pub derive_nonce : Bytes → Bytes → Bytes → ℕ
  pub topology_index : List ℕ → List (ℕ × ℕ) → Option Index
  pub generate_model :
      ℕ → List ℕ → List (ℕ × ℕ) → List ℤ → List ℤ → Index → Option (List ℤ × List ℤ)
  pub unpack_solution : Bytes → ℕ → List ℤ → Option (List ℤ)
  pub energy_of_solution : List ℤ → List ℤ → List (ℕ × ℕ) → List ℤ → Index → Option ℤ
  pub diversity : Diversity

-- `signum` of every value; none where one is zero.
unfoldable pub signs : List ℤ → Option (List ℤ)
signs [] = some []
signs (pos zero ∷ vs) = none
signs (pos (suc n) ∷ vs) = elim (signs vs) [ none ↦ none | some ss ↦ some (pos 1 ∷ ss) ]
signs (negsuc n ∷ vs) = elim (signs vs) [ none ↦ none | some ss ↦ some (negsuc 0 ∷ ss) ]

pub record Clearing : Type 0 where
  pub account : Bytes
  pub nonce : ℕ
  pub best_energy_milli : ℤ

pub data PoolObservation : Type 0 where
  clearing : PoolObservation
  clear : PoolObservation
  unknown : PoolObservation

pub data ResumeReason : Type 0 where
  pool_clear : ResumeReason
  blocks_elapsed : ResumeReason

abbrev pub await_clear_polls : ℕ
await_clear_polls = 2

abbrev pub await_qblock_max_blocks : ℕ
await_qblock_max_blocks = 2

pub record PoolWatch : Type 0 where
  pub root : Option Bytes
  pub verdicts : List (Bytes × Option Clearing)
  pub ignored : List (Bytes × ℕ)
  pub stopped_at : Option ℕ
  pub clear_polls : ℕ

unfoldable pub new : PoolWatch
new = record { root = none; verdicts = []; ignored = []; stopped_at = none; clear_polls = 0 }

unfoldable pub is_ignored : Bytes → ℕ → List (Bytes × ℕ) → Bool
is_ignored account nonce [] = false
is_ignored account nonce ((a, n) ∷ rest) =
    (bytes_eq a account && n == nonce) || is_ignored account nonce rest

-- `best`, or the clearing proof where it has less energy.
unfoldable pub better : Option Clearing → Option Clearing → Option Clearing
better none best = best
better (some c) none = some c
better (some c) (some b) = if ltb_ℤ c.best_energy_milli b.best_energy_milli then some c else some b

-- What of a verdict is kept: none for one that is not cached.
abbrev pub cached : PendingProof → Verdict → Option (Option Clearing)
cached p (clears e) =
    some (some (record { account = p.account; nonce = p.proof.nonce; best_energy_milli = e }))
cached p other_round = some none
cached p below_gates = none
cached p malformed = some none

abbrev pub same_root : Option Bytes → Bytes → Bool
same_root none root = false
same_root (some r) root = bytes_eq r root

-- The verdicts are forgotten where the root has changed.
unfoldable pub on_root : Bytes → PoolWatch → PoolWatch
on_root root w =
    if same_root w.root root then w else record w { root = some root; verdicts = []; ignored = [] }

-- The two halves of `retain`: what stays, and what is added to the ignored proofs.
unfoldable pub not_clearing : List (Bytes × Option Clearing) → List (Bytes × Option Clearing)
not_clearing [] = []
not_clearing ((h, none) ∷ m) = (h, none) ∷ not_clearing m
not_clearing ((h, some c) ∷ m) = not_clearing m

unfoldable pub add_clearing : List (Bytes × Option Clearing) → List (Bytes × ℕ) → List (Bytes × ℕ)
add_clearing [] ignored = ignored
add_clearing ((h, none) ∷ m) ignored = add_clearing m ignored
add_clearing ((h, some c) ∷ m) ignored = (c.account, c.nonce) ∷ add_clearing m ignored

unfoldable pub expire_clearing : PoolWatch → PoolWatch
unfolding not_clearing add_clearing
expire_clearing w = record w {
  verdicts = not_clearing w.verdicts;
  ignored = add_clearing w.verdicts w.ignored;
}

unfoldable pub stopped : ℕ → PoolWatch → PoolWatch
stopped block w = record w { stopped_at = some block; clear_polls = 0 }

abbrev pub count_poll : PoolObservation → ℕ → ℕ
count_poll clearing polls = 0
count_poll clear polls = add_u32 polls 1
count_poll unknown polls = polls

abbrev pub reason_of : PoolWatch → ℕ → Option ResumeReason
reason_of w block =
    if leb await_clear_polls w.clear_polls then some pool_clear else elim w.stopped_at [
      | none ↦ none
      | some since ↦
          if leb await_qblock_max_blocks (block - since) then some blocks_elapsed else none
    ]

unfoldable pub resume_reason : PoolObservation → ℕ → PoolWatch → PoolWatch × Option ResumeReason
resume_reason observed block w =
    let w' = record w { clear_polls = count_poll observed w.clear_polls } in
    (w', reason_of w' block)

module _ (crate : Consensus) where
  open crate use {Index}

  -- The rows under the ceiling with their energies; none where the pallet refuses one.
  unfoldable pub valid_rows :
      MiningSnapshot → Index → List ℤ → List ℤ → List Bytes → Option (List SpinRow)
  unfolding signs
  valid_rows snap index h j [] = some []
  valid_rows snap index h j (packed ∷ rest) = elim (valid_rows snap index h j rest) [
    | none ↦ none
    | some rows ↦ elim (crate.unpack_solution packed (length snap.nodes) snap.allowed_spin_milli) [
      | none ↦ none
      | some milli ↦ elim (signs milli) [
        | none ↦ none
        | some spins ↦ elim (crate.energy_of_solution spins h snap.edges j index) [
          | none ↦ none
          | some energy ↦ some (
              if ltb_ℤ energy snap.max_energy_milli
              then record { spins = spins; energy_milli = energy } ∷ rows
              else rows)
        ]
      ]
    ]
  ]

  -- The count and the diversity of the rows.
  unfoldable pub gated : MiningSnapshot → List SpinRow → ℤ → Verdict
  gated snap rows best =
      elim (crate.diversity.select_diverse (spins_of rows)
        (min (length rows) (max snap.min_solutions 1))) [
          | none ↦ malformed
          | some selected ↦
              elim (crate.diversity.calculate_diversity (pick selected (spins_of rows))) [
                | none ↦ malformed
                | some diversity ↦
                    if leb snap.min_solutions (min (length rows) u32_max)
                      && leb snap.min_diversity_milli diversity
                    then clears best
                    else below_gates
              ]
        ]

  unfoldable pub score : QuantumProof → MiningSnapshot → Verdict
  unfolding valid_rows gated
  score proof snap = elim (crate.topology_index snap.nodes snap.edges) [
    | none ↦ malformed
    | some index ↦
        elim (crate.generate_model proof.nonce snap.nodes snap.edges snap.allowed_h_milli
          snap.allowed_j_milli index) [
            | none ↦ malformed
            | some (h, j) ↦ elim (valid_rows snap index h j proof.solutions) [
              | none ↦ malformed
              | some rows ↦ elim (lowest rows) [
                | none ↦ below_gates
                | some best ↦ gated snap rows best
              ]
            ]
          ]
  ]

  unfoldable pub judge_pending_proof : PendingProof → MiningSnapshot → Verdict
  unfolding score
  judge_pending_proof pending snap =
      if not (bytes_eq pending.proof.topology_hash snap.topology_hash)
      then other_round
      else if pending.proof.nonce
          == crate.derive_nonce snap.last_proof_block_hash
              (crate.account_identity_bytes pending.account) pending.proof.salt
      then score pending.proof snap
      else other_round

  -- The verdict on a proof that is not ignored, and the cache after it.
  unfoldable pub look_up :
      PendingProof
      → MiningSnapshot
      → List (Bytes × Option Clearing)
      → List (Bytes × Option Clearing) × Option Clearing
  unfolding judge_pending_proof
  look_up p snap verdicts = elim (get p.extrinsic_hash verdicts) [
    | some verdict ↦ (verdicts, verdict)
    | none ↦ elim (cached p (judge_pending_proof p snap)) [
      | none ↦ (verdicts, none)
      | some verdict ↦ (insert p.extrinsic_hash verdict verdicts, verdict)
    ]
  ]

  unfoldable pub scan_loop :
      List PendingProof → MiningSnapshot → PoolWatch → Option Clearing → PoolWatch × Option Clearing
  unfolding look_up better is_ignored
  scan_loop [] snap w best = (w, best)
  scan_loop (p ∷ ps) snap w best = elim (is_ignored p.account p.proof.nonce w.ignored) [
    | true ↦ scan_loop ps snap w best
    | false ↦
        let (verdicts, verdict) = look_up p snap w.verdicts in
        scan_loop ps snap (record w { verdicts = verdicts }) (better verdict best)
  ]

  unfoldable pub scan : List PendingProof → MiningSnapshot → PoolWatch → PoolWatch × Option Clearing
  unfolding scan_loop on_root
  scan pending snap w = scan_loop pending snap (on_root snap.last_proof_block_hash w) none
