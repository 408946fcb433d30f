-- ===== src/PoolWatch/Hold.antt =====
-- How long a pending proof holds the miners (`PoolWatch::resume_reason` of
-- `crates/quip-coordinator/src/pool_watch.rs`).
use quip_miner.Prelude.{
  ℕ, ◌+◌, ◌≤◌, List, [], ◌∷◌, Option, none, some, ◌≡◌, ◌≢◌, ◌⊎◌, refl, inl, inr, arith,
}
use quip_miner.PoolWatch.{PoolObservation, PoolWatch, ResumeReason, resume_reason, stopped}

-- The polls of a round that waits, up to the one that resumes it, with the reason.
unfoldable pub held_for : List (PoolObservation × ℕ) → PoolWatch → Option ResumeReason
held_for [] w = none
held_for ((observed, block) ∷ polls) w = elim (resume_reason observed block w).1 [
  | some reason ↦ some reason
  | none ↦ held_for polls (resume_reason observed block w).0
]

-- A poll that reaches the block.
abbrev pub Reaches : ℕ → List (PoolObservation × ℕ) → Type 0
Reaches block [] = ⊥
Reaches block ((observed, b) ∷ polls) = (block ≤ b) ⊎ Reaches block polls

held_for-Reaches :
    (since : ℕ) (polls : List (PoolObservation × ℕ)) (w : PoolWatch)
    → w.stopped_at ≡ some since
    → Reaches (since + 2) polls
    → held_for polls w ≢ none
unfolding held_for resume_reason
held_for-Reaches since [] w s r = absurd r
held_for-Reaches since ((observed, block) ∷ polls) w s (inl now) = ground (arith, s, now)
held_for-Reaches since ((observed, block) ∷ polls) w s (inr later) =
    ground (arith, s, held_for-Reaches since polls (resume_reason observed block w).0 s later)

-- Miners stopped at a block are held no longer than up to the first poll two blocks later, whatever
-- the pool shows.
pub held_for-ne-none :
    (since : ℕ) (polls : List (PoolObservation × ℕ)) (w : PoolWatch)
    → Reaches (since + 2) polls
    → held_for polls (stopped since w) ≢ none
unfolding stopped
held_for-ne-none since polls w r =
    held_for-Reaches since polls (record w { stopped_at = some since; clear_polls = 0 }) refl r
