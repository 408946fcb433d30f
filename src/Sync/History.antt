-- ===== src/Sync/History.antt =====
-- The wait's outcome from the history of the answers alone (`wait_until_synced` of
-- `crates/quip-coordinator/src/chain/sync.rs`).
use quip_miner.Prelude.{
  ℕ, suc, ◌*◌, min, Bool, false, not, ◌&&◌, ◌||◌, List, [], ◌∷◌, Option, none, some, ◌≡◌, refl, inl,
  inr, leb, if◌then◌else◌, Bool-cases, Option-cases, arith,
}
use quip_miner.Router.State.{u32_max}
use quip_miner.Sync.{
  SyncStatus, SyncOutcome, synced, unknown, Wait, begin, after_poll, returned, wait_until_synced,
  poll_interval,
}

-- A history lists the answers so far, the last one first.
-- The errors in a row at its end.
unfoldable pub errors : List (Option SyncStatus) → ℕ
errors [] = 0
errors (none ∷ answers) = suc (errors answers)
errors (some status ∷ answers) = 0

-- Whether the node has reported that it syncs.
unfoldable pub has_synced : List (Option SyncStatus) → Bool
has_synced [] = false
has_synced (none ∷ answers) = has_synced answers
has_synced (some status ∷ answers) = status.is_syncing || has_synced answers

-- The answers since that it does not. An error between two of them neither counts nor starts the count
-- again.
unfoldable pub clears : List (Option SyncStatus) → ℕ
clears [] = 0
clears (none ∷ answers) = clears answers
clears (some status ∷ answers) = if status.is_syncing then 0 else suc (clears answers)

-- The outcome after a history, none for another poll: a node that never synced is believed at its
-- first answer, one that did at its second clear one, with any errors between, and after thirteen
-- errors in a row the wait is given up.
unfoldable pub verdict : List (Option SyncStatus) → Option SyncOutcome
unfolding errors has_synced clears
verdict [] = none
verdict (none ∷ answers) = if leb 13 (errors (none ∷ answers)) then some unknown else none
verdict (some status ∷ answers) =
    if not status.is_syncing && (not (has_synced answers) || leb 2 (clears (some status ∷ answers)))
    then some synced
    else none

unfoldable pub first_verdict :
    List (Option SyncStatus) → List (Option SyncStatus) → Option SyncOutcome
unfolding verdict
first_verdict history [] = none
first_verdict history (answer ∷ answers) = elim (verdict (answer ∷ history)) [
  | some outcome ↦ some outcome
  | none ↦ first_verdict (answer ∷ history) answers
]

record Agrees (history : List (Option SyncStatus)) (w : Wait) : Type 0 where
  unreachable : w.unreachable_for ≡ poll_interval * errors history
  syncing : w.saw_syncing ≡ has_synced history
  cleared : w.clear_polls ≡ min (clears history) u32_max

polled-Agrees :
    (history : List (Option SyncStatus)) (w : Wait) (answer : Option SyncStatus)
    → Agrees history w
    → Agrees (answer ∷ history) (after_poll answer w)
unfolding errors has_synced clears
polled-Agrees history w none a = record {
  unreachable = omega (arith, a.unreachable);
  syncing = a.syncing;
  cleared = a.cleared;
}
polled-Agrees history w (some status) a = elim (Bool-cases status.is_syncing) [
  | inl y ↦ rw y (record { unreachable = omega arith; syncing = refl; cleared = omega arith })
  | inr f ↦ rw f (record {
    unreachable = omega arith;
    syncing = a.syncing;
    cleared = omega (arith, a.cleared);
  })
]

returned-verdict :
    (history : List (Option SyncStatus)) (w : Wait) (answer : Option SyncStatus)
    → Agrees history w
    → returned answer (after_poll answer w) ≡ verdict (answer ∷ history)
unfolding verdict errors has_synced clears
returned-verdict history w none a = ground (arith, a.unreachable)
returned-verdict history w (some status) a = ground (arith, a.syncing, a.cleared)

wait-first_verdict_from :
    (history answers : List (Option SyncStatus)) (w : Wait)
    → Agrees history w
    → wait_until_synced answers w ≡ first_verdict history answers
unfolding wait_until_synced first_verdict
wait-first_verdict_from history [] w a = refl
wait-first_verdict_from history (answer ∷ answers) w a =
    let now = returned-verdict history w answer a in
    let later =
      wait-first_verdict_from (answer ∷ history) answers (after_poll answer w)
        (polled-Agrees history w answer a) in
    elim (Option-cases (verdict (answer ∷ history))) [
      | inl e ↦ rw (wait_until_synced, first_verdict, now, e) later
      | inr (outcome, e) ↦ rw (wait_until_synced, first_verdict, now, e) refl
    ]

-- The wait ends as the history of the answers demands: at the first clear answer if the node never
-- reported that it syncs, else at the second since the last such report, however many polls failed
-- between the two, and without an answer after thirteen errors in a row.
pub wait_until_synced-first_verdict :
    (answers : List (Option SyncStatus))
    → wait_until_synced answers begin ≡ first_verdict [] answers
wait_until_synced-first_verdict answers = wait-first_verdict_from [] answers begin (record {
  unreachable = unfold errors in omega arith;
  syncing = unfold has_synced in refl;
  cleared = unfold clears in omega arith;
})
