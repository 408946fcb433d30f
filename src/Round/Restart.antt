-- ===== src/Round/Restart.antt =====
-- What the events that leave the walk do (`RoundState::transition`).
use mathlib.Core.List.{Memᴰ}
use quip_miner.Prelude.{List, [], ◌∷◌, ◌≡◌, refl, ◌↔◌, ◌⊎◌, none, some, arith}
use quip_miner.Round.{
  RoundState, RoundEvent, start_mining, awaiting_q_block, shutdown, new_head, win_pending, failed,
  succeeded, resume, transition, run,
}

-- A transition leads to `AwaitingQBlock` exactly if it is `WinPending` in `StartMining`, or if the
-- machine waits there already and the event is none of `NewHead`, `Resume` and `Shutdown`.
pub transition-awaiting :
    (s : RoundState) (e : RoundEvent)
    → (transition s e ≡ some awaiting_q_block) ↔ (
        ((s ≡ start_mining) × (e ≡ win_pending))
        ⊎ ((s ≡ awaiting_q_block) × ((e ≡ win_pending) ⊎ ((e ≡ failed) ⊎ (e ≡ succeeded)))))
unfolding transition
transition-awaiting s e = (ground arith, ground arith)

run_ends : (s : RoundState) (es : List RoundEvent) → run s es ≡ none → Memᴰ shutdown es
unfolding run transition
run_ends s [] h = cc
run_ends s (shutdown ∷ es) h = Memᴰ.head refl
run_ends s (succeeded ∷ es) h = Memᴰ.tail (run_ends _ es h)
run_ends s (failed ∷ es) h = Memᴰ.tail (run_ends _ es h)
run_ends s (new_head ∷ es) h = Memᴰ.tail (run_ends _ es h)
run_ends s (win_pending ∷ es) h = Memᴰ.tail (run_ends _ es h)
run_ends s (resume ∷ es) h = Memᴰ.tail (run_ends _ es h)

run_shutdown : (s : RoundState) (es : List RoundEvent) → Memᴰ shutdown es → run s es ≡ none
unfolding run transition
run_shutdown s [] m = elim m [ ]
run_shutdown s (e ∷ es) (Memᴰ.head p) = rw (← p)
run_shutdown s (shutdown ∷ es) (Memᴰ.tail m) = refl
run_shutdown s (succeeded ∷ es) (Memᴰ.tail m) = run_shutdown _ es m
run_shutdown s (failed ∷ es) (Memᴰ.tail m) = run_shutdown _ es m
run_shutdown s (new_head ∷ es) (Memᴰ.tail m) = run_shutdown _ es m
run_shutdown s (win_pending ∷ es) (Memᴰ.tail m) = run_shutdown _ es m
run_shutdown s (resume ∷ es) (Memᴰ.tail m) = run_shutdown _ es m

-- From every state the machine ends exactly if some event of the sequence is `Shutdown`.
pub run-none : (s : RoundState) (es : List RoundEvent) → (run s es ≡ none) ↔ Memᴰ shutdown es
run-none s es = (run_ends s es, run_shutdown s es)
