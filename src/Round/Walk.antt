-- ===== src/Round/Walk.antt =====
-- The pre-mining walk (`RoundEvent::Succeeded` from state to state).
use quip_miner.Prelude.{ℕ, suc, ◌≤◌, List, [], ◌∷◌, replicate, ◌≡◌, refl, ◌≢◌, some, arith}
use quip_miner.Round.{
  RoundState, RoundEvent, stop_mining, validator_synced, account_funded, miner_registered,
  requirements_downloaded, descriptor_filed, start_mining, awaiting_q_block, succeeded, failed,
  new_head, shutdown, win_pending, resume, start, transition, run,
}

-- Six steps that succeed lead to mining, from every state but `AwaitingQBlock`.
pub run-succeeded :
    (s : RoundState) → s ≢ awaiting_q_block → run s (replicate 6 succeeded) ≡ some start_mining
unfolding run transition
run-succeeded awaiting_q_block h = absurd (h refl)
run-succeeded start_mining h = refl
run-succeeded _ h = refl

-- The successes seen after the last `NewHead`, counted on from `n`.
abbrev pub successes : ℕ → List RoundEvent → ℕ
successes n [] = n
successes n (succeeded ∷ es) = successes (suc n) es
successes n (new_head ∷ es) = successes 0 es
successes n (failed ∷ es) = successes n es
successes n (shutdown ∷ es) = successes n es
successes n (win_pending ∷ es) = successes n es
successes n (resume ∷ es) = successes n es

-- How many steps of the walk are behind a state.
abbrev rank : RoundState → ℕ
rank stop_mining = 0
rank validator_synced = 1
rank account_funded = 2
rank miner_registered = 3
rank requirements_downloaded = 4
rank descriptor_filed = 5
rank start_mining = 6
rank awaiting_q_block = 6

rank-run :
    (s t : RoundState) (n : ℕ) (es : List RoundEvent)
    → rank s ≤ n
    → run s es ≡ some t
    → rank t ≤ successes n es
unfolding run transition
rank-run s t n [] h e = ground arith
rank-run s t n (succeeded ∷ es) h e = rank-run _ t (suc n) es (ground arith) e
rank-run s t n (new_head ∷ es) h e = rank-run stop_mining t 0 es (omega arith) e
rank-run s t n (failed ∷ es) h e = rank-run s t n es h e
rank-run s t n (shutdown ∷ es) h e = cc
rank-run s t n (win_pending ∷ es) h e = rank-run _ t n es (ground arith) e
rank-run s t n (resume ∷ es) h e = rank-run _ t n es (ground arith) e

-- No step of the walk is skipped: a machine that mines after some events has seen at least six
-- successes since the last new head among them.
pub mining_needs_walk :
    (es : List RoundEvent) → run start es ≡ some start_mining → 6 ≤ successes 0 es
unfolding start
mining_needs_walk es h = rank-run stop_mining start_mining 0 es (omega arith) h
