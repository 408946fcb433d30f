-- ===== src/Feeder/Drive.antt =====
-- The walk from a new round to mining (`drive_to_mining` of
-- `crates/quip-coordinator/src/runtime.rs`), where no session steps between.
use quip_miner.Prelude.{
  ℕ, ◌+◌, ◌≤◌, Bool, true, false, ◌&&◌, List, [], ◌∷◌, Option, none, some, ◌≡◌, ◌≢◌, refl, inl, inr,
  if◌then◌else◌, All, Bool-cases, Option-cases, arith,
}
use quip_miner.Snapshot.{MiningSnapshot}
use quip_miner.Session.{CoordinatorState}
use quip_miner.Round.{
  RoundState, stop_mining, validator_synced, account_funded, miner_registered,
  requirements_downloaded, descriptor_filed, start_mining, awaiting_q_block, transition,
}
use quip_miner.Feeder.{Answers, WalkEnd, mining, drive_to_mining, state_after}

-- A walk in one of the last two states holds a snapshot.
abbrev pub Holds : RoundState → Option MiningSnapshot → Type 0
Holds descriptor_filed held = held ≢ none
Holds start_mining held = held ≢ none
Holds _ held = Unit

abbrev is_there : Option MiningSnapshot → Bool
is_there none = false
is_there (some s) = true

-- Every step succeeds in the pass.
abbrev is_good : Answers → Bool
is_good a = a.funded && a.registered && is_there a.snapshot

unfoldable pub goods : List Answers → ℕ
goods [] = 0
goods (a ∷ as') = (if is_good a then 1 else 0) + goods as'

-- The steps from a state to mining.
abbrev pub steps_left : RoundState → ℕ
steps_left awaiting_q_block = 7
steps_left stop_mining = 6
steps_left validator_synced = 5
steps_left account_funded = 4
steps_left miner_registered = 3
steps_left requirements_downloaded = 2
steps_left descriptor_filed = 1
steps_left start_mining = 0

abbrev Arrives : CoordinatorState × WalkEnd → Type 0
Arrives (s, e) = (snap : MiningSnapshot) × (e ≡ mining (some snap))

held-Arrives :
    (held : Option MiningSnapshot) (s : CoordinatorState) → held ≢ none → Arrives (s, mining held)
held-Arrives none s h = absurd (h refl)
held-Arrives (some snap) s h = (snap, refl)

-- A walk that is not told to stop, and in which as many passes as there are steps left find every
-- step successful, leads to mining with a snapshot, however often steps fail between.
pub drive_to_mining-Arrives :
    (as' : List Answers) (machine : RoundState) (generation : ℕ) (held : Option MiningSnapshot)
    (s : CoordinatorState)
    → Holds machine held
    → All (λ a. a.stop ≡ false) as'
    → steps_left machine ≤ goods as'
    → Arrives (drive_to_mining as' machine generation held s)
unfolding drive_to_mining goods transition
drive_to_mining-Arrives [] start_mining generation held s h o g = held-Arrives held s h
drive_to_mining-Arrives (a ∷ as') start_mining generation held s h o g = held-Arrives held s h
drive_to_mining-Arrives [] stop_mining generation held s h o g = absurd (omega arith)
drive_to_mining-Arrives [] validator_synced generation held s h o g = absurd (omega arith)
drive_to_mining-Arrives [] account_funded generation held s h o g = absurd (omega arith)
drive_to_mining-Arrives [] miner_registered generation held s h o g = absurd (omega arith)
drive_to_mining-Arrives [] requirements_downloaded generation held s h o g = absurd (omega arith)
drive_to_mining-Arrives [] descriptor_filed generation held s h o g = absurd (omega arith)
drive_to_mining-Arrives [] awaiting_q_block generation held s h o g = absurd (omega arith)
drive_to_mining-Arrives (a ∷ as') awaiting_q_block generation held s h o g =
    rw o.0 (drive_to_mining-Arrives as' stop_mining generation held s tt o.1 (ground (arith, g)))
drive_to_mining-Arrives (a ∷ as') stop_mining generation held s h o g = rw o.0 (
    drive_to_mining-Arrives as' validator_synced generation held
      (state_after stop_mining generation s) tt o.1 (ground (arith, g)))
drive_to_mining-Arrives (a ∷ as') validator_synced generation held s h o g =
    rw o.0 (drive_to_mining-Arrives as' account_funded generation held s tt o.1 (ground (arith, g)))
drive_to_mining-Arrives (a ∷ as') account_funded generation held s h o g =
    elim (Bool-cases a.funded) [
      | inl y ↦
          rw (o.0, y)
            (drive_to_mining-Arrives as' miner_registered generation held s tt o.1
              (ground (arith, g)))
      | inr f ↦
          rw (o.0, f)
            (drive_to_mining-Arrives as' account_funded generation held s tt o.1
              (ground (arith, g)))
    ]
drive_to_mining-Arrives (a ∷ as') miner_registered generation held s h o g =
    elim (Bool-cases a.registered) [
      | inl y ↦
          rw (o.0, y)
            (drive_to_mining-Arrives as' requirements_downloaded generation held s tt o.1
              (ground (arith, g)))
      | inr f ↦
          rw (o.0, f)
            (drive_to_mining-Arrives as' miner_registered generation held s tt o.1
              (ground (arith, g)))
    ]
drive_to_mining-Arrives (a ∷ as') requirements_downloaded generation held s h o g =
    elim (Option-cases a.snapshot) [
      | inr (snap, y) ↦
          rw (o.0, y)
            (drive_to_mining-Arrives as' descriptor_filed generation (some snap) s (λ e. cc) o.1
              (ground (arith, g)))
      | inl f ↦
          rw (o.0, f)
            (drive_to_mining-Arrives as' requirements_downloaded generation held s tt o.1
              (ground (arith, g)))
    ]
drive_to_mining-Arrives (a ∷ as') descriptor_filed generation held s h o g =
    rw o.0 (drive_to_mining-Arrives as' start_mining generation held s h o.1 (ground (arith, g)))
