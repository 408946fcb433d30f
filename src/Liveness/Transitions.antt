-- ===== src/Liveness/Transitions.antt =====
-- What the events of a run of reports say (`evaluate_status` of
-- `crates/quip-coordinator/src/liveness.rs`).
use quip_miner.Prelude.Assoc.{get}
use quip_miner.Prelude.{
  if◌then◌else◌, ==_iff, ℕ, suc, ◌+◌, Bool, true, false, List, [], ◌∷◌, ◌++◌, Option, none, some,
  ◌≡◌, refl, arith,
}
use quip_miner.Prelude.Bytes.{Bytes}
use quip_miner.Liveness.{
  reason_key, MinerLiveness, LivenessEvent, entered_paused, resumed, stale_round, is_paused,
  reported_generation, pause_events, stale_events, evaluate_status,
}

-- The reports of a miner, each with the generation current when it came.
unfoldable pub reports :
    List (List (Bytes × Bytes) × ℕ) → MinerLiveness → MinerLiveness × List LivenessEvent
reports [] l = (l, [])
reports ((stats, current) ∷ rest) l =
    let (l', events) = evaluate_status l stats current in
    let (last, later) = reports rest l' in (last, events ++ later)

abbrev pub pauses : List LivenessEvent → ℕ
pauses [] = 0
pauses (entered_paused reason ∷ es) = suc (pauses es)
pauses (resumed ∷ es) = pauses es
pauses (stale_round g c ∷ es) = pauses es

abbrev pub resumptions : List LivenessEvent → ℕ
resumptions [] = 0
resumptions (entered_paused reason ∷ es) = resumptions es
resumptions (resumed ∷ es) = suc (resumptions es)
resumptions (stale_round g c ∷ es) = resumptions es

abbrev pub as_number : Bool → ℕ
as_number true = 1
as_number false = 0

pauses-append : (es fs : List LivenessEvent) → pauses (es ++ fs) ≡ pauses es + pauses fs
pauses-append [] fs = omega arith
pauses-append (entered_paused reason ∷ es) fs = omega (arith, pauses-append es fs)
pauses-append (resumed ∷ es) fs = pauses-append es fs
pauses-append (stale_round g c ∷ es) fs = pauses-append es fs

resumptions-append :
    (es fs : List LivenessEvent) → resumptions (es ++ fs) ≡ resumptions es + resumptions fs
resumptions-append [] fs = omega arith
resumptions-append (entered_paused reason ∷ es) fs = resumptions-append es fs
resumptions-append (resumed ∷ es) fs = omega (arith, resumptions-append es fs)
resumptions-append (stale_round g c ∷ es) fs = resumptions-append es fs

stale_events-pauses :
    (before now : Option ℕ) (current : ℕ)
    → (pauses (stale_events before now current) ≡ 0)
      × (resumptions (stale_events before now current) ≡ 0)
stale_events-pauses before none current = (refl, refl)
stale_events-pauses before (some g) current = (ground arith, ground arith)

pause_events-balance :
    (now before : Bool) (reason : Option Bytes)
    → pauses (pause_events now before reason) + as_number before
      ≡ resumptions (pause_events now before reason) + as_number now
pause_events-balance true true reason = refl
pause_events-balance true false reason = refl
pause_events-balance false true reason = refl
pause_events-balance false false reason = refl

evaluate_status-balance :
    (l : MinerLiveness) (stats : List (Bytes × Bytes)) (current : ℕ)
    → pauses (evaluate_status l stats current).1 + as_number l.paused
      ≡ resumptions (evaluate_status l stats current).1
        + as_number (evaluate_status l stats current).0.paused
unfolding evaluate_status
evaluate_status-balance l stats current =
    let reason = if is_paused stats then get reason_key stats else none in
    let changes = pause_events (is_paused stats) l.paused reason in
    let stale = stale_events l.generation (reported_generation stats) current in
    omega (
      arith,
      pauses-append changes stale,
      resumptions-append changes stale,
      stale_events-pauses l.generation (reported_generation stats) current,
      pause_events-balance (is_paused stats) l.paused reason,
    )

-- Over any reports of a miner, pauses and resumptions are announced in turn: there are as many
-- pauses as resumptions, but for one more where the miner ends paused and began unpaused, and one
-- less where it began paused and ends unpaused.
pub reports-balance :
    (rs : List (List (Bytes × Bytes) × ℕ)) (l : MinerLiveness)
    → pauses (reports rs l).1 + as_number l.paused
      ≡ resumptions (reports rs l).1 + as_number (reports rs l).0.paused
unfolding reports
reports-balance [] l = refl
reports-balance ((stats, current) ∷ rest) l = omega (
  arith,
  evaluate_status-balance l stats current,
  reports-balance rest (evaluate_status l stats current).0,
  pauses-append (evaluate_status l stats current).1
      (reports rest (evaluate_status l stats current).0).1,
  resumptions-append (evaluate_status l stats current).1
      (reports rest (evaluate_status l stats current).0).1,
)

pause_events-same : (b : Bool) (reason : Option Bytes) → pause_events b b reason ≡ []
pause_events-same true reason = refl
pause_events-same false reason = refl

stale_events-same : (g : Option ℕ) (current : ℕ) → stale_events g g current ≡ []
stale_events-same none current = refl
stale_events-same (some g) current = ground (arith, ==_iff g g)

-- A report that repeats the one before it announces nothing, whatever the current generation.
pub evaluate_status-repeated :
    (l : MinerLiveness) (stats : List (Bytes × Bytes)) (before current : ℕ)
    → (evaluate_status (evaluate_status l stats before).0 stats current).1 ≡ []
unfolding evaluate_status
evaluate_status-repeated l stats before current =
    let reason = if is_paused stats then get reason_key stats else none in
    rw
      (
        pause_events-same (is_paused stats) reason,
        stale_events-same (reported_generation stats) current,
      )
      refl
