-- ===== src/Liveness.antt =====
-- The liveness of a miner: `evaluate_status` of `crates/quip-coordinator/src/liveness.rs`. Strings
-- are their bytes, and the statistics an association list. The pings are not modelled.
pub mod Transitions
mod Examples
use quip_miner.Prelude.{
  ℕ, ◌+◌, ◌-◌, ◌*◌, Bool, true, false, not, ◌&&◌, List, [], ◌∷◌, ◌++◌, Option, none, some, ltb, leb,
  ◌==◌, if◌then◌else◌,
}
use quip_miner.Prelude.Bytes.{Bytes, bytes_eq}
use quip_miner.Prelude.Assoc.{get}
use quip_miner.Router.State.{u64_max}

pub record MinerLiveness : Type 0 where
  pub paused : Bool
  pub reason : Option Bytes
  pub generation : Option ℕ

pub data LivenessEvent : Type 0 where
  entered_paused : Option Bytes → LivenessEvent
  resumed : LivenessEvent
  stale_round : ℕ → ℕ → LivenessEvent

-- The keys "state", "reason" and "generation", and the value "paused".
abbrev pub state_key : Bytes
state_key = 115 ∷ 116 ∷ 97 ∷ 116 ∷ 101 ∷ []

abbrev pub reason_key : Bytes
reason_key = 114 ∷ 101 ∷ 97 ∷ 115 ∷ 111 ∷ 110 ∷ []

abbrev pub generation_key : Bytes
generation_key = 103 ∷ 101 ∷ 110 ∷ 101 ∷ 114 ∷ 97 ∷ 116 ∷ 105 ∷ 111 ∷ 110 ∷ []

abbrev pub paused_value : Bytes
paused_value = 112 ∷ 97 ∷ 117 ∷ 115 ∷ 101 ∷ 100 ∷ []

-- The digits of a number after the value of those before them.
parse_digits : Bytes → ℕ → Option ℕ
parse_digits [] value = some value
parse_digits (c ∷ cs) value =
    let next = value * 10 + (c - 48) in
    let rest = parse_digits cs next in
    if leb 48 c && leb c 57 && leb next u64_max then rest else none

unsigned : Bytes → Option ℕ
unfolding parse_digits
unsigned [] = none
unsigned (c ∷ cs) = parse_digits (c ∷ cs) 0

-- `str::parse::<u64>`: decimal digits, with a plus sign before them or not.
unfoldable pub parse_u64 : Bytes → Option ℕ
unfolding unsigned
parse_u64 [] = none
parse_u64 (c ∷ cs) = if c == 43 then unsigned cs else unsigned (c ∷ cs)

unfoldable pub is_paused : List (Bytes × Bytes) → Bool
is_paused stats = elim (get state_key stats) [ none ↦ false | some v ↦ bytes_eq v paused_value ]

unfoldable pub reported_generation : List (Bytes × Bytes) → Option ℕ
reported_generation stats = elim (get generation_key stats) [ none ↦ none | some g ↦ parse_u64 g ]

abbrev pub same_generation : Option ℕ → ℕ → Bool
same_generation none g = false
same_generation (some p) g = p == g

-- The first `if` of the events.
abbrev pub pause_events : Bool → Bool → Option Bytes → List LivenessEvent
pause_events true false reason = entered_paused reason ∷ []
pause_events false true reason = resumed ∷ []
pause_events true true reason = []
pause_events false false reason = []

-- The second `if`, on the generation reported before and now.
abbrev pub stale_events : Option ℕ → Option ℕ → ℕ → List LivenessEvent
stale_events before none current = []
stale_events before (some g) current =
    if ltb 0 current && ltb g current && not (same_generation before g)
    then stale_round g current ∷ []
    else []

unfoldable pub evaluate_status :
    MinerLiveness → List (Bytes × Bytes) → ℕ → MinerLiveness × List LivenessEvent
evaluate_status prev stats current_generation =
    let paused = is_paused stats in
    let reason = if paused then get reason_key stats else none in
    let generation = reported_generation stats in
    (
      record { paused = paused; reason = reason; generation = generation },
      pause_events paused prev.paused reason
          ++ stale_events prev.generation generation current_generation,
    )
