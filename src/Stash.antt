-- ===== src/Stash.antt =====
-- The win-time stash: `WinStash` of `crates/quip-coordinator/src/stash.rs`. It keeps the best
-- candidates of a round, best first, and projects the block at which each becomes viable. Spins and
-- order ids of a candidate are carried along unread, as in the source.
pub mod Ranking
pub mod Best
pub mod Due
mod Examples
use quip_miner.Prelude.{
  ℕ, ◌+◌, ◌≤◌, Bool, true, false, not, ◌&&◌, List, [], ◌∷◌, ◌++◌, Option, none, some, max, leb,
  if◌then◌else◌, take,
}
use quip_miner.Prelude.Int.{ℤ, ltb_ℤ, leb_ℤ}
use quip_miner.Prelude.Sort.{sort_by_key}
use quip_miner.Prelude.Bytes.{Bytes, bytes_eq}
use quip_miner.Router.State.{add_u64}
use quip_miner.Decay.Rules.{FloatOps}
use quip_miner.Decay.{
  DecayAlgorithm, DecayModel, stepwise, continuous, gated, first_clearing_elapsed,
}

abbrev pub decay_horizon_blocks : ℕ
decay_horizon_blocks = 25_600

-- `SpinRow` of `validate.rs`.
pub record SpinRow : Type 0 where
  pub spins : List ℤ
  pub energy_milli : ℤ

pub record Candidate : Type 0 where
  pub job_id : Bytes
  pub salt : Option Bytes
  pub generation : ℕ
  pub best_energy_milli : ℤ
  pub diversity_milli : ℕ
  pub n_valid : ℕ
  pub solutions : List SpinRow
  pub is_pow : Bool
  pub order_id : Bytes
  pub device_access_time_us : ℕ
  pub submitted : Bool

pub record WinStash : Type 0 where
  pub generation : ℕ
  pub model : Option DecayModel
  pub last_proof_block : ℕ
  pub k : ℕ
  pub candidates : List Candidate

unfoldable pub new : ℕ → WinStash
new k = record { generation = 0; model = none; last_proof_block = 0; k = max k 1; candidates = [] }

unfoldable pub reset : ℕ → Option DecayModel → ℕ → WinStash → WinStash
reset generation model last_proof_block s = record s {
  generation = generation;
  model = model;
  last_proof_block = last_proof_block;
  candidates = [];
}

abbrev same_algorithm : DecayAlgorithm → DecayAlgorithm → Bool
same_algorithm stepwise stepwise = true
same_algorithm continuous continuous = true
same_algorithm gated gated = true
same_algorithm _ _ = false

unfoldable pub set_algorithm : DecayAlgorithm → WinStash → WinStash × Bool
set_algorithm algorithm s = elim s.model [
  | none ↦ (s, false)
  | some m ↦
      if same_algorithm m.algorithm algorithm
      then (s, false)
      else (record s { model = some (record m { algorithm = algorithm }) }, true)
]

abbrev pub energy : Candidate → ℤ
energy c = c.best_energy_milli

-- `iter().any(…)` on the job id.
unfoldable pub holds : Bytes → List Candidate → Bool
holds job_id [] = false
holds job_id (c ∷ cs) = if bytes_eq c.job_id job_id then true else holds job_id cs

unfoldable pub find : (Candidate → Bool) → List Candidate → Option Candidate
find p [] = none
find p (c ∷ cs) = let later = find p cs in if p c then some c else later

unfoldable pub mark_first : Bytes → List Candidate → List Candidate
mark_first job_id [] = []
mark_first job_id (c ∷ cs) =
    if bytes_eq c.job_id job_id
    then record c { submitted = true } ∷ cs
    else c ∷ mark_first job_id cs

unfoldable pub mark_submitted : Bytes → WinStash → WinStash
unfolding mark_first
mark_submitted job_id s = record s { candidates = mark_first job_id s.candidates }

-- `is_none_or` of the current best.
abbrev pub improves : Option ℤ → Candidate → Bool
improves none c = true
improves (some b) c = ltb_ℤ c.best_energy_milli b

module _ (ops : FloatOps) where
  unfoldable pub viability_block : WinStash → ℤ → Option ℕ
  viability_block s energy_milli = elim s.model [
    | none ↦ none
    | some model ↦ elim (first_clearing_elapsed ops model energy_milli decay_horizon_blocks) [
      | none ↦ none
      | some elapsed ↦ some (add_u64 s.last_proof_block elapsed)
    ]
  ]

  -- The candidates after a new one is ranked among them.
  abbrev pub ranked : Candidate → WinStash → List Candidate
  ranked cand s = take s.k (sort_by_key energy (s.candidates ++ cand ∷ []))

  unfoldable pub insert : Candidate → WinStash → WinStash × Bool
  insert cand s = elim (viability_block s cand.best_energy_milli) [
    | none ↦ (s, false)
    | some b ↦ (record s { candidates = ranked cand s }, holds cand.job_id (ranked cand s))
  ]

  -- Unsubmitted, and viable by the block.
  unfoldable pub is_due : WinStash → ℕ → Candidate → Bool
  is_due s current_block c = not c.submitted && elim (viability_block s c.best_energy_milli) [
    | none ↦ false
    | some b ↦ leb b current_block
  ]

  unfoldable pub due_at : WinStash → ℕ → Option Candidate
  unfolding find
  due_at s current_block = find (is_due s current_block) s.candidates

  unfoldable pub due_improving : WinStash → ℕ → Option ℤ → Option Candidate
  unfolding due_at
  due_improving s current_block current_best = elim (due_at s current_block) [
    | none ↦ none
    | some c ↦ if improves current_best c then some c else none
  ]
