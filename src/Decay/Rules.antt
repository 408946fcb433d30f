-- ===== src/Decay/Rules.antt =====
-- The three decay rules of `crates/quip-coordinator/src/decay.rs`: the runtime-117 step, the
-- runtime-118 closed form and the runtime-119 rule with its hold.
use quip_miner.Prelude.{ℕ, zero, suc, ◌-◌, min, Bool, ◌||◌, ◌==◌, if◌then◌else◌}
use quip_miner.Prelude.Int.{ℤ, pos, ◌+ℤ◌, ◌-ℤ◌, leb_ℤ, min_ℤ, max_ℤ, saturating_add, saturating_sub}

-- What the code uses of `f64`. `to_i64` is the cast of a float, which saturates.
pub record FloatOps : Type 1 where
  pub Float : Type 0
  pub of_i64 : ℤ → Float
  pub of_u64 : ℕ → Float
  pub add : Float → Float → Float
  pub sub : Float → Float → Float
  pub mul : Float → Float → Float
  pub div : Float → Float → Float
  pub min_float : Float → Float → Float
  pub le : Float → Float → Bool
  pub log : Float → Float
  pub round : Float → Float
  pub pow : Float → Float → Float
  pub to_i64 : Float → ℤ

abbrev pub decay_rate_milli : ℤ
decay_rate_milli = pos 25

abbrev pub min_energy_delta_milli : ℤ
min_energy_delta_milli = pos 1000

abbrev pub target_proof_blocks : ℕ
target_proof_blocks = 100

abbrev pub overdue_ease_rate_milli : ℤ
overdue_ease_rate_milli = pos 25

pub record EnergyCurve : Type 0 where
  pub min_milli : ℤ
  pub knee_milli : ℤ
  pub max_milli : ℤ

module _ (ops : FloatOps) where
  open ops use {Float, of_i64, of_u64, add, sub, mul, div, min_float, le, log, round, pow, to_i64}

  unfoldable pub geometric_floored : ℤ → ℤ → ℤ → ℤ
  geometric_floored room rate_milli min_delta =
      let rate = div (of_i64 rate_milli) (of_i64 (pos 1000)) in
      let stepped = to_i64 (round (mul (of_i64 room) rate)) in max_ℤ stepped min_delta

  unfoldable pub ease_step : ℤ → EnergyCurve → ℤ
  ease_step current curve =
      let room = saturating_sub curve.max_milli current in
      let g = geometric_floored room decay_rate_milli min_energy_delta_milli in
      if leb_ℤ curve.max_milli curve.min_milli
      then current
      else if leb_ℤ room (pos 0)
      then current
      else saturating_add current (min_ℤ g room)

  unfoldable pub ease_stepwise : ℤ → ℕ → EnergyCurve → ℤ
  ease_stepwise cur zero curve = cur
  ease_stepwise cur (suc steps) curve = ease_stepwise (ease_step cur curve) steps curve

  abbrev unit : Float
  unit = of_i64 (pos 1)

  -- The part of `ease_room` after its guard.
  unfoldable pub eased_float : ℤ → ℕ → ℕ → Float → Float
  eased_float room blocks epoch_length rate =
      let floor = of_i64 min_energy_delta_milli in
      let room_f = of_i64 room in
      let epochs = div (of_u64 blocks) (of_u64 epoch_length) in
      let crossover = div floor rate in
      let geometric_epochs : Float =
        if le room_f crossover
        then of_i64 (pos 0)
        else min_float (div (log (div crossover room_f)) (log (sub unit rate))) epochs in
      let room_after_geometric = mul room_f (pow (sub unit rate) geometric_epochs) in
      let linear = mul (sub epochs geometric_epochs) floor in
      add (sub room_f room_after_geometric) linear

  unfoldable pub ease_room : ℤ → ℕ → ℕ → Float → ℤ
  ease_room room blocks epoch_length rate =
      if leb_ℤ room (pos 0)
        || (blocks == 0 || (epoch_length == 0 || (le rate (of_i64 (pos 0)) || le unit rate)))
      then pos 0
      else min_ℤ (to_i64 (round (eased_float room blocks epoch_length rate))) room

  abbrev rate_of : ℤ → Float
  rate_of milli = sub unit (div (of_i64 milli) (of_i64 (pos 1000)))

  -- `1.0 - baseline_retained` and `1.0 - overdue_retained`.
  abbrev pub baseline_rate : Float
  baseline_rate = sub unit (rate_of decay_rate_milli)

  abbrev pub overdue_rate : Float
  overdue_rate = sub unit (mul (rate_of decay_rate_milli) (rate_of overdue_ease_rate_milli))

  -- `first + second`: the two phases in sequence.
  unfoldable pub phases : ℤ → ℕ → ℕ → ℤ
  phases room elapsed_blocks epoch_length =
      let in_target = min elapsed_blocks target_proof_blocks in
      let overdue = elapsed_blocks - in_target in
      let first = ease_room room in_target epoch_length baseline_rate in
      let second = ease_room (room -ℤ first) overdue epoch_length overdue_rate in first +ℤ second

  unfoldable pub ease_continuous : ℤ → ℕ → ℕ → EnergyCurve → ℤ
  ease_continuous current elapsed_blocks epoch_length curve =
      let room = saturating_sub curve.max_milli current in
      if leb_ℤ curve.max_milli curve.min_milli || (elapsed_blocks == 0 || epoch_length == 0)
      then current
      else if leb_ℤ room (pos 0)
      then current
      else saturating_add current (min_ℤ (phases room elapsed_blocks epoch_length) room)

  unfoldable pub ease_gated : ℤ → ℕ → ℕ → EnergyCurve → ℤ
  ease_gated current elapsed_blocks epoch_length curve =
      let overdue = elapsed_blocks - target_proof_blocks in
      let room = saturating_sub curve.max_milli current in
      if leb_ℤ curve.max_milli curve.min_milli || (overdue == 0 || epoch_length == 0)
      then current
      else saturating_add current (ease_room room overdue epoch_length overdue_rate)
