-- ===== src/Decay/Stepwise.antt =====
-- The runtime-117 rule: `ease_step` and `ease_stepwise` of `crates/quip-coordinator/src/decay.rs`.
-- The laws hold whatever the floating-point operations return.
use quip_miner.Prelude.{ℕ, zero, suc, ◌*◌, ◌≤◌, ◌≡◌, ◌⊎◌, inl, inr, Bool-cases, true, arith}
use quip_miner.Prelude.Int.{
  ℤ, pos, ◌+ℤ◌, ◌-ℤ◌, ◌≤ℤ◌, ◌<ℤ◌, leb_ℤ, min_ℤ, saturate, saturating_add, saturating_sub, InI64,
  int_laws, min_ℤ-le, le-max_ℤ, saturate_id, leb_ℤ→le, leb_ℤ→lt, -ℤ_parts,
}
use quip_miner.Decay.Rules.{
  FloatOps, EnergyCurve, geometric_floored, decay_rate_milli, min_energy_delta_milli, ease_step,
  ease_stepwise,
}

-- The room under the cap, as the saturating subtraction computes it.
room_bounds :
    (cap current : ℤ)
    → current <ℤ cap
    → (pos 0 <ℤ saturating_sub cap current)
      × (saturating_sub cap current ≤ℤ cap -ℤ current)
      × ((cap -ℤ current ≤ℤ saturating_sub cap current) ⊎ (pos 1000 ≤ℤ saturating_sub cap current))
unfolding saturating_sub saturate
room_bounds cap current h = let d = -ℤ_parts cap current in ground (arith, d)

min_cases : (a b : ℤ) → (min_ℤ a b ≡ a) ⊎ (min_ℤ a b ≡ b)
unfolding min_ℤ
min_cases a b = ground arith

-- A step of `min(g, room)` for a `g` at or above the floor.
step_bounds :
    (g cap current room : ℤ)
    → pos 1000 ≤ℤ g
    → pos 0 <ℤ room
    → room ≤ℤ cap -ℤ current
    → (cap -ℤ current ≤ℤ room) ⊎ (pos 1000 ≤ℤ room)
    → (current ≤ℤ current +ℤ min_ℤ g room)
      × (current +ℤ min_ℤ g room ≤ℤ cap)
      × ((current +ℤ min_ℤ g room ≡ cap) ⊎ (current +ℤ pos 1000 ≤ℤ current +ℤ min_ℤ g room))
step_bounds g cap current room hg h0 h1 h2 = elim (min_cases g room) [
  | inl e ↦
      let le : g ≤ℤ room = rw e at ((min_ℤ-le g room).1) in
      rw e (omega int_laws, omega int_laws, inr (omega int_laws))
  | inr e ↦ elim h2 [
    | inl all ↦ rw e (omega int_laws, omega int_laws, inl (omega int_laws))
    | inr big ↦ rw e (omega int_laws, omega int_laws, inr (omega int_laws))
  ]
]

InI64-between : (a b c : ℤ) → InI64 a → InI64 c → a ≤ℤ b → b ≤ℤ c → InI64 b
InI64-between a b c ha hc h k = ground arith

-- One step moves the threshold up, never past the easy bound, and by 1000 at least unless it
-- arrives there. At the bound, or under a degenerate curve, it changes nothing.
module _ (ops : FloatOps) (curve : EnergyCurve) (cap : InI64 curve.max_milli) where
  open curve use {max_milli, min_milli}

  geometric_floored_ge :
      (room : ℤ) → pos 1000 ≤ℤ geometric_floored ops room decay_rate_milli min_energy_delta_milli
  unfolding geometric_floored
  geometric_floored_ge room = (le-max_ℤ _ min_energy_delta_milli).1

  room_zero :
      (current : ℤ) → max_milli ≤ℤ current → leb_ℤ (saturating_sub max_milli current) (pos 0) ≡ true
  unfolding saturating_sub saturate
  room_zero current h = let d = -ℤ_parts max_milli current in ground (arith, d)

  pub ease_step_at_cap :
      (current : ℤ) → max_milli ≤ℤ current → ease_step ops current curve ≡ current
  unfolding ease_step
  ease_step_at_cap current h = rw (room_zero current h) (ground arith)

  abbrev step : ℤ → ℤ
  step current =
      min_ℤ
        (geometric_floored ops (saturating_sub max_milli current) decay_rate_milli
          min_energy_delta_milli)
        (saturating_sub max_milli current)

  step_fits :
      (current : ℤ)
      → current <ℤ max_milli
      → (current ≤ℤ current +ℤ step current)
        × (current +ℤ step current ≤ℤ max_milli)
        × ((current +ℤ step current ≡ max_milli) ⊎ (current +ℤ pos 1000 ≤ℤ current +ℤ step current))
  step_fits current h =
      let (h0, h1, h2) = room_bounds max_milli current h in
      step_bounds _ max_milli current (saturating_sub max_milli current)
        (geometric_floored_ge (saturating_sub max_milli current)) h0 h1 h2

  saturating_step :
      (current : ℤ)
      → InI64 current
      → current <ℤ max_milli
      → saturating_add current (step current) ≡ current +ℤ step current
  unfolding saturating_add
  saturating_step current hu h =
      let (up, under, _) = step_fits current h in
      saturate_id _ (InI64-between current _ max_milli hu cap up under)

  -- Below the bound the step adds `min(g, room)`, with no saturation.
  ease_step_below :
      (current : ℤ)
      → InI64 current
      → min_milli <ℤ max_milli
      → current <ℤ max_milli
      → ease_step ops current curve ≡ current +ℤ step current
  unfolding ease_step
  ease_step_below current hu c h =
      let (h0, _, _) = room_bounds max_milli current h in
      let e = saturating_step current hu h in ground (arith, e)

  pub ease_step_degenerate :
      (current : ℤ) → max_milli ≤ℤ min_milli → ease_step ops current curve ≡ current
  unfolding ease_step
  ease_step_degenerate current h = ground arith

  -- One step never lowers the threshold and never passes the easy bound.
  pub ease_step_bounds :
      (current : ℤ)
      → InI64 current
      → current ≤ℤ max_milli
      → (current ≤ℤ ease_step ops current curve) × (ease_step ops current curve ≤ℤ max_milli)
  ease_step_bounds current hu h = elim (Bool-cases (leb_ℤ max_milli current)) [
    | inl at ↦ rw (ease_step_at_cap current (leb_ℤ→le max_milli current at)) (omega arith, h)
    | inr below ↦ elim (Bool-cases (leb_ℤ max_milli min_milli)) [
      | inl flat ↦
          rw (ease_step_degenerate current (leb_ℤ→le max_milli min_milli flat)) (omega arith, h)
      | inr wide ↦
          let lt = leb_ℤ→lt max_milli current below in
          let (up, under, _) = step_fits current lt in
          rw (ease_step_below current hu (leb_ℤ→lt max_milli min_milli wide) lt) (up, under)
    ]
  ]

  -- Below the bound it arrives there or gains at least one energy unit.
  pub ease_step_progress :
      (current : ℤ)
      → InI64 current
      → min_milli <ℤ max_milli
      → current <ℤ max_milli
      → (ease_step ops current curve ≡ max_milli)
        ⊎ (current +ℤ pos 1000 ≤ℤ ease_step ops current curve)
  ease_step_progress current hu c h = rw (ease_step_below current hu c h) ((step_fits current h).2)

  ease_step-InI64 :
      (current : ℤ) → InI64 current → current ≤ℤ max_milli → InI64 (ease_step ops current curve)
  ease_step-InI64 current hu h =
      let (up, under) = ease_step_bounds current hu h in
      InI64-between current _ max_milli hu cap up under

  -- Any number of steps stays between the start and the easy bound.
  pub ease_stepwise_bounds :
      (current : ℤ) (steps : ℕ)
      → InI64 current
      → current ≤ℤ max_milli
      → (current ≤ℤ ease_stepwise ops current steps curve)
        × (ease_stepwise ops current steps curve ≤ℤ max_milli)
  unfolding ease_stepwise
  ease_stepwise_bounds current zero hu h = (omega arith, h)
  ease_stepwise_bounds current (suc steps) hu h =
      let (up, under) = ease_step_bounds current hu h in
      let rest =
        ease_stepwise_bounds (ease_step ops current curve) steps (ease_step-InI64 current hu h)
          under in
      (omega arith, rest.1)

  -- More steps never lower the threshold.
  pub ease_stepwise_mono :
      (current : ℤ) (m n : ℕ)
      → InI64 current
      → current ≤ℤ max_milli
      → m ≤ n
      → ease_stepwise ops current m curve ≤ℤ ease_stepwise ops current n curve
  unfolding ease_stepwise
  ease_stepwise_mono current zero n hu h le = (ease_stepwise_bounds current n hu h).0
  ease_stepwise_mono current (suc m) zero hu h le = absurd (omega arith)
  ease_stepwise_mono current (suc m) (suc n) hu h le =
      ease_stepwise_mono (ease_step ops current curve) m n (ease_step-InI64 current hu h)
        ((ease_step_bounds current hu h).1) (omega arith)

  -- A proper curve is walked to its end: as many steps as there are energy units in the room lead
  -- to the easy bound exactly.
  pub ease_stepwise_arrives :
      (current : ℤ) (steps : ℕ)
      → InI64 current
      → min_milli <ℤ max_milli
      → current ≤ℤ max_milli
      → max_milli ≤ℤ current +ℤ pos (1000 * steps)
      → ease_stepwise ops current steps curve ≡ max_milli
  unfolding ease_stepwise
  ease_stepwise_arrives current zero hu c h room = omega int_laws
  ease_stepwise_arrives current (suc steps) hu c h room =
      let (up, under) = ease_step_bounds current hu h in
      ease_stepwise_arrives (ease_step ops current curve) steps (ease_step-InI64 current hu h) c
        under left
    where
      arrived : ease_step ops current curve ≡ max_milli → max_milli ≤ℤ ease_step ops current curve
      arrived e = rw e (omega arith)

      left : max_milli ≤ℤ ease_step ops current curve +ℤ pos (1000 * steps)
      left = elim (Bool-cases (leb_ℤ max_milli current)) [
        | inl at ↦
            rw (ease_step_at_cap current (leb_ℤ→le max_milli current at))
              (let le = leb_ℤ→le max_milli current at in omega (int_laws, le))
        | inr below ↦ elim (ease_step_progress current hu c (leb_ℤ→lt max_milli current below)) [
          | inl e ↦ let le = arrived e in omega (int_laws, le)
          | inr more ↦ omega int_laws
        ]
      ]
