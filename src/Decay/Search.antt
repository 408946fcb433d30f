-- ===== src/Decay/Search.antt =====
-- The binary search of `DecayModel::first_clearing_elapsed`
-- (`crates/quip-coordinator/src/decay.rs`).
use quip_miner.Prelude.{
  ℕ, zero, suc, ◌+◌, ◌-◌, ◌/◌, ◌≤◌, ◌<◌, ◌≡◌, refl, ◌⊎◌, inl, inr, Bool-cases, Option, some, none,
  arith, ltb, ltb→lt, ltb→le,
}
use quip_miner.Prelude.Int.{ℤ, ◌≤ℤ◌, ◌<ℤ◌, ltb_ℤ, ltb_ℤ→lt, ltb_ℤ→le}
use quip_miner.Decay.{bisect, first_clearing}

module _ (threshold : ℕ → ℤ) (energy : ℤ) where
  -- Block `h` is a crossing: the threshold clears there and did not at the block before.
  abbrev pub Crosses : ℕ → Type 0
  Crosses h = (energy <ℤ threshold h) × ((l : ℕ) × (suc l ≡ h) × (threshold l ≤ℤ energy))

  -- The loop ends by its test, at a crossing inside the interval.
  bisect-Crosses :
      (fuel lo hi : ℕ)
      → lo < hi
      → hi ≤ lo + suc fuel
      → threshold lo ≤ℤ energy
      → energy <ℤ threshold hi
      → Crosses (bisect threshold energy fuel lo hi) × (bisect threshold energy fuel lo hi ≤ hi)
  unfolding bisect
  bisect-Crosses zero lo hi lt le low high = ((high, (lo, omega arith, low)), omega arith)
  bisect-Crosses (suc fuel) lo hi lt le low high = elim (Bool-cases (ltb 1 (hi - lo))) [
    | inl wide ↦
        let mid = lo + (hi - lo) / 2 in
        let far = ltb→lt 1 (hi - lo) wide in
        elim (Bool-cases (ltb_ℤ energy (threshold mid))) [
          | inl over ↦
              let inside =
                bisect-Crosses fuel lo mid (omega (arith, far)) (omega (arith, far)) low
                  (ltb_ℤ→lt energy (threshold mid) over) in
              rw (wide, over) (inside.0, omega (arith, inside.1))
          | inr under ↦
              rw (wide, under)
                (bisect-Crosses fuel mid hi (omega (arith, far)) (omega (arith, far))
                  (ltb_ℤ→le energy (threshold mid) under) high)
        ]
    | inr close ↦
        let shut = ltb→le 1 (hi - lo) close in
        rw close ((high, (lo, omega (arith, shut), low)), omega arith)
  ]

  -- What a search result states: a crossing within the horizon, or that it clears at once.
  abbrev pub IsFirst : ℕ → ℕ → Type 0
  IsFirst horizon h =
      (h ≤ horizon)
      × (energy <ℤ threshold h)
      × ((h ≡ 0) ⊎ ((l : ℕ) × (suc l ≡ h) × (threshold l ≤ℤ energy)))

  abbrev pub Found : ℕ → Option ℕ → Type 0
  Found horizon none = (threshold 0 ≤ℤ energy) × (threshold horizon ≤ℤ energy)
  Found horizon (some h) = IsFirst horizon h

  -- The search returns a block within the horizon at which the threshold clears the energy, the
  -- first block or one after a block that does not clear. It returns none exactly if neither the
  -- first block nor the horizon clears.
  pub first_clearing-Found : (horizon : ℕ) → Found horizon (first_clearing threshold energy horizon)
  unfolding first_clearing
  first_clearing-Found horizon = elim (Bool-cases (ltb_ℤ energy (threshold 0))) [
    | inl now ↦ rw now (omega arith, ltb_ℤ→lt energy (threshold 0) now, inl refl)
    | inr later ↦ elim (Bool-cases (ltb_ℤ energy (threshold horizon))) [
      | inl reached ↦
          let low = ltb_ℤ→le energy (threshold 0) later in
          let high = ltb_ℤ→lt energy (threshold horizon) reached in
          let found =
            bisect-Crosses horizon 0 horizon (start_below horizon low high) (omega arith) low
              high in
          rw (later, reached) (found.1, found.0.0, inr (found.0.1))
      | inr never ↦
          rw (later, never)
            (ltb_ℤ→le energy (threshold 0) later, ltb_ℤ→le energy (threshold horizon) never)
    ]
  ]
    where
      start_below : (n : ℕ) → threshold 0 ≤ℤ energy → energy <ℤ threshold n → 0 < n
      start_below zero low high = absurd (omega arith)
      start_below (suc n) low high = omega arith

  -- Over a threshold that never falls, a block that clears is never before the block returned, and
  -- where none is returned no block up to the horizon clears.
  pub first_clearing_least :
      ((a b : ℕ) → a ≤ b → threshold a ≤ℤ threshold b)
      → (horizon k : ℕ) → k ≤ horizon
      → energy <ℤ threshold k
      → (h : ℕ) × (first_clearing threshold energy horizon ≡ some h) × (h ≤ k)
  first_clearing_least mono horizon k le clears =
      go (first_clearing threshold energy horizon) refl (first_clearing-Found horizon)
    where
      not_after : (h : ℕ) → (h ≡ 0) ⊎ ((l : ℕ) × (suc l ≡ h) × (threshold l ≤ℤ energy)) → h ≤ k
      not_after h (inl z) = omega arith
      not_after h (inr (l, e, low)) = elim (Bool-cases (ltb k h)) [
        | inl before ↦
            let up = mono k l (let lt = ltb→lt k h before in omega (arith, lt)) in
            absurd (omega (arith, up))
        | inr after ↦ ltb→le k h after
      ]

      go :
          (o : Option ℕ)
          → first_clearing threshold energy horizon ≡ o
          → Found horizon o
          → (h : ℕ) × (first_clearing threshold energy horizon ≡ some h) × (h ≤ k)
      go none e (low, high) = let up = mono k horizon le in absurd (omega (arith, up))
      go (some h) e (_, _, first) = (h, e, not_after h first)
