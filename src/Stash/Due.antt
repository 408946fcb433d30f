-- ===== src/Stash/Due.antt =====
-- Which candidate is submitted (`WinStash::due_improving` of
-- `crates/quip-coordinator/src/stash.rs`).
use mathlib.Core.Path.{subst}
use quip_miner.Prelude.{
  ℕ, ◌≤◌, Bool, true, false, List, [], ◌∷◌, Option, none, some, ◌≡◌, inl, inr, Bool-cases,
  Option-cases, All, if◌then◌else◌, arith,
}
use quip_miner.Prelude.Int.{ℤ, ◌≤ℤ◌}
use quip_miner.Decay.Rules.{FloatOps}
use quip_miner.Stash.{
  Candidate, WinStash, find, viability_block, is_due, due_at, improves, due_improving,
}
use quip_miner.Stash.Ranking.{NotWorse, IsRanked}

find-passes :
    (p : Candidate → Bool) (cs : List Candidate) (c : Candidate) → find p cs ≡ some c → p c ≡ true
unfolding find
find-passes p [] c e = cc
find-passes p (d ∷ cs) c e = elim (Bool-cases (p d)) [
  | inl h ↦ ground (arith, h, e)
  | inr h ↦ find-passes p cs c (rw (h, if◌then◌else◌) at e)
]

-- The candidates that pass a test are no better than this one.
abbrev pub BestOf : (Candidate → Bool) → Candidate → List Candidate → Type 0
BestOf p c = All (λ d. p d ≡ true → c.best_energy_milli ≤ℤ d.best_energy_milli)

NotWorse-BestOf :
    (p : Candidate → Bool) (c : Candidate) (cs : List Candidate) → NotWorse c cs → BestOf p c cs
NotWorse-BestOf p c [] h = tt
NotWorse-BestOf p c (d ∷ cs) h = ((λ _. h.0), NotWorse-BestOf p c cs h.1)

find-BestOf :
    (p : Candidate → Bool) (cs : List Candidate) (c : Candidate)
    → IsRanked cs
    → find p cs ≡ some c
    → BestOf p c cs
unfolding find
find-BestOf p [] c r e = tt
find-BestOf p (d ∷ cs) c r e = elim (Bool-cases (p d)) [
  | inl h ↦
      let shown : some d ≡ some c = rw (h, if◌then◌else◌) at e in
      let same : d ≡ c = cc in
      subst (λ x. BestOf p x (d ∷ cs)) same ((λ _. omega arith), NotWorse-BestOf p d cs r.0)
  | inr h ↦ ((λ t. absurd (cc)), find-BestOf p cs c r.1 (rw (h, if◌then◌else◌) at e))
]

find-none :
    (p : Candidate → Bool) (cs : List Candidate) → find p cs ≡ none → All (λ d. p d ≡ false) cs
unfolding find
find-none p [] e = tt
find-none p (d ∷ cs) e = elim (Bool-cases (p d)) [
  | inl h ↦ let bad : some d ≡ none = rw (h, if◌then◌else◌) at e in cc
  | inr h ↦ (h, find-none p cs (rw (h, if◌then◌else◌) at e))
]

module _ (ops : FloatOps) (s : WinStash) (block : ℕ) (best : Option ℤ) where
  due_improving-cases :
      (c : Candidate)
      → due_improving ops s block best ≡ some c
      → (due_at ops s block ≡ some c) × (improves best c ≡ true)
  unfolding due_improving
  due_improving-cases c e = ground arith

  is_due-parts :
      (c : Candidate)
      → is_due ops s block c ≡ true
      → (c.submitted ≡ false)
        × ((b : ℕ) × (viability_block ops s c.best_energy_milli ≡ some b) × (b ≤ block))
  unfolding is_due
  is_due-parts c h = elim (Option-cases (viability_block ops s c.best_energy_milli)) [
    | inl e ↦ ground (arith, e, h)
    | inr (b, e) ↦ (ground (arith, h), (b, e, ground (arith, e, h)))
  ]

  -- From a ranked stash, the candidate handed out is unsubmitted, viable by the block and better
  -- than the current best, and no due candidate has less energy.
  pub due_improving-best :
      (c : Candidate)
      → IsRanked s.candidates
      → due_improving ops s block best ≡ some c
      → (c.submitted ≡ false)
        × ((b : ℕ) × (viability_block ops s c.best_energy_milli ≡ some b) × (b ≤ block))
        × (improves best c ≡ true)
        × BestOf (is_due ops s block) c s.candidates
  unfolding due_at
  due_improving-best c r e =
      let (found, better) = due_improving-cases c e in
      let (fresh, viable) =
        is_due-parts c (find-passes (is_due ops s block) s.candidates c found) in
      (fresh, viable, better, find-BestOf (is_due ops s block) s.candidates c r found)

  not_better :
      (c : Candidate) (cs : List Candidate)
      → improves best c ≡ false
      → BestOf (is_due ops s block) c cs
      → All (λ d. is_due ops s block d ≡ true → improves best d ≡ false) cs
  not_better c [] h a = tt
  not_better c (d ∷ cs) h a = ((λ due. worse (a.0 due)), not_better c cs h a.1)
    where
      worse : c.best_energy_milli ≤ℤ d.best_energy_milli → improves best d ≡ false
      worse le = ground (arith, h, le)

  none_due :
      (cs : List Candidate)
      → All (λ d. is_due ops s block d ≡ false) cs
      → All (λ d. is_due ops s block d ≡ true → improves best d ≡ false) cs
  none_due [] a = tt
  none_due (d ∷ cs) a = ((λ due. let no' = a.0 in cc), none_due cs a.1)

  -- From a ranked stash, where no candidate is handed out no due candidate is better than the
  -- current best.
  pub due_improving-none :
      IsRanked s.candidates
      → due_improving ops s block best ≡ none
      → All (λ d. is_due ops s block d ≡ true → improves best d ≡ false) s.candidates
  unfolding due_at due_improving
  due_improving-none r e = elim (Option-cases (due_at ops s block)) [
    | inl n ↦ none_due s.candidates (find-none (is_due ops s block) s.candidates n)
    | inr (c, found) ↦
        not_better c s.candidates (ground (arith, e, found))
          (find-BestOf (is_due ops s block) s.candidates c r found)
  ]
