-- ===== src/Stash/Ranking.antt =====
-- The candidates of a stash stay ranked and within its size
-- (`WinStash` of `crates/quip-coordinator/src/stash.rs`).
use quip_miner.Prelude.{
  ℕ, ◌≤◌, Bool, List, [], ◌∷◌, ◌++◌, Option, ◌≡◌, refl, inl, inr, Bool-cases, Option-cases, length,
  length-take, if_ind, arith,
}
use quip_miner.Prelude.Sort.{AtMost, IsSorted, sort_by_key, sort_by_key-IsSorted, take-IsSorted}
use quip_miner.Prelude.Bytes.{Bytes, bytes_eq}
use quip_miner.Decay.Rules.{FloatOps}
use quip_miner.Decay.{DecayAlgorithm, DecayModel}
use quip_miner.Stash.{
  Candidate, WinStash, new, reset, set_algorithm, same_algorithm, energy, mark_first,
  mark_submitted, viability_block, insert,
}

-- Best first: no candidate has more energy than one behind it.
abbrev pub NotWorse : Candidate → List Candidate → Type 0
NotWorse = AtMost energy

abbrev pub IsRanked : List Candidate → Type 0
IsRanked = IsSorted energy

NotWorse-mark_first :
    (id : Bytes) (c : Candidate) (cs : List Candidate)
    → NotWorse c cs
    → NotWorse c (mark_first id cs)
unfolding mark_first
NotWorse-mark_first id c [] h = tt
NotWorse-mark_first id c (d ∷ cs) h = elim (Bool-cases (bytes_eq d.job_id id)) [
  | inl e ↦ rw e h
  | inr e ↦ rw e (h.0, NotWorse-mark_first id c cs h.1)
]

mark_first-IsRanked : (id : Bytes) (cs : List Candidate) → IsRanked cs → IsRanked (mark_first id cs)
unfolding mark_first
mark_first-IsRanked id [] r = tt
mark_first-IsRanked id (c ∷ cs) r = elim (Bool-cases (bytes_eq c.job_id id)) [
  | inl e ↦ rw e r
  | inr e ↦ rw e (NotWorse-mark_first id c cs r.0, mark_first-IsRanked id cs r.1)
]

length-mark_first : (id : Bytes) (cs : List Candidate) → length (mark_first id cs) ≡ length cs
unfolding mark_first
length-mark_first id [] = refl
length-mark_first id (c ∷ cs) = ground (arith, length-mark_first id cs)

-- What every operation keeps.
pub record IsValid (s : WinStash) : Type 0 where
  pub room : 1 ≤ s.k
  pub within : length s.candidates ≤ s.k
  pub ranks : IsRanked s.candidates

new-IsValid : (k : ℕ) → IsValid (new k)
unfolding new
new-IsValid k = record { room = omega arith; within = omega arith; ranks = tt }

reset-IsValid :
    (generation block : ℕ) (model : Option DecayModel) (s : WinStash)
    → IsValid s
    → IsValid (reset generation model block s)
unfolding reset
reset-IsValid generation block model s v = record {
  room = v.room;
  within = omega arith;
  ranks = tt;
}

insert-IsValid :
    (ops : FloatOps) (c : Candidate) (s : WinStash) → IsValid s → IsValid (insert ops c s).0
unfolding insert
insert-IsValid ops c s v = elim (Option-cases (viability_block ops s c.best_energy_milli)) [
  | inl e ↦ rw (e, insert) v
  | inr (b, e) ↦
      rw (e, insert)
        (record {
          room = v.room;
          within = omega (arith, length-take s.k (sort_by_key energy (s.candidates ++ c ∷ [])));
          ranks = take-IsSorted energy s.k _ (sort_by_key-IsSorted energy (s.candidates ++ c ∷ []));
        })
]

mark_submitted-IsValid : (id : Bytes) (s : WinStash) → IsValid s → IsValid (mark_submitted id s)
unfolding mark_submitted
mark_submitted-IsValid id s v = record {
  room = v.room;
  within = omega (arith, length-mark_first id s.candidates, v.within);
  ranks = mark_first-IsRanked id s.candidates v.ranks;
}

set_algorithm-IsValid :
    (a : DecayAlgorithm) (s : WinStash) → IsValid s → IsValid (set_algorithm a s).0
unfolding set_algorithm
set_algorithm-IsValid a s v = elim (Option-cases s.model) [
  | inl e ↦ rw (e, set_algorithm) v
  | inr (m, e) ↦
      rw (e, set_algorithm)
        (if_ind (λ (r : WinStash × Bool). IsValid r.0) (same_algorithm m.algorithm a) v
          (record { room = v.room; within = v.within; ranks = v.ranks }))
]

-- The operations, as a sequence of calls on a stash.
pub data Call : Type 0 where
  resets : ℕ → Option DecayModel → ℕ → Call
  sets_algorithm : DecayAlgorithm → Call
  inserts : Candidate → Call
  marks : Bytes → Call

module _ (ops : FloatOps) where
  unfoldable pub step : Call → WinStash → WinStash
  step (resets generation model block) s = reset generation model block s
  step (sets_algorithm a) s = (set_algorithm a s).0
  step (inserts c) s = (insert ops c s).0
  step (marks id) s = mark_submitted id s

  unfoldable pub run : List Call → WinStash → WinStash
  unfolding step
  run [] s = s
  run (c ∷ cs) s = run cs (step c s)

  step-IsValid : (c : Call) (s : WinStash) → IsValid s → IsValid (step c s)
  unfolding step
  step-IsValid (resets generation model block) s v = reset-IsValid generation block model s v
  step-IsValid (sets_algorithm a) s v = set_algorithm-IsValid a s v
  step-IsValid (inserts c) s v = insert-IsValid ops c s v
  step-IsValid (marks id) s v = mark_submitted-IsValid id s v

  run-IsValid : (cs : List Call) (s : WinStash) → IsValid s → IsValid (run cs s)
  unfolding run
  run-IsValid [] s v = v
  run-IsValid (c ∷ cs) s v = run-IsValid cs (step c s) (step-IsValid c s v)

  -- After any calls on a new stash of any size, its candidates are ranked best first and number no
  -- more than its size, which is at least one.
  pub run-new-IsValid : (k : ℕ) (cs : List Call) → IsValid (run cs (new k))
  run-new-IsValid k cs = run-IsValid cs (new k) (new-IsValid k)
