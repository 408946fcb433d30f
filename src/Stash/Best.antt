-- ===== src/Stash/Best.antt =====
-- What an insertion keeps (`WinStash::insert` of `crates/quip-coordinator/src/stash.rs`).
use mathlib.Core.List.{Perm, perm_append_singleton}
use mathlib.Core.List.Perm
use quip_miner.Prelude.{
  ℕ, zero, suc, min, List, [], ◌∷◌, ◌++◌, some, ◌≡◌, refl, All, length, length-append, length-take,
  take, arith,
}
use quip_miner.Decay.Rules.{FloatOps}
use quip_miner.Stash.{Candidate, WinStash, energy, viability_block, insert}
use quip_miner.Stash.Ranking.{NotWorse, IsRanked}
use quip_miner.Prelude.Sort.{
  sort_by_key, sort_by_key-IsSorted, sort_by_key-perm, length-sort_by_key,
}

drop : ℕ → List Candidate → List Candidate
drop zero cs = cs
drop (suc n) [] = []
drop (suc n) (c ∷ cs) = drop n cs

take-append-drop : (n : ℕ) (cs : List Candidate) → take n cs ++ drop n cs ≡ cs
unfolding drop
take-append-drop zero cs = refl
take-append-drop (suc n) [] = refl
take-append-drop (suc n) (c ∷ cs) = rw (take-append-drop n cs)

-- No candidate of the first list is worse than one of the second.
abbrev pub NoneWorse : List Candidate → List Candidate → Type 0
NoneWorse kept dropped = All (λ c. NotWorse c dropped) kept

NotWorse-drop :
    (n : ℕ) (c : Candidate) (cs : List Candidate) → NotWorse c cs → NotWorse c (drop n cs)
unfolding drop
NotWorse-drop zero c cs h = h
NotWorse-drop (suc n) c [] h = tt
NotWorse-drop (suc n) c (d ∷ cs) h = NotWorse-drop n c cs h.1

take-NoneWorse : (n : ℕ) (cs : List Candidate) → IsRanked cs → NoneWorse (take n cs) (drop n cs)
unfolding drop
take-NoneWorse zero cs r = tt
take-NoneWorse (suc n) [] r = tt
take-NoneWorse (suc n) (c ∷ cs) r = (NotWorse-drop n c cs r.0, take-NoneWorse n cs r.1)

-- Inserting a candidate that becomes viable within the horizon keeps the best: what the stash
-- holds afterwards and what it drops are the old candidates and the new one, none kept is worse
-- than one dropped, and as many are kept as there are, up to the size.
pub insert-best :
    (ops : FloatOps) (c : Candidate) (s : WinStash) (b : ℕ)
    → viability_block ops s c.best_energy_milli ≡ some b
    → (dropped : List Candidate) × Perm
        ((insert ops c s).0.candidates ++ dropped)
        (c ∷ s.candidates)
      × NoneWorse (insert ops c s).0.candidates dropped
      × (length (insert ops c s).0.candidates ≡ min s.k (suc (length s.candidates)))
unfolding insert
insert-best ops c s b e =
    let sorted = sort_by_key energy (s.candidates ++ c ∷ []) in
    (
      drop s.k sorted,
      rw (e, insert)
          (rw (take-append-drop s.k sorted) (
            Perm.trans (sort_by_key-perm energy (s.candidates ++ c ∷ []))
              (perm_append_singleton c s.candidates))),
      rw (e, insert)
          (take-NoneWorse s.k sorted (sort_by_key-IsSorted energy (s.candidates ++ c ∷ []))),
      rw (e, insert)
          (omega (
            arith,
            length-take s.k sorted,
            length-sort_by_key energy (s.candidates ++ c ∷ []),
            length-append s.candidates (c ∷ []),
          )),
    )
