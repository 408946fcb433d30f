-- ===== src/Readiness/Participation.antt =====
-- Participation over the life of a feeder (`declare_round_participation` of
-- `crates/quip-coordinator/src/readiness.rs`).
use quip_miner.Prelude.{
  ℕ, ◌≤◌, ◌<◌, Bool, true, false, List, [], ◌∷◌, Option, none, some, ◌≡◌, inl, inr, Bool-cases,
  Option-cases, arith,
}
use quip_miner.Submit.{ParticipationOutcome}
use quip_miner.Readiness.{Declaration, candidate_qblock_id, is_last, declare_round_participation}

-- One call: the answer to the read of the last id, and those to a submit.
abbrev pub Call : Type 0
Call = Option (Option ℕ) × (ℕ → Option ParticipationOutcome)

abbrev pub declare : Call → Option ℕ → Declaration
declare (latest, answer) last = declare_round_participation latest answer last

abbrev added : Bool → Option ℕ → List ℕ → List ℕ
added true (some id) ids = id ∷ ids
added true none ids = ids
added false id ids = ids

-- The ids whose submit was answered, in the order of the calls.
unfoldable pub settled_ids : List Call → Option ℕ → List ℕ
settled_ids [] last = []
settled_ids (c ∷ calls) last =
    let d = declare c last in added d.settled d.submitted (settled_ids calls d.last_declared)

-- The ids that are read do not fall, from an id on. A failed read says nothing.
abbrev pub IdsRise : ℕ → List Call → Type 0
IdsRise id [] = Unit
IdsRise id ((none, answer) ∷ calls) = IdsRise id calls
IdsRise id ((some latest, answer) ∷ calls) =
    (id ≤ candidate_qblock_id latest) × IdsRise (candidate_qblock_id latest) calls

-- Each is more than the last one, the first more than the number, where there is one.
abbrev pub IsRising : Option ℕ → List ℕ → Type 0
IsRising last [] = Unit
IsRising none (id ∷ ids) = IsRising (some id) ids
IsRising (some last) (id ∷ ids) = (last < id) × IsRising (some id) ids

abbrev pub AtMost : Option ℕ → ℕ → Type 0
AtMost none id = Unit
AtMost (some last) id = last ≤ id

last-AtMost : (last : Option ℕ) (id : ℕ) → is_last last id ≡ true → AtMost last id
last-AtMost none id h = tt
last-AtMost (some l) id h = ground (arith, h)

AtMost-trans : (last : Option ℕ) (i j : ℕ) → AtMost last i → i ≤ j → AtMost last j
AtMost-trans none i j h k = tt
AtMost-trans (some l) i j h k = omega arith

cons-IsRising :
    (last : Option ℕ) (i id : ℕ) (ids : List ℕ)
    → AtMost last i
    → i ≤ id
    → is_last last id ≡ false
    → IsRising (some id) ids
    → IsRising last (id ∷ ids)
cons-IsRising none i id ids m l f r = r
cons-IsRising (some k) i id ids m l f r = (ground (arith, f), r)

-- Where the ids that the chain gives do not fall, the ids whose declarations were answered rise: none is
-- declared again after an answer, by any calls.
pub settled_ids-IsRising :
    (calls : List Call) (last : Option ℕ) (id : ℕ)
    → AtMost last id
    → IdsRise id calls
    → IsRising last (settled_ids calls last)
unfolding settled_ids declare_round_participation
settled_ids-IsRising [] last id m r = tt
settled_ids-IsRising ((none, answer) ∷ calls) last id m r = settled_ids-IsRising calls last id m r
settled_ids-IsRising ((some latest, answer) ∷ calls) last id m r =
    let q : ℕ = candidate_qblock_id latest in
    elim (Bool-cases (is_last last q)) [
      | inl same ↦ rw same (settled_ids-IsRising calls last q (last-AtMost last q same) r.1)
      | inr new ↦ elim (Option-cases (answer q)) [
        | inl failed ↦
            rw (new, failed) (settled_ids-IsRising calls last q (AtMost-trans last id q m r.0) r.1)
        | inr (outcome, answered) ↦
            rw (new, answered)
              (cons-IsRising last id q (settled_ids calls (some q)) m r.0 new
                (settled_ids-IsRising calls (some q) q (omega arith) r.1))
      ]
    ]
