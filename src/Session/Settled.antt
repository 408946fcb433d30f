-- ===== src/Session/Settled.antt =====
-- The results that are settled in turn (`settle_pow_result` of
-- `crates/quip-coordinator/src/session.rs`), with no other session between: each is taken with the
-- best that the one before it left.
use mathlib.Core.Path.{subst}
use quip_miner.Prelude.{
  true, false, not, ◌||◌, List, [], ◌∷◌, Option, none, some, ◌≡◌, refl, sym, ap, ◌∙◌, inl, inr,
  if◌then◌else◌, All, Bool-cases, arith,
}
use quip_miner.Prelude.Int.{ℤ}
use quip_miner.Decay.Rules.{FloatOps}
use quip_miner.Ledger.{SubmitAction, success, retry, stop_round_stale, stop_fatal}
use quip_miner.Stash
use quip_miner.Stash.{Candidate, WinStash}
use quip_miner.Session.{CoordinatorState}
use quip_miner.Session.Settle.{
  Proof, PowOutcome, SubmitOutcome, not_sent, landed, to_retry, dropped, outcome_of, wants_submit,
  retains, note_landed, proof_of, candidate_of, submit, record_outcome, settle_pow_result,
}
use quip_miner.Session.Outcomes.{
  IsCovered, IsNoWorse, Beats, Beats-cases, proof_of-Carries, candidate_of-IsKeptAs, Settles, ends,
  unaccepted, beaten, lands, retried, refused, LandsCovered, Settles-IsNoWorse,
  Settles-LandsCovered,
}

module _ (ops : FloatOps) (chain : Proof → Option SubmitAction) where
  -- A result with the best that is current when it is taken.
  abbrev taken : PowOutcome → CoordinatorState → PowOutcome
  taken o s = record o { current_best_milli = s.current_best_milli }

  unfoldable pub settle_all : List PowOutcome → CoordinatorState → CoordinatorState
  settle_all [] s = s
  settle_all (o ∷ os) s = settle_all os (settle_pow_result ops chain (taken o s) s)

  -- The stash after candidates were offered to it in turn.
  unfoldable pub offer_all : List Candidate → WinStash → WinStash
  offer_all [] t = t
  offer_all (c ∷ cs) t = offer_all cs (Stash.insert ops c t).0

  abbrev settled : PowOutcome → SubmitOutcome → CoordinatorState → CoordinatorState
  settled o sent s =
      record_outcome ops chain o sent (note_landed o.validated.best_energy_milli sent s)

  settled-best :
      (o : PowOutcome) (sent : SubmitOutcome) (s : CoordinatorState)
      → (settled o sent s).current_best_milli
        ≡ (note_landed o.validated.best_energy_milli sent s).current_best_milli
  unfolding record_outcome
  settled-best o sent s = ground arith

  settled-stash :
      (o : PowOutcome) (sent : SubmitOutcome) (s : CoordinatorState)
      → (settled (taken o s) sent s).stash ≡ (
          if not o.validated.accepted || retains sent
          then (Stash.insert ops (candidate_of o) s.stash).0
          else s.stash)
  unfolding record_outcome candidate_of
  settled-stash o not_sent s = ground arith
  settled-stash o landed s = ground arith
  settled-stash o to_retry s = ground arith
  settled-stash o dropped s = ground arith

  -- The results after a step, as results from before it.
  abbrev IsStep : PowOutcome → CoordinatorState → CoordinatorState → Type 0
  IsStep o s u =
      (os : List PowOutcome) (cs : List Candidate) (last : Option ℤ)
      → Settles chain u.current_best_milli os cs last
      → (ds : List Candidate) × Settles chain s.current_best_milli (o ∷ os) ds last
        × (offer_all cs u.stash ≡ offer_all ds s.stash)

  unaccepted-IsStep :
      (o : PowOutcome) (s : CoordinatorState)
      → o.validated.accepted ≡ false
      → IsStep o s (settled (taken o s) not_sent s)
  unfolding offer_all
  unaccepted-IsStep o s a os cs last r = (
    candidate_of o ∷ cs,
    unaccepted s.current_best_milli last o (candidate_of o) os cs a (candidate_of-IsKeptAs o)
        (subst (λ b. Settles chain b os cs last) (settled-best (taken o s) not_sent s) r),
    ap (offer_all cs) (settled-stash o not_sent s ∙ rw a refl),
  )

  beaten-IsStep :
      (o : PowOutcome) (s : CoordinatorState)
      → o.validated.accepted ≡ true
      → IsCovered s.current_best_milli o.validated.best_energy_milli
      → IsStep o s (settled (taken o s) not_sent s)
  beaten-IsStep o s a w os cs last r = (
    cs,
    beaten s.current_best_milli last o os cs a w
        (subst (λ b. Settles chain b os cs last) (settled-best (taken o s) not_sent s) r),
    ap (offer_all cs) (settled-stash o not_sent s ∙ rw a refl),
  )

  module _ (o : PowOutcome) (s : CoordinatorState) (a : o.validated.accepted ≡ true)
      (b : Beats s.current_best_milli o.validated.best_energy_milli) where
    -- What a submit leaves to the results after it.
    resumed :
        (sent : SubmitOutcome) (os : List PowOutcome) (cs : List Candidate) (last : Option ℤ)
        → Settles chain (settled (taken o s) sent s).current_best_milli os cs last
        → Settles chain
            (note_landed o.validated.best_energy_milli sent s).current_best_milli
            os
            cs
            last
    resumed sent os cs last r =
        subst (λ x. Settles chain x os cs last) (settled-best (taken o s) sent s) r

    sent-IsStep :
        (answer : Option SubmitAction)
        → chain (proof_of o) ≡ answer
        → IsStep o s (settled (taken o s) (outcome_of answer) s)
    unfolding offer_all
    sent-IsStep (some success) y os cs last r = (
      cs,
      lands s.current_best_milli last o (proof_of o) os cs a b (proof_of-Carries o) y
          (resumed landed os cs last r),
      ap (offer_all cs) (settled-stash o landed s ∙ rw a refl),
    )
    sent-IsStep (some retry) y os cs last r = (
      candidate_of o ∷ cs,
      retried s.current_best_milli last o (proof_of o) (candidate_of o) os cs a b
          (proof_of-Carries o) (inl y) (candidate_of-IsKeptAs o) (resumed to_retry os cs last r),
      ap (offer_all cs) (settled-stash o to_retry s ∙ rw a refl),
    )
    sent-IsStep none y os cs last r = (
      candidate_of o ∷ cs,
      retried s.current_best_milli last o (proof_of o) (candidate_of o) os cs a b
          (proof_of-Carries o) (inr y) (candidate_of-IsKeptAs o) (resumed to_retry os cs last r),
      ap (offer_all cs) (settled-stash o to_retry s ∙ rw a refl),
    )
    sent-IsStep (some stop_round_stale) y os cs last r = (
      cs,
      refused s.current_best_milli last o (proof_of o) os cs a b (proof_of-Carries o) (inl y)
          (resumed dropped os cs last r),
      ap (offer_all cs) (settled-stash o dropped s ∙ rw a refl),
    )
    sent-IsStep (some stop_fatal) y os cs last r = (
      cs,
      refused s.current_best_milli last o (proof_of o) os cs a b (proof_of-Carries o) (inr y)
          (resumed dropped os cs last r),
      ap (offer_all cs) (settled-stash o dropped s ∙ rw a refl),
    )

  -- A result that is not to be submitted is not, and one that is, is as its proof.
  not_submitted : (o : PowOutcome) → wants_submit o ≡ false → submit ops chain o ≡ not_sent
  unfolding submit
  not_submitted o e = rw (submit, e) refl

  submitted :
      (o : PowOutcome) (s : CoordinatorState)
      → wants_submit (taken o s) ≡ true
      → submit ops chain (taken o s) ≡ outcome_of (chain (proof_of o))
  unfolding submit proof_of
  submitted o s e = rw (submit, e) refl

  settle_pow_result-IsStep :
      (o : PowOutcome) (s : CoordinatorState)
      → IsStep o s (settle_pow_result ops chain (taken o s) s)
  unfolding settle_pow_result
  settle_pow_result-IsStep o s =
      let step = λ (w : SubmitOutcome). IsStep o s (settled (taken o s) w s) in
      elim (Bool-cases o.validated.accepted) [
        | inr no_one ↦
            subst step (sym (not_submitted (taken o s) (rw no_one refl)))
              (unaccepted-IsStep o s no_one)
        | inl a ↦ elim (Beats-cases o.validated.best_energy_milli s.current_best_milli) [
          | inl (wins, b) ↦
              subst step (sym (submitted o s (rw (a, wins) refl)))
                (sent-IsStep o s a b (chain (proof_of o)) refl)
          | inr (loses, w) ↦
              subst step (sym (not_submitted (taken o s) (rw (a, loses) refl)))
                (beaten-IsStep o s a w)
        ]
      ]

  -- What the results leave: a best and a stash.
  abbrev IsSettled : List PowOutcome → CoordinatorState → CoordinatorState → Type 0
  IsSettled os s u =
      (cs : List Candidate) × Settles chain s.current_best_milli os cs u.current_best_milli
      × (u.stash ≡ offer_all cs s.stash)

  settle_all-IsSettled :
      (os : List PowOutcome) (s : CoordinatorState) → IsSettled os s (settle_all os s)
  unfolding settle_all offer_all
  settle_all-IsSettled [] s = ([], ends s.current_best_milli, refl)
  settle_all-IsSettled (o ∷ os) s =
      let next = settle_pow_result ops chain (taken o s) s in
      let (cs, r, e) = settle_all-IsSettled os next in
      let (ds, r', e') =
        settle_pow_result-IsStep o s os cs (settle_all os next).current_best_milli r in
      (ds, r', e ∙ e')

  -- Where no other session steps between results that are settled in turn, the best never gets worse
  -- and no accepted result whose proof the chain takes has less energy than it. Result by result: one
  -- that is not accepted is offered to the stash; an accepted one that does not beat the best is
  -- dropped; any other is submitted, as the proof that carries its fields, and becomes the best where
  -- the proof lands, is offered to the stash where the chain says retry or cannot be reached, and is
  -- dropped where it is stale or refused. The stash is offered these candidates, each with the fields
  -- of its result, in order and no others.
  pub settle_all-Settles :
      (os : List PowOutcome) (s : CoordinatorState)
      → IsNoWorse s.current_best_milli (settle_all os s).current_best_milli
        × All (LandsCovered chain (settle_all os s).current_best_milli) os
        × ((cs : List Candidate) × Settles chain s.current_best_milli os cs
              (settle_all os s).current_best_milli
            × ((settle_all os s).stash ≡ offer_all cs s.stash))
  settle_all-Settles os s =
      let (cs, r, e) = settle_all-IsSettled os s in
      (Settles-IsNoWorse chain s.current_best_milli r, Settles-LandsCovered chain r, (cs, r, e))
