-- ===== src/Session/Outcomes.antt =====
-- What settled results are to become, from a result, a best and the chain's answer to a proof alone
-- (`settle_pow_result` of `crates/quip-coordinator/src/session.rs`).
use quip_miner.Prelude.{
  Bool, true, false, List, [], ◌∷◌, Option, none, some, ◌≡◌, refl, ◌⊎◌, inl, inr, All, Bool-cases,
  Option-cases, arith,
}
use quip_miner.Prelude.Int.{ℤ, ◌≤ℤ◌, ◌<ℤ◌, ltb_ℤ, ltb_ℤ→lt, ltb_ℤ→le}
use quip_miner.Prelude.Bytes.{Bytes}
use quip_miner.Wire.{Provenance}
use quip_miner.Ledger.{SubmitAction, success, retry, stop_round_stale, stop_fatal}
use quip_miner.Stash.{Candidate}
use quip_miner.Validate.{beats_current}
use quip_miner.Session.Settle.{
  Proof, PowOutcome, is_pow_job, order_id_of, or_empty, proof_of, candidate_of,
}

-- The salt of a proof, empty where the result has none.
abbrev pub IsSalt : Option Bytes → Bytes → Type 0
IsSalt none salt = salt ≡ []
IsSalt (some t) salt = salt ≡ t

abbrev pub IsProvenance : Option Provenance → Bool → Bytes → Type 0
IsProvenance none is_pow order_id = (is_pow ≡ false) × (order_id ≡ [])
IsProvenance (some q) is_pow order_id = (is_pow ≡ q.is_pow) × (order_id ≡ q.order_id)

-- The proof that a result is to be submitted as.
pub record Carries (o : PowOutcome) (p : Proof) : Type 0 where
  pub job_id : p.job_id ≡ o.job_id
  pub energy : p.best_energy_milli ≡ o.validated.best_energy_milli
  pub diversity : p.diversity_milli ≡ o.validated.diversity_milli
  pub n_valid : p.n_valid ≡ o.validated.n_valid
  pub rows : p.solutions ≡ o.validated.selected_solutions
  pub generation : p.generation ≡ o.job.generation
  pub salt : IsSalt o.salt p.salt
  pub device_time : p.device_access_time_us ≡ o.device_access_time_us
  pub provenance : IsProvenance o.job.provenance p.is_pow p.order_id

-- The candidate that a result is to be kept as: with the best energy of all its rows, and with the
-- rows for a later submit.
pub record IsKeptAs (o : PowOutcome) (c : Candidate) : Type 0 where
  pub job_id : c.job_id ≡ o.job_id
  pub energy : c.best_energy_milli ≡ o.validated.raw_best_energy_milli
  pub diversity : c.diversity_milli ≡ o.validated.diversity_milli
  pub n_valid : c.n_valid ≡ o.validated.n_valid
  pub rows : c.solutions ≡ o.validated.stash_solutions
  pub generation : c.generation ≡ o.job.generation
  pub salt : c.salt ≡ o.salt
  pub device_time : c.device_access_time_us ≡ o.device_access_time_us
  pub provenance : IsProvenance o.job.provenance c.is_pow c.order_id
  pub unsubmitted : c.submitted ≡ false

-- A best there is, and it is no worse than an energy.
abbrev pub IsCovered : Option ℤ → ℤ → Type 0
IsCovered none e = ⊥
IsCovered (some best) e = best ≤ℤ e

-- A best no worse than the one before, if there was one.
abbrev pub IsNoWorse : Option ℤ → Option ℤ → Type 0
IsNoWorse none last = Unit
IsNoWorse (some best) last = IsCovered last best

abbrev pub Beats : Option ℤ → ℤ → Type 0
Beats none e = Unit
Beats (some best) e = e <ℤ best

proof_of-salt : (o : PowOutcome) → IsSalt o.salt (or_empty o.salt)
proof_of-salt o = elim (Option-cases o.salt) [
  | inl e ↦ rw (e, or_empty) refl
  | inr (t, e) ↦ rw (e, or_empty) refl
]

job-IsProvenance :
    (o : PowOutcome) → IsProvenance o.job.provenance (is_pow_job o.job) (order_id_of o.job)
job-IsProvenance o = elim (Option-cases o.job.provenance) [
  | inl e ↦ rw (is_pow_job, order_id_of, e) (refl, refl)
  | inr (q, e) ↦ rw (is_pow_job, order_id_of, e) (refl, refl)
]

pub proof_of-Carries : (o : PowOutcome) → Carries o (proof_of o)
unfolding proof_of
proof_of-Carries o = record {
  job_id = refl;
  energy = refl;
  diversity = refl;
  n_valid = refl;
  rows = refl;
  generation = refl;
  salt = proof_of-salt o;
  device_time = refl;
  provenance = job-IsProvenance o;
}

pub candidate_of-IsKeptAs : (o : PowOutcome) → IsKeptAs o (candidate_of o)
unfolding candidate_of
candidate_of-IsKeptAs o = record {
  job_id = refl;
  energy = refl;
  diversity = refl;
  n_valid = refl;
  rows = refl;
  generation = refl;
  salt = refl;
  device_time = refl;
  provenance = job-IsProvenance o;
  unsubmitted = refl;
}

pub Beats-cases :
    (e : ℤ) (best : Option ℤ)
    → ((beats_current e best ≡ true) × Beats best e)
      ⊎ ((beats_current e best ≡ false) × IsCovered best e)
unfolding beats_current
Beats-cases e none = inl (refl, tt)
Beats-cases e (some best) = elim (Bool-cases (ltb_ℤ e best)) [
  | inl less ↦ inl (less, ltb_ℤ→lt e best less)
  | inr more ↦ inr (more, ltb_ℤ→le e best more)
]

module _ (chain : Proof → Option SubmitAction) where
  -- The chain takes every proof that carries the result.
  abbrev pub Lands : PowOutcome → Type 0
  Lands o = (p : Proof) → Carries o p → chain p ≡ some success

  -- From a best, results in turn leave candidates for the stash and a best.
  pub data Settles : Option ℤ → List PowOutcome → List Candidate → Option ℤ → Type 0 where
    ends : (best : Option ℤ) → Settles best [] [] best
    unaccepted :
        (best last : Option ℤ) (o : PowOutcome) (c : Candidate) (os : List PowOutcome)
        (cs : List Candidate)
        → o.validated.accepted ≡ false
        → IsKeptAs o c
        → Settles best os cs last
        → Settles best (o ∷ os) (c ∷ cs) last
    beaten :
        (best last : Option ℤ) (o : PowOutcome) (os : List PowOutcome) (cs : List Candidate)
        → o.validated.accepted ≡ true
        → IsCovered best o.validated.best_energy_milli
        → Settles best os cs last
        → Settles best (o ∷ os) cs last
    lands :
        (best last : Option ℤ) (o : PowOutcome) (p : Proof) (os : List PowOutcome)
        (cs : List Candidate)
        → o.validated.accepted ≡ true
        → Beats best o.validated.best_energy_milli
        → Carries o p
        → chain p ≡ some success
        → Settles (some o.validated.best_energy_milli) os cs last
        → Settles best (o ∷ os) cs last
    retried :
        (best last : Option ℤ) (o : PowOutcome) (p : Proof) (c : Candidate) (os : List PowOutcome)
        (cs : List Candidate)
        → o.validated.accepted ≡ true
        → Beats best o.validated.best_energy_milli
        → Carries o p
        → (chain p ≡ some retry) ⊎ (chain p ≡ none)
        → IsKeptAs o c
        → Settles best os cs last
        → Settles best (o ∷ os) (c ∷ cs) last
    refused :
        (best last : Option ℤ) (o : PowOutcome) (p : Proof) (os : List PowOutcome)
        (cs : List Candidate)
        → o.validated.accepted ≡ true
        → Beats best o.validated.best_energy_milli
        → Carries o p
        → (chain p ≡ some stop_round_stale) ⊎ (chain p ≡ some stop_fatal)
        → Settles best os cs last
        → Settles best (o ∷ os) cs last

  IsCovered-le : (best : Option ℤ) (x y : ℤ) → IsCovered best x → x ≤ℤ y → IsCovered best y
  IsCovered-le none x y h k = h
  IsCovered-le (some b) x y h k = omega arith

  Beats-IsCovered :
      (best last : Option ℤ) (e x : ℤ)
      → Beats best e
      → best ≡ some x
      → IsCovered last e
      → IsCovered last x
  Beats-IsCovered none last e x b k h = absurd (cc)
  Beats-IsCovered (some y) last e x b k h = IsCovered-le last e x h (ground (arith, b, k))

  -- The best never gets worse.
  Settles-best :
      {best last : Option ℤ} {os : List PowOutcome} {cs : List Candidate} (x : ℤ)
      → Settles best os cs last
      → best ≡ some x
      → IsCovered last x
  Settles-best x (ends best) e = rw e (omega arith)
  Settles-best x (unaccepted best last o c os cs a k r) e = Settles-best x r e
  Settles-best x (beaten best last o os cs a w r) e = Settles-best x r e
  Settles-best x (lands best last o p os cs a b c y r) e =
      let now = o.validated.best_energy_milli in
      Beats-IsCovered best last now x b e (Settles-best now r refl)
  Settles-best x (retried best last o p c os cs a b k y i r) e = Settles-best x r e
  Settles-best x (refused best last o p os cs a b c y r) e = Settles-best x r e

  pub Settles-IsNoWorse :
      (best : Option ℤ) {last : Option ℤ} {os : List PowOutcome} {cs : List Candidate}
      → Settles best os cs last
      → IsNoWorse best last
  Settles-IsNoWorse none r = tt
  Settles-IsNoWorse (some x) r = Settles-best x r refl

  abbrev pub LandsCovered : Option ℤ → PowOutcome → Type 0
  LandsCovered last o =
      o.validated.accepted ≡ true → Lands o → IsCovered last o.validated.best_energy_milli

  IsCovered-Settles :
      {best last : Option ℤ} {os : List PowOutcome} {cs : List Candidate} (e : ℤ)
      → Settles best os cs last
      → IsCovered best e
      → IsCovered last e
  IsCovered-Settles {best} {last} e r w = elim (Option-cases best) [
    | inl n ↦ absurd (rw n at w)
    | inr (y, k) ↦ IsCovered-le last y e (Settles-best y r k) (rw k at w)
  ]

  -- Every accepted result whose proof the chain takes has at least the energy of the best.
  pub Settles-LandsCovered :
      {best last : Option ℤ} {os : List PowOutcome} {cs : List Candidate}
      → Settles best os cs last
      → All (LandsCovered last) os
  Settles-LandsCovered (ends best) = tt
  Settles-LandsCovered (unaccepted best last o c os cs a k r) =
      (λ yes l. absurd (cc (a, yes)), Settles-LandsCovered r)
  Settles-LandsCovered (beaten best last o os cs a w r) =
      (λ yes l. IsCovered-Settles o.validated.best_energy_milli r w, Settles-LandsCovered r)
  Settles-LandsCovered (lands best last o p os cs a b c y r) =
      (λ yes l. Settles-best o.validated.best_energy_milli r refl, Settles-LandsCovered r)
  Settles-LandsCovered (retried best last o p c os cs a b k (inl y) i r) =
      (λ yes l. absurd (cc (y, l p k)), Settles-LandsCovered r)
  Settles-LandsCovered (retried best last o p c os cs a b k (inr y) i r) =
      (λ yes l. absurd (cc (y, l p k)), Settles-LandsCovered r)
  Settles-LandsCovered (refused best last o p os cs a b k (inl y) r) =
      (λ yes l. absurd (cc (y, l p k)), Settles-LandsCovered r)
  Settles-LandsCovered (refused best last o p os cs a b k (inr y) r) =
      (λ yes l. absurd (cc (y, l p k)), Settles-LandsCovered r)
