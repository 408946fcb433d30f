-- ===== src/Funding/Budget.antt =====
-- The time that funding takes (`ensure_funded` of `crates/quip-coordinator/src/funding.rs`).
use mathlib.Core.Path.{subst}
use quip_miner.Prelude.{
  ℕ, zero, suc, ◌+◌, ◌-◌, ◌*◌, ◌/◌, ◌≤◌, ◌<◌, List, [], ◌∷◌, Option, none, some, ◌⊎◌, inl, inr, ◌≡◌,
  refl, sym, Bool-cases, leb, leb→le, leb→lt, arith,
}
use quip_miner.Prelude.Bytes.{Bytes}
use quip_miner.Funding.{
  FaucetAnswers, FundingParams, faucet_exhausted, chain, Outcome, Pass, returns, goes_on, Run,
  backoff_start, backoff_max, next_backoff, budgeted, pass, funding_loop, ensure_funded,
}

abbrev pub Returned : Run → Type 0
Returned run = (o : Outcome) × (run.outcome ≡ some o)

abbrev pub total : List ℕ → ℕ
total [] = 0
total (d ∷ ds) = d + total ds

-- An error that the budget check returns.
abbrev pub IsGivingUp : Outcome → Type 0
IsGivingUp (inr (faucet_exhausted b t note)) = Unit
IsGivingUp (inr (chain note)) = Unit
IsGivingUp _ = ⊥

-- A pass does not give up by itself.
abbrev IsPatient : Pass → Type 0
IsPatient (returns o) = IsGivingUp o → ⊥
IsPatient (goes_on l note) = Unit

-- A run gives up only with at most the longest gap left of a budget.
abbrev pub SpendsBudget : ℕ → Run → Type 0
SpendsBudget budget run =
    (o : Outcome) → run.outcome ≡ some o → IsGivingUp o → budget ≤ total run.sleeps + backoff_max

module _ (free_balance : ℕ → ℕ ⊎ Bytes) (faucet : FaucetAnswers) (params : FundingParams) where
  budgeted-Returned :
      (rest : Option ℕ → Run) (remaining backoff : ℕ) (p : Pass)
      → (backoff < remaining → (l : Option ℕ) → Returned (rest l))
      → Returned (budgeted free_balance faucet params rest remaining backoff p)
  budgeted-Returned rest remaining backoff (returns o) h = (o, refl)
  budgeted-Returned rest remaining backoff (goes_on l note) h =
      elim (Bool-cases (leb remaining backoff)) [
        | inl at ↦ rw (at, budgeted) (_, refl)
        | inr on ↦ rw (on, budgeted) (h (leb→lt remaining backoff on) l)
      ]

  funding_loop-Returned :
      (fuel n remaining backoff : ℕ) (l : Option ℕ)
      → remaining < fuel * backoff_start
      → backoff_start ≤ backoff
      → Returned (funding_loop free_balance faucet params fuel n remaining backoff l)
  unfolding funding_loop
  funding_loop-Returned zero n remaining backoff l h b = absurd (omega arith)
  funding_loop-Returned (suc fuel) n remaining backoff l h b =
      budgeted-Returned
        (funding_loop free_balance faucet params fuel (suc n) (remaining - backoff)
          (next_backoff backoff))
        remaining backoff (pass free_balance faucet params n l)
        (λ on l'.
          funding_loop-Returned fuel (suc n) (remaining - backoff) (next_backoff backoff) l'
            (omega arith) (omega arith))

  -- Funding ends with a balance or an error, whatever the chain and the faucet answer.
  pub ensure_funded-Returned : Returned (ensure_funded free_balance faucet params)
  unfolding ensure_funded
  ensure_funded-Returned =
      funding_loop-Returned (suc (params.timeout / backoff_start)) 0 params.timeout backoff_start
        none (omega arith) (omega arith)

  budgeted-total :
      (rest : Option ℕ → Run) (remaining backoff : ℕ) (p : Pass)
      → (backoff < remaining
          → (l : Option ℕ)
          → (total (rest l).sleeps ≤ remaining - backoff)
            × SpendsBudget (remaining - backoff) (rest l))
      → backoff ≤ backoff_max
      → IsPatient p
      → (total (budgeted free_balance faucet params rest remaining backoff p).sleeps ≤ remaining)
        × SpendsBudget remaining (budgeted free_balance faucet params rest remaining backoff p)
  budgeted-total rest remaining backoff (returns o) h b patient = (omega arith, early)
    where
      early : SpendsBudget remaining (record { outcome = some o; sleeps = [] })
      early o' e g = absurd (patient (let same : o ≡ o' = cc in subst IsGivingUp (sym same) g))
  budgeted-total rest remaining backoff (goes_on l note) h b patient =
      elim (Bool-cases (leb remaining backoff)) [
        | inl at ↦
            let le = leb→le remaining backoff at in
            rw (at, budgeted) (omega arith, (λ o e g. omega arith))
        | inr on ↦
            let lt = leb→lt remaining backoff on in
            let (short, spent) = h lt l in
            rw (on, budgeted) (omega (arith, short, lt), (λ o e g. omega (arith, spent o e g)))
      ]

  pass-IsPatient : (n : ℕ) (l : Option ℕ) → IsPatient (pass free_balance faucet params n l)
  unfolding pass
  pass-IsPatient n l = ground arith

  funding_loop-total :
      (fuel n remaining backoff : ℕ) (l : Option ℕ)
      → backoff ≤ backoff_max
      → (total (funding_loop free_balance faucet params fuel n remaining backoff l).sleeps
          ≤ remaining)
        × SpendsBudget remaining
            (funding_loop free_balance faucet params fuel n remaining backoff l)
  unfolding funding_loop
  funding_loop-total zero n remaining backoff l b = (omega arith, (λ o e g. absurd cc))
  funding_loop-total (suc fuel) n remaining backoff l b =
      budgeted-total
        (funding_loop free_balance faucet params fuel (suc n) (remaining - backoff)
          (next_backoff backoff))
        remaining backoff (pass free_balance faucet params n l)
        (λ _ l'.
          funding_loop-total fuel (suc n) (remaining - backoff) (next_backoff backoff) l'
            (omega arith))
        b (pass-IsPatient n l)

  -- The sleeps of a run never pass the timeout, and a run that gives up has at most the longest gap
  -- of the timeout left.
  pub ensure_funded-total :
      (total (ensure_funded free_balance faucet params).sleeps ≤ params.timeout)
      × SpendsBudget params.timeout (ensure_funded free_balance faucet params)
  unfolding ensure_funded
  ensure_funded-total =
      funding_loop-total (suc (params.timeout / backoff_start)) 0 params.timeout backoff_start none
        (omega arith)
