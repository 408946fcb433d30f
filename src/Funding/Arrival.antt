-- ===== src/Funding/Arrival.antt =====
-- When funding succeeds (`ensure_funded` of `crates/quip-coordinator/src/funding.rs`).
use mathlib.Core.Path.{subst}
use quip_miner.Prelude.{
  ap, ℕ, zero, suc, ◌+◌, ◌-◌, ◌*◌, ◌/◌, ◌≤◌, ◌<◌, Bool, true, false, Option, none, some, ◌⊎◌, inl,
  inr, ◌≡◌, refl, Bool-cases, leb, leb→le, arith,
}
use quip_miner.Prelude.Bytes.{Bytes}
use quip_miner.Funding.{
  FaucetError, permanent, already_funded, transient, FundingParams, Pass, returns, goes_on,
  chain_read_failed, Run, backoff_start, backoff_max, after_request, next_backoff, budgeted, pass,
  funding_loop, ensure_funded,
}

abbrev pub IsFunded : Run → Type 0
IsFunded run = (balance : ℕ) × (run.outcome ≡ some (inl balance))

-- A pass that returns does so with a balance.
abbrev FundsOrGoesOn : Pass → Type 0
FundsOrGoesOn (returns o) = (balance : ℕ) × (o ≡ inl balance)
FundsOrGoesOn (goes_on l note) = Unit

module _ (free_balance : ℕ → ℕ ⊎ Bytes) (request : ℕ → ℕ → Option FaucetError)
    (params : FundingParams) where
  abbrev pub NotRejected : ℕ → Type 0
  NotRejected n = (m : Bytes) → request n params.top_up ≡ some (permanent m) → ⊥

  after_request-funds :
      (n balance : ℕ) (a : Option FaucetError)
      → ((m : Bytes) → a ≡ some (permanent m) → ⊥)
      → FundsOrGoesOn (after_request balance a)
  after_request-funds n balance none h = tt
  after_request-funds n balance (some (permanent m)) h = absurd (h m refl)
  after_request-funds n balance (some (already_funded m)) h = tt
  after_request-funds n balance (some (transient m)) h = tt

  pass-funds :
      (n : ℕ) (l : Option ℕ)
      → NotRejected n
      → FundsOrGoesOn (pass free_balance (some request) params n l)
  unfolding pass
  pass-funds n l h = read (free_balance n)
    where
      floor :
          (balance : ℕ) (b : Bool)
          → FundsOrGoesOn (elim b [
            | true ↦ returns (inl balance)
            | false ↦ after_request balance (request n params.top_up)
          ])
      floor balance true = (balance, refl)
      floor balance false = after_request-funds n balance (request n params.top_up) h

      read :
          (a : ℕ ⊎ Bytes)
          → FundsOrGoesOn (elim a [
            | inr e ↦ goes_on l (chain_read_failed e)
            | inl balance ↦ elim (leb params.min_balance balance) [
              | true ↦ returns (inl balance)
              | false ↦ after_request balance (request n params.top_up)
            ]
          ])
      read (inr e) = tt
      read (inl balance) = floor balance (leb params.min_balance balance)

  budgeted-IsFunded :
      (rest : Option ℕ → Run) (remaining backoff : ℕ) (p : Pass)
      → backoff < remaining
      → FundsOrGoesOn p
      → ((l : Option ℕ) → IsFunded (rest l))
      → IsFunded (budgeted free_balance (some request) params rest remaining backoff p)
  budgeted-IsFunded rest remaining backoff (returns o) room (balance, e) h = (balance, ap some e)
  budgeted-IsFunded rest remaining backoff (goes_on l note) room f h =
      elim (Bool-cases (leb remaining backoff)) [
        | inl at ↦ absurd (omega (arith, leb→le remaining backoff at))
        | inr on ↦ rw (on, budgeted) (h l)
      ]

  module _ (k balance : ℕ) (arrives : free_balance k ≡ inl balance)
      (enough : params.min_balance ≤ balance) where
    at_arrival :
        (rest : Option ℕ → Run) (remaining backoff : ℕ) (l : Option ℕ)
        → IsFunded (
            budgeted free_balance
              (some request)
              params
              rest
              remaining
              backoff
              (pass free_balance (some request) params k l))
    unfolding pass
    at_arrival rest remaining backoff l =
        let passes : leb params.min_balance balance ≡ true = ground arith in
        (balance, rw (pass, arrives, passes) refl)

    funding_loop-IsFunded :
        (d fuel n remaining backoff : ℕ) (l : Option ℕ)
        → n + d ≡ k
        → d < fuel
        → d * backoff_max < remaining
        → backoff ≤ backoff_max
        → ((j : ℕ) → j < k → NotRejected j)
        → IsFunded (funding_loop free_balance (some request) params fuel n remaining backoff l)
    unfolding funding_loop
    funding_loop-IsFunded d zero n remaining backoff l s f r b h = absurd (omega arith)
    funding_loop-IsFunded zero (suc fuel) n remaining backoff l s f r b h =
        subst
          (λ k'. IsFunded (
            budgeted free_balance (some request) params
              (funding_loop free_balance (some request) params fuel (suc n) (remaining - backoff)
                (next_backoff backoff))
              remaining backoff (pass free_balance (some request) params k' l)))
          (omega (arith, s)) (at_arrival _ remaining backoff l)
    funding_loop-IsFunded (suc d) (suc fuel) n remaining backoff l s f r b h =
        budgeted-IsFunded
          (funding_loop free_balance (some request) params fuel (suc n) (remaining - backoff)
            (next_backoff backoff))
          remaining backoff (pass free_balance (some request) params n l) (omega arith)
          (pass-funds n l (h n (omega arith)))
          (λ l'.
            funding_loop-IsFunded d fuel (suc n) (remaining - backoff) (next_backoff backoff) l'
              (omega arith) (omega arith) (omega arith) (omega arith) h)

    -- With a faucet, if read k gives a balance at or above the floor, no request before it is
    -- rejected for good and k of the longest gaps are less than the timeout, then funding returns a
    -- balance.
    pub ensure_funded-IsFunded :
        ((j : ℕ) → j < k → NotRejected j)
        → k * backoff_max < params.timeout
        → IsFunded (ensure_funded free_balance (some request) params)
    unfolding ensure_funded
    ensure_funded-IsFunded h r =
        funding_loop-IsFunded k (suc (params.timeout / backoff_start)) 0 params.timeout
          backoff_start none (omega arith) (omega arith) r (omega arith) h
