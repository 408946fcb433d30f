-- ===== src/Funding.antt =====
-- Funding of the miner account: `ensure_funded` of `crates/quip-coordinator/src/funding.rs`. The
-- chain and the faucet are remote, so their answers are parameters: `free_balance n` is the answer
-- to the read of pass n, `request n amount` that of the faucet in pass n (none for `Ok(())`).
-- Durations are in nanoseconds. What is logged is left out; a note keeps where it comes from in
-- place of the text printed around it.
pub mod Explained
pub mod Budget
pub mod Arrival
mod Examples
use quip_miner.Prelude.{
  ℕ, zero, suc, ◌-◌, ◌*◌, ◌/◌, min, Bool, true, false, List, [], ◌∷◌, Option, none, some, ◌⊎◌, inl,
  inr, leb,
}
use quip_miner.Prelude.Bytes.{Bytes}

abbrev pub backoff_start : ℕ
backoff_start = 2_000_000_000

abbrev pub backoff_max : ℕ
backoff_max = 30_000_000_000

pub data FaucetError : Type 0 where
  permanent : Bytes → FaucetError
  already_funded : Bytes → FaucetError
  transient : Bytes → FaucetError

pub data Note : Type 0 where
  requested : Note
  faucet_said : Bytes → Note
  chain_read_failed : Bytes → Note

pub data FundingError : Type 0 where
  underfunded : ℕ → ℕ → FundingError
  faucet_exhausted : ℕ → ℕ → Note → FundingError
  faucet_rejected : Bytes → FundingError
  chain : Note → FundingError

pub record FundingParams : Type 0 where
  pub faucet_url : Option Bytes
  pub min_balance : ℕ
  pub top_up : ℕ
  pub timeout : ℕ

-- `classify_status`, with the detail as the message; none is `Ok(())`.
unfoldable pub classify_status : ℕ → Bytes → Option FaucetError
classify_status status detail = elim (leb 200 status) [
  | false ↦ some (transient detail)
  | true ↦ elim (leb status 299) [
    | true ↦ none
    | false ↦ elim (leb status 400) [
      | true ↦ elim (leb 400 status) [
        | true ↦ some (permanent detail)
        | false ↦ some (transient detail)
      ]
      | false ↦ elim (leb 403 status) [
        | true ↦ elim (leb status 403) [
          | true ↦ some (already_funded detail)
          | false ↦ some (transient detail)
        ]
        | false ↦ some (transient detail)
      ]
    ]
  ]
]

abbrev pub next_backoff : ℕ → ℕ
next_backoff current = min (current * 2) backoff_max

-- The value that `ensure_funded` returns: the balance or the error.
abbrev pub Outcome : Type 0
Outcome = ℕ ⊎ FundingError

-- How a pass ends before the budget is looked at: an early return, or the last balance read with
-- the last note.
pub data Pass : Type 0 where
  returns : Outcome → Pass
  goes_on : Option ℕ → Note → Pass

-- What a run returns, none where the fuel is used up, and the durations it slept.
pub record Run : Type 0 where
  pub outcome : Option Outcome
  pub sleeps : List ℕ

abbrev pub after_request : ℕ → Option FaucetError → Pass
after_request balance none = goes_on (some balance) requested
after_request balance (some (permanent e)) = returns (inr (faucet_rejected e))
after_request balance (some (already_funded e)) = goes_on (some balance) (faucet_said e)
after_request balance (some (transient e)) = goes_on (some balance) (faucet_said e)

abbrev pub out_of_budget : ℕ → Option ℕ → Note → FundingError
out_of_budget min_balance none note = chain note
out_of_budget min_balance (some balance) note = faucet_exhausted balance min_balance note

-- The `Faucet`, if one is configured.
abbrev pub FaucetAnswers : Type 0
FaucetAnswers = Option (ℕ → ℕ → Option FaucetError)

module _ (free_balance : ℕ → ℕ ⊎ Bytes) (faucet : FaucetAnswers) (params : FundingParams) where
  -- The `match` on the balance in pass n.
  unfoldable pub pass : ℕ → Option ℕ → Pass
  pass n last_balance = elim (free_balance n) [
    | inr e ↦ goes_on last_balance (chain_read_failed e)
    | inl balance ↦ elim (leb params.min_balance balance) [
      | true ↦ returns (inl balance)
      | false ↦ elim faucet [
        | none ↦ returns (inr (underfunded balance params.min_balance))
        | some request ↦ after_request balance (request n params.top_up)
      ]
    ]
  ]

  -- The budget check and the sleep, with the rest of the loop.
  abbrev pub budgeted : (Option ℕ → Run) → ℕ → ℕ → Pass → Run
  budgeted rest remaining backoff (returns o) = record { outcome = some o; sleeps = [] }
  budgeted rest remaining backoff (goes_on last_balance note) = elim (leb remaining backoff) [
    | true ↦ record {
      outcome = some (inr (out_of_budget params.min_balance last_balance note));
      sleeps = [];
    }
    | false ↦ record {
      outcome = (rest last_balance).outcome;
      sleeps = backoff ∷ (rest last_balance).sleeps;
    }
  ]

  unfoldable pub funding_loop : ℕ → ℕ → ℕ → ℕ → Option ℕ → Run
  unfolding pass
  funding_loop zero n remaining backoff last_balance = record { outcome = none; sleeps = [] }
  funding_loop (suc fuel) n remaining backoff last_balance =
      budgeted (funding_loop fuel (suc n) (remaining - backoff) (next_backoff backoff)) remaining
        backoff (pass n last_balance)

  -- A pass that sleeps takes at least the first gap off the budget.
  unfoldable pub ensure_funded : Run
  unfolding funding_loop
  ensure_funded =
      funding_loop (suc (params.timeout / backoff_start)) 0 params.timeout backoff_start none
