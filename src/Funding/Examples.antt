-- ===== src/Funding/Examples.antt =====
-- Runs of `crates/quip-coordinator/src/funding.rs` and the theorems at an input: a chain that is
-- down for a pass, and an account that is funded after the second request.
use quip_miner.Prelude.{
  ℕ, zero, suc, ◌<◌, ◌≤◌, [], ◌∷◌, Option, none, some, ◌⊎◌, inl, inr, ◌≡◌, refl, arith,
}
use quip_miner.Prelude.Bytes.{Bytes}
use quip_miner.Funding.{
  FaucetError, permanent, already_funded, transient, FundingParams, Outcome, chain,
  chain_read_failed, underfunded, ensure_funded, classify_status,
}
use quip_miner.Funding.Explained.{Explains, ensure_funded-explained}
use quip_miner.Funding.Budget.{total, SpendsBudget, ensure_funded-total}
use quip_miner.Funding.Arrival.{IsFunded, NotRejected, ensure_funded-IsFunded}

abbrev balances : ℕ → ℕ ⊎ Bytes
balances zero = inr (1 ∷ [])
balances (suc zero) = inl 5
balances (suc (suc n)) = inl 2_500_000_000_000

abbrev limited : ℕ → ℕ → Option FaucetError
limited n amount = some (transient [])

abbrev default_params : FundingParams
default_params = record {
  faucet_url = none;
  min_balance = 2_000_000_000_000;
  top_up = 10_000_000_000_000;
  timeout = 600_000_000_000;
}

funded_in_third_pass :
    ensure_funded balances (some limited) default_params
    ≡ record { outcome = some (inl 2_500_000_000_000); sleeps = 2_000_000_000 ∷ 4_000_000_000 ∷ [] }
unfolding ensure_funded
funded_in_third_pass = refl

underfunded_without_faucet :
    (ensure_funded (λ _. inl 7) none default_params).outcome
    ≡ some (inr (underfunded 7 2_000_000_000_000))
unfolding ensure_funded
underfunded_without_faucet = refl

chain_never_up :
    (ensure_funded (λ _. inr []) none default_params).outcome
    ≡ some (inr (chain (chain_read_failed [])))
unfolding ensure_funded
chain_never_up = refl

classify_codes :
    (classify_status 204 [] ≡ none)
    × (classify_status 400 [] ≡ some (permanent []))
    × (classify_status 403 [] ≡ some (already_funded []))
    × (classify_status 429 [] ≡ some (transient []))
unfolding classify_status
classify_codes = (refl, refl, refl, refl)

ensure_funded-explained_example :
    (o : Outcome) × ((ensure_funded balances (some limited) default_params).outcome ≡ some o)
    × Explains balances (some limited) default_params 0 none o
ensure_funded-explained_example = ensure_funded-explained balances (some limited) default_params

ensure_funded-total_example :
    (total (ensure_funded balances (some limited) default_params).sleeps ≤ 600_000_000_000)
    × SpendsBudget 600_000_000_000 (ensure_funded balances (some limited) default_params)
ensure_funded-total_example = ensure_funded-total balances (some limited) default_params

never_rejected : (j : ℕ) → j < 2 → NotRejected balances limited default_params j
never_rejected j at m e = cc

ensure_funded-IsFunded_example : IsFunded (ensure_funded balances (some limited) default_params)
ensure_funded-IsFunded_example =
    ensure_funded-IsFunded balances limited default_params 2 2_500_000_000_000 refl (omega arith)
      never_rejected (omega arith)
