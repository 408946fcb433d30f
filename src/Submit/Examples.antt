-- ===== src/Submit/Examples.antt =====
-- Runs of `crates/quip-coordinator/src/chain/submit.rs`.
use quip_miner.Prelude.{none, some, ◌≡◌, refl}
use quip_miner.Text.{codes}
use quip_miner.Ledger.{retry, stop_fatal}
use quip_miner.Submit.{
  already_registered, classify_descriptor, classify_registration, classify_receipt,
}

energy_retried : classify_receipt (some (codes "Module: InsufficientEnergy")) ≡ retry
unfolding classify_receipt
energy_retried = refl

unknown_fatal : classify_receipt (some (codes "who knows")) ≡ stop_fatal
unfolding classify_receipt
unknown_fatal = refl

race_benign :
    classify_registration (some (codes "SolverAlreadyRegistered")) ≡ some already_registered
unfolding classify_registration
race_benign = refl

unknown_transient : classify_descriptor (some (codes "timeout")) ≡ none
unfolding classify_descriptor
unknown_transient = refl
