-- ===== src/Readiness/Startup.antt =====
-- The walk at process start (`prepare_round` of `crates/quip-coordinator/src/readiness.rs`): the
-- machine of `Round`, the wait of `Sync`, the run of `Funding` and the steps of the parent, in order.
use mathlib.Core.Path.{subst}
use quip_miner.Prelude.{ℕ, sym, ◌≢◌, Bool, true, List, Option, none, some, ◌≡◌, refl, ◌⊎◌, inl, inr}
use quip_miner.Prelude.Bytes.{Bytes}
use quip_miner.Text.{Text}
use quip_miner.Snapshot.{MiningSnapshot}
use quip_miner.Sync.{SyncStatus, SyncOutcome, begin, wait_until_synced}
use quip_miner.Funding.{FundingError, FundingParams, FaucetAnswers, Outcome, ensure_funded}
use quip_miner.Funding.Explained.{ensure_funded-explained}
use quip_miner.Readiness.Latches.{file_round_descriptor-latch}
use quip_miner.Round.{
  RoundState, validator_synced, account_funded, requirements_downloaded, succeeded, transition,
}
use quip_miner.Submit.{DescriptorOutcome, RegistrationOutcome}
use quip_miner.Readiness.{DescriptorParams, Filing, file_round_descriptor, register_round_miner}

-- The error of the snapshot is without its text.
pub data ReadinessError : Type 0 where
  funding : FundingError → ReadinessError
  snapshot : ReadinessError

-- What the chain and the faucet answer, step by step; a snapshot is none for an error.
pub record Chain : Type 0 where
  pub sync : List (Option SyncStatus)
  pub free_balance : ℕ → ℕ ⊎ Bytes
  pub faucet : FaucetAnswers
  pub registration : ℕ → Option RegistrationOutcome
  pub snapshot : Option (Option MiningSnapshot)
  pub descriptor : ℕ → Option DescriptorOutcome

-- The latches of the process.
pub record Latches : Type 0 where
  pub descriptor_filed : Bool
  pub miner_registered : Bool

-- The result, the state of the machine that the walk leaves, and the latches. The result is none where
-- a wait did not end.
pub record Prepared : Type 0 where
  pub result : Option (MiningSnapshot ⊎ ReadinessError)
  pub state : RoundState
  pub latches : Latches

abbrev pub moved : RoundState → Option RoundState → RoundState
moved state none = state
moved state (some next) = next

-- `state.transition(Succeeded)`, where there is a next state.
unfoldable pub advance : RoundState → RoundState
unfolding transition
advance state = moved state (transition state succeeded)

module _ (to_ss58check : Bytes → Text) (chain : Chain) (account : Bytes) where
  abbrev pub filing : DescriptorParams → Latches → Filing
  filing descriptor latches =
      file_round_descriptor to_ss58check descriptor account chain.descriptor
        latches.descriptor_filed

  -- The descriptor, after a snapshot. The source drops the result of its last transition.
  unfoldable pub after_snapshot :
      DescriptorParams → Latches → RoundState → MiningSnapshot → Prepared
  unfolding file_round_descriptor
  after_snapshot descriptor latches state snap = record {
    result = some (inl snap);
    state = state;
    latches = record latches { descriptor_filed = (filing descriptor latches).latch };
  }

  abbrev pub on_snapshot :
      DescriptorParams → Latches → RoundState → Option (Option MiningSnapshot) → Prepared
  on_snapshot descriptor latches state (some (some snap)) =
      after_snapshot descriptor latches (advance state) snap
  on_snapshot descriptor latches state other = record {
    result = some (inr snapshot);
    state = state;
    latches = latches;
  }

  -- The registration and what follows, after the funding.
  unfoldable pub after_funding : DescriptorParams → Latches → RoundState → Prepared
  unfolding register_round_miner after_snapshot
  after_funding descriptor latches state =
      on_snapshot descriptor
        (record latches {
          miner_registered =
              (register_round_miner chain.registration latches.miner_registered).latch;
        })
        (advance state) chain.snapshot

  abbrev pub on_funding : DescriptorParams → Latches → RoundState → Option Outcome → Prepared
  on_funding descriptor latches state none = record {
    result = none;
    state = state;
    latches = latches;
  }
  on_funding descriptor latches state (some (inr e)) = record {
    result = some (inr (funding e));
    state = state;
    latches = latches;
  }
  on_funding descriptor latches state (some (inl balance)) =
      after_funding descriptor latches (advance state)

  abbrev pub on_sync :
      FundingParams → DescriptorParams → Latches → RoundState → Option SyncOutcome → Prepared
  on_sync params descriptor latches state none = record {
    result = none;
    state = state;
    latches = latches;
  }
  on_sync params descriptor latches state (some outcome) =
      on_funding descriptor latches (advance state)
        (ensure_funded chain.free_balance chain.faucet params).outcome

  unfoldable pub prepare_round : FundingParams → DescriptorParams → Latches → Prepared
  unfolding wait_until_synced ensure_funded after_funding advance
  prepare_round params descriptor latches =
      on_sync params descriptor latches validator_synced (wait_until_synced chain.sync begin)

  abbrev pub funds : FundingParams → Option Outcome
  funds params = (ensure_funded chain.free_balance chain.faucet params).outcome

  -- What a result of the walk says.
  abbrev pub Explains :
      FundingParams → Latches → Prepared → MiningSnapshot ⊎ ReadinessError → Type 0
  Explains params latches p (inl snap) =
      ((balance : ℕ) × (funds params ≡ some (inl balance)))
      × (chain.snapshot ≡ some (some snap))
      × (p.state ≡ RoundState.descriptor_filed)
      × (p.latches.descriptor_filed ≡ true)
  Explains params latches p (inr (funding e)) =
      (funds params ≡ some (inr e)) × (p.state ≡ account_funded) × (p.latches ≡ latches)
  Explains params latches p (inr snapshot) =
      ((balance : ℕ) × (funds params ≡ some (inl balance)))
      × ((snap : MiningSnapshot) → chain.snapshot ≢ some (some snap))
      × (p.state ≡ requirements_downloaded)
      × (p.latches.descriptor_filed ≡ latches.descriptor_filed)

  abbrev Ends : FundingParams → Latches → Prepared → Type 0
  Ends params latches p =
      (r : MiningSnapshot ⊎ ReadinessError) × (p.result ≡ some r) × Explains params latches p r

  on_snapshot-Ends :
      (params : FundingParams) (descriptor : DescriptorParams) (given latches : Latches)
      (balance : ℕ) (o : Option (Option MiningSnapshot))
      → funds params ≡ some (inl balance)
      → chain.snapshot ≡ o
      → latches.descriptor_filed ≡ given.descriptor_filed
      → Ends params given (on_snapshot descriptor latches requirements_downloaded o)
  unfolding after_snapshot advance transition
  on_snapshot-Ends params descriptor given latches balance none b e l =
      (inr snapshot, refl, ((balance, b), (λ snap k. cc (e, k)), refl, l))
  on_snapshot-Ends params descriptor given latches balance (some none) b e l =
      (inr snapshot, refl, ((balance, b), (λ snap k. cc (e, k)), refl, l))
  on_snapshot-Ends params descriptor given latches balance (some (some snap)) b e l = (
    inl snap,
    refl,
    (
      (balance, b),
      e,
      refl,
      file_round_descriptor-latch to_ss58check descriptor account chain.descriptor
          latches.descriptor_filed,
    ),
  )

  on_funding-Ends :
      (params : FundingParams) (descriptor : DescriptorParams) (latches : Latches) (o : Outcome)
      → funds params ≡ some o
      → Ends params latches (on_funding descriptor latches account_funded (some o))
  unfolding after_funding advance transition
  on_funding-Ends params descriptor latches (inr e) f = (inr (funding e), refl, (f, refl, refl))
  on_funding-Ends params descriptor latches (inl balance) f =
      on_snapshot-Ends params descriptor latches
        (record latches {
          miner_registered =
              (register_round_miner chain.registration latches.miner_registered).latch;
        })
        balance chain.snapshot f refl refl

  -- Where the wait for the validator ends, synced or not, the walk returns. A snapshot is the chain's,
  -- comes after the account was funded, and leaves the machine at the descriptor's step, one short of
  -- mining, with the latch of the descriptor set; the error of the funding leaves the machine at the
  -- funding and the latches as they were; that of the snapshot, which the chain then did not give,
  -- leaves the machine at the requirements and the latch of the descriptor as it was.
  pub prepare_round-Explains :
      (params : FundingParams) (descriptor : DescriptorParams) (latches : Latches)
      (outcome : SyncOutcome)
      → wait_until_synced chain.sync begin ≡ some outcome
      → (r : MiningSnapshot ⊎ ReadinessError) × ((prepare_round params descriptor latches).result
          ≡ some r)
        × Explains params latches (prepare_round params descriptor latches) r
  unfolding prepare_round advance transition
  prepare_round-Explains params descriptor latches outcome w =
      let (o, e, _) = ensure_funded-explained chain.free_balance chain.faucet params in
      let walked : prepare_round params descriptor latches
          ≡ on_funding descriptor latches account_funded (some o) =
        rw (w, e) refl in
      subst (Ends params latches) (sym walked) (on_funding-Ends params descriptor latches o e)
