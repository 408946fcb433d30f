-- ===== src/Submit.antt =====
-- The classification of the pallets' errors: `crates/quip-coordinator/src/chain/submit.rs`. An error is
-- the text that the node gave, none for a dispatch that succeeded.
mod Examples
use quip_miner.Prelude.{Bool, true, false, ◌||◌, List, [], ◌∷◌, Option, none, some, if◌then◌else◌}
use quip_miner.Text.{Text, codes, str_contains}
use quip_miner.Ledger.{SubmitAction, success, retry, stop_round_stale, stop_fatal}

pub data DescriptorOutcome : Type 0 where
  filed : DescriptorOutcome
  rejected : DescriptorOutcome

pub data ParticipationOutcome : Type 0 where
  declared : ParticipationOutcome
  already_declared : ParticipationOutcome
  stale_q_block : ParticipationOutcome
  descriptor_missing : ParticipationOutcome

pub data RegistrationOutcome : Type 0 where
  registered : RegistrationOutcome
  already_registered : RegistrationOutcome

-- `LIST.iter().any(|s| e.contains(s))`
unfoldable pub names_one : List Text → Text → Bool
unfolding str_contains
names_one [] e = false
names_one (s ∷ list) e = str_contains s e || names_one list e

abbrev pub descriptor_reject : List Text
descriptor_reject =
    codes "EmptyNodeId"
    ∷ codes "EmptyNodeName"
    ∷ codes "EmptyPublicHost"
    ∷ codes "EmptyRpcEndpoint"
    ∷ codes "EmptyMinerLabel"
    ∷ codes "EmptyMinerBackend"
    ∷ codes "EmptyMinerDeviceId"
    ∷ codes "EmptyOsSystem"
    ∷ codes "EmptyCpuBrand"
    ∷ codes "EmptyCpuArch"
    ∷ codes "EmptyGpuVendor"
    ∷ codes "EmptyGpuName"
    ∷ codes "InvalidGpuUtilization"
    ∷ codes "EmptyPythonVersion"
    ∷ codes "EmptyQuipVersion"
    ∷ codes "EmptyDockerImage"
    ∷ codes "NoMiners"
    ∷ codes "InvalidPort"
    ∷ codes "InsufficientBalance"
    ∷ codes "LiquidityRestrictions"
    ∷ []

unfoldable pub classify_descriptor : Option Text → Option DescriptorOutcome
unfolding names_one
classify_descriptor none = some filed
classify_descriptor (some e) = if names_one descriptor_reject e then some rejected else none

unfoldable pub classify_participation : Option Text → Option ParticipationOutcome
unfolding str_contains
classify_participation none = some declared
classify_participation (some e) =
    if str_contains (codes "DuplicateParticipation") e
    then some already_declared
    else if str_contains (codes "InvalidQBlockId") e
    then some stale_q_block
    else if str_contains (codes "DescriptorRequired") e
    then some descriptor_missing
    else none

unfoldable pub classify_registration : Option Text → Option RegistrationOutcome
unfolding str_contains
classify_registration none = some registered
classify_registration (some e) =
    if str_contains (codes "MinerAlreadyRegistered") e
      || str_contains (codes "SolverAlreadyRegistered") e
    then some already_registered
    else none

abbrev pub retry_names : List Text
retry_names = codes "InsufficientEnergy" ∷ codes "ProofLimitReached" ∷ []

abbrev pub stale_names : List Text
stale_names = codes "InvalidNonce" ∷ codes "TopologyNotRegistered" ∷ codes "InvalidTopology" ∷ []

abbrev pub fatal_names : List Text
fatal_names =
    codes "InsufficientSolutions" ∷ codes "InsufficientDiversity" ∷ codes "MinerNotRegistered" ∷ []

unfoldable pub classify_receipt : Option Text → SubmitAction
unfolding names_one
classify_receipt none = success
classify_receipt (some e) =
    if names_one retry_names e
    then retry
    else if names_one stale_names e
    then stop_round_stale
    else if names_one fatal_names e
    then stop_fatal
    else stop_fatal
