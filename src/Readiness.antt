-- ===== src/Readiness.antt =====
-- The steps before mining: `crates/quip-coordinator/src/readiness.rs`. The answers of the chain are
-- parameters, none for an error; a latch of the process is a Boolean that the operations pass on.
pub mod Payload
pub mod Latches
pub mod Participation
pub mod Startup
mod Examples
use quip_miner.Prelude.{
  ℕ, zero, suc, ◌+◌, min, Bool, true, false, ◌&&◌, ◌||◌, List, [], ◌∷◌, Option, none, some, ltb,
  ◌==◌, if◌then◌else◌, take,
}
use quip_miner.Prelude.Bytes.{Bytes}
use quip_miner.Router.State.{u64_max}
use quip_miner.Mempool.{MinerKind}
use quip_miner.Hex.{hex_digits}
use quip_miner.Text.{Text, text_len, as_bytes, trim}
use quip_miner.Survey.{SystemInfo, RuntimeInfo, is_nil}
use quip_miner.Survey.Sanitize.{fits_pallet_bounds, runtime_fits_pallet_bounds}
use quip_miner.Submit.{
  DescriptorOutcome, filed, rejected, ParticipationOutcome, RegistrationOutcome,
}

abbrev pub submit_attempts : ℕ
submit_attempts = 3

abbrev pub max_node_id_bytes : ℕ
max_node_id_bytes = 64

abbrev pub max_node_name_bytes : ℕ
max_node_name_bytes = 64

abbrev pub max_public_host_bytes : ℕ
max_public_host_bytes = 253

abbrev pub max_rpc_endpoint_bytes : ℕ
max_rpc_endpoint_bytes = 256

abbrev pub max_rpc_endpoints : ℕ
max_rpc_endpoints = 8

pub data NodeLogLevel : Type 0 where
  debug info warning error : NodeLogLevel

pub record MinerSpec : Type 0 where
  pub kind : MinerKind
  pub label : Option Bytes
  pub backend : Option Bytes
  pub device_id : Option Bytes

pub record DescriptorParams : Type 0 where
  pub node_id : Option Text
  pub node_name : Option Text
  pub public_host : Option Text
  pub public_port : Option ℕ
  pub auto_mine : Bool
  pub log_level : NodeLogLevel
  pub rpc_endpoints : List Text
  pub miners : List MinerSpec
  pub system_info : Option SystemInfo
  pub runtime : Option RuntimeInfo

pub record NodeDescriptor : Type 0 where
  pub node_id : Bytes
  pub node_name : Bytes
  pub public_host : Option Bytes
  pub public_port : Option ℕ
  pub rpc_endpoints : List Bytes
  pub auto_mine : Bool
  pub log_level : NodeLogLevel
  pub miners : List MinerSpec
  pub system_info : Option SystemInfo
  pub runtime : Option RuntimeInfo

-- Digits only, so that the text is its bytes.
unfoldable pub node_id_from_account : Bytes → Text
unfolding hex_digits
node_id_from_account account = hex_digits account

-- A value of the configuration: trimmed, none where nothing is left.
unfoldable pub configured : Option Text → Option Text
unfolding trim
configured none = none
configured (some s) = if is_nil (trim s) then none else some (trim s)

abbrev pub or_else : Option Text → Text → Text
or_else none d = d
or_else (some s) d = s

unfoldable pub endpoints_of : List Text → List Bytes
unfolding trim text_len as_bytes
endpoints_of [] = []
endpoints_of (e ∷ es) =
    if is_nil (trim e) || ltb max_rpc_endpoint_bytes (text_len (trim e))
    then endpoints_of es
    else as_bytes (trim e) ∷ endpoints_of es

abbrev pub kept_if {ℓ} : {A : Type ℓ} → (A → Bool) → Option A → Option A
kept_if p none = none
kept_if p (some a) = if p a then some a else none

-- A host that is too long, or the bytes of the host, if there is one.
abbrev pub host_too_long : Option Text → Bool
host_too_long none = false
host_too_long (some host) = ltb max_public_host_bytes (text_len host)

abbrev pub bytes_of : Option Text → Option Bytes
bytes_of none = none
bytes_of (some s) = some (as_bytes s)

unfoldable pub payload : DescriptorParams → Text → Text → NodeDescriptor
unfolding configured endpoints_of
payload params node_id name = record {
  node_id = as_bytes node_id;
  node_name = as_bytes name;
  public_host = bytes_of (configured params.public_host);
  public_port = kept_if (λ (p : ℕ). ltb 0 p) params.public_port;
  rpc_endpoints = endpoints_of (take max_rpc_endpoints params.rpc_endpoints);
  auto_mine = params.auto_mine;
  log_level = params.log_level;
  miners = params.miners;
  system_info = kept_if fits_pallet_bounds params.system_info;
  runtime = kept_if runtime_fits_pallet_bounds params.runtime;
}

-- `to_ss58check` belongs to an external crate.
module _ (to_ss58check : Bytes → Text) where
  unfoldable pub name_of : DescriptorParams → Bytes → Text
  unfolding configured
  name_of params account = or_else (configured params.node_name) (to_ss58check account)

  unfoldable pub node_id_of : DescriptorParams → Bytes → Text
  unfolding configured node_id_from_account
  node_id_of params account = or_else (configured params.node_id) (node_id_from_account account)

  unfoldable pub build_descriptor_payload : DescriptorParams → Bytes → Option NodeDescriptor
  unfolding name_of node_id_of text_len payload
  build_descriptor_payload params account =
      let name = name_of params account in
      let node_id = node_id_of params account in
      if ltb max_node_name_bytes (text_len name)
      then none
      else if is_nil node_id || ltb max_node_id_bytes (text_len node_id)
      then none
      else if is_nil params.miners
      then none
      else if host_too_long (configured params.public_host)
      then none
      else some (payload params node_id name)

-- The latch after a call, and how many submits the call made.
pub record Filing : Type 0 where
  pub latch : Bool
  pub submits : ℕ

-- The attempts that are left, from an attempt on. `answers n` is the answer to the submit of attempt n.
-- An outcome ends the loop whichever it is, and so does the last error.
unfoldable pub file_attempts : (ℕ → Option DescriptorOutcome) → ℕ → ℕ → Filing
file_attempts answers zero n = record { latch = true; submits = n }
file_attempts answers (suc left) n = elim (answers n) [
  | some outcome ↦ record { latch = true; submits = n + 1 }
  | none ↦ file_attempts answers left (n + 1)
]

unfoldable pub file_round_descriptor :
    (Bytes → Text) → DescriptorParams → Bytes → (ℕ → Option DescriptorOutcome) → Bool → Filing
unfolding build_descriptor_payload file_attempts
file_round_descriptor to_ss58check params account answers true = record {
  latch = true;
  submits = 0;
}
file_round_descriptor to_ss58check params account answers false =
    elim (build_descriptor_payload to_ss58check params account) [
      | none ↦ record { latch = true; submits = 0 }
      | some payload ↦ file_attempts answers submit_attempts 0
    ]

-- Whether the account is known to be registered, the latch and the number of calls.
pub record Registration : Type 0 where
  pub known : Bool
  pub latch : Bool
  pub calls : ℕ

unfoldable pub register_attempts : (ℕ → Option RegistrationOutcome) → ℕ → ℕ → Registration
register_attempts answers zero n = record { known = false; latch = false; calls = n }
register_attempts answers (suc left) n = elim (answers n) [
  | some outcome ↦ record { known = true; latch = true; calls = n + 1 }
  | none ↦ register_attempts answers left (n + 1)
]

unfoldable pub register_round_miner : (ℕ → Option RegistrationOutcome) → Bool → Registration
unfolding register_attempts
register_round_miner answers true = record { known = true; latch = true; calls = 0 }
register_round_miner answers false = register_attempts answers submit_attempts 0

unfoldable pub register_round_solver : Option RegistrationOutcome → Bool → Registration
register_round_solver answer true = record { known = true; latch = true; calls = 0 }
register_round_solver (some outcome) false = record { known = true; latch = true; calls = 1 }
register_round_solver none false = record { known = false; latch = false; calls = 1 }

-- Saturating at the largest u64.
abbrev pub candidate_qblock_id : Option ℕ → ℕ
candidate_qblock_id none = min 1 u64_max
candidate_qblock_id (some latest) = min (latest + 1) u64_max

-- Whether the candidate is settled, the last id declared, and the id that was submitted, if one was.
pub record Declaration : Type 0 where
  pub settled : Bool
  pub last_declared : Option ℕ
  pub submitted : Option ℕ

abbrev pub is_last : Option ℕ → ℕ → Bool
is_last none id = false
is_last (some last) id = last == id

-- `latest` is the answer to the read, `answer id` that to the submit.
unfoldable pub declare_round_participation :
    Option (Option ℕ) → (ℕ → Option ParticipationOutcome) → Option ℕ → Declaration
declare_round_participation none answer last = record {
  settled = false;
  last_declared = last;
  submitted = none;
}
declare_round_participation (some latest) answer last =
    let id = candidate_qblock_id latest in
    if is_last last id
    then record { settled = true; last_declared = last; submitted = none }
    else elim (answer id) [
      | some outcome ↦ record { settled = true; last_declared = some id; submitted = some id }
      | none ↦ record { settled = false; last_declared = last; submitted = some id }
    ]
