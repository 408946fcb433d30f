-- ===== src/Survey.antt =====
-- The host survey of a node descriptor: `sanitize` of `crates/quip-coordinator/src/survey.rs` and the
-- bounds of `chain/scale_types.rs`. The probes are input and output. `to_lowercase`, which follows
-- Unicode's tables, and the version of the build are a parameter.
pub mod Credential
pub mod Sanitize
pub mod Bounds
pub mod Printable
pub mod Examples
use quip_miner.Prelude.{
  ℕ, suc, ◌+◌, Bool, true, false, not, ◌&&◌, ◌||◌, List, [], ◌∷◌, ◌++◌, Option, none, some, min,
  ltb, leb, ◌==◌, if◌then◌else◌, length, take,
}
use quip_miner.Prelude.Bytes.{Bytes}
use quip_miner.Text.{
  Text, codes, text_len, as_bytes, is_control, is_whitespace, trim, str_contains, match_rests,
}
use quip_miner.Text.Slices.{slice_to, floor_boundary, or_nil}

pub record OsInfo : Type 0 where
  pub system : Bytes
  pub release : Bytes
  pub machine : Bytes

pub record CpuInfo : Type 0 where
  pub logical_cores : Option ℕ
  pub physical_cores : Option ℕ
  pub brand : Bytes
  pub arch : Bytes

pub record GpuInfo : Type 0 where
  pub index : ℕ
  pub vendor : Bytes
  pub name : Bytes
  pub memory_mb : Option ℕ
  pub utilization_pct : Option ℕ

pub record SystemInfo : Type 0 where
  pub os : OsInfo
  pub cpu : CpuInfo
  pub memory_mb : Option ℕ
  pub gpus : List GpuInfo

pub record RuntimeInfo : Type 0 where
  pub python : Bytes
  pub quip_version : Bytes
  pub protocol_version : ℕ
  pub in_docker : Bool
  pub docker_image : Option Bytes

pub record RawGpu : Type 0 where
  pub vendor : Text
  pub name : Text
  pub memory_mb : Option ℕ
  pub utilization_pct : Option ℕ

pub record RawSurvey : Type 0 where
  pub os_system : Text
  pub os_release : Text
  pub os_machine : Text
  pub cpu_brand : Text
  pub cpu_arch : Text
  pub logical_cores : Option ℕ
  pub physical_cores : Option ℕ
  pub memory_mb : Option ℕ
  pub gpus : List RawGpu
  pub python : Text
  pub in_docker : Bool
  pub docker_image : Option Text

pub record HostSurvey : Type 0 where
  pub system : SystemInfo
  pub runtime : RuntimeInfo

-- What the build and the Unicode tables give.
pub record Build : Type 0 where
  pub to_lowercase : Text → Text
  pub version : Text

abbrev pub max_os_string_bytes : ℕ
max_os_string_bytes = 64

abbrev pub max_cpu_brand_bytes : ℕ
max_cpu_brand_bytes = 96

abbrev pub max_arch_bytes : ℕ
max_arch_bytes = 16

abbrev pub max_gpu_vendor_bytes : ℕ
max_gpu_vendor_bytes = 16

abbrev pub max_gpu_name_bytes : ℕ
max_gpu_name_bytes = 96

abbrev pub max_gpus : ℕ
max_gpus = 16

abbrev pub max_runtime_version_bytes : ℕ
max_runtime_version_bytes = 48

abbrev pub max_docker_image_bytes : ℕ
max_docker_image_bytes = 256

abbrev pub protocol_version : ℕ
protocol_version = 1

abbrev pub is_invisible : ℕ → Bool
is_invisible c =
    c == 0xad
    || (leb 0x200b c && leb c 0x200f)
    || (leb 0x2028 c && leb c 0x202e)
    || (leb 0x2060 c && leb c 0x2064)
    || (leb 0x2066 c && leb c 0x2069)
    || c == 0xfeff
    || (leb 0xfff9 c && leb c 0xfffb)

unfoldable pub is_dropped : ℕ → Bool
is_dropped c = is_control c || is_whitespace c || is_invisible c

abbrev pub is_nil {ℓ} : {A : Type ℓ} → List A → Bool
is_nil [] = true
is_nil (x ∷ xs) = false

-- The loop of `scrub` with its two variables.
unfoldable pub scrub_loop : Bool → Text → Text → Text
unfolding is_dropped
scrub_loop gap out [] = out
scrub_loop gap out (c ∷ s) =
    let dropped = scrub_loop true out s in
    let kept =
      scrub_loop false ((if gap && not (is_nil out) then out ++ 32 ∷ [] else out) ++ c ∷ []) s in
    if is_dropped c then dropped else kept

unfoldable pub scrub : Text → Text
unfolding scrub_loop
scrub value = scrub_loop false [] value

unfoldable pub clamp_utf8 : Text → ℕ → Text
unfolding trim text_len slice_to floor_boundary
clamp_utf8 value limit =
    let trimmed = trim value in
    if leb (text_len trimmed) limit
    then trimmed
    else or_nil (slice_to trimmed (floor_boundary trimmed limit))

abbrev pub none_or : (ℕ → Bool) → Option ℕ → Bool
none_or p none = true
none_or p (some n) = p n

abbrev pub min_of : Option ℕ → Option ℕ → Option ℕ
min_of (some physical) (some logical) = some (min physical logical)
min_of (some physical) none = some physical
min_of none logical = none

abbrev pub capped : Option ℕ → Option ℕ
capped none = none
capped (some pct) = some (min pct 100)
