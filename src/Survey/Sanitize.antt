-- ===== src/Survey/Sanitize.antt =====
-- `sanitize` and the two tests of the pallet's bounds (`crates/quip-coordinator/src/survey.rs`).
use quip_miner.Prelude.{
  ℕ, ◌+◌, Bool, true, not, ◌&&◌, List, [], ◌∷◌, Option, none, some, leb, if◌then◌else◌, length,
  take,
}
use quip_miner.Prelude.Bytes.{Bytes}
use quip_miner.Text.{Text, codes, as_bytes}
use quip_miner.Survey.Credential.{looks_like_credential}
use quip_miner.Survey.{
  GpuInfo, SystemInfo, RuntimeInfo, RawGpu, RawSurvey, HostSurvey, Build, max_os_string_bytes,
  max_cpu_brand_bytes, max_arch_bytes, max_gpu_vendor_bytes, max_gpu_name_bytes, max_gpus,
  max_runtime_version_bytes, max_docker_image_bytes, protocol_version, is_nil, scrub, clamp_utf8,
  none_or, min_of, capped,
}

-- No longer than a bound, and not empty.
abbrev pub is_within : ℕ → Bytes → Bool
is_within limit bytes = leb (length bytes) limit

abbrev pub filled : ℕ → Bytes → Bool
filled limit bytes = not (is_nil bytes) && is_within limit bytes

abbrev pub every {ℓ} : {A : Type ℓ} → (A → Bool) → List A → Bool
every p [] = true
every p (x ∷ xs) = p x && every p xs

abbrev pub gpu_fits : GpuInfo → Bool
gpu_fits gpu =
    filled max_gpu_vendor_bytes gpu.vendor
    && filled max_gpu_name_bytes gpu.name
    && none_or (λ (pct : ℕ). leb pct 100) gpu.utilization_pct

unfoldable pub fits_pallet_bounds : SystemInfo → Bool
fits_pallet_bounds info =
    (filled max_os_string_bytes info.os.system
      && is_within max_os_string_bytes info.os.release
      && is_within max_os_string_bytes info.os.machine)
    && (filled max_cpu_brand_bytes info.cpu.brand && filled max_arch_bytes info.cpu.arch)
    && (leb (length info.gpus) max_gpus && every gpu_fits info.gpus)

abbrev pub image_fits : Option Bytes → Bool
image_fits none = true
image_fits (some image) = filled max_docker_image_bytes image

unfoldable pub runtime_fits_pallet_bounds : RuntimeInfo → Bool
runtime_fits_pallet_bounds info =
    filled max_runtime_version_bytes info.python
    && filled max_runtime_version_bytes info.quip_version
    && image_fits info.docker_image

module _ (build : Build) where
  unfoldable pub bounded : Text → ℕ → Bytes
  unfolding scrub looks_like_credential clamp_utf8 as_bytes
  bounded value limit =
      let scrubbed = scrub value in
      if looks_like_credential build.to_lowercase scrubbed
      then as_bytes (codes "redacted")
      else as_bytes (clamp_utf8 scrubbed limit)

  unfoldable pub bounded_nonempty : Text → ℕ → Bytes
  unfolding bounded as_bytes
  bounded_nonempty value limit =
      if is_nil (bounded value limit) then as_bytes (codes "unknown") else bounded value limit

  unfoldable pub sanitize_gpu : ℕ → RawGpu → GpuInfo
  unfolding bounded_nonempty
  sanitize_gpu index raw = record {
    index = if leb index 255 then index else 255;
    vendor = bounded_nonempty raw.vendor max_gpu_vendor_bytes;
    name = bounded_nonempty raw.name max_gpu_name_bytes;
    memory_mb = raw.memory_mb;
    utilization_pct = capped raw.utilization_pct;
  }

  -- The loop over the GPUs, from an index.
  unfoldable pub sanitize_gpus : ℕ → List RawGpu → List GpuInfo
  unfolding sanitize_gpu
  sanitize_gpus index [] = []
  sanitize_gpus index (gpu ∷ gpus) = sanitize_gpu index gpu ∷ sanitize_gpus (index + 1) gpus

  -- An image that comes out empty is left out.
  unfoldable pub image_of : Option Text → Option Bytes
  unfolding bounded
  image_of none = none
  image_of (some image) =
      if is_nil (bounded image max_docker_image_bytes)
      then none
      else some (bounded image max_docker_image_bytes)

  unfoldable pub sanitize : RawSurvey → HostSurvey
  unfolding bounded bounded_nonempty sanitize_gpus image_of
  sanitize raw = record {
    system = record {
      os = record {
        system = bounded_nonempty raw.os_system max_os_string_bytes;
        release = bounded raw.os_release max_os_string_bytes;
        machine = bounded raw.os_machine max_os_string_bytes;
      };
      cpu = record {
        logical_cores = raw.logical_cores;
        physical_cores = min_of raw.physical_cores raw.logical_cores;
        brand = bounded_nonempty raw.cpu_brand max_cpu_brand_bytes;
        arch = bounded_nonempty raw.cpu_arch max_arch_bytes;
      };
      memory_mb = raw.memory_mb;
      gpus = sanitize_gpus 0 (take max_gpus raw.gpus);
    };
    runtime = record {
      python = bounded_nonempty raw.python max_runtime_version_bytes;
      quip_version = bounded_nonempty build.version max_runtime_version_bytes;
      protocol_version = protocol_version;
      in_docker = raw.in_docker;
      docker_image = image_of raw.docker_image;
    };
  }
