-- ===== src/Survey/Examples.antt =====
-- Runs of `crates/quip-coordinator/src/survey.rs` and its theorems at inputs.
use quip_miner.Prelude.{true, [], ◌∷◌, none, some, ◌≡◌, refl}
use quip_miner.Text.{Text, codes, trim}
use quip_miner.Survey.{RawSurvey, Build, scrub, clamp_utf8}
use quip_miner.Survey.Credential.{looks_like_credential}
use quip_miner.Survey.Sanitize.{fits_pallet_bounds, runtime_fits_pallet_bounds, sanitize}
use quip_miner.Survey.Bounds.{sanitize-fits}
use quip_miner.Survey.Printable.{IsTidy, scrub_lem}

-- Lowercase of the texts here, which have no capital letters but in names.
abbrev pub build : Build
build = record { to_lowercase = λ (s : Text). s; version = codes "0.2.0" }

abbrev pub raw : RawSurvey
raw = record {
  os_system = [];
  os_release = codes " 6.1 \t";
  os_machine = codes "x86_64";
  cpu_brand = codes "token=abcdefgh";
  cpu_arch = codes "x86_64";
  logical_cores = some 4;
  physical_cores = some 16;
  memory_mb = none;
  gpus =
      record { vendor = codes "NVIDIA"; name = []; memory_mb = none; utilization_pct = some 120 }
      ∷ [];
  python = codes "3.12.7";
  in_docker = true;
  docker_image = some [];
}

secret_seen : looks_like_credential (λ (s : Text). s) (codes "token=abcdefgh") ≡ true
unfolding looks_like_credential
secret_seen = refl

aws_key_seen : looks_like_credential (λ (s : Text). s) (codes "id AKIA0123456789ABCDEF") ≡ true
unfolding looks_like_credential
aws_key_seen = refl

-- A character of three bytes is not cut.
euro_kept_whole : clamp_utf8 (97 ∷ 0x20ac ∷ []) 3 ≡ 97 ∷ []
unfolding clamp_utf8
euro_kept_whole = refl

scrubbed : scrub (codes "\ta  b\n") ≡ codes "a b"
unfolding scrub
scrubbed = refl

sanitize-fits_example :
    (fits_pallet_bounds (sanitize build raw).system ≡ true)
    × (runtime_fits_pallet_bounds (sanitize build raw).runtime ≡ true)
sanitize-fits_example = sanitize-fits build raw

scrub_lem_example :
    IsTidy (scrub (codes "\ta  b\n"))
    × (scrub (scrub (codes "\ta  b\n")) ≡ scrub (codes "\ta  b\n"))
    × (trim (scrub (codes "\ta  b\n")) ≡ scrub (codes "\ta  b\n"))
scrub_lem_example = scrub_lem (codes "\ta  b\n")
