-- ===== src/Survey/Bounds.antt =====
-- What `sanitize` returns fits the bounds of the pallet, and how `clamp_utf8` cuts
-- (`crates/quip-coordinator/src/survey.rs`).
use quip_miner.Prelude.{
  ℕ, ◌+◌, ◌≤◌, true, List, [], ◌∷◌, Option, none, some, min, ◌≡◌, refl, inl, inr, Bool-cases, leb,
  leb→le, length, take, length-take, arith,
}
use quip_miner.Text.{Text, codes, text_len, as_bytes, length-as_bytes, trim}
use quip_miner.Text.Slices.{fitting, text_len-fitting, fitting_whole, slice_to-floor_boundary}
use quip_miner.Survey.Credential.{looks_like_credential}
use quip_miner.Survey.{RawGpu, RawSurvey, Build, is_nil, scrub, clamp_utf8, none_or, capped}
use quip_miner.Survey.Sanitize.{
  is_within, filled, every, gpu_fits, fits_pallet_bounds, image_fits, runtime_fits_pallet_bounds,
  bounded, bounded_nonempty, sanitize_gpu, sanitize_gpus, image_of, sanitize,
}

-- A text is cut to the longest beginning of its trimmed form that is whole characters and fits.
pub clamp_utf8-fitting :
    (value : Text) (limit : ℕ) → clamp_utf8 value limit ≡ fitting limit (trim value)
unfolding clamp_utf8
clamp_utf8-fitting value limit = elim (Bool-cases (leb (text_len (trim value)) limit)) [
  | inl short ↦
      rw (short, fitting_whole limit (trim value) (leb→le (text_len (trim value)) limit short)) refl
  | inr long ↦ rw (long, slice_to-floor_boundary (trim value) limit) refl
]

text_len-clamp_utf8 : (value : Text) (limit : ℕ) → text_len (clamp_utf8 value limit) ≤ limit
text_len-clamp_utf8 value limit =
    rw (clamp_utf8-fitting value limit) (text_len-fitting limit (trim value))

le→leb : (a b : ℕ) → a ≤ b → leb a b ≡ true
le→leb a b h = ground arith

capped-fits : (pct : Option ℕ) → none_or (λ (p : ℕ). leb p 100) (capped pct) ≡ true
capped-fits none = refl
capped-fits (some p) = le→leb (min p 100) 100 (omega arith)

module _ (build : Build) where
  length-bounded :
      (value : Text) (limit : ℕ) → 8 ≤ limit → length (bounded build value limit) ≤ limit
  unfolding bounded
  length-bounded value limit h =
      elim (Bool-cases (looks_like_credential build.to_lowercase (scrub value))) [
        | inl hit ↦ rw (hit, length-as_bytes (codes "redacted")) (unfold text_len in h)
        | inr clean ↦
            rw (clean, length-as_bytes (clamp_utf8 (scrub value) limit))
              (text_len-clamp_utf8 (scrub value) limit)
      ]

  bounded-within :
      (value : Text) (limit : ℕ) → 8 ≤ limit → is_within limit (bounded build value limit) ≡ true
  bounded-within value limit h = ground (arith, length-bounded value limit)

  bounded_nonempty-filled :
      (value : Text) (limit : ℕ)
      → 8 ≤ limit
      → filled limit (bounded_nonempty build value limit) ≡ true
  unfolding bounded_nonempty as_bytes
  bounded_nonempty-filled value limit h = elim (Bool-cases (is_nil (bounded build value limit))) [
    | inl gone ↦ rw gone (ground arith)
    | inr kept ↦ rw (kept, kept, bounded-within value limit h) refl
  ]

  sanitize_gpu-fits : (i : ℕ) (raw : RawGpu) → gpu_fits (sanitize_gpu build i raw) ≡ true
  unfolding sanitize_gpu
  sanitize_gpu-fits i raw =
      rw
        (
          bounded_nonempty-filled raw.vendor 16 (omega arith),
          bounded_nonempty-filled raw.name 96 (omega arith),
        )
        (capped-fits raw.utilization_pct)

  sanitize_gpus-fits :
      (i : ℕ) (gpus : List RawGpu) → every gpu_fits (sanitize_gpus build i gpus) ≡ true
  unfolding sanitize_gpus
  sanitize_gpus-fits i [] = refl
  sanitize_gpus-fits i (gpu ∷ gpus) =
      rw (sanitize_gpu-fits i gpu, sanitize_gpus-fits (i + 1) gpus) refl

  length-sanitize_gpus :
      (i : ℕ) (gpus : List RawGpu) → length (sanitize_gpus build i gpus) ≡ length gpus
  unfolding sanitize_gpus
  length-sanitize_gpus i [] = refl
  length-sanitize_gpus i (gpu ∷ gpus) = omega (arith, length-sanitize_gpus (i + 1) gpus)

  few_gpus : (gpus : List RawGpu) → leb (length (sanitize_gpus build 0 (take 16 gpus))) 16 ≡ true
  few_gpus gpus =
      le→leb (length (sanitize_gpus build 0 (take 16 gpus))) 16
        (omega (arith, length-sanitize_gpus 0 (take 16 gpus), length-take 16 gpus))

  image_of-fits : (image : Option Text) → image_fits (image_of build image) ≡ true
  unfolding image_of
  image_of-fits none = refl
  image_of-fits (some image) = elim (Bool-cases (is_nil (bounded build image 256))) [
    | inl gone ↦ rw gone refl
    | inr kept ↦ rw (kept, kept, bounded-within image 256 (omega arith)) refl
  ]

  -- Whatever the probes return, the hardware block and the runtime block both pass the test of the
  -- pallet's bounds.
  pub sanitize-fits :
      (raw : RawSurvey)
      → (fits_pallet_bounds (sanitize build raw).system ≡ true)
        × (runtime_fits_pallet_bounds (sanitize build raw).runtime ≡ true)
  unfolding sanitize fits_pallet_bounds runtime_fits_pallet_bounds
  sanitize-fits raw = (
    rw
        (
          bounded_nonempty-filled raw.os_system 64 (omega arith),
          bounded-within raw.os_release 64 (omega arith),
          bounded-within raw.os_machine 64 (omega arith),
          bounded_nonempty-filled raw.cpu_brand 96 (omega arith),
          bounded_nonempty-filled raw.cpu_arch 16 (omega arith),
          few_gpus raw.gpus,
          sanitize_gpus-fits 0 (take 16 raw.gpus),
        )
        refl,
    rw
        (
          bounded_nonempty-filled raw.python 48 (omega arith),
          bounded_nonempty-filled build.version 48 (omega arith),
          image_of-fits raw.docker_image,
        )
        refl,
  )
