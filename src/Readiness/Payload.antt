-- ===== src/Readiness/Payload.antt =====
-- What a descriptor that is built holds (`build_descriptor_payload` of
-- `crates/quip-coordinator/src/readiness.rs`).
use mathlib.Core.Path.{subst}
use quip_miner.Prelude.{
  ℕ, ◌≤◌, ◌<◌, Bool, true, false, ◌||◌, List, [], ◌∷◌, Option, none, some, ◌≡◌, refl, sym, ap, ◌∙◌,
  inl, inr, Bool-cases, ltb, ltb→le, if◌then◌else◌, length, take, length-take, All, arith,
}
use quip_miner.Prelude.Bytes.{Bytes}
use quip_miner.Text.{Text, text_len, as_bytes, length-as_bytes, trim}
use quip_miner.Survey.{SystemInfo, RuntimeInfo, RawSurvey, Build, is_nil}
use quip_miner.Survey.Sanitize.{fits_pallet_bounds, runtime_fits_pallet_bounds, sanitize}
use quip_miner.Survey.Bounds.{sanitize-fits}
use quip_miner.Readiness.{
  DescriptorParams, NodeDescriptor, name_of, node_id_of, configured, endpoints_of, kept_if,
  host_too_long, bytes_of, payload, build_descriptor_payload,
}

-- From one byte to a bound.
abbrev pub Within : ℕ → Bytes → Type 0
Within limit bytes = (1 ≤ length bytes) × (length bytes ≤ limit)

abbrev pub Holds {ℓ} : {A : Type ℓ} → (A → Type 0) → Option A → Type 0
Holds P none = Unit
Holds P (some a) = P a

-- The bounds of the pallet on all but the list of miners, of which only the lower one is here.
pub record Fits (d : NodeDescriptor) : Type 0 where
  pub id_fits : Within 64 d.node_id
  pub name_fits : length d.node_name ≤ 64
  pub host_fits : Holds (Within 253) d.public_host
  pub port_fits : Holds (λ (p : ℕ). 0 < p) d.public_port
  pub few_endpoints : length d.rpc_endpoints ≤ 8
  pub endpoints_fit : All (Within 256) d.rpc_endpoints
  pub some_miner : 1 ≤ length d.miners
  pub system_fits : Holds (λ (i : SystemInfo). fits_pallet_bounds i ≡ true) d.system_info
  pub runtime_fits : Holds (λ (i : RuntimeInfo). runtime_fits_pallet_bounds i ≡ true) d.runtime

text_len_pos : (s : Text) → is_nil s ≡ false → 1 ≤ text_len s
unfolding text_len
text_len_pos [] h = cc
text_len_pos (c ∷ s) h = ground arith

as_bytes-Within :
    (limit : ℕ) (s : Text)
    → is_nil s ≡ false
    → ltb limit (text_len s) ≡ false
    → Within limit (as_bytes s)
as_bytes-Within limit s e h = rw (length-as_bytes s) (text_len_pos s e, ltb→le limit (text_len s) h)

no_left : (a b : Bool) → (a || b) ≡ false → a ≡ false
no_left true b h = cc
no_left false b h = refl

no_right : (a b : Bool) → (a || b) ≡ false → b ≡ false
no_right true b h = cc
no_right false b h = h

endpoints_of-Within : (es : List Text) → All (Within 256) (endpoints_of es)
unfolding endpoints_of
endpoints_of-Within [] = tt
endpoints_of-Within (e ∷ es) = elim (Bool-cases (is_nil (trim e) || ltb 256 (text_len (trim e)))) [
  | inl bad ↦ rw bad (endpoints_of-Within es)
  | inr good ↦ rw good (
    as_bytes-Within 256 (trim e) (no_left (is_nil (trim e)) (ltb 256 (text_len (trim e))) good)
        (no_right (is_nil (trim e)) (ltb 256 (text_len (trim e))) good),
    endpoints_of-Within es,
  )
]

length-endpoints_of : (es : List Text) → length (endpoints_of es) ≤ length es
unfolding endpoints_of
length-endpoints_of [] = omega arith
length-endpoints_of (e ∷ es) = ground (arith, length-endpoints_of es)

kept_if-Holds {ℓ} :
    {A : Type ℓ} (p : A → Bool) (o : Option A) → Holds (λ (a : A). p a ≡ true) (kept_if p o)
kept_if-Holds p none = tt
kept_if-Holds p (some a) = elim (Bool-cases (p a)) [ inl y ↦ rw y y | inr n ↦ rw n tt ]

port-Holds : (o : Option ℕ) → Holds (λ (p : ℕ). 0 < p) (kept_if (λ (p : ℕ). ltb 0 p) o)
port-Holds none = tt
port-Holds (some p) = elim (Bool-cases (ltb 0 p)) [ inl y ↦ rw y (ground arith) | inr n ↦ rw n tt ]

configured-filled : (o : Option Text) → Holds (λ (s : Text). is_nil s ≡ false) (configured o)
unfolding configured
configured-filled none = tt
configured-filled (some s) = elim (Bool-cases (is_nil (trim s))) [
  | inl gone ↦ rw gone tt
  | inr kept ↦ rw kept kept
]

host-Holds :
    (o : Option Text)
    → Holds (λ (s : Text). is_nil s ≡ false) o
    → host_too_long o ≡ false
    → Holds (Within 253) (bytes_of o)
host-Holds none f h = tt
host-Holds (some s) f h = as_bytes-Within 253 s f h

filled-length {ℓ} : {A : Type ℓ} (xs : List A) → is_nil xs ≡ false → 1 ≤ length xs
filled-length [] h = cc
filled-length (x ∷ xs) h = omega arith

unless {ℓ} :
    {A : Type ℓ} (b : Bool) (o : Option A) {a : A}
    → (if b then none else o) ≡ some a
    → (b ≡ false) × (o ≡ some a)
unless true o h = cc
unless false o h = (refl, h)

payload-Fits :
    (params : DescriptorParams) (node_id name : Text)
    → ltb 64 (text_len name) ≡ false
    → (is_nil node_id || ltb 64 (text_len node_id)) ≡ false
    → is_nil params.miners ≡ false
    → host_too_long (configured params.public_host) ≡ false
    → Fits (payload params node_id name)
unfolding payload
payload-Fits params node_id name n i m h = record {
  id_fits =
      as_bytes-Within 64 node_id (no_left (is_nil node_id) (ltb 64 (text_len node_id)) i)
        (no_right (is_nil node_id) (ltb 64 (text_len node_id)) i);
  name_fits = rw (length-as_bytes name) (ltb→le 64 (text_len name) n);
  host_fits = host-Holds (configured params.public_host) (configured-filled params.public_host) h;
  port_fits = port-Holds params.public_port;
  few_endpoints = omega (
    arith,
    length-endpoints_of (take 8 params.rpc_endpoints),
    length-take 8 params.rpc_endpoints,
  );
  endpoints_fit = endpoints_of-Within (take 8 params.rpc_endpoints);
  some_miner = filled-length params.miners m;
  system_fits = kept_if-Holds fits_pallet_bounds params.system_info;
  runtime_fits = kept_if-Holds runtime_fits_pallet_bounds params.runtime;
}

kept {ℓ} : {A : Type ℓ} (p : A → Bool) (a : A) → p a ≡ true → kept_if p (some a) ≡ some a
kept p a h = rw h refl

module _ (to_ss58check : Bytes → Text) (params : DescriptorParams) (account : Bytes)
    (d : NodeDescriptor)
    (built : build_descriptor_payload to_ss58check params account ≡ some d) where
  name : Text
  name = name_of to_ss58check params account

  node_id : Text
  node_id = node_id_of to_ss58check params account

  -- The tests of the function, none of which fails where there is a descriptor.
  record Passed : Type 0 where
    name_ok : ltb 64 (text_len name) ≡ false
    id_ok : (is_nil node_id || ltb 64 (text_len node_id)) ≡ false
    miners_ok : is_nil params.miners ≡ false
    host_ok : host_too_long (configured params.public_host) ≡ false
    is_payload : payload params node_id name ≡ d

  passed : Passed
  unfolding build_descriptor_payload name node_id
  passed =
      let (n, r) = unless (ltb 64 (text_len name)) _ built in
      let (i, r') = unless (is_nil node_id || ltb 64 (text_len node_id)) _ r in
      let (m, r'') = unless (is_nil params.miners) _ r' in
      let (h, e) = unless (host_too_long (configured params.public_host)) _ r'' in
      record { name_ok = n; id_ok = i; miners_ok = m; host_ok = h; is_payload = cc }

  -- A descriptor that is built fits the bounds of the pallet on every field; of the miners, only that
  -- there is one is meant.
  pub build_descriptor_payload-Fits : Fits d
  build_descriptor_payload-Fits =
      let p = passed in
      subst Fits p.is_payload
        (payload-Fits params node_id name p.name_ok p.id_ok p.miners_ok p.host_ok)

  -- A survey of the host that was collected is filed whole, with both its blocks.
  pub build_descriptor_payload-sanitize :
      (build : Build) (raw : RawSurvey)
      → params.system_info ≡ some (sanitize build raw).system
      → params.runtime ≡ some (sanitize build raw).runtime
      → (d.system_info ≡ params.system_info) × (d.runtime ≡ params.runtime)
  unfolding payload
  build_descriptor_payload-sanitize build raw s r =
      let f = sanitize-fits build raw in
      let e = passed.is_payload in
      (
        sym (ap (λ (x : NodeDescriptor). x.system_info) e)
            ∙ rw s (kept fits_pallet_bounds (sanitize build raw).system f.0),
        sym (ap (λ (x : NodeDescriptor). x.runtime) e)
            ∙ rw r (kept runtime_fits_pallet_bounds (sanitize build raw).runtime f.1),
      )
