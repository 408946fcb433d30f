-- ===== src/Drive/Leases.antt =====
-- The leases of a source name every counter once (`crates/quip-coordinator/src/drive/lease_source.rs`).
use quip_miner.Prelude.{
  ℕ, zero, suc, ◌+◌, ◌-◌, ◌≤◌, min, max, true, false, List, [], ◌∷◌, ◌++◌, Option, none, some, ◌≡◌,
  refl, ap, ◌∙◌, inl, inr, Bool-cases, leb, leb→lt, All, arith,
}
use quip_miner.Wire.{WireTags, Job, Generator}
use quip_miner.Prelude.Bytes.{Bytes}
use quip_miner.Drive.{TopologySpec, LeaseSource, build_lease_job, new, next_job}

abbrev pub range : ℕ → ℕ → List ℕ
range start zero = []
range start (suc n) = start ∷ range (start + 1) n

abbrev pub counters_of : Option Generator → List ℕ
counters_of none = []
counters_of (some g) = range g.salt_start g.salt_count

abbrev pub salts_in : Option Generator → ℕ
salts_in none = 0
salts_in (some g) = g.salt_count

-- The counters that the leases name, in order.
abbrev pub named : List Job → List ℕ
named [] = []
named (job ∷ jobs) = counters_of job.generator ++ named jobs

-- The jobs of at most a number of calls, up to the first without one, and the source after them.
unfoldable pub drain_source : WireTags → ℕ → LeaseSource → List Job × LeaseSource
drain_source tags zero s = ([], s)
drain_source tags (suc fuel) s = elim (next_job tags s) [
  | none ↦ ([], s)
  | some (job, t) ↦ (job ∷ (drain_source tags fuel t).0, (drain_source tags fuel t).1)
]

le→leb : (a b : ℕ) → a ≤ b → leb a b ≡ true
le→leb a b h = ground arith

zero_right : (a : ℕ) → a + 0 ≡ a
zero_right a = omega arith

zero_left : (b : ℕ) → b ≡ 0 + b
zero_left b = omega arith

shift : (start a : ℕ) → start + suc a ≡ start + 1 + a
shift start a = omega arith

count : (a b : ℕ) → suc (a + b) ≡ suc a + b
count a b = omega arith

range-append : (start a b : ℕ) → range start a ++ range (start + a) b ≡ range start (a + b)
range-append start zero b = ap (λ k. range k b) (zero_right start) ∙ ap (range start) (zero_left b)
range-append start (suc a) b =
    ap (λ t. start ∷ t)
      (ap (λ k. range (start + 1) a ++ range k b) (shift start a) ∙ range-append (start + 1) a b)
    ∙ ap (range start) (count a b)

-- A lease has one counter at least and no more than the size.
abbrev pub HasCount : ℕ → Job → Type 0
HasCount size job = (1 ≤ salts_in job.generator) × (salts_in job.generator ≤ size)

module _ (tags : WireTags) where
  abbrev Tiles : ℕ → LeaseSource → List Job × LeaseSource → Type 0
  Tiles fuel s d =
      (named d.0 ≡ range s.next_start (s.salts - s.next_start))
      × All (HasCount s.lease_size) d.0
      × (next_job tags d.1 ≡ none)

  drained : (fuel : ℕ) (s : LeaseSource) → leb s.salts s.next_start ≡ true → Tiles fuel s ([], s)
  unfolding next_job
  drained fuel s h =
      let z : 0 ≡ s.salts - s.next_start = ground (arith, h) in
      (ap (range s.next_start) z, tt, rw h refl)

  abbrev size_of : LeaseSource → ℕ
  size_of s = min s.lease_size (s.salts - s.next_start)

  abbrev after : LeaseSource → LeaseSource
  after s = record s { next_start = s.next_start + size_of s }

  next_job-done : (s : LeaseSource) → leb s.salts s.next_start ≡ true → next_job tags s ≡ none
  unfolding next_job
  next_job-done s h = rw h refl

  next_job-more :
      (s : LeaseSource)
      → leb s.salts s.next_start ≡ false
      → next_job tags s
        ≡ some (build_lease_job tags s.snapshot s.miner_account s.next_start (size_of s) 1, after s)
  unfolding next_job
  next_job-more s h = rw h refl

  drain_source-Tiles :
      (fuel : ℕ) (s : LeaseSource)
      → s.salts - s.next_start ≤ fuel
      → 1 ≤ s.lease_size
      → Tiles fuel s (drain_source tags fuel s)
  unfolding drain_source build_lease_job
  drain_source-Tiles zero s h l = drained zero s (le→leb s.salts s.next_start (omega arith))
  drain_source-Tiles (suc fuel) s h l = elim (Bool-cases (leb s.salts s.next_start)) [
    | inl done ↦ rw (next_job-done s done, drain_source) (drained (suc fuel) s done)
    | inr more ↦
        let less = leb→lt s.salts s.next_start more in
        let count : ℕ = size_of s in
        let (n, a, e) = drain_source-Tiles fuel (after s) (omega arith) l in
        let rest : count + (s.salts - (s.next_start + count)) ≡ s.salts - s.next_start =
          omega arith in
        rw (next_job-more s more, drain_source)
          (
            ap (λ k. range s.next_start count ++ k) n
                ∙ range-append s.next_start count (s.salts - (s.next_start + count))
                ∙ ap (range s.next_start) rest,
            ((omega arith, omega arith), a),
            e,
          )
  ]

-- As many calls as there are salts drain_source a new source: the leases name the counters from 0 to the
-- number of salts, each once and in order, each lease one at least and no more than the size, where a
-- size of zero counts as one.
pub drain_source-new :
    (tags : WireTags) (blake3 : Bytes → Bytes) (spec : TopologySpec) (account : Bytes)
    (seed salts size : ℕ)
    → let d = drain_source tags salts (new blake3 spec account seed salts size) in
      (named d.0 ≡ range 0 salts) × All (HasCount (max size 1)) d.0 × (next_job tags d.1 ≡ none)
unfolding new
drain_source-new tags blake3 spec account seed salts size =
    let s = new blake3 spec account seed salts size in
    let (n, a, e) = drain_source-Tiles tags salts s (omega arith) (omega arith) in
    let whole : salts - 0 ≡ salts = omega arith in (n ∙ ap (range 0) whole, a, e)
