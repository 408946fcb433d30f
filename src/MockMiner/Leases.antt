-- ===== src/MockMiner/Leases.antt =====
-- What a lease is answered (`handle_lease` of `crates/quip-mock-miner/src/main.rs`).
use quip_miner.Prelude.{
  ℕ, zero, suc, ◌+◌, ◌≤◌, List, [], ◌∷◌, ◌++◌, Option, none, some, ◌≡◌, refl, ◌⊎◌, inl, inr,
  Bool-cases, Option-cases, ltb, length, length-append, All, arith,
}
use quip_miner.Prelude.Int.{ℤ, i64_max, min_ℤ}
use quip_miner.Prelude.Bytes.{Bytes, bytes_eq}
use quip_miner.Wire.{WireTags, Generator, Job, SetTarget}
use quip_miner.MockMiner.{
  MinerMsg, result, lease_done, job_request, TopologyMsg, Protocol, LeaseEnd, refused, ended, ones,
  energy_of, lease_loop, winner, report, on_view, on_spec, on_generator, on_topology, handle_lease,
}
use quip_miner.MockMiner.Replies.{IsRejected}

abbrev pub IsResultOf : Bytes → MinerMsg → Type 0
IsResultOf id (result i spins energy salt nonce) = i ≡ id
IsResultOf id other = ⊥

-- Results of the lease, no more than the salts done, which are no more than those of the lease; then its
-- end, and one credit for the slot.
pub record IsReported (id : Bytes) (salts : ℕ) (msgs : List MinerMsg) : Type 0 where
  pub out : List MinerMsg
  pub done : ℕ
  pub best : ℤ
  pub answer : msgs ≡ out ++ lease_done id done best ∷ job_request 1 ∷ []
  pub results : All (IsResultOf id) out
  pub few_results : length out ≤ done
  pub few_salts : done ≤ salts

All-append :
    (id : Bytes) (xs ys : List MinerMsg)
    → All (IsResultOf id) xs
    → All (IsResultOf id) ys
    → All (IsResultOf id) (xs ++ ys)
All-append id [] ys a b = b
All-append id (x ∷ xs) ys a b = (a.0, All-append id xs ys a.1 b)

module _ (tags : WireTags) (protocol : Protocol) where
  abbrev EndsWell : Bytes → ℕ → LeaseEnd → Type 0
  EndsWell id salts refused = Unit
  EndsWell id salts (ended out done best) =
      All (IsResultOf id) out × (length out ≤ done) × (done ≤ salts)

  module _ (id : Bytes) (generator : Generator) (topo : TopologyMsg) (target : SetTarget)
      (n : ℕ) where
    won : Bytes → Bytes → ℤ → List MinerMsg
    won = winner tags protocol id generator topo target n

    won_lem :
        (salt nonce : Bytes) (energy : ℤ)
        → All (IsResultOf id) (won salt nonce energy) × (length (won salt nonce energy) ≤ 1)
    unfolding won
    won_lem salt nonce energy = elim (Bool-cases (protocol.meets_target target (ones n) energy)) [
      | inl y ↦ rw y ((refl, tt), omega arith)
      | inr f ↦ rw f (tt, omega arith)
    ]

    loop : ℕ → ℕ → List MinerMsg → ℕ → ℤ → LeaseEnd
    loop = lease_loop tags protocol id generator topo target n

    loop-EndsWell :
        (salts left i : ℕ) (out : List MinerMsg) (done : ℕ) (best : ℤ)
        → done + left ≤ salts
        → All (IsResultOf id) out
        → length out ≤ done
        → EndsWell id salts (loop left i out done best)
    unfolding loop lease_loop won
    loop-EndsWell salts zero i out done best h a l = (a, l, omega arith)
    loop-EndsWell salts (suc left) i out done best h a l =
        elim (Option-cases (protocol.salt generator i)) [
          | inl e ↦ rw (e, lease_loop) (a, l, omega arith)
          | inr (salt, e) ↦ elim (Option-cases (protocol.nonce generator i)) [
            | inl f ↦ rw (e, f, lease_loop) (a, l, omega arith)
            | inr (nonce, f) ↦ elim (Option-cases (protocol.draw topo nonce)) [
              | inl g ↦ rw (e, f, g, lease_loop) tt
              | inr (problem, g) ↦
                  let energy : ℤ = energy_of tags protocol id generator topo target n problem in
                  let (w, one) = won_lem salt nonce energy in
                  rw (e, f, g, lease_loop)
                    (loop-EndsWell salts left (i + 1) (out ++ won salt nonce energy) (done + 1)
                      (min_ℤ best energy) (omega arith)
                      (All-append id out (won salt nonce energy) a w)
                      (omega (arith, length-append out (won salt nonce energy), one)))
            ]
          ]
        ]

  -- Rejected, or reported with no more than the salts that the lease names.
  abbrev pub Answers : Job → List MinerMsg → Type 0
  Answers job msgs =
      IsRejected job.job_id msgs
      ⊎ ((generator : Generator) × (salts : ℕ) × (job.generator ≡ some generator)
          × (protocol.lease_salts generator ≡ some salts)
          × IsReported job.job_id salts msgs)

  module _ (job : Job) (topo : TopologyMsg) (target : SetTarget) where
    report-Answers :
        (generator : Generator) (salts : ℕ) (e : LeaseEnd)
        → job.generator ≡ some generator
        → protocol.lease_salts generator ≡ some salts
        → EndsWell job.job_id salts e
        → Answers job (report tags protocol job.job_id e)
    report-Answers generator salts refused g l w = inl (_, refl)
    report-Answers generator salts (ended out done best) g l (a, few, upto) = inr (
      generator,
      salts,
      g,
      l,
      record {
        out = out;
        done = done;
        best = best;
        answer = refl;
        results = a;
        few_results = few;
        few_salts = upto;
      },
    )

    view-Answers :
        (generator : Generator) (salts : ℕ) (o : Option ℕ)
        → job.generator ≡ some generator
        → protocol.lease_salts generator ≡ some salts
        → Answers job (on_view tags protocol job.job_id generator topo target salts o)
    unfolding loop
    view-Answers generator salts none g l = inl (_, refl)
    view-Answers generator salts (some n) g l =
        report-Answers generator salts
          (lease_loop tags protocol job.job_id generator topo target n salts 0 [] 0 i64_max) g l
          (loop-EndsWell job.job_id generator topo target n salts salts 0 [] 0 i64_max (omega arith)
            tt (omega arith))

    spec-Answers :
        (generator : Generator) (o : Option ℕ)
        → job.generator ≡ some generator
        → protocol.lease_salts generator ≡ o
        → Answers job (on_spec tags protocol job.job_id generator topo target o)
    spec-Answers generator none g l = inl (_, refl)
    spec-Answers generator (some salts) g l =
        elim (Bool-cases (bytes_eq generator.topology topo.hash)) [
          | inl same ↦ rw same (view-Answers generator salts (protocol.num_nodes topo) g l)
          | inr other ↦ rw other (inl (_, refl))
        ]

    generator-Answers :
        (o : Option Generator)
        → job.generator ≡ o
        → Answers job (on_generator tags protocol job.job_id o topo target)
    generator-Answers none g = inl (_, refl)
    generator-Answers (some generator) g =
        spec-Answers generator (protocol.lease_salts generator) g refl

  topology-Answers :
      (job : Job) (o : Option TopologyMsg) (target : SetTarget)
      → Answers job (on_topology tags protocol job o target)
  topology-Answers job none target = inl (_, refl)
  topology-Answers job (some topo) target = generator-Answers job topo target job.generator refl

  -- Every lease is answered under its own id with exactly one end and one credit, both last: it is
  -- rejected, or its results come first, no more than the salts done, which are no more than the salts
  -- that it names.
  pub handle_lease-Answers :
      (job : Job) (topo : Option TopologyMsg) (target : Option SetTarget)
      → Answers job (handle_lease tags protocol job topo target)
  unfolding handle_lease
  handle_lease-Answers job topo none = inl (_, refl)
  handle_lease-Answers job topo (some target) =
      elim (Bool-cases (ltb 0 target.max_proof_solutions)) [
        | inl y ↦ rw y (topology-Answers job topo target)
        | inr f ↦ rw f (inl (_, refl))
      ]
