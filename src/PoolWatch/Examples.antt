-- ===== src/PoolWatch/Examples.antt =====
-- Runs of `crates/quip-coordinator/src/pool_watch.rs` and the theorems at an input: consensus crates
-- that score every proof with the energy that its one row names.
use quip_miner.Prelude.{
  ℕ, ◌+◌, ◌≤◌, Bool, true, List, [], ◌∷◌, Option, none, some, ◌≡◌, ◌≢◌, refl, inl, inr, length,
  ◌==◌, Bool-cases, arith,
}
use quip_miner.Prelude.Int.{pos, negsuc}
use quip_miner.Prelude.Bytes.{Bytes, bytes_eq}
use quip_miner.Prelude.Assoc.{get}
use quip_miner.Validate.{indices}
use quip_miner.Snapshot.{MiningSnapshot, PendingProof}
use quip_miner.PoolWatch.{
  below_gates, Consensus, Clearing, PoolWatch, new, expire_clearing, scan, valid_rows, score,
  judge_pending_proof,
}
use quip_miner.PoolWatch.Scans.{Eases, scans}
use quip_miner.PoolWatch.Lowest.{AreFirstLowest, scans-AreFirstLowest}
use quip_miner.PoolWatch.Expiry.{expire_clearing-scan}

abbrev first : Bytes → ℕ
first [] = 0
first (b ∷ bs) = b

abbrev crates : Consensus
crates = record {
  Index = ℕ;
  account_identity_bytes = λ account. account;
  derive_nonce = λ root identity salt. first salt;
  topology_index = λ nodes edges. some 0;
  generate_model = λ nonce nodes edges h j index. some ([], []);
  unpack_solution = λ packed n spins. some (negsuc (first packed) ∷ []);
  energy_of_solution = λ spins h edges j index. some (negsuc (length edges));
  diversity = record {
    select_diverse = λ rows n. some (indices 0 n);
    calculate_diversity = λ rows. some 0;
  };
}

abbrev snap : MiningSnapshot
snap = record {
  head_hash = [];
  last_proof_block_hash = 7 ∷ [];
  topology_hash = 9 ∷ [];
  nodes = 0 ∷ 1 ∷ [];
  edges = (0, 1) ∷ [];
  allowed_h_milli = [];
  allowed_j_milli = [];
  allowed_spin_milli = [];
  min_solutions = 1;
  max_energy_milli = pos 0;
  min_diversity_milli = 0;
  block_number = 42;
  spec_version = 117;
}

-- The entry of the pool under a hash: its first byte is the salt and the nonce.
abbrev entry : Bytes → PendingProof
entry h = record {
  extrinsic_hash = h;
  account = 5 ∷ [];
  proof = record {
    topology_hash = 9 ∷ [];
    nonce = first h;
    salt = h;
    solutions = (3 ∷ []) ∷ [];
    device_access_time_us = 0;
  };
}

-- The snapshot before it eased: no energy of these crates is under its ceiling.
abbrev strict : MiningSnapshot
strict = record snap { max_energy_milli = negsuc 5 }

strict_rows : (solutions : List Bytes) → valid_rows crates strict 0 [] [] solutions ≡ some []
unfolding valid_rows
strict_rows [] = refl
strict_rows (packed ∷ rest) = rw (valid_rows, strict_rows rest) refl

strict-score : (p : PendingProof) → score crates p.proof strict ≡ below_gates
unfolding score quip_miner.Validate.lowest
strict-score p = rw (score, strict_rows p.proof.solutions) refl

abbrev is_here : PendingProof → Bool
is_here p = bytes_eq p.proof.topology_hash (9 ∷ [])

strict-Eases : Eases crates strict snap
unfolding judge_pending_proof
strict-Eases p ne = elim (Bool-cases (is_here p)) [
  | inr away ↦ rw (judge_pending_proof, away) refl
  | inl here ↦ elim (Bool-cases (p.proof.nonce == first p.proof.salt)) [
    | inr forged ↦ rw (judge_pending_proof, here, forged) refl
    | inl own ↦ absurd (ne (rw (judge_pending_proof, here, own) (strict-score p)))
  ]
]

-- The proof that was below the gates clears in the second poll.
abbrev polls : List (List PendingProof × MiningSnapshot)
polls = (entry (1 ∷ []) ∷ [], strict) ∷ (entry (2 ∷ []) ∷ entry (1 ∷ []) ∷ [], snap) ∷ []

scans-AreFirstLowest_example : AreFirstLowest crates polls (scans crates new polls)
scans-AreFirstLowest_example =
    scans-AreFirstLowest crates entry polls ((refl, tt), (λ same. strict-Eases), (refl, (refl, tt)))

-- The watch has seen the proof of nonce 1 clear.
abbrev found : Clearing
found = record { account = 5 ∷ []; nonce = 1; best_energy_milli = negsuc 1 }

abbrev other : Clearing
other = record { account = 5 ∷ []; nonce = 2; best_energy_milli = negsuc 1 }

abbrev watch : PoolWatch
watch = record new { root = some (7 ∷ []); verdicts = (1 ∷ [], some found) ∷ [] }

resubmitted :
    (scan crates (entry (1 ∷ []) ∷ entry (2 ∷ []) ∷ []) snap (expire_clearing watch)).1 ≡ some other
unfolding scan expire_clearing new get quip_miner.Prelude.Bytes.bytes_eq quip_miner.Validate.lowest
resubmitted = refl

expire_clearing-scan_example : ¬ ((found.account ≡ other.account) × (found.nonce ≡ other.nonce))
unfolding get quip_miner.Prelude.Bytes.bytes_eq
expire_clearing-scan_example =
    expire_clearing-scan crates (entry (1 ∷ []) ∷ entry (2 ∷ []) ∷ []) snap watch (1 ∷ []) found
      other refl refl resubmitted
