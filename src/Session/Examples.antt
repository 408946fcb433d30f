-- ===== src/Session/Examples.antt =====
-- Runs of `crates/quip-coordinator/src/session.rs` and the theorems at an input: two miners, the
-- first with three staged jobs and two credits; a chain that takes the
-- proofs with a salt.
use quip_miner.Prelude.{
  ℕ, zero, suc, ◌+◌, ◌*◌, ◌≤◌, min, Bool, true, false, List, [], ◌∷◌, Option, none, some, ◌≡◌, refl,
  All, length, ◌==◌, if◌then◌else◌,
}
use quip_miner.Prelude.Int.{negsuc}
use quip_miner.Prelude.Bytes.{Bytes}
use quip_miner.Prelude.Assoc.{get}
use quip_miner.Wire.{Codec}
use quip_miner.Router.State.{u32_max}
use quip_miner.Router.Fixtures.{tags, fleet, stale_queue, job}
use quip_miner.Decay.Fixtures.{thousandths}
use quip_miner.Ledger.{SubmitAction, success, retry}
use quip_miner.Validate.{Diversity, Validated, indices}
use quip_miner.Session.{CoordinatorState, new, reclaim_miner}
use quip_miner.Session.Handlers.{dispatch_granted, credits_of}
use quip_miner.Stash.{Candidate}
use quip_miner.Session.Settle.{Proof, PowOutcome, settle_pow_result}
use quip_miner.Session.Tracking.{Tracks}
use quip_miner.Session.Kept.{Outside}
use quip_miner.Session.Reachable.{here, next, routes, grants, crashes, Reach-Tracks}
use quip_miner.Session.Outcomes.{IsNoWorse, LandsCovered, Settles}
use quip_miner.Session.Settled.{settle_all, offer_all, settle_all-Settles}
use quip_miner.Session.Dispatch.{IsDrained, Sent, dispatch_granted-Drained}

abbrev plain_codec : Codec
plain_codec = record {
  decode_i32_le = λ bytes. none;
  encode_i32_le = λ values. [];
  decode_spins_packed = λ bytes n. none;
}

abbrev first_rows : Diversity
first_rows = record {
  select_diverse = λ rows n. some (indices 0 n);
  calculate_diversity = λ rows. some (length rows * 100);
}

abbrev outside : Outside
outside = record {
  tags = tags;
  version = 1;
  ops = thousandths;
  codec = plain_codec;
  crate = first_rows;
  verify = λ generator n result. none;
}

abbrev started : CoordinatorState
started = record new { router = fleet }

abbrev granted : CoordinatorState
granted = (dispatch_granted tags 0 (5 ∷ []) 3 started).0

Reach-Tracks_example : Tracks (reclaim_miner (5 ∷ []) granted).0 (2 ∷ [])
Reach-Tracks_example =
    Reach-Tracks outside (reclaim_miner (5 ∷ []) granted).0 (2 ∷ [])
      (next (next (next here (routes fleet)) (grants 0 (5 ∷ []) 3)) (crashes (5 ∷ [])))

dispatch_granted-Drained_example :
    IsDrained tags (5 ∷ []) granted.router
    × (credits_of (5 ∷ []) granted.router + length (dispatch_granted tags 0 (5 ∷ []) 3 started).1
        ≡ min (stale_queue.granted_credits + 3) u32_max)
    × Sent tags (5 ∷ []) 0 started (dispatch_granted tags 0 (5 ∷ []) 3 started)
unfolding new get quip_miner.Prelude.Bytes.bytes_eq
dispatch_granted-Drained_example =
    dispatch_granted-Drained tags (5 ∷ []) 0 3 started stale_queue refl

-- Two jobs of the generations 7 and 0 that miner 5 owns.
abbrev busy : CoordinatorState
busy = record new {
  inflight = (1 ∷ [], job 1 1 7) ∷ (2 ∷ [], job 2 1 0) ∷ [];
  inflight_owner = (1 ∷ [], 5 ∷ []) ∷ (2 ∷ [], 5 ∷ []) ∷ [];
}

abbrev good : Validated
good = record {
  accepted = true;
  best_energy_milli = negsuc 1999;
  raw_best_energy_milli = negsuc 1999;
  diversity_milli = 200;
  n_valid = 2;
  selected_solutions = [];
  stash_solutions = [];
}

abbrev winner : PowOutcome
winner = record {
  job = job 1 1 7;
  job_id = 1 ∷ [];
  salt = none;
  validated = good;
  current_best_milli = none;
  device_access_time_us = 0;
}

-- Not accepted yet: the chain's gates are to ease first.
abbrev early : PowOutcome
early = record winner {
  job_id = 3 ∷ [];
  validated = record good { accepted = false; raw_best_energy_milli = negsuc 999 };
}

-- A lower energy, with the salt that the chain takes.
abbrev better : PowOutcome
better = record winner {
  job_id = 4 ∷ [];
  salt = some (9 ∷ []);
  validated = record good { best_energy_milli = negsuc 2999 };
}

-- Takes the proofs with a salt and has the others sent again.
abbrev chain : Proof → Option SubmitAction
chain proof = if length proof.salt == 0 then some retry else some success

abbrev results : List PowOutcome
results = early ∷ winner ∷ better ∷ winner ∷ []

better_lands : (settle_all thousandths chain results busy).current_best_milli ≡ some (negsuc 2999)
unfolding settle_all settle_pow_result quip_miner.Session.Settle.proof_of
    quip_miner.Validate.beats_current new
better_lands = refl

settle_all-Settles_example :
    IsNoWorse busy.current_best_milli (settle_all thousandths chain results busy).current_best_milli
    × All
        (LandsCovered chain (settle_all thousandths chain results busy).current_best_milli)
        results
    × ((cs : List Candidate) × Settles chain busy.current_best_milli results cs
          (settle_all thousandths chain results busy).current_best_milli
        × ((settle_all thousandths chain results busy).stash
            ≡ offer_all thousandths chain cs busy.stash))
settle_all-Settles_example = settle_all-Settles thousandths chain results busy
