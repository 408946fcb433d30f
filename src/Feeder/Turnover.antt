-- ===== src/Feeder/Turnover.antt =====
-- What a new generation leaves of the last (`stop_mining` of
-- `crates/quip-coordinator/src/runtime.rs`).
use quip_miner.Prelude.{
  ℕ, ◌-◌, Bool, false, not, ◌&&◌, List, [], ◌∷◌, none, ◌≡◌, refl, ap, ◌∙◌, ltb, ◌==◌, if◌then◌else◌,
  arith,
}
use quip_miner.Prelude.Bytes.{Bytes}
use quip_miner.Prelude.Assoc.{get}
use quip_miner.Wire.{Job}
use quip_miner.Router.State.{MinerQueue}
use quip_miner.Router.Counters.{cancel, survives, map_queues, reset_round_salts}
use quip_miner.Router.Held.{count, staged, held}
use quip_miner.Router.Cancel.{cancel_lem}
use quip_miner.Stash
use quip_miner.Session.{
  CoordinatorState, complete_inflight, complete_all, cancelled_ids, cancel_inflight, is_cancelled,
  clear_salts,
}
use quip_miner.Session.Removal.{get-cancel_inflight}
use quip_miner.Feeder.{enter_generation}

-- A proof-of-work job of an earlier generation.
abbrev pub is_stale : ℕ → Job → Bool
is_stale generation job = not (job.generation == 0) && ltb job.generation generation

count-false : (p : Job → Bool) (js : List Job) → ((j : Job) → p j ≡ false) → count p js ≡ 0
unfolding count
count-false p [] f = refl
count-false p (j ∷ js) f = ground (arith, f j, count-false p js f)

staged-false :
    (p : Job → Bool) (m : List (Bytes × MinerQueue)) → ((j : Job) → p j ≡ false) → staged p m ≡ 0
unfolding staged
staged-false p [] f = refl
staged-false p ((id, q) ∷ m) f = omega (arith, count-false p q.staged f, staged-false p m f)

staged-salts :
    (p : Job → Bool) (m : List (Bytes × MinerQueue))
    → staged p (map_queues (λ q. record q { round_salts = 0 }) m) ≡ staged p m
unfolding staged map_queues
staged-salts p [] = refl
staged-salts p ((id, q) ∷ m) = omega (arith, staged-salts p m)

-- A change of the jobs in flight leaves the rest of the round alone.
abbrev SameRound : CoordinatorState → CoordinatorState → Type 0
SameRound s u =
    (u.router ≡ s.router)
    × (u.current_best_milli ≡ s.current_best_milli)
    × (u.stash ≡ s.stash)
    × (u.generation ≡ s.generation)

complete_all-SameRound :
    (ids : List Bytes) (s : CoordinatorState) → SameRound s (complete_all ids s)
unfolding complete_all complete_inflight
complete_all-SameRound [] s = (refl, refl, refl, refl)
complete_all-SameRound (id ∷ ids) s = complete_all-SameRound ids (complete_inflight id s).0

module _ (generation : ℕ) (s : CoordinatorState) where
  abbrev pub turned : CoordinatorState
  turned = (enter_generation generation s).0

  stale-dies : (j : Job) → (survives (generation - 1) j && is_stale generation j) ≡ false
  stale-dies j = ground arith

  cancelled-stale : staged (is_stale generation) (cancel (generation - 1) s.router).0.miners ≡ 0
  unfolding held cancel
  cancelled-stale = omega (
    arith,
    (cancel_lem (generation - 1) (is_stale generation) s.router).0,
    staged-false (λ j. survives (generation - 1) j && is_stale generation j) s.router.miners
        stale-dies,
  )

  -- Entering a generation leaves no stale job staged, no salt, no best and an empty stash.
  pub enter_generation_lem :
      (staged (is_stale generation) turned.router.miners ≡ 0)
      × (turned.salts ≡ [])
      × (turned.current_best_milli ≡ none)
      × (turned.stash.candidates ≡ [])
      × (turned.generation ≡ generation)
  unfolding enter_generation cancel_inflight cancelled_ids clear_salts reset_round_salts Stash.reset
  enter_generation_lem =
      let fresh = record s {
        generation = generation;
        current_best_milli = none;
        stash = Stash.reset generation none 0 s.stash;
        router = (cancel (generation - 1) s.router).0;
      } in
      let same = complete_all-SameRound (cancelled_ids (generation - 1) fresh) fresh in
      (
        staged-salts (is_stale generation)
              (complete_all (cancelled_ids (generation - 1) fresh) fresh).router.miners
            ∙ ap (λ r. staged (is_stale generation) r.miners) same.0
            ∙ cancelled-stale,
        refl,
        same.1,
        ap (λ w. w.candidates) same.2,
        same.3,
      )

  -- It takes the stale proof-of-work jobs, and no other, out of the jobs in flight.
  pub get-enter_generation :
      (id : Bytes)
      → get id turned.inflight
        ≡ (if is_cancelled (generation - 1) (get id s.inflight) then none else get id s.inflight)
  unfolding enter_generation clear_salts
  get-enter_generation id = get-cancel_inflight (generation - 1) _ id
