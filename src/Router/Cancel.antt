-- ===== src/Router/Cancel.antt =====
-- What a cancel drops (`Router::cancel` of `crates/quip-coordinator/src/router.rs`).
use quip_miner.Prelude.{ℕ, ◌+◌, not, ◌&&◌, Bool, List, [], ◌∷◌, ◌≡◌, refl, arith, length}
use quip_miner.Prelude.Bytes.{Bytes}
use quip_miner.Wire.{Job}
use quip_miner.Router.State.{MinerQueue, Router}
use quip_miner.Router.Counters.{retain, survives, dropped_in, map_queues, cancel}
use quip_miner.Router.Held.{count, staged, held}

count-retain :
    (p t : Job → Bool) (js : List Job) → count p (retain t js) ≡ count (λ j. t j && p j) js
unfolding count retain
count-retain p t [] = refl
count-retain p t (j ∷ js) = ground (arith, count-retain p t js)

length-retain :
    (t : Job → Bool) (js : List Job) → length (retain t js) + count (λ j. not (t j)) js ≡ length js
unfolding count retain
length-retain t [] = omega arith
length-retain t (j ∷ js) = ground (arith, length-retain t js)

module _ (max_generation : ℕ) where
  abbrev keep : MinerQueue → MinerQueue
  keep q = record q { staged = retain (survives max_generation) q.staged }

  staged-map_queues :
      (p : Job → Bool) (m : List (Bytes × MinerQueue))
      → staged p (map_queues keep m) ≡ staged (λ j. survives max_generation j && p j) m
  unfolding staged map_queues
  staged-map_queues p [] = refl
  staged-map_queues p ((id, q) ∷ m) =
      omega (arith, count-retain p (survives max_generation) q.staged, staged-map_queues p m)

  dropped_in_lem :
      (m : List (Bytes × MinerQueue))
      → dropped_in max_generation m ≡ staged (λ j. not (survives max_generation j)) m
  unfolding staged dropped_in
  dropped_in_lem [] = refl
  dropped_in_lem ((id, q) ∷ m) =
      omega (arith, length-retain (survives max_generation) q.staged, dropped_in_lem m)

  -- A cancel keeps the staged jobs of generation 0 and of the generations above the bound, drops
  -- the other staged jobs and nothing else, and returns how many it drops.
  pub cancel_lem :
      (p : Job → Bool) (r : Router)
      → (held p (cancel max_generation r).0
          ≡ staged (λ j. survives max_generation j && p j) r.miners + count p r.unroutable)
        × ((cancel max_generation r).1 ≡ staged (λ j. not (survives max_generation j)) r.miners)
  unfolding cancel held
  cancel_lem p r = (omega (arith, staged-map_queues p r.miners), dropped_in_lem r.miners)
