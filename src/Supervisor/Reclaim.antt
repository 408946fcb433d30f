-- ===== src/Supervisor/Reclaim.antt =====
-- What becomes of a miner's jobs when its process exits (`crates/quip-coordinator/src/supervisor.rs`).
use quip_miner.Prelude.{
  ℕ, ◌+◌, Bool, false, List, [], ◌∷◌, ◌++◌, Option, none, some, ◌≡◌, ◌≢◌, refl, ap, ◌∙◌, inl, inr,
  Bool-cases, arith,
}
use quip_miner.Prelude.Bytes.{Bytes, bytes_eq, bytes_eq→≡, bytes_eq_refl, bytes_eq_iff}
use quip_miner.Prelude.Assoc.{get, remove, values, IsDistinct, remove-IsDistinct}
use quip_miner.Wire.{WireTags, Job}
use quip_miner.Router.State.{Router}
use quip_miner.Router.{route}
use quip_miner.Router.Counters.{reclaim}
use quip_miner.Router.Held.{count, held, count-append}
use quip_miner.Router.Conservation.{held-route_excluding}
use quip_miner.Router.Departures.{held-reclaim}
use quip_miner.Session.{
  CoordinatorState, complete_inflight, is_owned_by, owned_ids, take_owned, reclaim_miner,
}
use quip_miner.Session.Removal.{reclaim_miner-inflight}
use quip_miner.Supervisor.{route_all, child_exited}

not_owned : (miner : Bytes) (o : Option Bytes) → o ≢ some miner → is_owned_by miner o ≡ false
not_owned miner none ne = refl
not_owned miner (some m) ne = elim (Bool-cases (bytes_eq m miner)) [
  | inl same ↦ absurd (ne (ap some (bytes_eq→≡ m miner same)))
  | inr other ↦ other
]

module _ (tags : WireTags) (p : Job → Bool) where
  held-route_all :
      (jobs : List Job) (r : Router) → held p (route_all tags jobs r) ≡ held p r + count p jobs
  unfolding route_all count route
  held-route_all [] r = omega arith
  held-route_all (job ∷ jobs) r =
      omega
        (arith, held-route_all jobs (route tags r job).0, held-route_excluding tags p r job none)

  take_owned-router :
      (ids : List Bytes) (s : CoordinatorState) → (take_owned ids s).0.router ≡ s.router
  unfolding take_owned complete_inflight
  take_owned-router [] s = refl
  take_owned-router (id ∷ ids) s = take_owned-router ids (complete_inflight id s).0

  -- The jobs in flight, by the count of the test.
  abbrev pub in_flight : CoordinatorState → ℕ
  in_flight s = count p (values s.inflight)

  abbrev found_count : Option Job → ℕ
  found_count none = 0
  found_count (some job) = count p (job ∷ [])

  count-remove :
      (id : Bytes) (m : List (Bytes × Job))
      → IsDistinct m
      → count p (values (remove id m)) + found_count (get id m) ≡ count p (values m)
  unfolding count get remove
  count-remove id [] d = refl
  count-remove id ((k, job) ∷ m) d = ground (arith, count-remove id m d.1, bytes_eq_iff k id, d.0)

  count-take_owned :
      (ids : List Bytes) (s : CoordinatorState)
      → IsDistinct s.inflight
      → in_flight (take_owned ids s).0 + count p (take_owned ids s).1 ≡ in_flight s
  unfolding take_owned complete_inflight count
  count-take_owned [] s d = omega arith
  count-take_owned (id ∷ ids) s d =
      let s' = (complete_inflight id s).0 in
      ground (
        arith,
        count-take_owned ids s' (remove-IsDistinct id s.inflight d),
        count-remove id s.inflight d,
      )

  held-reclaim_miner :
      (miner : Bytes) (s : CoordinatorState)
      → held p (child_exited tags miner s).router
        ≡ held p s.router + count p (take_owned (owned_ids miner s) s).1
  unfolding child_exited reclaim_miner
  held-reclaim_miner miner s =
      let owned = take_owned (owned_ids miner s) s in
      let back = reclaim miner owned.0.router in
      omega (
        arith,
        held-route_all ((take_owned (owned_ids miner s) s).1 ++ back.1) back.0,
        count-append p owned.1 back.1,
        held-reclaim tags p miner owned.0.router,
        ap (held p) (take_owned-router (owned_ids miner s) s),
      )

  inflight-child_exited :
      (miner : Bytes) (s : CoordinatorState)
      → (child_exited tags miner s).inflight ≡ (reclaim_miner miner s).0.inflight
  unfolding child_exited
  inflight-child_exited miner s = refl

  -- What the exit leaves in flight under an id: nothing where the miner owned it, else what was there.
  abbrev pub Leaves : Bytes → CoordinatorState → CoordinatorState → Bytes → Type 0
  Leaves miner s u id =
      (get id s.inflight_owner ≡ some miner → get id u.inflight ≡ none)
      × (get id s.inflight_owner ≢ some miner → get id u.inflight ≡ get id s.inflight)

  child_exited-Leaves :
      (miner : Bytes) (s : CoordinatorState) (id : Bytes)
      → Leaves miner s (child_exited tags miner s) id
  child_exited-Leaves miner s id =
      let after = ap (get id) (inflight-child_exited miner s) ∙ reclaim_miner-inflight miner s id in
      (
        λ e. after ∙ rw (e, is_owned_by, bytes_eq_refl miner) refl,
        λ ne. after ∙ rw (not_owned miner (get id s.inflight_owner) ne) refl,
      )

  -- If every job in flight has one entry, then the exit of a miner's process loses no job and makes none
  -- up: the jobs that the router holds and the jobs in flight together stay the same, by the count of
  -- every test. The jobs that the miner owned are no longer in flight, so they are with the router, and
  -- every other job in flight stays.
  pub held-child_exited :
      (miner : Bytes) (s : CoordinatorState)
      → IsDistinct s.inflight
      → (held p (child_exited tags miner s).router + in_flight (child_exited tags miner s)
          ≡ held p s.router + in_flight s)
        × ((id : Bytes) → Leaves miner s (child_exited tags miner s) id)
  unfolding reclaim_miner
  held-child_exited miner s d = (
    omega (
      arith,
      held-reclaim_miner miner s,
      ap (λ m. count p (values m)) (inflight-child_exited miner s),
      count-take_owned (owned_ids miner s) s d,
    ),
    child_exited-Leaves miner s,
  )
