-- ===== src/Router/Conservation.antt =====
-- Routing and a change of capabilities lose no job and make none up
-- (`crates/quip-coordinator/src/router.rs`). The account is the number of held jobs that pass a
-- test, for every test.
use quip_miner.Prelude.{
  ◌+◌, Bool, true, List, [], ◌∷◌, Option, some, ◌≡◌, inl, inr, Bool-cases, Option-cases, arith,
}
use quip_miner.Prelude.Bytes.{Bytes}
use quip_miner.Prelude.Assoc.{get, update}
use quip_miner.Wire.{WireTags, Job}
use quip_miner.Router.State.{MinerCaps, MinerQueue, Router}
use quip_miner.Router.{
  modify, is_capable, push_staged, route_excluding, first, candidates, restage, with_caps,
  update_capabilities,
}
use quip_miner.Router.Choice.{chosen-get}
use quip_miner.Router.Held.{one, count, held, count-append, staged-update, held-modify}

module _ (tags : WireTags) (p : Job → Bool) where
  pub held-push :
      (id : Bytes) (job : Job) (r : Router) (q : MinerQueue)
      → get id r.miners ≡ some q
      → held p (modify id (push_staged job) r) ≡ held p r + one p job
  unfolding count
  held-push id job r q e =
      omega (arith, held-modify p id (push_staged job) r q e, count-append p q.staged (job ∷ []))

  -- Routing adds the job to what the router holds, whether or not a miner takes it.
  pub held-route_excluding :
      (r : Router) (job : Job) (exclude : Option Bytes)
      → held p (route_excluding tags r job exclude).0 ≡ held p r + one p job
  unfolding route_excluding
  held-route_excluding r job exclude = elim (Option-cases (first (candidates tags r job exclude))) [
    | inl e ↦
        rw (e, route_excluding)
          (unfold held count in omega (arith, count-append p r.unroutable (job ∷ [])))
    | inr (id, e) ↦
        let (q, here) = chosen-get tags r job exclude id e in
        rw (e, route_excluding) (held-push id job r q here)
  ]

  pub is_capable-get :
      (r : Router) (id : Bytes) (job : Job)
      → is_capable tags r id job ≡ true
      → (q : MinerQueue) × (get id r.miners ≡ some q)
  unfolding is_capable
  is_capable-get r id job h = ground arith

  held-restage :
      (id : Bytes) (jobs : List Job) (r : Router)
      → held p (restage tags id jobs r) ≡ held p r + count p jobs
  unfolding restage count
  held-restage id [] r = omega arith
  held-restage id (job ∷ jobs) r = elim (Bool-cases (is_capable tags r id job)) [
    | inl fits ↦
        let (q, here) = is_capable-get r id job fits in
        rw fits (
          omega (
            arith,
            held-restage id jobs (modify id (push_staged job) r),
            held-push id job r q here,
          ))
    | inr misfit ↦ rw misfit (
        omega (
          arith,
          held-restage id jobs (route_excluding tags r job (some id)).0,
          held-route_excluding r job (some id),
        ))
  ]

  -- A change of the envelope re-routes the queued jobs and keeps them all.
  pub held-update_capabilities :
      (id : Bytes) (caps : MinerCaps) (r : Router)
      → held p (update_capabilities tags id caps r).0 ≡ held p r
  unfolding update_capabilities
  held-update_capabilities id caps r = elim (Option-cases (get id r.miners)) [
    | inl e ↦ rw (e, update_capabilities)
    | inr (q, e) ↦
        rw (e, update_capabilities)
          (unfold held count in
            omega (
              arith,
              held-restage id q.staged
                  (record r { miners = update id (with_caps caps q) r.miners }),
              staged-update p id q (with_caps caps q) r.miners e,
            ))
  ]
