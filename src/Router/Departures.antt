-- ===== src/Router/Departures.antt =====
-- What leaves the router, and what comes back: dispatch, rejection, direct staging and reclaiming
-- keep the account of the jobs (`crates/quip-coordinator/src/router.rs`).
use quip_miner.Prelude.{
  ℕ, zero, suc, ◌+◌, ◌==◌, Bool, List, [], Option, none, some, ◌≡◌, refl, ap, ◌∙◌, inl, inr,
  Bool-cases, Option-cases, if◌then◌else◌, if_ind, arith,
}
use quip_miner.Prelude.Bytes.{Bytes}
use quip_miner.Prelude.Assoc.{get}
use quip_miner.Wire.{WireTags, Job}
use quip_miner.Router.State.{MinerQueue, Router}
use quip_miner.Router.{
  Attempt, idle, rerouted, sent, attempt, pop, spend, finish, next_job_loop, next_job, staged_len,
  note_drop, add_kind, mark_unsupported, on_reject, is_capable, stage_on, route_excluding,
}
use quip_miner.Router.Counters.{reclaim}
use quip_miner.Router.Rounds.{Ready, Outcome, unknown, spent, unfit, fit, attempt-Outcome}
use quip_miner.Router.Held.{one, count, held, staged-update, held-modify_same}
use quip_miner.Router.Conservation.{is_capable-get, held-push, held-route_excluding}

module _ (tags : WireTags) (p : Job → Bool) where
  abbrev pub count_option : Option Job → ℕ
  count_option none = 0
  count_option (some j) = one p j

  held-pop :
      (id : Bytes) (r : Router) (q : MinerQueue) (job : Job) (rest : List Job)
      → Ready tags id r q job rest
      → held p (pop id q rest r) + one p job ≡ held p r
  unfolding held count
  held-pop id r q job rest ready = omega (
    arith,
    staged-update p id q (record q { staged = rest }) r.miners ready.here,
    ap (count p) ready.head,
  )

  -- A round keeps the account, a dispatched job included.
  abbrev Kept : Router → Attempt → Type 0
  Kept r idle = Unit
  Kept r (rerouted r') = held p r' ≡ held p r
  Kept r (sent r' job) = held p r' + one p job ≡ held p r

  held-attempt : (id : Bytes) (r : Router) (a : Attempt) → Outcome tags id r a → Kept r a
  held-attempt id r _ (unknown _) = tt
  held-attempt id r _ (spent _ _ _) = tt
  held-attempt id r _ (unfit q job rest ready _) = omega (
    arith,
    held-pop id r q job rest ready,
    held-route_excluding tags p (pop id q rest r) job (some id),
  )
  held-attempt id r _ (fit q job rest ready _) = omega (
    arith,
    held-pop id r q job rest ready,
    held-modify_same p id spend (pop id q rest r) (λ _. refl),
  )

  held-next_job_loop :
      (fuel : ℕ) (id : Bytes) (r : Router)
      → held p (next_job_loop tags fuel id r).0 + count_option (next_job_loop tags fuel id r).1
        ≡ held p r
  unfolding next_job_loop
  held-next_job_loop zero id r = omega arith
  held-next_job_loop (suc fuel) id r =
      after (attempt tags id r) (held-attempt id r _ (attempt-Outcome tags id r))
        (held-next_job_loop fuel id)
    where
      after :
          (a : Attempt)
          → Kept r a
          → ((r' : Router)
              → held p (next_job_loop tags fuel id r').0
                  + count_option (next_job_loop tags fuel id r').1
                ≡ held p r')
          → held p (finish (next_job_loop tags fuel id) r a).0
              + count_option (finish (next_job_loop tags fuel id) r a).1
            ≡ held p r
      after idle h rest = omega arith
      after (rerouted r') h rest = rest r' ∙ h
      after (sent r' job) h rest = h

  -- The job that is dispatched is the only one that leaves; the jobs that the loop finds unfit are
  -- routed elsewhere or set aside.
  pub held-next_job :
      (id : Bytes) (r : Router)
      → held p (next_job tags id r).0 + count_option (next_job tags id r).1 ≡ held p r
  unfolding next_job
  held-next_job id r = held-next_job_loop (suc (staged_len tags r id)) id r

  held-note_drop : (now : ℕ) (id : Bytes) (r : Router) → held p (note_drop now id r) ≡ held p r
  unfolding note_drop held
  held-note_drop now id r = ground arith

  held-mark :
      (id : Bytes) (job : Job) (reason : ℕ) (r : Router)
      → held p (mark_unsupported tags id job reason r) ≡ held p r
  held-mark id job reason r =
      if_ind (λ s. held p s ≡ held p r) (reason == tags.unsupported_kind)
        (held-modify_same p id (add_kind job.kind) r (λ _. refl)) refl

  held-dropped :
      (now : ℕ) (id : Bytes) (r : Router) (chosen : Option Bytes)
      → held p (elim chosen [ none ↦ note_drop now id r | some other ↦ r ]) ≡ held p r
  held-dropped now id r none = held-note_drop now id r
  held-dropped now id r (some other) = refl

  -- A rejected job comes back to the router.
  pub held-on_reject :
      (now : ℕ) (id : Bytes) (job : Job) (reason : ℕ) (r : Router)
      → held p (on_reject tags now id job reason r) ≡ held p r + one p job
  unfolding on_reject
  held-on_reject now id job reason r =
      let marked = mark_unsupported tags id job reason r in
      let routed = route_excluding tags marked job (some id) in
      omega (
        arith,
        held-route_excluding tags p marked job (some id),
        held-mark id job reason r,
        held-dropped now id routed.0 routed.1,
      )

  -- A job is staged once where the result is true, and nothing changes where it is false.
  pub held-stage_on :
      (id : Bytes) (job : Job) (r : Router)
      → held p (stage_on tags id job r).0
        ≡ held p r + (if (stage_on tags id job r).1 then one p job else 0)
  unfolding stage_on
  held-stage_on id job r = elim (Bool-cases (is_capable tags r id job)) [
    | inl fits ↦
        let (q, here) = is_capable-get tags p r id job fits in
        rw (fits, here, stage_on) (held-push tags p id job r q here)
    | inr misfit ↦ rw (misfit, stage_on) (omega arith)
  ]

  -- Reclaiming hands back what it takes away.
  pub held-reclaim :
      (id : Bytes) (r : Router) → held p (reclaim id r).0 + count p (reclaim id r).1 ≡ held p r
  unfolding reclaim
  held-reclaim id r = elim (Option-cases (get id r.miners)) [
    | inl e ↦ rw (e, reclaim) (unfold count in omega arith)
    | inr (q, e) ↦
        rw (e, reclaim)
          (unfold held count in
            omega (
              arith,
              staged-update p id q (record q { granted_credits = 0; staged = [] }) r.miners e,
            ))
  ]
