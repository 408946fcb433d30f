-- ===== src/Session/Dispatch.antt =====
-- Granting credits to a miner (`dispatch_granted` of `crates/quip-coordinator/src/session.rs`).
use quip_miner.Prelude.{
  ℕ, zero, suc, ◌+◌, ◌<◌, min, List, [], ◌∷◌, Option, none, some, ◌≡◌, refl, sym, ap, ◌∙◌, ◌⊎◌, inl,
  inr, length, ◌==◌, if◌then◌else◌, Bool-cases, Option-cases, arith,
}
use quip_miner.Prelude.Bytes.{Bytes, bytes_eq}
use quip_miner.Prelude.Assoc.{get, get-insert}
use quip_miner.Wire.{WireTags, Job}
use quip_miner.Router.State.{MinerQueue, Router, add_u32, u32_max}
use quip_miner.Router.{spend, Attempt, attempt, next_job, next_job_loop}
use quip_miner.Router.Capable.{capable}
use quip_miner.Router.Counters.{grant_credits, read}
use quip_miner.Router.Dispatch.{modify-get, Dispatches, next_job-Dispatches, first_fit}
use quip_miner.Session.{CoordinatorState, dispatch_inflight}
use quip_miner.Session.Handlers.{credits_of, drain, dispatch_granted}

-- The last job of a list that has an id.
unfoldable pub last_of : Bytes → List Job → Option Job
last_of k [] = none
last_of k (job ∷ jobs) = elim (last_of k jobs) [
  | some later ↦ some later
  | none ↦ if bytes_eq job.job_id k then some job else none
]

-- The job sent, or the one that was in flight before.
abbrev pub or_before : Option Job → Option Job → Option Job
or_before none before = before
or_before (some job) before = some job

-- A job sent is the miner's, any other keeps its owner.
abbrev pub owner_of : Bytes → Option Job → Option Bytes → Option Bytes
owner_of id none before = before
owner_of id (some job) before = some id

module _ (tags : WireTags) (id : Bytes) where
  -- No job is to be had for the miner.
  abbrev pub IsDrained : Router → Type 0
  IsDrained r = (next_job tags id r).1 ≡ none

  next_job-idle : (r : Router) → attempt tags id r ≡ Attempt.idle → next_job tags id r ≡ (r, none)
  unfolding next_job
  next_job-idle r e = rw (next_job_loop, e) refl

  -- A call of `next_job` finds no job and leaves the miner drained, or takes a credit for its job.
  abbrev Progress : Router → Type 0
  Progress r =
      ((next_job tags id r).1 ≡ none)
        × (credits_of id (next_job tags id r).0 ≡ credits_of id r)
        × IsDrained (next_job tags id r).0
      ⊎ ((job : Job) × ((next_job tags id r).1 ≡ some job)
          × (credits_of id r ≡ suc (credits_of id (next_job tags id r).0)))

  idle-Progress : (r : Router) → attempt tags id r ≡ Attempt.idle → Progress r
  idle-Progress r e =
      let same = next_job-idle r e in
      inl (
        ap (λ (x : Router × Option Job). x.1) same,
        ap (λ (x : Router × Option Job). credits_of id x.0) same,
        ap (λ (x : Router × Option Job). (next_job tags id x.0).1) same
            ∙ ap (λ (x : Router × Option Job). x.1) same,
      )

  credits_known :
      (r : Router) (q : MinerQueue) → get id r.miners ≡ some q → credits_of id r ≡ q.granted_credits
  credits_known r q e = rw (read, e) refl

  busy-Progress :
      (r : Router) (q : MinerQueue) (fit : Option (Job × List Job))
      → get id r.miners ≡ some q
      → 0 < q.granted_credits
      → Dispatches tags id q fit (next_job tags id r)
      → Progress r
  busy-Progress r q none e c d =
      let after = (next_job tags id r).0 in
      inl (
        d.0,
        credits_known after (record q { staged = [] }) d.1 ∙ sym (credits_known r q e),
        (next_job-Dispatches tags after id (record q { staged = [] }) d.1 c).0,
      )
  busy-Progress r q (some (job, rest)) e c d = inr (
    job,
    d.0,
    omega (
      arith,
      credits_known r q e,
      credits_known (next_job tags id r).0 (spend (record q { staged = rest })) d.1,
    ),
  )

  next_job-Progress : (r : Router) → Progress r
  unfolding attempt
  next_job-Progress r = elim (Option-cases (get id r.miners)) [
    | inl e ↦ idle-Progress r (rw (attempt, e) refl)
    | inr (q, e) ↦ elim (Bool-cases (q.granted_credits == 0)) [
      | inl z ↦ idle-Progress r (rw (attempt, e, z) refl)
      | inr c ↦
          let some_credit : 0 < q.granted_credits = ground (arith, c) in
          busy-Progress r q (first_fit (λ j. capable tags q j r.topology) q.staged) e some_credit
            (next_job-Dispatches tags r id q e some_credit)
    ]
  ]

  module _ (now : ℕ) where
    -- The jobs took a credit each, and no further one is to be had.
    abbrev Drained : CoordinatorState → CoordinatorState × List Job → Type 0
    Drained s (last, jobs) =
        IsDrained last.router × (credits_of id last.router + length jobs ≡ credits_of id s.router)

    drain-Drained :
        (fuel : ℕ) (s : CoordinatorState)
        → credits_of id s.router < fuel
        → Drained s (drain tags now fuel id s)
    unfolding drain dispatch_inflight
    drain-Drained zero s h = absurd (omega arith)
    drain-Drained (suc fuel) s h = elim (next_job-Progress s.router) [
      | inl (e, same, dry) ↦ rw (drain, e) (dry, omega (arith, same))
      | inr (job, e, one) ↦
          let rest =
            drain-Drained fuel
              (dispatch_inflight tags now id job
                (record s { router = (next_job tags id s.router).0 }))
              (omega (arith, h, one)) in
          rw (drain, e) (rest.0, omega (arith, rest.1, one))
    ]

    sent_entry :
        (k : Bytes) (job : Job) (s : CoordinatorState)
        → (get k (dispatch_inflight tags now id job s).inflight
            ≡ (if bytes_eq job.job_id k then some job else get k s.inflight))
          × (get k (dispatch_inflight tags now id job s).inflight_owner
              ≡ (if bytes_eq job.job_id k then some id else get k s.inflight_owner))
    unfolding dispatch_inflight
    sent_entry k job s =
        (get-insert job.job_id k job s.inflight, get-insert job.job_id k id s.inflight_owner)

    last_of_cons :
        (k : Bytes) (job : Job) (jobs : List Job)
        → ((before : Option Job)
            → or_before (last_of k jobs) (if bytes_eq job.job_id k then some job else before)
              ≡ or_before (last_of k (job ∷ jobs)) before)
          × ((before : Option Bytes)
              → owner_of id (last_of k jobs) (if bytes_eq job.job_id k then some id else before)
                ≡ owner_of id (last_of k (job ∷ jobs)) before)
    unfolding last_of
    last_of_cons k job jobs = (λ before. ground arith, λ before. ground arith)

    -- What stands under an id after the jobs were sent: the last of them that has it, else what stood
    -- there before.
    abbrev pub Sent : CoordinatorState → CoordinatorState × List Job → Type 0
    Sent s (last, jobs) =
        (k : Bytes)
        → (get k last.inflight ≡ or_before (last_of k jobs) (get k s.inflight))
          × (get k last.inflight_owner ≡ owner_of id (last_of k jobs) (get k s.inflight_owner))

    drain-Sent : (fuel : ℕ) (s : CoordinatorState) → Sent s (drain tags now fuel id s)
    unfolding drain last_of
    drain-Sent zero s k = (refl, refl)
    drain-Sent (suc fuel) s k = elim (Option-cases (next_job tags id s.router).1) [
      | inl e ↦ rw (drain, e) (refl, refl)
      | inr (job, e) ↦
          let taken = record s { router = (next_job tags id s.router).0 } in
          let sent = dispatch_inflight tags now id job taken in
          let later = drain-Sent fuel sent k in
          let entry = sent_entry k job taken in
          let split = last_of_cons k job (drain tags now fuel id sent).1 in
          rw (drain, e)
            (
              later.0
                  ∙ ap (or_before (last_of k (drain tags now fuel id sent).1)) entry.0
                  ∙ split.0 (get k s.inflight),
              later.1
                  ∙ ap (owner_of id (last_of k (drain tags now fuel id sent).1)) entry.1
                  ∙ split.1 (get k s.inflight_owner),
            )
    ]

    -- A grant to a registered miner sends jobs until none is to be had for it: each takes one of the
    -- credits it had and was granted (up to the bound of a `u32`). Afterwards the last job sent under
    -- an id is in flight under it as the miner's, and under an id of no job sent the job in flight and
    -- its owner are as before.
    pub dispatch_granted-Drained :
        (credits : ℕ) (s : CoordinatorState) (q : MinerQueue)
        → get id s.router.miners ≡ some q
        → IsDrained (dispatch_granted tags now id credits s).0.router
          × (credits_of id (dispatch_granted tags now id credits s).0.router
                + length (dispatch_granted tags now id credits s).1
              ≡ min (q.granted_credits + credits) u32_max)
          × Sent s (dispatch_granted tags now id credits s)
    unfolding dispatch_granted grant_credits
    dispatch_granted-Drained credits s q e =
        let granted = grant_credits id credits s.router in
        let fuel = suc (credits_of id granted) in
        let start = record s { router = granted } in
        let drained = drain-Drained fuel start (omega arith) in
        let known =
          credits_known granted (record q { granted_credits = add_u32 q.granted_credits credits })
            (modify-get tags (λ r. record r { granted_credits = add_u32 r.granted_credits credits })
              s.router id q e) in
        (drained.0, drained.1 ∙ known, drain-Sent fuel start)
