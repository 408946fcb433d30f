-- ===== src/Router/Dispatch.antt =====
-- What `next_job` dispatches (`crates/quip-coordinator/src/router.rs`).
use mathlib.Core.Path.{subst}
use quip_miner.Prelude.{
  ℕ, zero, suc, ◌<◌, ◌==◌, Bool, true, false, List, [], ◌∷◌, Option, none, some, ◌≡◌, refl, ◌∙◌,
  inl, inr, Bool-cases, Option-cases, arith, length, if◌then◌else◌,
}
use quip_miner.Prelude.Bytes.{Bytes, bytes_eq, bytes_eq_iff, bytes_eq_refl}
use quip_miner.Prelude.Assoc.{get, update, get-update}
use quip_miner.Wire.{WireTags, Job}
use quip_miner.Router.State.{MinerQueue, Router}
use quip_miner.Router.Capable.{capable}
use quip_miner.Router.{
  idle, rerouted, sent, attempt, pop, spend, modify, is_capable, route_excluding, first, candidates,
  push_staged, next_job_loop, next_job, staged_len,
}
use quip_miner.Router.Choice.{is_candidate, route_excluding-least, chosen-first, chosen-get}

-- The first job that passes a test, and the jobs behind it.
abbrev pub first_fit : (Job → Bool) → List Job → Option (Job × List Job)
first_fit fits [] = none
first_fit fits (job ∷ rest) =
    let later = first_fit fits rest in if fits job then some (job, rest) else later

get-update_self :
    (id : Bytes) (q q' : MinerQueue) (m : List (Bytes × MinerQueue))
    → get id m ≡ some q
    → get id (update id q' m) ≡ some q'
get-update_self id q q' m e = get-update id id q' q m e ∙ rw (bytes_eq_refl id)

module _ (tags : WireTags) where
  -- Routing a job away from a miner leaves its queue alone, and the session graph.
  pub route_excluding-other :
      (r : Router) (job : Job) (id : Bytes)
      → (get id (route_excluding tags r job (some id)).0.miners ≡ get id r.miners)
        × ((route_excluding tags r job (some id)).0.topology ≡ r.topology)
  unfolding route_excluding
  route_excluding-other r job id = elim (Option-cases (first (candidates tags r job (some id)))) [
    | inl e ↦ rw (e, route_excluding) (refl, refl)
    | inr (j, e) ↦
        let (q, here) = chosen-get tags r job (some id) j e in
        let least =
          route_excluding-least tags r job (some id) j (chosen-first tags r job (some id) ∙ e) in
        rw (e, route_excluding)
          (unfold modify in
            rw (here, modify)
              (get-update j id (push_staged job q) q r.miners here ∙ rw (differ j least.0), refl))
  ]
    where
      differ : (j : Bytes) → is_candidate tags r job (some id) j ≡ true → bytes_eq j id ≡ false
      differ j h = ground (arith, h, bytes_eq_iff j id, bytes_eq_iff id j)

  pub modify-get :
      (f : MinerQueue → MinerQueue) (r : Router) (id : Bytes) (q : MinerQueue)
      → get id r.miners ≡ some q
      → get id (modify id f r).miners ≡ some (f q)
  unfolding modify
  modify-get f r id q e = rw (e, modify) (get-update_self id q (f q) r.miners e)

  -- What a pop leaves of the queue and of the session graph.
  pop-get :
      (r : Router) (id : Bytes) (q : MinerQueue) (rest : List Job)
      → get id r.miners ≡ some q
      → get id (pop id q rest r).miners ≡ some (record q { staged = rest })
  pop-get r id q rest e = get-update_self id q (record q { staged = rest }) r.miners e

  is_capable-pop :
      (r : Router) (id : Bytes) (q : MinerQueue) (rest : List Job) (job : Job)
      → get id r.miners ≡ some q
      → is_capable tags (pop id q rest r) id job ≡ capable tags q job r.topology
  unfolding is_capable capable
  is_capable-pop r id q rest job e = rw (pop-get r id q rest e, is_capable)

  attempt-head :
      (r : Router) (id : Bytes) (q : MinerQueue) (job : Job) (rest : List Job)
      → get id r.miners ≡ some q
      → 0 < q.granted_credits
      → q.staged ≡ job ∷ rest
      → attempt tags id r ≡ (
          if capable tags q job r.topology
          then sent (modify id spend (pop id q rest r)) job
          else rerouted (route_excluding tags (pop id q rest r) job (some id)).0)
  unfolding attempt
  attempt-head r id q job rest e c h =
      let c' : (q.granted_credits == 0) ≡ false = ground (arith, c) in
      elim (Bool-cases (capable tags q job r.topology)) [
        | inl k ↦ rw (k, e, attempt) (rw (c', h, is_capable-pop r id q rest job e, k))
        | inr k ↦ rw (k, e, attempt) (rw (c', h, is_capable-pop r id q rest job e, k))
      ]

  attempt-empty :
      (r : Router) (id : Bytes) (q : MinerQueue)
      → get id r.miners ≡ some q
      → q.staged ≡ []
      → attempt tags id r ≡ idle
  unfolding attempt
  attempt-empty r id q e h = elim (Bool-cases (q.granted_credits == 0)) [
    | inl z ↦ rw (e, attempt) (rw z)
    | inr z ↦ rw (e, attempt) (rw (z, h))
  ]

  -- What the result of a dispatch is to be, from the first job of the queue that fits.
  abbrev pub Dispatches :
      Bytes → MinerQueue → Option (Job × List Job) → Router × Option Job → Type 0
  Dispatches id q none (r', result) =
      (result ≡ none) × (get id r'.miners ≡ some (record q { staged = [] }))
  Dispatches id q (some (job, rest)) (r', result) =
      (result ≡ some job) × (get id r'.miners ≡ some (spend (record q { staged = rest })))

  left_alone :
      (job : Job) (rest : List Job) (r : Router) (id : Bytes) (q : MinerQueue)
      → get id r.miners ≡ some q
      → get id (route_excluding tags (pop id q rest r) job (some id)).0.miners
        ≡ some (record q { staged = rest })
  left_alone job rest r id q e =
      (route_excluding-other (pop id q rest r) job id).0 ∙ pop-get r id q rest e

  -- The rest of the loop runs on the same envelope and the same session graph.
  again :
      (result : Router × Option Job) (job : Job) (rest : List Job) (r : Router) (id : Bytes)
      (q : MinerQueue)
      → get id r.miners ≡ some q
      → Dispatches id
          (record q { staged = rest })
          (first_fit
            (λ j.
              capable tags
                (record q { staged = rest })
                j
                (route_excluding tags (pop id q rest r) job (some id)).0.topology)
            rest)
          result
      → Dispatches id q (first_fit (λ j. capable tags q j r.topology) rest) result
  unfolding capable
  again result job rest r id q e d =
      subst (λ t. Dispatches id q (first_fit (λ j. capable tags q j t) rest) result)
        (route_excluding-other (pop id q rest r) job id).1 d

  loop-Dispatches :
      (jobs : List Job) (fuel : ℕ) (r : Router) (id : Bytes) (q : MinerQueue)
      → get id r.miners ≡ some q
      → 0 < q.granted_credits
      → q.staged ≡ jobs
      → length jobs < fuel
      → Dispatches id q
          (first_fit (λ j. capable tags q j r.topology) jobs)
          (next_job_loop tags fuel id r)
  unfolding next_job_loop
  loop-Dispatches jobs zero r id q e c h f = absurd (omega arith)
  loop-Dispatches [] (suc fuel) r id q e c h f =
      rw (attempt-empty r id q e h) (refl, e ∙ λ i. some (record q { staged = h i }))
  loop-Dispatches (job ∷ rest) (suc fuel) r id q e c h f =
      elim (Bool-cases (capable tags q job r.topology)) [
        | inl k ↦
            rw (attempt-head r id q job rest e c h, k)
              (
                refl,
                modify-get spend (pop id q rest r) id (record q { staged = rest })
                    (pop-get r id q rest e),
              )
        | inr k ↦
            rw (attempt-head r id q job rest e c h, k)
              (again _ job rest r id q e (
                loop-Dispatches rest fuel (route_excluding tags (pop id q rest r) job (some id)).0
                  id (record q { staged = rest }) (left_alone job rest r id q e) c refl
                  (omega arith)))
      ]

  pub next_job-Dispatches :
      (r : Router) (id : Bytes) (q : MinerQueue)
      → get id r.miners ≡ some q
      → 0 < q.granted_credits
      → Dispatches id q (first_fit (λ j. capable tags q j r.topology) q.staged) (next_job tags id r)
  unfolding next_job staged_len
  next_job-Dispatches r id q e c =
      rw (e, next_job, staged_len)
        (loop-Dispatches q.staged (suc (length q.staged)) r id q e c refl (omega arith))
