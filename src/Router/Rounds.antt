-- ===== src/Router/Rounds.antt =====
-- One round of the loop of `next_job` (`crates/quip-coordinator/src/router.rs`), by its outcome.
use quip_miner.Prelude.{
  ◌<◌, ◌==◌, true, false, List, [], ◌∷◌, none, some, ◌≡◌, refl, ◌⊎◌, inl, inr, Bool-cases,
  Option-cases, arith,
}
use quip_miner.Prelude.Bytes.{Bytes}
use quip_miner.Prelude.Assoc.{get}
use quip_miner.Wire.{WireTags, Job}
use quip_miner.Router.State.{MinerQueue, Router}
use quip_miner.Router.{
  Attempt, idle, rerouted, sent, attempt, pop, spend, modify, is_capable, route_excluding,
}

module _ (tags : WireTags) (id : Bytes) (r : Router) where
  -- A queue with credits, and a job at its head.
  pub record Ready (q : MinerQueue) (job : Job) (rest : List Job) : Type 0 where
    pub here : get id r.miners ≡ some q
    pub credits : 0 < q.granted_credits
    pub head : q.staged ≡ job ∷ rest

  pub data Outcome : Attempt → Type 0 where
    unknown : get id r.miners ≡ none → Outcome idle
    spent :
        (q : MinerQueue)
        → get id r.miners ≡ some q
        → (q.granted_credits ≡ 0) ⊎ (q.staged ≡ [])
        → Outcome idle
    unfit :
        (q : MinerQueue) (job : Job) (rest : List Job)
        → Ready q job rest
        → is_capable tags (pop id q rest r) id job ≡ false
        → Outcome (rerouted (route_excluding tags (pop id q rest r) job (some id)).0)
    fit :
        (q : MinerQueue) (job : Job) (rest : List Job)
        → Ready q job rest
        → is_capable tags (pop id q rest r) id job ≡ true
        → Outcome (sent (modify id spend (pop id q rest r)) job)

  List-cases {ℓ} :
      {A : Type ℓ} (xs : List A) → (xs ≡ []) ⊎ ((a : A) × (as' : List A) × (xs ≡ a ∷ as'))
  List-cases [] = inl refl
  List-cases (a ∷ as') = inr (a, as', refl)

  pub attempt-Outcome : Outcome (attempt tags id r)
  unfolding attempt
  attempt-Outcome = elim (Option-cases (get id r.miners)) [
    | inl e ↦ rw (e, attempt) (unknown e)
    | inr (q, e) ↦ elim (Bool-cases (q.granted_credits == 0)) [
      | inl z ↦ rw (e, z, attempt) (spent q e (inl (ground (arith, z))))
      | inr c ↦ elim (List-cases q.staged) [
        | inl n ↦ rw (e, c, n, attempt) (spent q e (inr n))
        | inr (job, rest, h) ↦
            let ready : Ready q job rest = record {
              here = e;
              credits = ground (arith, c);
              head = h;
            } in
            elim (Bool-cases (is_capable tags (pop id q rest r) id job)) [
              | inl k ↦ rw (e, c, h, k, attempt) (fit q job rest ready k)
              | inr k ↦ rw (e, c, h, k, attempt) (unfit q job rest ready k)
            ]
      ]
    ]
  ]
