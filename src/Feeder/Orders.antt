-- ===== src/Feeder/Orders.antt =====
-- The staging of mempool orders (`stage_mempool_orders` of
-- `crates/quip-coordinator/src/runtime.rs`).
use mathlib.Core.Path.{subst}
use quip_miner.Prelude.{
  ◌↔◌, ℕ, ◌+◌, Bool, true, false, List, [], ◌∷◌, Option, none, some, ◌≡◌, ◌⊎◌, refl, sym, ap, ◌∙◌,
  inl, inr, All, Bool-cases, Option-cases, arith,
}
use quip_miner.Prelude.Int.{
  ltb_ℤ, +ℤ_parts, ℤ, pos, ◌+ℤ◌, ◌≤ℤ◌, ◌<ℤ◌, i64_max, InI64, saturate, saturating_add,
}
use quip_miner.Prelude.Bytes.{Bytes, bytes_eq, bytes_eq_refl}
use quip_miner.Prelude.Assoc.{get, insert, get-insert}
use quip_miner.Wire.{WireTags, Job, Codec}
use quip_miner.Router.{route}
use quip_miner.Router.Counters.{miner_ids}
use quip_miner.Router.Held.{one, held}
use quip_miner.Router.Conservation.{held-route_excluding}
use quip_miner.Validate.{QualityGates}
use quip_miner.Session.{CoordinatorState, wake_dispatcher}
use quip_miner.Mempool.{JobOrder, job_order_to_job}
use quip_miner.Feeder.{order_gates, wake, stage_order, stage_loop, is_empty, stage_mempool_orders}

module _ (tags : WireTags) (codec : Codec) where
  -- The gates of an order are known.
  abbrev pub IsStaged : CoordinatorState → JobOrder → Type 0
  IsStaged s order = (g : QualityGates) × (get order.order_id s.mempool_orders ≡ some g)

  woken :
      (taken : Option Bytes) (s : CoordinatorState)
      → ((wake taken s).mempool_orders ≡ s.mempool_orders) × ((wake taken s).router ≡ s.router)
  unfolding wake_dispatcher
  woken none s = (refl, refl)
  woken (some miner) s = elim (Option-cases (get miner s.wakeups)) [
    | inl e ↦ rw (wake_dispatcher, e) (refl, refl)
    | inr (grants, e) ↦ rw (wake_dispatcher, e) (refl, refl)
  ]

  stage_order-orders :
      (order : JobOrder) (s : CoordinatorState)
      → (stage_order tags codec order s).mempool_orders
        ≡ insert order.order_id (order_gates order) s.mempool_orders
  unfolding stage_order
  stage_order-orders order s = elim (Option-cases (job_order_to_job tags codec order)) [
    | inl e ↦ rw (stage_order, e) refl
    | inr (job, e) ↦ rw (stage_order, e) (woken (route tags s.router job).1 _).0
  ]

  stage_order-IsStaged :
      (order other : JobOrder) (s : CoordinatorState)
      → (bytes_eq order.order_id other.order_id ≡ true) ⊎ IsStaged s other
      → IsStaged (stage_order tags codec order s) other
  stage_order-IsStaged order other s h =
      let found =
        ap (get other.order_id) (stage_order-orders order s)
        ∙ get-insert order.order_id other.order_id (order_gates order) s.mempool_orders in
      elim (Bool-cases (bytes_eq order.order_id other.order_id)) [
        | inl same ↦ (order_gates order, found ∙ rw same refl)
        | inr differ ↦ elim h [
          | inl same ↦ absurd (let clash = differ in cc)
          | inr (g, known) ↦ (g, found ∙ rw differ known)
        ]
      ]

  stage_loop-keeps :
      (orders : List JobOrder) (s : CoordinatorState) (other : JobOrder)
      → IsStaged s other
      → IsStaged (stage_loop tags codec orders s) other
  unfolding stage_loop
  stage_loop-keeps [] s other h = h
  stage_loop-keeps (order ∷ orders) s other h =
      elim (Option-cases (get order.order_id s.mempool_orders)) [
        | inr (g, known) ↦ rw (stage_loop, known) (stage_loop-keeps orders s other h)
        | inl new ↦
            rw (stage_loop, new)
              (stage_loop-keeps orders (stage_order tags codec order s) other
                (stage_order-IsStaged order other s (inr h)))
      ]

  stage_loop-IsStaged :
      (orders : List JobOrder) (s : CoordinatorState)
      → All (IsStaged (stage_loop tags codec orders s)) orders
  unfolding stage_loop
  stage_loop-IsStaged [] s = tt
  stage_loop-IsStaged (order ∷ orders) s =
      elim (Option-cases (get order.order_id s.mempool_orders)) [
        | inr (g, known) ↦
            let step : stage_loop tags codec (order ∷ orders) s ≡ stage_loop tags codec orders s =
              rw (stage_loop, known) refl in
            subst (λ u. All (IsStaged u) (order ∷ orders)) (sym step)
              (stage_loop-keeps orders s order (g, known), stage_loop-IsStaged orders s)
        | inl new ↦
            let s' = stage_order tags codec order s in
            let step : stage_loop tags codec (order ∷ orders) s ≡ stage_loop tags codec orders s' =
              rw (stage_loop, new) refl in
            subst (λ u. All (IsStaged u) (order ∷ orders)) (sym step)
              (
                stage_loop-keeps orders s' order
                    (stage_order-IsStaged order order s (inl (bytes_eq_refl order.order_id))),
                stage_loop-IsStaged orders s',
              )
      ]

  stage_loop_idle :
      (orders : List JobOrder) (s : CoordinatorState)
      → All (IsStaged s) orders
      → stage_loop tags codec orders s ≡ s
  unfolding stage_loop
  stage_loop_idle [] s h = refl
  stage_loop_idle (order ∷ orders) s ((g, known), h) =
      rw (stage_loop, known) (stage_loop_idle orders s h)

  stage_loop_twice :
      (orders : List JobOrder) (s : CoordinatorState)
      → stage_loop tags codec orders (stage_loop tags codec orders s)
        ≡ stage_loop tags codec orders s
  stage_loop_twice orders s =
      stage_loop_idle orders (stage_loop tags codec orders s) (stage_loop-IsStaged orders s)

  -- A second read of the same open orders changes nothing: every order is staged once.
  pub stage_mempool_orders_twice :
      (orders : List JobOrder) (s : CoordinatorState)
      → (stage_mempool_orders tags codec
          (some orders)
          (stage_mempool_orders tags codec (some orders) s).0).0
        ≡ (stage_mempool_orders tags codec (some orders) s).0
  unfolding stage_mempool_orders
  stage_mempool_orders_twice orders s = elim (Bool-cases (is_empty (miner_ids s.router))) [
    | inl idle ↦
        let first : (stage_mempool_orders tags codec (some orders) s).0 ≡ s =
          rw (stage_mempool_orders, idle) refl in
        rw first first
    | inr busy ↦
        let first : (stage_mempool_orders tags codec (some orders) s).0
            ≡ stage_loop tags codec orders s =
          rw (stage_mempool_orders, busy) refl in
        rw first (second (is_empty (miner_ids (stage_loop tags codec orders s).router)) refl)
  ]
    where
      second :
          (b : Bool)
          → is_empty (miner_ids (stage_loop tags codec orders s).router) ≡ b
          → (stage_mempool_orders tags codec (some orders) (stage_loop tags codec orders s)).0
            ≡ stage_loop tags codec orders s
      second true e = rw (stage_mempool_orders, e) refl
      second false e = rw (stage_mempool_orders, e) (stage_loop_twice orders s)

  module _ (p : Job → Bool) where
    abbrev count_job : Option Job → ℕ
    count_job none = 0
    count_job (some job) = one p job

    -- The jobs, counted, of the orders that are not known, of several with one id the first.
    unfoldable pub new_jobs : List (Bytes × QualityGates) → List JobOrder → ℕ
    new_jobs known [] = 0
    new_jobs known (order ∷ orders) = elim (get order.order_id known) [
      | some g ↦ new_jobs known orders
      | none ↦
          count_job (job_order_to_job tags codec order)
          + new_jobs (insert order.order_id (order_gates order) known) orders
    ]

    held-stage_order :
        (order : JobOrder) (s : CoordinatorState)
        → held p (stage_order tags codec order s).router
          ≡ held p s.router + count_job (job_order_to_job tags codec order)
    unfolding stage_order route
    held-stage_order order s = elim (Option-cases (job_order_to_job tags codec order)) [
      | inl e ↦ rw (stage_order, e) (omega arith)
      | inr (job, e) ↦
          rw (stage_order, e)
            (ap (held p) (woken (route tags s.router job).1 _).1
              ∙ held-route_excluding tags p s.router job none)
    ]

    -- The router gets exactly the jobs of the orders that were not staged before, each order once: by
    -- the count of every test.
    pub held-stage_loop :
        (orders : List JobOrder) (s : CoordinatorState)
        → held p (stage_loop tags codec orders s).router
          ≡ held p s.router + new_jobs s.mempool_orders orders
    unfolding stage_loop new_jobs
    held-stage_loop [] s = omega arith
    held-stage_loop (order ∷ orders) s = elim (Option-cases (get order.order_id s.mempool_orders)) [
      | inr (g, known) ↦ rw (stage_loop, new_jobs, known) (held-stage_loop orders s)
      | inl new ↦
          let s' = stage_order tags codec order s in
          rw (stage_loop, new_jobs, new)
            (omega (
              arith,
              held-stage_loop orders s',
              held-stage_order order s,
              ap (λ m. new_jobs m orders) (stage_order-orders order s),
            ))
    ]

-- One more, below the largest `i64`.
successor_parts :
    (b : ℤ)
    → InI64 b
    → (saturating_add b (pos 1) ≡ b +ℤ pos 1)
      ⊎ ((saturating_add b (pos 1) ≡ i64_max) × (i64_max ≤ℤ b))
unfolding saturating_add saturate
successor_parts b i = elim (Bool-cases (ltb_ℤ i64_max (b +ℤ pos 1))) [
  | inl over ↦ rw (over) (inr (refl, ground (arith, over, +ℤ_parts b (pos 1))))
  | inr fits ↦ rw (fits) (inl (ground (arith, i, +ℤ_parts b (pos 1))))
]

-- The gate on the energy of an order's row is the pallet's: at most the order's bound, though the
-- validation asks for less than its own; for every energy below the largest `i64`.
pub order_gates-le :
    (order : JobOrder) (bound e : ℤ)
    → order.min_energy_milli ≡ some bound
    → InI64 bound
    → e <ℤ i64_max
    → (e <ℤ (order_gates order).min_energy_milli) ↔ (e ≤ℤ bound)
unfolding order_gates
order_gates-le order bound e h i small = elim (successor_parts bound i) [
  | inl next ↦
      rw (h, next)
        (λ lt. omega (arith, +ℤ_parts bound (pos 1)), λ le. omega (arith, +ℤ_parts bound (pos 1)))
  | inr (top, at) ↦ rw (h, top) (λ lt. omega (arith, at), λ le. small)
]
