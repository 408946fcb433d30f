-- ===== src/Router/Rejects.antt =====
-- What a rejection does to the miner that rejects (`Router::on_reject` of
-- `crates/quip-coordinator/src/router.rs`).
use quip_miner.Prelude.{
  ℕ, ◌==◌, false, Option, none, some, ◌≡◌, refl, sym, ◌∙◌, ap, if◌then◌else◌, inl, inr, Bool-cases,
  arith, ==_iff,
}
use quip_miner.Prelude.Bytes.{Bytes}
use quip_miner.Prelude.Assoc.{get}
use quip_miner.Wire.{WireTags, Job}
use quip_miner.Router.State.{MinerQueue, Router, RoutingTopology, contains}
use quip_miner.Router.Capable.{capable}
use quip_miner.Router.{
  is_capable, add_kind, mark_unsupported, note_drop, on_reject, route_excluding,
}
use quip_miner.Router.Dispatch.{route_excluding-other, modify-get}

module _ (tags : WireTags) (now : ℕ) (id : Bytes) (job : Job) (reason : ℕ) (r : Router) where
  capable-add_kind :
      (q : MinerQueue) (later : Job) (kind : ℕ) (t : Option RoutingTopology)
      → later.kind ≡ kind
      → capable tags (add_kind kind q) later t ≡ false
  unfolding capable contains
  capable-add_kind q later kind t same = rw ((==_iff kind later.kind).1 (sym same))

  -- The queue of the rejecting miner with the kind marked where the reason calls for it.
  abbrev pub marked : MinerQueue → MinerQueue
  marked q = if reason == tags.unsupported_kind then add_kind job.kind q else q

  mark-get :
      (q : MinerQueue)
      → get id r.miners ≡ some q
      → get id (mark_unsupported tags id job reason r).miners ≡ some (marked q)
  mark-get q e = elim (Bool-cases (reason == tags.unsupported_kind)) [
    | inl k ↦ rw k (modify-get tags (add_kind job.kind) r id q e)
    | inr k ↦ rw k e
  ]

  note_drop-miners : (s : Router) → (note_drop now id s).miners ≡ s.miners
  unfolding note_drop
  note_drop-miners s = ground arith

  dropped-miners :
      (s : Router) (chosen : Option Bytes)
      → (elim chosen as (λ _. Router) [ none ↦ note_drop now id s | some other ↦ s ]).miners
        ≡ s.miners
  dropped-miners s none = note_drop-miners s
  dropped-miners s (some other) = refl

  -- The rejected job never goes back to the miner that rejected it: its queue stays as it was, but
  -- for the kind that is marked where the reason is `UnsupportedKind`.
  pub on_reject-get :
      (q : MinerQueue)
      → get id r.miners ≡ some q
      → get id (on_reject tags now id job reason r).miners ≡ some (marked q)
  unfolding on_reject
  on_reject-get q e =
      let s = mark_unsupported tags id job reason r in
      let routed = route_excluding tags s job (some id) in
      ap (get id) (dropped-miners routed.0 routed.1)
      ∙ (route_excluding-other tags s job id).0
      ∙ mark-get q e

  -- After an `UnsupportedKind` rejection the miner takes no job of that kind.
  pub on_reject-is_capable :
      (q : MinerQueue) (later : Job)
      → get id r.miners ≡ some q
      → reason ≡ tags.unsupported_kind
      → later.kind ≡ job.kind
      → is_capable tags (on_reject tags now id job reason r) id later ≡ false
  unfolding is_capable
  on_reject-is_capable q later e k same =
      let hit = (==_iff reason tags.unsupported_kind).1 k in
      rw (on_reject-get q e, is_capable) (rw hit (capable-add_kind q later job.kind _ same))
