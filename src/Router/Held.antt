-- ===== src/Router/Held.antt =====
-- The jobs that the router holds, staged on a miner or set aside as unroutable, counted by a test:
-- two routers hold the same jobs, each as often, if every test counts the same on both.
use quip_miner.Prelude.{
  ℕ, ◌+◌, Bool, List, [], ◌∷◌, ◌++◌, none, some, ◌≡◌, ap, inl, inr, Option-cases, if◌then◌else◌,
  arith,
}
use quip_miner.Prelude.Bytes.{Bytes}
use quip_miner.Prelude.Assoc.{get, update, insert}
use quip_miner.Wire.{Job}
use quip_miner.Router.State.{MinerQueue, Router}
use quip_miner.Router.{modify}

module _ (p : Job → Bool) where
  abbrev pub one : Job → ℕ
  one j = if p j then 1 else 0

  unfoldable pub count : List Job → ℕ
  count [] = 0
  count (j ∷ js) = one j + count js

  unfoldable pub staged : List (Bytes × MinerQueue) → ℕ
  staged [] = 0
  staged ((id, q) ∷ m) = count q.staged + staged m

  unfoldable pub held : Router → ℕ
  held r = staged r.miners + count r.unroutable

  pub count-append : (xs ys : List Job) → count (xs ++ ys) ≡ count xs + count ys
  unfolding count
  count-append [] ys = omega arith
  count-append (x ∷ xs) ys = omega (arith, count-append xs ys)

  pub staged-update :
      (id : Bytes) (q q' : MinerQueue) (m : List (Bytes × MinerQueue))
      → get id m ≡ some q
      → staged (update id q' m) + count q.staged ≡ staged m + count q'.staged
  unfolding staged get update
  staged-update id q q' [] e = cc
  staged-update id q q' ((j, w) ∷ m) e = ground (arith, staged-update id q q' m)

  pub staged-insert :
      (id : Bytes) (q' : MinerQueue) (m : List (Bytes × MinerQueue))
      → get id m ≡ none
      → staged (insert id q' m) ≡ staged m + count q'.staged
  unfolding staged get insert
  staged-insert id q' [] e = omega arith
  staged-insert id q' ((j, w) ∷ m) e = ground (arith, staged-insert id q' m)

  pub held-modify :
      (id : Bytes) (f : MinerQueue → MinerQueue) (r : Router) (q : MinerQueue)
      → get id r.miners ≡ some q
      → held (modify id f r) + count q.staged ≡ held r + count (f q).staged
  unfolding held modify
  held-modify id f r q e = rw (e, modify) (omega (arith, staged-update id q (f q) r.miners e))

  -- A change that leaves the queues alone leaves the jobs alone.
  pub held-modify_same :
      (id : Bytes) (f : MinerQueue → MinerQueue) (r : Router)
      → ((q : MinerQueue) → (f q).staged ≡ q.staged)
      → held (modify id f r) ≡ held r
  unfolding modify
  held-modify_same id f r same = elim (Option-cases (get id r.miners)) [
    | inl e ↦ rw (e, modify)
    | inr (q, e) ↦ omega (arith, held-modify id f r q e, ap count (same q))
  ]
