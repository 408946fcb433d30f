-- ===== src/PoolWatch/Lowest.antt =====
-- What the scans of the pool find (`PoolWatch::scan` of `crates/quip-coordinator/src/pool_watch.rs`),
-- by the verdicts on the pending proofs alone.
use mathlib.Core.Path.{subst}
use mathlib.Core.List.{append_assoc, append-nil}
use quip_miner.Prelude.{
  List, [], ◌∷◌, ◌++◌, Option, none, some, ◌≡◌, ◌≢◌, refl, sym, ap, ◌∙◌, inl, inr, All, Bool-cases,
  arith,
}
use quip_miner.Prelude.Int.{ℤ, ◌≤ℤ◌, ◌<ℤ◌, ltb_ℤ, ltb_ℤ→lt, ltb_ℤ→le}
use quip_miner.Prelude.Bytes.{Bytes}
use quip_miner.Snapshot.{MiningSnapshot, PendingProof}
use quip_miner.PoolWatch.{
  Verdict, clears, other_round, below_gates, malformed, Consensus, Clearing, new, cached, better,
  is_ignored, judge_pending_proof,
}
use quip_miner.PoolWatch.Scans.{
  or_none, judged, lowest_clearing, scans, uncached_scans, Follows, scans-uncached,
}

All-append {ℓ κ} :
    {A : Type ℓ} (P : A → Type κ) (xs ys : List A) → All P xs → All P ys → All P (xs ++ ys)
All-append P [] ys h k = k
All-append P (x ∷ xs) ys h k = (h.0, All-append P xs ys h.1 k)

All-map {ℓ κ μ} :
    {A : Type ℓ} (P : A → Type κ) (Q : A → Type μ) (xs : List A)
    → ((x : A) → P x → Q x)
    → All P xs
    → All Q xs
All-map P Q [] f h = tt
All-map P Q (x ∷ xs) f h = (f x h.0, All-map P Q xs f h.1)

clears_above : (x best y : ℤ) → x <ℤ best → ◌≡◌ {A = Verdict} (clears y) (clears best) → x <ℤ y
clears_above x best y lt same = ground (arith, lt, same)

clears_not_below : (x best y : ℤ) → best ≤ℤ x → ◌≡◌ {A = Verdict} (clears y) (clears x) → best ≤ℤ y
clears_not_below x best y le same = ground (arith, le, same)

module _ (crate : Consensus) (snap : MiningSnapshot) where
  abbrev pub IsUnclear : PendingProof → Type 0
  IsUnclear q = (e : ℤ) → judge_pending_proof crate q snap ≢ clears e

  -- The proof does not clear with as little energy, or with less.
  abbrev pub IsAbove : ℤ → PendingProof → Type 0
  IsAbove best q = (e : ℤ) → judge_pending_proof crate q snap ≡ clears e → best <ℤ e

  abbrev pub IsNotBelow : ℤ → PendingProof → Type 0
  IsNotBelow best q = (e : ℤ) → judge_pending_proof crate q snap ≡ clears e → best ≤ℤ e

  -- The result names a pending proof that clears with its energy, where every proof before it that
  -- clears has more energy and none after it has less; without a result no pending proof clears.
  abbrev pub IsFirstLowest : List PendingProof → Option Clearing → Type 0
  IsFirstLowest pending none = All IsUnclear pending
  IsFirstLowest pending (some c) =
      (before : List PendingProof) × (p : PendingProof) × (after : List PendingProof) × (pending
        ≡ before ++ p ∷ after)
      × (judge_pending_proof crate p snap ≡ clears c.best_energy_milli)
      × (c.account ≡ p.account)
      × (c.nonce ≡ p.proof.nonce)
      × All (IsAbove c.best_energy_milli) before
      × All (IsNotBelow c.best_energy_milli) after

  extended :
      (seen before after : List PendingProof) (q p : PendingProof)
      → seen ≡ before ++ q ∷ after
      → seen ++ p ∷ [] ≡ before ++ q ∷ (after ++ p ∷ [])
  extended seen before after q p e =
      ap (λ xs. xs ++ p ∷ []) e ∙ append_assoc before (q ∷ after) (p ∷ [])

  unclear-IsFirstLowest :
      (seen : List PendingProof) (p : PendingProof) (best : Option Clearing)
      → IsUnclear p
      → IsFirstLowest seen best
      → IsFirstLowest (seen ++ p ∷ []) best
  unclear-IsFirstLowest seen p none u f = All-append IsUnclear seen (p ∷ []) f (u, tt)
  unclear-IsFirstLowest seen p (some c) u (before, q, after, e, j, a, n, above, rest) = (
    before,
    q,
    after ++ p ∷ [],
    extended seen before after q p e,
    j,
    a,
    n,
    above,
    All-append (IsNotBelow c.best_energy_milli) after (p ∷ []) rest ((λ x k. absurd (u x k)), tt),
  )

  abbrev clearing_of : PendingProof → ℤ → Clearing
  clearing_of p e = record { account = p.account; nonce = p.proof.nonce; best_energy_milli = e }

  clears-IsFirstLowest :
      (seen : List PendingProof) (p : PendingProof) (x : ℤ) (best : Option Clearing)
      → judge_pending_proof crate p snap ≡ clears x
      → IsFirstLowest seen best
      → IsFirstLowest (seen ++ p ∷ []) (better (some (clearing_of p x)) best)
  unfolding better
  clears-IsFirstLowest seen p x none j f = (
    seen,
    p,
    [],
    refl,
    j,
    refl,
    refl,
    All-map IsUnclear (IsAbove x) seen (λ q u e k. absurd (u e k)) f,
    tt,
  )
  clears-IsFirstLowest seen p x (some c) j (before, q, after, e, i, a, n, above, rest) =
      let best = c.best_energy_milli in
      elim (Bool-cases (ltb_ℤ x best)) [
        | inl less ↦
            let lt = ltb_ℤ→lt x best less in
            let at_q : IsAbove x q = λ y k.
              let same : clears y ≡ clears best = sym k ∙ i in clears_above x best y lt same in
            let all : All (IsAbove x) (before ++ q ∷ after) =
              All-append (IsAbove x) before (q ∷ after)
                (All-map (IsAbove best) (IsAbove x) before
                  (λ r h y k. let b = h y k in omega (arith, lt, b)) above)
                (
                  at_q,
                  All-map (IsNotBelow best) (IsAbove x) after
                      (λ r h y k. let b = h y k in omega (arith, lt, b)) rest,
                ) in
            rw (better, less)
              (seen, p, [], refl, j, refl, refl, subst (All (IsAbove x)) (sym e) all, tt)
        | inr more ↦
            let le = ltb_ℤ→le x best more in
            let at_p : IsNotBelow best p = λ y k.
              let same : clears y ≡ clears x = sym k ∙ j in clears_not_below x best y le same in
            rw (better, more)
              (
                before,
                q,
                after ++ p ∷ [],
                extended seen before after q p e,
                i,
                a,
                n,
                above,
                All-append (IsNotBelow best) after (p ∷ []) rest (at_p, tt),
              )
      ]

  judged-IsFirstLowest :
      (seen : List PendingProof) (p : PendingProof) (d : Verdict) (best : Option Clearing)
      → judge_pending_proof crate p snap ≡ d
      → IsFirstLowest seen best
      → IsFirstLowest (seen ++ p ∷ []) (better (or_none crate (cached p d)) best)
  unfolding better
  judged-IsFirstLowest seen p (clears x) best j f = clears-IsFirstLowest seen p x best j f
  judged-IsFirstLowest seen p other_round best j f =
      unclear-IsFirstLowest seen p best (λ e k. cc (j, k)) f
  judged-IsFirstLowest seen p below_gates best j f =
      unclear-IsFirstLowest seen p best (λ e k. cc (j, k)) f
  judged-IsFirstLowest seen p malformed best j f =
      unclear-IsFirstLowest seen p best (λ e k. cc (j, k)) f

  lowest_clearing-IsFirstLowest :
      (seen ps : List PendingProof) (best : Option Clearing)
      → IsFirstLowest seen best
      → IsFirstLowest (seen ++ ps) (lowest_clearing crate [] ps snap best)
  unfolding lowest_clearing is_ignored judged
  lowest_clearing-IsFirstLowest seen [] best f =
      subst (λ xs. IsFirstLowest xs best) (sym (append-nil seen)) f
  lowest_clearing-IsFirstLowest seen (p ∷ ps) best f =
      let next = better (judged crate p snap) best in
      let step = judged-IsFirstLowest seen p (judge_pending_proof crate p snap) best refl f in
      subst (λ xs. IsFirstLowest xs (lowest_clearing crate [] ps snap next))
        (append_assoc seen (p ∷ []) ps)
        (lowest_clearing-IsFirstLowest (seen ++ p ∷ []) ps next step)

module _ (crate : Consensus) where
  -- Every result is right for its poll.
  abbrev pub AreFirstLowest :
      List (List PendingProof × MiningSnapshot) → List (Option Clearing) → Type 0
  AreFirstLowest [] [] = Unit
  AreFirstLowest ((pending, snap) ∷ polls) (found ∷ results) =
      IsFirstLowest crate snap pending found × AreFirstLowest polls results
  AreFirstLowest polls results = ⊥

  uncached_scans-AreFirstLowest :
      (polls : List (List PendingProof × MiningSnapshot))
      → AreFirstLowest polls (uncached_scans crate polls)
  unfolding uncached_scans
  uncached_scans-AreFirstLowest [] = tt
  uncached_scans-AreFirstLowest ((pending, snap) ∷ polls) = (
    lowest_clearing-IsFirstLowest crate snap [] pending none tt,
    uncached_scans-AreFirstLowest polls,
  )

  -- If an extrinsic hash names one entry of the pool, and from one snapshot of a root to the next the
  -- verdict on a proof stays unless it was below the gates, then from a new watch every scan finds,
  -- for all that it caches, the right proof by the snapshot of its own poll: one that clears, where
  -- every one before it in the pool that clears has more energy and none after it has less; it finds
  -- none only if no pending proof clears.
  pub scans-AreFirstLowest :
      (entry : Bytes → PendingProof) (polls : List (List PendingProof × MiningSnapshot))
      → Follows crate entry polls
      → AreFirstLowest polls (scans crate new polls)
  scans-AreFirstLowest entry polls f =
      subst (AreFirstLowest polls) (sym (scans-uncached crate entry polls f))
        (uncached_scans-AreFirstLowest polls)
