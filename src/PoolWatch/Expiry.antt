-- ===== src/PoolWatch/Expiry.antt =====
-- Proofs that held the miners without a qblock (`PoolWatch::expire_clearing` of
-- `crates/quip-coordinator/src/pool_watch.rs`).
use quip_miner.Prelude.{
  ℕ, true, false, List, [], ◌∷◌, Option, none, some, ◌≡◌, inl, inr, if◌then◌else◌, Bool-cases,
  Option-cases, arith,
}
use quip_miner.Prelude.Int.{ltb_ℤ}
use quip_miner.Prelude.Bytes.{Bytes, bytes_eq, bytes_eq_refl}
use quip_miner.Prelude.Assoc.{get, insert, get-insert}
use quip_miner.Snapshot.{MiningSnapshot, PendingProof}
use quip_miner.PoolWatch.{
  Consensus, Verdict, clears, other_round, below_gates, malformed, Clearing, PoolWatch, cached,
  better, is_ignored, same_root, on_root, not_clearing, add_clearing, expire_clearing,
  judge_pending_proof, look_up, scan_loop, scan,
}

-- The signer and the nonce are not among those ignored.
abbrev IsHeeded : List (Bytes × ℕ) → Option Clearing → Type 0
IsHeeded ignored none = Unit
IsHeeded ignored (some c) = is_ignored c.account c.nonce ignored ≡ false

abbrev AllHeeded : List (Bytes × ℕ) → List (Bytes × Option Clearing) → Type 0
AllHeeded ignored verdicts =
    (h : Bytes) (v : Option Clearing) → get h verdicts ≡ some v → IsHeeded ignored v

not_clearing-AllHeeded :
    (ignored : List (Bytes × ℕ)) (verdicts : List (Bytes × Option Clearing))
    → AllHeeded ignored (not_clearing verdicts)
unfolding not_clearing get
not_clearing-AllHeeded ignored [] h v e = absurd (cc)
not_clearing-AllHeeded ignored ((k, none) ∷ m) h v e = elim (Bool-cases (bytes_eq k h)) [
  | inl same ↦ heeded v (rw (same, if◌then◌else◌) at e)
  | inr other ↦ not_clearing-AllHeeded ignored m h v (rw (other, if◌then◌else◌) at e)
]
  where
    heeded :
        (u : Option Clearing)
        → ◌≡◌ {A = Option (Option Clearing)} (some none) (some u)
        → IsHeeded ignored u
    heeded none p = tt
    heeded (some c) p = absurd (cc)
not_clearing-AllHeeded ignored ((k, some c) ∷ m) h v e = not_clearing-AllHeeded ignored m h v e

add_clearing-keeps :
    (a : Bytes) (n : ℕ) (verdicts : List (Bytes × Option Clearing)) (ignored : List (Bytes × ℕ))
    (h : Bytes) (c : Clearing)
    → get h verdicts ≡ some (some c)
    → c.account ≡ a
    → c.nonce ≡ n
    → is_ignored a n (add_clearing verdicts ignored) ≡ true
unfolding add_clearing get is_ignored
add_clearing-keeps a n [] ignored h c e p q = absurd (cc)
add_clearing-keeps a n ((k, none) ∷ m) ignored h c e p q = elim (Bool-cases (bytes_eq k h)) [
  | inl same ↦ absurd (let wrong = rw (same, if◌then◌else◌) at e in cc)
  | inr other ↦ add_clearing-keeps a n m ignored h c (rw (other, if◌then◌else◌) at e) p q
]
add_clearing-keeps a n ((k, some d) ∷ m) ignored h c e p q = elim (Bool-cases (bytes_eq k h)) [
  | inl same ↦
      let first : ◌≡◌ {A = Option (Option Clearing)} (some (some d)) (some (some c)) =
        rw (same, if◌then◌else◌) at e in
      let account : d.account ≡ a = cc in
      let nonce : d.nonce ≡ n = cc in rw (account, nonce, bytes_eq_refl a) (ground arith)
  | inr other ↦
      rw (add_clearing-keeps a n m ignored h c (rw (other, if◌then◌else◌) at e) p q) (ground arith)
]

better-IsHeeded :
    (ignored : List (Bytes × ℕ)) (v best : Option Clearing)
    → IsHeeded ignored v
    → IsHeeded ignored best
    → IsHeeded ignored (better v best)
unfolding better
better-IsHeeded ignored none best h k = k
better-IsHeeded ignored (some c) none h k = h
better-IsHeeded ignored (some c) (some b) h k =
    elim (Bool-cases (ltb_ℤ c.best_energy_milli b.best_energy_milli)) [
      | inl less ↦ rw (better, less) h
      | inr more ↦ rw (better, more) k
    ]

inserted-AllHeeded :
    (ignored : List (Bytes × ℕ)) (verdicts : List (Bytes × Option Clearing)) (h : Bytes)
    (v : Option Clearing)
    → AllHeeded ignored verdicts
    → IsHeeded ignored v
    → AllHeeded ignored (insert h v verdicts)
inserted-AllHeeded ignored verdicts h v all here k u e = elim (Bool-cases (bytes_eq h k)) [
  | inl same ↦ heeded v u (rw (get-insert h k v verdicts, same, if◌then◌else◌) at e) here
  | inr other ↦ all k u (rw (get-insert h k v verdicts, other, if◌then◌else◌) at e)
]
  where
    heeded :
        (a b : Option Clearing)
        → ◌≡◌ {A = Option (Option Clearing)} (some a) (some b)
        → IsHeeded ignored a
        → IsHeeded ignored b
    heeded a none p i = tt
    heeded none (some b) p i = absurd (cc)
    heeded (some a) (some b) p i = cc

module _ (crate : Consensus) where
  cached-IsHeeded :
      (ignored : List (Bytes × ℕ)) (p : PendingProof) (verdict : Verdict) (v : Option Clearing)
      → is_ignored p.account p.proof.nonce ignored ≡ false
      → cached p verdict ≡ some v
      → IsHeeded ignored v
  cached-IsHeeded ignored p verdict none h e = tt
  cached-IsHeeded ignored p (clears n) (some c) h e = cc
  cached-IsHeeded ignored p other_round (some c) h e = absurd (cc)
  cached-IsHeeded ignored p below_gates (some c) h e = absurd (cc)
  cached-IsHeeded ignored p malformed (some c) h e = absurd (cc)

  look_up-IsHeeded :
      (ignored : List (Bytes × ℕ)) (p : PendingProof) (snap : MiningSnapshot)
      (verdicts : List (Bytes × Option Clearing))
      → is_ignored p.account p.proof.nonce ignored ≡ false
      → AllHeeded ignored verdicts
      → IsHeeded ignored (look_up crate p snap verdicts).1
        × AllHeeded ignored (look_up crate p snap verdicts).0
  unfolding look_up
  look_up-IsHeeded ignored p snap verdicts h all =
      elim (Option-cases (get p.extrinsic_hash verdicts)) [
        | inr (v, known) ↦ rw (look_up, known) (all p.extrinsic_hash v known, all)
        | inl unknown ↦ elim (Option-cases (cached p (judge_pending_proof crate p snap))) [
          | inl low ↦ rw (look_up, unknown, low) (tt, all)
          | inr (v, fresh) ↦
              let here = cached-IsHeeded ignored p (judge_pending_proof crate p snap) v h fresh in
              rw (look_up, unknown, fresh)
                (here, inserted-AllHeeded ignored verdicts p.extrinsic_hash v all here)
        ]
      ]

  scan_loop-IsHeeded :
      (ps : List PendingProof) (snap : MiningSnapshot) (w : PoolWatch) (best : Option Clearing)
      → AllHeeded w.ignored w.verdicts
      → IsHeeded w.ignored best
      → IsHeeded w.ignored (scan_loop crate ps snap w best).1
  unfolding scan_loop
  scan_loop-IsHeeded [] snap w best all h = h
  scan_loop-IsHeeded (p ∷ ps) snap w best all h =
      elim (Bool-cases (is_ignored p.account p.proof.nonce w.ignored)) [
        | inl old ↦ rw (scan_loop, old) (scan_loop-IsHeeded ps snap w best all h)
        | inr new ↦
            let (verdict, verdicts) = look_up-IsHeeded w.ignored p snap w.verdicts new all in
            rw (scan_loop, new)
              (scan_loop-IsHeeded ps snap
                (record w { verdicts = (look_up crate p snap w.verdicts).0 })
                (better (look_up crate p snap w.verdicts).1 best) verdicts
                (better-IsHeeded w.ignored (look_up crate p snap w.verdicts).1 best verdict h))
      ]

  -- If a proof had cleared when the round was resumed, the next scan on that root finds none of its
  -- signer and nonce, under whatever extrinsic hash it comes.
  pub expire_clearing-scan :
      (pending : List PendingProof) (snap : MiningSnapshot) (w : PoolWatch) (h : Bytes)
      (c found : Clearing)
      → w.root ≡ some snap.last_proof_block_hash
      → get h w.verdicts ≡ some (some c)
      → (scan crate pending snap (expire_clearing w)).1 ≡ some found
      → ¬ ((c.account ≡ found.account) × (c.nonce ≡ found.nonce))
  unfolding scan on_root expire_clearing
  expire_clearing-scan pending snap w h c found r e s (a, n) =
      let expired = expire_clearing w in
      let known : same_root w.root snap.last_proof_block_hash ≡ true =
        rw r (bytes_eq_refl snap.last_proof_block_hash) in
      let heeded =
        scan_loop-IsHeeded pending snap expired none
          (not_clearing-AllHeeded expired.ignored w.verdicts) tt in
      let result : (scan_loop crate pending snap expired none).1 ≡ some found =
        rw (scan, on_root, known) at s in
      let dropped = add_clearing-keeps found.account found.nonce w.verdicts w.ignored h c e a n in
      absurd (let fresh = rw result at heeded in cc)
