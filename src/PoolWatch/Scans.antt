-- ===== src/PoolWatch/Scans.antt =====
-- The scans of the pool and the same scans without a cache (`PoolWatch::scan` of
-- `crates/quip-coordinator/src/pool_watch.rs`).
use mathlib.Core.Path.{subst}
use quip_miner.Prelude.{
  ℕ, true, false, List, [], ◌∷◌, Option, none, some, ◌≡◌, ◌≢◌, refl, sym, ap, ◌∙◌, inl, inr,
  if◌then◌else◌, All, Bool-cases, Option-cases,
}
use quip_miner.Prelude.Bytes.{Bytes, bytes_eq, bytes_eq→≡}
use quip_miner.Prelude.Assoc.{get, insert, get-insert}
use quip_miner.Snapshot.{MiningSnapshot, PendingProof}
use quip_miner.PoolWatch.{
  Verdict, clears, other_round, below_gates, malformed, Consensus, Clearing, PoolWatch, new, cached,
  better, is_ignored, same_root, on_root, judge_pending_proof, look_up, scan_loop, scan,
}

module _ (crate : Consensus) where
  abbrev pub or_none : Option (Option Clearing) → Option Clearing
  or_none none = none
  or_none (some v) = v

  -- The clearing proof that a pending proof is, judged anew.
  unfoldable pub judged : PendingProof → MiningSnapshot → Option Clearing
  judged p snap = or_none (cached p (judge_pending_proof crate p snap))

  -- The clearing proof of the lowest energy, the first of several, with every proof judged anew.
  unfoldable pub lowest_clearing :
      List (Bytes × ℕ) → List PendingProof → MiningSnapshot → Option Clearing → Option Clearing
  unfolding judged
  lowest_clearing ignored [] snap best = best
  lowest_clearing ignored (p ∷ ps) snap best =
      lowest_clearing ignored ps snap
        (if is_ignored p.account p.proof.nonce ignored then best else better (judged p snap) best)

  -- The results of scans in turn, one for each poll.
  unfoldable pub scans :
      PoolWatch → List (List PendingProof × MiningSnapshot) → List (Option Clearing)
  scans w [] = []
  scans w ((pending, snap) ∷ polls) =
      (scan crate pending snap w).1 ∷ scans (scan crate pending snap w).0 polls

  unfoldable pub uncached_scans : List (List PendingProof × MiningSnapshot) → List (Option Clearing)
  unfolding lowest_clearing
  uncached_scans [] = []
  uncached_scans ((pending, snap) ∷ polls) =
      lowest_clearing [] pending snap none ∷ uncached_scans polls

  -- From one snapshot to a later one of the round: the verdict on a proof stays, unless it was below
  -- the gates.
  abbrev pub Eases : MiningSnapshot → MiningSnapshot → Type 0
  Eases snap later =
      (p : PendingProof)
      → judge_pending_proof crate p snap ≢ below_gates
      → judge_pending_proof crate p later ≡ judge_pending_proof crate p snap

  cached-ne-below_gates :
      (p : PendingProof) (d : Verdict) (v : Option Clearing) → cached p d ≡ some v → d ≢ below_gates
  cached-ne-below_gates p (clears e) v k = cc
  cached-ne-below_gates p other_round v k = cc
  cached-ne-below_gates p below_gates v k = absurd (cc)
  cached-ne-below_gates p malformed v k = cc

  -- So what was cached is right later.
  cached_later :
      (snap later : MiningSnapshot) (p : PendingProof) (v : Option Clearing)
      → Eases snap later
      → cached p (judge_pending_proof crate p snap) ≡ some v
      → cached p (judge_pending_proof crate p later) ≡ some v
  cached_later snap later p v eases k =
      ap (cached p) (eases p (cached-ne-below_gates p (judge_pending_proof crate p snap) v k)) ∙ k

  -- `entry` is the pool's entry with a hash.
  module _ (entry : Bytes → PendingProof) where
    abbrev pub IsEntry : PendingProof → Type 0
    IsEntry p = p ≡ entry p.extrinsic_hash

    abbrev IsSound : List (Bytes × Option Clearing) → MiningSnapshot → Type 0
    IsSound verdicts snap =
        (h : Bytes) (v : Option Clearing)
        → get h verdicts ≡ some v
        → cached (entry h) (judge_pending_proof crate (entry h) snap) ≡ some v

    inserted-IsSound :
        (p : PendingProof) (snap : MiningSnapshot) (verdicts : List (Bytes × Option Clearing))
        (v : Option Clearing)
        → IsSound verdicts snap
        → cached (entry p.extrinsic_hash) (judge_pending_proof crate (entry p.extrinsic_hash) snap)
          ≡ some v
        → IsSound (insert p.extrinsic_hash v verdicts) snap
    inserted-IsSound p snap verdicts v s e h u k = elim (Bool-cases (bytes_eq p.extrinsic_hash h)) [
      | inl same ↦
          let value : ◌≡◌ {A = Option (Option Clearing)} (some v) (some u) =
            rw (get-insert p.extrinsic_hash h v verdicts, same, if◌then◌else◌) at k in
          subst (λ g. cached (entry g) (judge_pending_proof crate (entry g) snap) ≡ some u)
            (bytes_eq→≡ p.extrinsic_hash h same) (e ∙ value)
      | inr other ↦ s h u (rw (get-insert p.extrinsic_hash h v verdicts, other, if◌then◌else◌) at k)
    ]

    look_up-judged :
        (p : PendingProof) (snap : MiningSnapshot) (verdicts : List (Bytes × Option Clearing))
        → IsSound verdicts snap
        → IsEntry p
        → ((look_up crate p snap verdicts).1 ≡ judged p snap)
          × IsSound (look_up crate p snap verdicts).0 snap
    unfolding look_up judged
    look_up-judged p snap verdicts s e =
        let at_entry : cached (entry p.extrinsic_hash)
              (judge_pending_proof crate (entry p.extrinsic_hash) snap)
            ≡ cached p (judge_pending_proof crate p snap) =
          ap (λ q. cached q (judge_pending_proof crate q snap)) (sym e) in
        elim (Option-cases (get p.extrinsic_hash verdicts)) [
          | inr (v, known) ↦
              let fresh = sym at_entry ∙ s p.extrinsic_hash v known in
              rw (look_up, known) (sym (ap or_none fresh), s)
          | inl unknown ↦ elim (Option-cases (cached p (judge_pending_proof crate p snap))) [
            | inl low ↦ rw (look_up, unknown, low) (refl, s)
            | inr (v, fresh) ↦
                rw (look_up, unknown, fresh)
                  (refl, inserted-IsSound p snap verdicts v s (at_entry ∙ fresh))
          ]
        ]

    -- What a scan from a sound cache gives.
    abbrev IsScan :
        PoolWatch → MiningSnapshot → Option Clearing → PoolWatch × Option Clearing → Type 0
    IsScan w snap result (w', best) =
        (best ≡ result) × IsSound w'.verdicts snap × (w'.root ≡ w.root) × (w'.ignored ≡ w.ignored)

    scan_loop-IsScan :
        (ps : List PendingProof) (snap : MiningSnapshot) (w : PoolWatch) (best : Option Clearing)
        → IsSound w.verdicts snap
        → All IsEntry ps
        → IsScan w snap (lowest_clearing w.ignored ps snap best) (scan_loop crate ps snap w best)
    unfolding scan_loop lowest_clearing
    scan_loop-IsScan [] snap w best s e = (refl, s, refl, refl)
    scan_loop-IsScan (p ∷ ps) snap w best s e =
        elim (Bool-cases (is_ignored p.account p.proof.nonce w.ignored)) [
          | inl old ↦ rw (scan_loop, lowest_clearing, old) (scan_loop-IsScan ps snap w best s e.1)
          | inr judged_now ↦
              let step = look_up-judged p snap w.verdicts s e.0 in
              let w' = record w { verdicts = (look_up crate p snap w.verdicts).0 } in
              rw (scan_loop, lowest_clearing, judged_now, ← step.0)
                (scan_loop-IsScan ps snap w' (better (look_up crate p snap w.verdicts).1 best)
                  step.1 e.1)
        ]

    -- A watch that has ignored nothing on the root of the snapshot, with a sound cache.
    abbrev IsReady : PoolWatch → MiningSnapshot → Type 0
    IsReady w snap =
        ((on_root snap.last_proof_block_hash w).ignored ≡ [])
        × IsSound (on_root snap.last_proof_block_hash w).verdicts snap

    -- The entries of the polls are the pool's, and the snapshots of one root ease.
    abbrev pub Follows : List (List PendingProof × MiningSnapshot) → Type 0
    Follows [] = Unit
    Follows ((pending, snap) ∷ []) = All IsEntry pending
    Follows ((pending, snap) ∷ (later_pending, later) ∷ polls) =
        All IsEntry pending
        × (snap.last_proof_block_hash ≡ later.last_proof_block_hash → Eases snap later)
        × Follows ((later_pending, later) ∷ polls)

    same_root→≡ : (r : Option Bytes) (root : Bytes) → same_root r root ≡ true → r ≡ some root
    same_root→≡ none root h = cc
    same_root→≡ (some r) root h = ap some (bytes_eq→≡ r root h)

    on_root-root : (root : Bytes) (w : PoolWatch) → (on_root root w).root ≡ some root
    unfolding on_root
    on_root-root root w = elim (Bool-cases (same_root w.root root)) [
      | inl known ↦ rw (on_root, known) (same_root→≡ w.root root known)
      | inr other ↦ rw (on_root, other) refl
    ]

    forgotten-IsReady :
        (w : PoolWatch) (snap : MiningSnapshot)
        → same_root w.root snap.last_proof_block_hash ≡ false
        → IsReady w snap
    unfolding on_root
    forgotten-IsReady w snap other =
        rw (on_root, other) (refl, λ h v k. absurd (unfold get in cc (k)))

    -- After a scan the watch is ready for the next poll.
    scanned-IsReady :
        (w : PoolWatch) (snap later : MiningSnapshot)
        → w.root ≡ some snap.last_proof_block_hash
        → w.ignored ≡ []
        → IsSound w.verdicts snap
        → (snap.last_proof_block_hash ≡ later.last_proof_block_hash → Eases snap later)
        → IsReady w later
    unfolding on_root
    scanned-IsReady w snap later r i s eases =
        elim (Bool-cases (same_root w.root later.last_proof_block_hash)) [
          | inr other ↦ forgotten-IsReady w later other
          | inl known ↦
              let root : ◌≡◌ {A = Option Bytes} (some snap.last_proof_block_hash)
                  (some later.last_proof_block_hash) =
                sym r ∙ same_root→≡ w.root later.last_proof_block_hash known in
              rw (on_root, known)
                (i, λ h v k. cached_later snap later (entry h) v (eases (cc root)) (s h v k))
        ]

    scan-IsScan :
        (pending : List PendingProof) (w : PoolWatch) (snap : MiningSnapshot)
        → IsReady w snap
        → All IsEntry pending
        → ((scan crate pending snap w).1 ≡ lowest_clearing [] pending snap none)
          × IsSound (scan crate pending snap w).0.verdicts snap
          × ((scan crate pending snap w).0.root ≡ some snap.last_proof_block_hash)
          × ((scan crate pending snap w).0.ignored ≡ [])
    unfolding scan
    scan-IsScan pending w snap ready e =
        let start = on_root snap.last_proof_block_hash w in
        let done = scan_loop-IsScan pending snap start none ready.1 e in
        (
          done.0 ∙ ap (λ i. lowest_clearing i pending snap none) ready.0,
          done.1,
          done.2 ∙ on_root-root snap.last_proof_block_hash w,
          done.3 ∙ ready.0,
        )

    scans_from :
        (w : PoolWatch) (pending : List PendingProof) (snap : MiningSnapshot)
        (polls : List (List PendingProof × MiningSnapshot))
        → IsReady w snap
        → Follows ((pending, snap) ∷ polls)
        → scans w ((pending, snap) ∷ polls) ≡ uncached_scans ((pending, snap) ∷ polls)
    unfolding scans uncached_scans
    scans_from w pending snap [] ready f =
        ap (λ best. best ∷ []) (scan-IsScan pending w snap ready f).0
    scans_from w pending snap ((later_pending, later) ∷ polls) ready f =
        let (best, sound, root, ignored) = scan-IsScan pending w snap ready f.0 in
        let w' = (scan crate pending snap w).0 in
        let rest =
          scans_from w' later_pending later polls
            (scanned-IsReady w' snap later root ignored sound f.1) f.2 in
        rw (scans, best, rest) refl

    -- From a new watch every scan finds what it would find if it judged every proof anew.
    pub scans-uncached :
        (polls : List (List PendingProof × MiningSnapshot))
        → Follows polls
        → scans new polls ≡ uncached_scans polls
    scans-uncached [] f = unfold scans uncached_scans in refl
    scans-uncached ((pending, snap) ∷ polls) f =
        scans_from new pending snap polls (forgotten-IsReady new snap (unfold new in refl)) f
