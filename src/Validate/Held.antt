-- ===== src/Validate/Held.antt =====
-- The rows that the stash holds (`stash_rows` of `crates/quip-coordinator/src/validate.rs`) and
-- what the chain's gates say of them when the ceiling has eased (`check_proof_gates`).
use mathlib.Core.Path.{subst, ◌∙◌}
use quip_miner.Prelude.{
  ℕ, zero, suc, ◌≤◌, ◌<◌, ◌||◌, List, [], ◌∷◌, ◌++◌, none, ◌≡◌, refl, sym, if_ind, All, length,
  length-append, take, ltb, leb, ltb→lt, ltb→le, ◌==◌, inl, inr, Option-cases, Bool-cases, arith,
}
use quip_miner.Prelude.Int.{ℤ, ◌≤ℤ◌}
use quip_miner.Prelude.Sort.{AtMost, IsSorted, sort_by_key, sort_by_key-IsSorted}
use quip_miner.Stash.{SpinRow}
use quip_miner.Validate.{
  Diversity, QualityGates, energy, spins_of, admit, lowest, max_proof_solutions, stash_scan_limit,
  canonicalize_spins, has_seen, select_and_score, check_proof_gates, extended, stash_loop,
  stash_rows,
}
use quip_miner.Validate.Prefix.{
  admit-take, length-admit, take-snoc_le, take-snoc_gt, IsSorted-snoc, lowest-sort_by_key,
  lowest-AtMost,
}

-- The energy of no row is above that of the row.
abbrev AllUnder : SpinRow → List SpinRow → Type 0
AllUnder r = All (λ x. x.energy_milli ≤ℤ r.energy_milli)

-- No row of the first list has more energy than one of the second.
abbrev Before : List SpinRow → List SpinRow → Type 0
Before xs rs = All (λ x. AtMost energy x rs) xs

Before-head :
    (xs : List SpinRow) (r : SpinRow) (rs : List SpinRow) → Before xs (r ∷ rs) → AllUnder r xs
Before-head [] r rs b = tt
Before-head (x ∷ xs) r rs b = (b.0.0, Before-head xs r rs b.1)

Before-tail :
    (xs : List SpinRow) (r : SpinRow) (rs : List SpinRow) → Before xs (r ∷ rs) → Before xs rs
Before-tail [] r rs b = tt
Before-tail (x ∷ xs) r rs b = (b.0.1, Before-tail xs r rs b.1)

Before-snoc :
    (xs : List SpinRow) (r : SpinRow) (rs : List SpinRow)
    → Before xs rs
    → AtMost energy r rs
    → Before (xs ++ r ∷ []) rs
Before-snoc [] r rs b a = (a, tt)
Before-snoc (x ∷ xs) r rs b a = (b.0, Before-snoc xs r rs b.1 a)

lowest-none : (xs : List SpinRow) → lowest xs ≡ none → length xs ≡ 0
unfolding lowest
lowest-none [] e = refl
lowest-none (x ∷ xs) e = ground arith

module _ (crate : Diversity) (gates : QualityGates) where
  abbrev diversity_of : List SpinRow → ℕ
  diversity_of xs = (select_and_score crate (spins_of xs) gates.min_solutions).1

  -- Every prefix of two rows or more is diverse enough.
  abbrev PrefixesClear : List SpinRow → Type 0
  PrefixesClear xs =
      (n : ℕ) → 2 ≤ length (take n xs) → gates.min_diversity_milli ≤ diversity_of (take n xs)

  record IsHeld (xs : List SpinRow) : Type 0 where
    ranks : IsSorted energy xs
    room : length xs ≤ max_proof_solutions
    clears : PrefixesClear xs

  PrefixesClear-snoc :
      (xs : List SpinRow) (r : SpinRow)
      → PrefixesClear xs
      → (2 ≤ length (xs ++ r ∷ []) → gates.min_diversity_milli ≤ diversity_of (xs ++ r ∷ []))
      → PrefixesClear (xs ++ r ∷ [])
  PrefixesClear-snoc xs r old new n = elim (Bool-cases (ltb (length xs) n)) [
    | inl over ↦ rw (take-snoc_gt n xs r (ltb→lt (length xs) n over)) new
    | inr under ↦ rw (take-snoc_le n xs r (ltb→le (length xs) n under)) (old n)
  ]

  snoc-IsHeld :
      (xs : List SpinRow) (r : SpinRow)
      → IsHeld xs
      → length xs < max_proof_solutions
      → AllUnder r xs
      → (2 ≤ length (xs ++ r ∷ []) → gates.min_diversity_milli ≤ diversity_of (xs ++ r ∷ []))
      → IsHeld (xs ++ r ∷ [])
  snoc-IsHeld xs r h room a new = record {
    ranks = IsSorted-snoc xs r h.ranks a;
    room = omega (arith, length-append xs (r ∷ []));
    clears = PrefixesClear-snoc xs r h.clears new;
  }

  extended-IsHeld :
      (xs : List SpinRow) (r : SpinRow)
      → IsHeld xs
      → length xs < max_proof_solutions
      → AllUnder r xs
      → IsHeld (extended crate gates xs r)
  unfolding extended
  extended-IsHeld xs r h room a = elim (Bool-cases (ltb (length (xs ++ r ∷ [])) 2)) [
    | inl few ↦ rw few (
        snoc-IsHeld xs r h room a
          (λ two. absurd (omega (arith, ltb→lt (length (xs ++ r ∷ [])) 2 few))))
    | inr enough ↦
        rw enough (elim (Bool-cases (ltb (diversity_of (xs ++ r ∷ [])) gates.min_diversity_milli)) [
          | inl poor ↦ rw poor h
          | inr rich ↦ rw rich (
              snoc-IsHeld xs r h room a
                (λ _. ltb→le (diversity_of (xs ++ r ∷ [])) gates.min_diversity_milli rich))
        ])
  ]

  Before-extended :
      (xs : List SpinRow) (r : SpinRow) (rs : List SpinRow)
      → Before xs rs
      → AtMost energy r rs
      → Before (extended crate gates xs r) rs
  unfolding extended
  Before-extended xs r rs b a = elim (Bool-cases (ltb (length (xs ++ r ∷ [])) 2)) [
    | inl few ↦ rw few (Before-snoc xs r rs b a)
    | inr enough ↦
        rw enough (elim (Bool-cases (ltb (diversity_of (xs ++ r ∷ [])) gates.min_diversity_milli)) [
          | inl poor ↦ rw poor b
          | inr rich ↦ rw rich (Before-snoc xs r rs b a)
        ])
  ]

  stash_loop-IsHeld :
      (rs : List SpinRow) (seen : List (List ℤ)) (examined : ℕ) (xs : List SpinRow)
      → IsHeld xs
      → IsSorted energy rs
      → Before xs rs
      → IsHeld (stash_loop crate gates rs seen examined xs)
  unfolding stash_loop
  stash_loop-IsHeld [] seen examined xs h s b = h
  stash_loop-IsHeld (r ∷ rs) seen examined xs h s b =
      elim (Bool-cases (length xs == max_proof_solutions || examined == stash_scan_limit)) [
        | inl stop ↦ rw stop h
        | inr on ↦
            let room : length xs < max_proof_solutions = ground (arith, on, h.room) in
            rw on (elim (Bool-cases (has_seen (canonicalize_spins r.spins) seen)) [
              | inl twin ↦
                  rw twin (stash_loop-IsHeld rs seen examined xs h s.1 (Before-tail xs r rs b))
              | inr new ↦ rw new (
                  stash_loop-IsHeld rs (canonicalize_spins r.spins ∷ seen) (suc examined)
                    (extended crate gates xs r)
                    (extended-IsHeld xs r h room (Before-head xs r rs b)) s.1
                    (Before-extended xs r rs (Before-tail xs r rs b) s.0))
            ])
      ]

  PrefixesClear-nil : PrefixesClear []
  PrefixesClear-nil zero two = absurd (omega arith)
  PrefixesClear-nil (suc n) two = absurd (omega arith)

  stash_rows-IsHeld : (scored : List SpinRow) → IsHeld (stash_rows crate scored gates)
  unfolding stash_rows
  stash_rows-IsHeld scored =
      stash_loop-IsHeld (sort_by_key energy scored) [] 0 []
        (record { ranks = tt; room = omega arith; clears = PrefixesClear-nil })
        (sort_by_key-IsSorted energy scored) tt

  held_diverse :
      (xs : List SpinRow) (ceiling : ℤ)
      → IsHeld xs
      → 2 ≤ length (admit ceiling xs)
      → gates.min_diversity_milli ≤ diversity_of (admit ceiling xs)
  held_diverse xs ceiling h two =
      let prefix = admit-take ceiling xs h.ranks in
      subst (λ ys. 2 ≤ length ys → gates.min_diversity_milli ≤ diversity_of ys) (sym prefix)
        (h.clears (length (admit ceiling xs))) two

  -- The gates of a round whose ceiling has moved.
  abbrev pub eased_to : ℤ → QualityGates
  eased_to ceiling = record gates { min_energy_milli = ceiling }

  -- If a demand for diversity comes with one for two solutions at least, the rows held are accepted
  -- under every ceiling that admits one of them, exactly if it admits enough of them: their
  -- diversity never fails.
  pub check_proof_gates-stash_rows :
      (scored : List SpinRow) (ceiling : ℤ)
      → (0 < gates.min_diversity_milli → 2 ≤ gates.min_solutions)
      → 1 ≤ length (admit ceiling (stash_rows crate scored gates))
      → (check_proof_gates crate (stash_rows crate scored gates) (eased_to ceiling)).accepted
        ≡ leb gates.min_solutions (length (admit ceiling (stash_rows crate scored gates)))
  unfolding check_proof_gates
  check_proof_gates-stash_rows scored ceiling sound some_row =
      let xs = stash_rows crate scored gates in
      let h = stash_rows-IsHeld scored in
      elim (Option-cases (lowest (admit ceiling xs))) [
        | inl n ↦ absurd (omega (arith, lowest-none (admit ceiling xs) n))
        | inr (best, e) ↦
            rw (e, check_proof_gates)
              (ground (arith, sound, held_diverse xs ceiling h, length-admit ceiling xs, h.room))
      ]

  extended_head :
      (x : SpinRow) (xs : List SpinRow) (r : SpinRow)
      → (ys : List SpinRow) × (extended crate gates (x ∷ xs) r ≡ x ∷ ys)
  unfolding extended
  extended_head x xs r = elim (Bool-cases (ltb (length (x ∷ xs ++ r ∷ [])) 2)) [
    | inl few ↦ rw few (_, refl)
    | inr enough ↦ rw enough (
        if_ind (λ (zs : List SpinRow). (ys : List SpinRow) × (zs ≡ x ∷ ys))
          (ltb (diversity_of (x ∷ xs ++ r ∷ [])) gates.min_diversity_milli) (_, refl) (_, refl))
  ]

  stash_loop_head :
      (rs : List SpinRow) (seen : List (List ℤ)) (examined : ℕ) (x : SpinRow) (xs : List SpinRow)
      → (ys : List SpinRow) × (stash_loop crate gates rs seen examined (x ∷ xs) ≡ x ∷ ys)
  unfolding stash_loop
  stash_loop_head [] seen examined x xs = (xs, refl)
  stash_loop_head (r ∷ rs) seen examined x xs =
      elim (Bool-cases (length (x ∷ xs) == max_proof_solutions || examined == stash_scan_limit)) [
        | inl stop ↦ rw stop (xs, refl)
        | inr on ↦ rw on (elim (Bool-cases (has_seen (canonicalize_spins r.spins) seen)) [
          | inl twin ↦ rw twin (stash_loop_head rs seen examined x xs)
          | inr new ↦
              let (ys, e) = extended_head x xs r in
              rw (new, e)
                (stash_loop_head rs (canonicalize_spins r.spins ∷ seen) (suc examined) x ys)
        ])
      ]

  first_held :
      (r : SpinRow) (rs : List SpinRow)
      → (ys : List SpinRow) × (stash_loop crate gates (r ∷ rs) [] 0 [] ≡ r ∷ ys)
  unfolding stash_loop extended
  first_held r rs = stash_loop_head rs (canonicalize_spins r.spins ∷ []) 1 r []

  lowest_held :
      (sorted : List SpinRow)
      → IsSorted energy sorted
      → IsHeld (stash_loop crate gates sorted [] 0 [])
      → lowest (stash_loop crate gates sorted [] 0 []) ≡ lowest sorted
  lowest_held [] s h = unfold stash_loop in refl
  lowest_held (r ∷ rs) s h =
      let (ys, e) = first_held r rs in
      let ranked : IsSorted energy (r ∷ ys) = subst (IsSorted energy) e h.ranks in
      rw (e, lowest-AtMost r ys ranked.0, lowest-AtMost r rs s.0) refl

  -- The lowest energy held is the lowest of all rows: the best row is always kept.
  pub lowest-stash_rows :
      (scored : List SpinRow) → lowest (stash_rows crate scored gates) ≡ lowest scored
  unfolding stash_rows
  lowest-stash_rows scored =
      lowest_held (sort_by_key energy scored) (sort_by_key-IsSorted energy scored)
        (stash_rows-IsHeld scored)
      ∙ lowest-sort_by_key scored
