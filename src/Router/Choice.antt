-- ===== src/Router/Choice.antt =====
-- Which miner `route_excluding` of `crates/quip-coordinator/src/router.rs` chooses.
use mathlib.Core.Path.{subst}
use quip_miner.Prelude.{
  Bool, true, false, ◌&&◌, List, [], ◌∷◌, Option, none, some, ◌≡◌, refl, sym, ◌∙◌, ◌≢◌, ◌↔◌, inl,
  inr, Bool-cases, Option-cases, if◌then◌else◌, All, arith,
}
use quip_miner.Prelude.Bytes.{Bytes, bytes_le, bytes_le_total, bytes_le_trans}
use quip_miner.Prelude.Assoc.{get, keys, All-get}
use quip_miner.Wire.{WireTags, Job}
use quip_miner.Router.State.{MinerQueue, Router}
use quip_miner.Router.{
  insert_sorted, sort, first, admitted, not_excluded, is_capable, candidates, route_excluding,
}

module _ {κ} (P : Bytes → Type κ) where
  insert_sorted-All : (k : Bytes) (ks : List Bytes) → All P (insert_sorted k ks) ↔ (P k × All P ks)
  unfolding insert_sorted
  insert_sorted-All k [] = (λ h. h, λ h. h)
  insert_sorted-All k (j ∷ js) = elim (Bool-cases (bytes_le k j)) [
    | inl at ↦ rw at (λ h. h, λ h. h)
    | inr on ↦ rw on (
      λ h. let (pk, rest) = (insert_sorted-All k js).0 h.1 in (pk, (h.0, rest)),
      λ h. (h.1.0, (insert_sorted-All k js).1 (h.0, h.1.1)),
    )
  ]

  sort-All : (ks : List Bytes) → All P (sort ks) ↔ All P ks
  unfolding sort
  sort-All [] = (λ h. h, λ h. h)
  sort-All (k ∷ ks) = (
    λ h. let (pk, rest) = (insert_sorted-All k (sort ks)).0 h in (pk, (sort-All ks).0 rest),
    λ h. (insert_sorted-All k (sort ks)).1 (h.0, (sort-All ks).1 h.1),
  )

-- Every key is at or after the key before it.
abbrev IsSorted : List Bytes → Type 0
IsSorted [] = Unit
IsSorted (k ∷ ks) = All (λ j. bytes_le k j ≡ true) ks × IsSorted ks

All-le_trans :
    (k j : Bytes) (ks : List Bytes)
    → bytes_le k j ≡ true
    → All (λ i. bytes_le j i ≡ true) ks
    → All (λ i. bytes_le k i ≡ true) ks
All-le_trans k j [] h a = tt
All-le_trans k j (i ∷ ks) h a = (bytes_le_trans k j i h a.0, All-le_trans k j ks h a.1)

insert_sorted-IsSorted : (k : Bytes) (ks : List Bytes) → IsSorted ks → IsSorted (insert_sorted k ks)
unfolding insert_sorted
insert_sorted-IsSorted k [] s = (tt, tt)
insert_sorted-IsSorted k (j ∷ js) s = elim (Bool-cases (bytes_le k j)) [
  | inl at ↦ rw at ((at, All-le_trans k j js at s.0), s)
  | inr on ↦
      let le : bytes_le j k ≡ true = elim (bytes_le_total k j) [ inl l ↦ cc | inr g ↦ g ] in
      rw on (
        (insert_sorted-All (λ i. bytes_le j i ≡ true) k js).1 (le, s.0),
        insert_sorted-IsSorted k js s.1,
      )
]

sort-IsSorted : (ks : List Bytes) → IsSorted (sort ks)
unfolding sort
sort-IsSorted [] = tt
sort-IsSorted (k ∷ ks) = insert_sorted-IsSorted k (sort ks) (sort-IsSorted ks)

bytes_le_refl : (k : Bytes) → bytes_le k k ≡ true
bytes_le_refl k = elim (bytes_le_total k k) [ inl h ↦ h | inr h ↦ h ]

first-least :
    (ks : List Bytes) (k : Bytes)
    → IsSorted ks
    → first ks ≡ some k
    → All (λ j. bytes_le k j ≡ true) ks
first-least [] k s e = cc
first-least (j ∷ js) k s e =
    let same : j ≡ k = cc in
    subst (λ i. All (λ j'. bytes_le i j' ≡ true) (j ∷ js)) same (bytes_le_refl j, s.0)

All-first {κ} :
    (P : Bytes → Type κ) (ks : List Bytes) (k : Bytes) → All P ks → first ks ≡ some k → P k
All-first P [] k a e = cc
All-first P (j ∷ js) k a e = let same : j ≡ k = cc in subst P same a.0

first-none : (ks : List Bytes) → first ks ≡ none → ks ≡ []
first-none [] e = refl
first-none (j ∷ js) e = cc

-- What `admitted` keeps.
admitted-All : (p : Bytes → Bool) (ks : List Bytes) → All (λ k. p k ≡ true) (admitted p ks)
unfolding admitted
admitted-All p [] = tt
admitted-All p (k ∷ ks) = elim (Bool-cases (p k)) [
  | inl e ↦ rw e (e, admitted-All p ks)
  | inr e ↦ rw e (admitted-All p ks)
]

admitted-All_of {κ} :
    (P : Bytes → Type κ) (p : Bytes → Bool) (ks : List Bytes)
    → All P (admitted p ks)
    → All (λ k. p k ≡ true → P k) ks
unfolding admitted
admitted-All_of P p [] h = tt
admitted-All_of P p (k ∷ ks) h = elim (Bool-cases (p k)) [
  | inl e ↦ let h' = rw (e, if◌then◌else◌) at h in ((λ _. h'.0), admitted-All_of P p ks h'.1)
  | inr e ↦ let h' = rw (e, if◌then◌else◌) at h in ((λ t. absurd (cc)), admitted-All_of P p ks h')
]

module _ (tags : WireTags) (r : Router) (job : Job) (exclude : Option Bytes) where
  -- The miner may take the job.
  abbrev pub is_candidate : Bytes → Bool
  is_candidate id = not_excluded exclude id && is_capable tags r id job

  candidate-get : (id : Bytes) → is_candidate id ≡ true → get id r.miners ≢ none
  unfolding is_capable
  candidate-get id h e = ground arith

  pub chosen-first : (route_excluding tags r job exclude).1 ≡ first (candidates tags r job exclude)
  unfolding route_excluding
  chosen-first = elim (Option-cases (first (candidates tags r job exclude))) [
    | inl e ↦ rw (e, route_excluding)
    | inr (id, e) ↦ rw (e, route_excluding)
  ]

  -- What holds along the candidates holds of every candidate.
  candidates-elim {κ} :
      (P : Bytes → Type κ)
      → All P (candidates tags r job exclude)
      → (j : Bytes) → is_candidate j ≡ true
      → P j
  unfolding candidates
  candidates-elim P a j h = elim (Option-cases (get j r.miners)) [
    | inl e ↦ absurd (candidate-get j h e)
    | inr (q, e) ↦
        All-get (λ i. is_candidate i ≡ true → P i) j q r.miners
          (admitted-All_of P is_candidate (keys r.miners) ((sort-All P _).0 a)) e h
  ]

  candidates-All : All (λ j. is_candidate j ≡ true) (candidates tags r job exclude)
  unfolding candidates
  candidates-All = (sort-All _ _).1 (admitted-All is_candidate (keys r.miners))

  candidates-IsSorted : IsSorted (candidates tags r job exclude)
  unfolding candidates
  candidates-IsSorted = sort-IsSorted _

  -- The id returned is a candidate, and the least of the candidates in byte order.
  pub route_excluding-least :
      (id : Bytes)
      → (route_excluding tags r job exclude).1 ≡ some id
      → (is_candidate id ≡ true) × ((j : Bytes) → is_candidate j ≡ true → bytes_le id j ≡ true)
  route_excluding-least id e =
      let e' = sym chosen-first ∙ e in
      (
        All-first (λ j. is_candidate j ≡ true) _ id candidates-All e',
        candidates-elim (λ j. bytes_le id j ≡ true) (first-least _ id candidates-IsSorted e'),
      )

  -- No id is returned exactly if there is no candidate.
  pub route_excluding-none :
      ((route_excluding tags r job exclude).1 ≡ none) ↔ ((j : Bytes) → is_candidate j ≡ false)
  route_excluding-none = (nobody, unrouted)
    where
      nobody : (route_excluding tags r job exclude).1 ≡ none → (j : Bytes) → is_candidate j ≡ false
      nobody e j = elim (Bool-cases (is_candidate j)) [
        | inl h ↦
            absurd (candidates-elim (λ _. ⊥) (rw (first-none _ (sym chosen-first ∙ e)) tt) j h)
        | inr h ↦ h
      ]

      unrouted :
          ((j : Bytes) → is_candidate j ≡ false) → (route_excluding tags r job exclude).1 ≡ none
      unrouted h = elim (Option-cases (route_excluding tags r job exclude).1) [
        | inl e ↦ e
        | inr (id, e) ↦ let yes' = (route_excluding-least id e).0 in cc (h id)
      ]

  -- The miner chosen is there.
  pub chosen-get :
      (id : Bytes)
      → first (candidates tags r job exclude) ≡ some id
      → (q : MinerQueue) × (get id r.miners ≡ some q)
  chosen-get id e = elim (Option-cases (get id r.miners)) [
    | inl absent ↦
        absurd
          (candidate-get id (All-first (λ j. is_candidate j ≡ true) _ id candidates-All e) absent)
    | inr (q, here) ↦ (q, here)
  ]
