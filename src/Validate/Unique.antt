-- ===== src/Validate/Unique.antt =====
-- Counting each state once (`validate_scored` of `crates/quip-coordinator/src/validate.rs`): a row
-- and its flip are one state.
use mathlib.Core.Path.{subst}
use quip_miner.Prelude.{
  Option-cases, ℕ, zero, suc, ◌≤◌, true, false, List, [], ◌∷◌, some, ◌≡◌, refl, sym, ◌⊎◌, All,
  length, inl, inr, Bool-cases, get_elem?, arith,
}
use quip_miner.Prelude.Int.{ℤ, ◌<ℤ◌, ltb_ℤ, ltb_ℤ→lt, eq_of_parts}
use quip_miner.Stash.{SpinRow}
use quip_miner.Validate.{admit, canonicalize_spins, eq_ℤ, spins_eq, has_seen, unique, pick}

eq_ℤ→≡ : (a b : ℤ) → eq_ℤ a b ≡ true → a ≡ b
unfolding eq_ℤ
eq_ℤ→≡ a b h = ground (arith, eq_of_parts a b)

eq_ℤ_refl : (a : ℤ) → eq_ℤ a a ≡ true
unfolding eq_ℤ
eq_ℤ_refl a = ground arith

pub spins_eq→≡ : (a b : List ℤ) → spins_eq a b ≡ true → a ≡ b
unfolding spins_eq
spins_eq→≡ [] [] h = refl
spins_eq→≡ [] (b ∷ bs) h = cc
spins_eq→≡ (a ∷ as') [] h = cc
spins_eq→≡ (a ∷ as') (b ∷ bs) h = ground (arith, eq_ℤ→≡ a b, spins_eq→≡ as' bs)

spins_eq_refl : (a : List ℤ) → spins_eq a a ≡ true
unfolding spins_eq
spins_eq_refl [] = refl
spins_eq_refl (a ∷ as') = ground (arith, eq_ℤ_refl a, spins_eq_refl as')

-- The same state: equal but for a flip of all spins.
abbrev pub Twins : SpinRow → SpinRow → Type 0
Twins r s = canonicalize_spins r.spins ≡ canonicalize_spins s.spins

-- The states of no two rows are the same.
abbrev pub IsDistinct : List SpinRow → Type 0
IsDistinct [] = Unit
IsDistinct (r ∷ rs) = All (λ s. Twins r s → ⊥) rs × IsDistinct rs

-- A row of the list is a twin.
abbrev pub HasTwin : List SpinRow → SpinRow → Type 0
HasTwin [] r = ⊥
HasTwin (s ∷ ss) r = Twins s r ⊎ HasTwin ss r

abbrev Seen : List (List ℤ) → SpinRow → Type 0
Seen seen r = has_seen (canonicalize_spins r.spins) seen ≡ true

abbrev AllNew : List (List ℤ) → List SpinRow → Type 0
AllNew seen = All (λ r. has_seen (canonicalize_spins r.spins) seen ≡ false)

AllNew-tail :
    (k : List ℤ) (seen : List (List ℤ)) (rs : List SpinRow) → AllNew (k ∷ seen) rs → AllNew seen rs
unfolding has_seen
AllNew-tail k seen [] a = tt
AllNew-tail k seen (r ∷ rs) a = (ground (arith, a.0), AllNew-tail k seen rs a.1)

AllNew-head :
    (r : SpinRow) (seen : List (List ℤ)) (rs : List SpinRow)
    → AllNew (canonicalize_spins r.spins ∷ seen) rs
    → All (λ s. Twins r s → ⊥) rs
unfolding has_seen
AllNew-head r seen [] a = tt
AllNew-head r seen (s ∷ ss) a = ((λ t. apart t (a.0)), AllNew-head r seen ss a.1)
  where
    apart :
        Twins r s
        → has_seen (canonicalize_spins s.spins) (canonicalize_spins r.spins ∷ seen) ≡ false
        → ⊥
    apart t n =
        let same = spins_eq_refl (canonicalize_spins s.spins) in absurd (ground (arith, t, n, same))

unique-AllNew : (seen : List (List ℤ)) (rs : List SpinRow) → AllNew seen (unique seen rs)
unfolding unique
unique-AllNew seen [] = tt
unique-AllNew seen (r ∷ rs) = elim (Bool-cases (has_seen (canonicalize_spins r.spins) seen)) [
  | inl old ↦ rw old (unique-AllNew seen rs)
  | inr new ↦ rw new (
    new,
    AllNew-tail (canonicalize_spins r.spins) seen _
        (unique-AllNew (canonicalize_spins r.spins ∷ seen) rs),
  )
]

pub unique-IsDistinct : (seen : List (List ℤ)) (rs : List SpinRow) → IsDistinct (unique seen rs)
unfolding unique
unique-IsDistinct seen [] = tt
unique-IsDistinct seen (r ∷ rs) = elim (Bool-cases (has_seen (canonicalize_spins r.spins) seen)) [
  | inl old ↦ rw old (unique-IsDistinct seen rs)
  | inr new ↦
      let later = unique-AllNew (canonicalize_spins r.spins ∷ seen) rs in
      rw new (AllNew-head r seen _ later, unique-IsDistinct (canonicalize_spins r.spins ∷ seen) rs)
]

-- Seen before, or a twin of a row that is kept.
Represented : List (List ℤ) → List SpinRow → SpinRow → Type 0
Represented seen kept r = Seen seen r ⊎ HasTwin kept r

through :
    (seen : List (List ℤ)) (r : SpinRow) (kept rs : List SpinRow)
    → All (Represented (canonicalize_spins r.spins ∷ seen) kept) rs
    → All (Represented seen (r ∷ kept)) rs
unfolding has_seen Represented
through seen r kept [] a = tt
through seen r kept (s ∷ ss) a = (one s a.0, through seen r kept ss a.1)
  where
    one :
        (s : SpinRow)
        → Represented (canonicalize_spins r.spins ∷ seen) kept s
        → Represented seen (r ∷ kept) s
    one s (inr t) = inr (inr t)
    one s (inl h) =
        elim (Bool-cases (spins_eq (canonicalize_spins r.spins) (canonicalize_spins s.spins))) [
          | inl e ↦
              inr (inl (spins_eq→≡ (canonicalize_spins r.spins) (canonicalize_spins s.spins) e))
          | inr e ↦ inl (ground (arith, e, h))
        ]

unique-old :
    (seen : List (List ℤ)) (r : SpinRow) (rs : List SpinRow)
    → has_seen (canonicalize_spins r.spins) seen ≡ true
    → unique seen (r ∷ rs) ≡ unique seen rs
unfolding unique
unique-old seen r rs h = rw h refl

unique-new :
    (seen : List (List ℤ)) (r : SpinRow) (rs : List SpinRow)
    → has_seen (canonicalize_spins r.spins) seen ≡ false
    → unique seen (r ∷ rs) ≡ r ∷ unique (canonicalize_spins r.spins ∷ seen) rs
unfolding unique
unique-new seen r rs h = rw h refl

unique-Represented :
    (seen : List (List ℤ)) (rs : List SpinRow) → All (Represented seen (unique seen rs)) rs
unfolding unique Represented
unique-Represented seen [] = tt
unique-Represented seen (r ∷ rs) = elim (Bool-cases (has_seen (canonicalize_spins r.spins) seen)) [
  | inl old ↦
      subst (λ kept. All (Represented seen kept) (r ∷ rs)) (sym (unique-old seen r rs old))
        (inl old, unique-Represented seen rs)
  | inr new ↦
      subst (λ kept. All (Represented seen kept) (r ∷ rs)) (sym (unique-new seen r rs new))
        (
          inr (inl refl),
          through seen r _ rs (unique-Represented (canonicalize_spins r.spins ∷ seen) rs),
        )
]

All-HasTwin : (kept rs : List SpinRow) → All (Represented [] kept) rs → All (HasTwin kept) rs
unfolding has_seen Represented
All-HasTwin kept [] a = tt
All-HasTwin kept (r ∷ rs) a = (one r a.0, All-HasTwin kept rs a.1)
  where
    one : (s : SpinRow) → Represented [] kept s → HasTwin kept s
    one s (inl h) = absurd (cc)
    one s (inr t) = t

pub unique-HasTwin : (rs : List SpinRow) → All (HasTwin (unique [] rs)) rs
unique-HasTwin rs = All-HasTwin (unique [] rs) rs (unique-Represented [] rs)

-- A predicate along rows passes to the rows kept, admitted or picked.
pub All-unique {κ} :
    (P : SpinRow → Type κ) (seen : List (List ℤ)) (rs : List SpinRow)
    → All P rs
    → All P (unique seen rs)
unfolding unique
All-unique P seen [] a = tt
All-unique P seen (r ∷ rs) a = elim (Bool-cases (has_seen (canonicalize_spins r.spins) seen)) [
  | inl old ↦ rw old (All-unique P seen rs a.1)
  | inr new ↦ rw new (a.0, All-unique P (canonicalize_spins r.spins ∷ seen) rs a.1)
]

pub admit-lt : (c : ℤ) (rs : List SpinRow) → All (λ r. r.energy_milli <ℤ c) (admit c rs)
unfolding admit
admit-lt c [] = tt
admit-lt c (r ∷ rs) = elim (Bool-cases (ltb_ℤ r.energy_milli c)) [
  | inl under ↦ rw under (ltb_ℤ→lt r.energy_milli c under, admit-lt c rs)
  | inr over ↦ rw over (admit-lt c rs)
]

All-get_elem? {κ} :
    (P : SpinRow → Type κ) (i : ℕ) (r : SpinRow) (rs : List SpinRow)
    → All P rs
    → get_elem? rs i ≡ some r
    → P r
All-get_elem? P i r [] a e = absurd (cc)
All-get_elem? P zero r (s ∷ ss) a e = let same : s ≡ r = cc in subst P same a.0
All-get_elem? P (suc i) r (s ∷ ss) a e = All-get_elem? P i r ss a.1 e

pub All-pick {κ} :
    (P : SpinRow → Type κ) (is : List ℕ) (rs : List SpinRow) → All P rs → All P (pick is rs)
unfolding pick
All-pick P [] rs a = tt
All-pick P (i ∷ is) rs a = elim (Option-cases (get_elem? rs i)) [
  | inl n ↦ rw (n, pick) (All-pick P is rs a)
  | inr (r, e) ↦ rw (e, pick) (All-get_elem? P i r rs a e, All-pick P is rs a)
]

pub length-pick : (is : List ℕ) (rs : List SpinRow) → length (pick is rs) ≤ length is
unfolding pick
length-pick [] rs = omega arith
length-pick (i ∷ is) rs = ground (arith, length-pick is rs)
