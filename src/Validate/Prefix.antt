-- ===== src/Validate/Prefix.antt =====
-- Prefixes of sorted rows (`crates/quip-coordinator/src/validate.rs`): what a ceiling admits of
-- rows in ascending order of energy, and lists that grow at their end.
use quip_miner.Prelude.{
  ℕ, zero, suc, ◌≤◌, ◌<◌, List, [], ◌∷◌, ◌++◌, Option, none, some, ◌≡◌, refl, ap, All, length, take,
  inl, inr, ◌⊎◌, Option-cases, Bool-cases, arith,
}
use quip_miner.Prelude.Int.{ℤ, ◌≤ℤ◌, ltb_ℤ, ltb_ℤ→lt, ltb_ℤ→le, leb_ℤ, min_ℤ, eq_of_parts}
use quip_miner.Prelude.Sort.{AtMost, IsSorted, insert_by_key, sort_by_key}
use quip_miner.Stash.{SpinRow}
use quip_miner.Validate.{energy, admit, lowest}

admit-above :
    (c : ℤ) (x : SpinRow) (xs : List SpinRow)
    → c ≤ℤ x.energy_milli
    → AtMost energy x xs
    → admit c xs ≡ []
unfolding admit
admit-above c x [] h a = refl
admit-above c x (y ∷ ys) h a = elim (Bool-cases (ltb_ℤ y.energy_milli c)) [
  | inl under ↦ absurd (omega (arith, ltb_ℤ→lt y.energy_milli c under))
  | inr over ↦ rw over (admit-above c x ys h a.1)
]

-- Of sorted rows a ceiling admits a prefix.
pub admit-take :
    (c : ℤ) (xs : List SpinRow) → IsSorted energy xs → admit c xs ≡ take (length (admit c xs)) xs
unfolding admit
admit-take c [] r = refl
admit-take c (x ∷ xs) r = elim (Bool-cases (ltb_ℤ x.energy_milli c)) [
  | inl under ↦ rw under (ap (λ ys. x ∷ ys) (admit-take c xs r.1))
  | inr over ↦ rw (over, admit-above c x xs (ltb_ℤ→le x.energy_milli c over) r.0) refl
]

pub length-admit : (c : ℤ) (xs : List SpinRow) → length (admit c xs) ≤ length xs
unfolding admit
length-admit c [] = omega arith
length-admit c (x ∷ xs) = ground (arith, length-admit c xs)

pub take-snoc_le {ℓ} :
    {A : Type ℓ} (n : ℕ) (xs : List A) (x : A) → n ≤ length xs → take n (xs ++ x ∷ []) ≡ take n xs
take-snoc_le zero xs x h = refl
take-snoc_le (suc n) [] x h = absurd (omega arith)
take-snoc_le (suc n) (y ∷ ys) x h = ap (λ zs. y ∷ zs) (take-snoc_le n ys x (omega arith))

take-nil {ℓ} : {A : Type ℓ} (n : ℕ) → take {A = A} n [] ≡ []
take-nil zero = refl
take-nil (suc n) = refl

pub take-snoc_gt {ℓ} :
    {A : Type ℓ} (n : ℕ) (xs : List A) (x : A)
    → length xs < n
    → take n (xs ++ x ∷ []) ≡ xs ++ x ∷ []
take-snoc_gt zero xs x h = absurd (omega arith)
take-snoc_gt (suc n) [] x h = ap (λ zs. x ∷ zs) (take-nil n)
take-snoc_gt (suc n) (y ∷ ys) x h = ap (λ zs. y ∷ zs) (take-snoc_gt n ys x (omega arith))

AtMost-snoc :
    (x : SpinRow) (xs : List SpinRow) (r : SpinRow)
    → AtMost energy x xs
    → x.energy_milli ≤ℤ r.energy_milli
    → AtMost energy x (xs ++ r ∷ [])
AtMost-snoc x [] r a h = (h, tt)
AtMost-snoc x (y ∷ ys) r a h = (a.0, AtMost-snoc x ys r a.1 h)

pub IsSorted-snoc :
    (xs : List SpinRow) (r : SpinRow)
    → IsSorted energy xs
    → All (λ x. x.energy_milli ≤ℤ r.energy_milli) xs
    → IsSorted energy (xs ++ r ∷ [])
IsSorted-snoc [] r s a = (tt, tt)
IsSorted-snoc (x ∷ xs) r s a = (AtMost-snoc x xs r s.0 a.0, IsSorted-snoc xs r s.1 a.1)

min_ℤ_comm : (a b : ℤ) → min_ℤ a b ≡ min_ℤ b a
unfolding min_ℤ
min_ℤ_comm a b = ground (arith, eq_of_parts a b)

min_ℤ-either : (a b : ℤ) → (min_ℤ a b ≡ a) ⊎ (min_ℤ a b ≡ b)
unfolding min_ℤ
min_ℤ-either a b = ground arith

min_ℤ_swap : (a b c : ℤ) → min_ℤ a (min_ℤ b c) ≡ min_ℤ b (min_ℤ a c)
unfolding min_ℤ
min_ℤ_swap a b c = ground (arith, eq_of_parts a b, eq_of_parts a c, eq_of_parts b c)

-- `lowest` after one more row.
lower : ℤ → Option ℤ → Option ℤ
lower e none = some e
lower e (some m) = some (min_ℤ e m)

lowest-cons : (r : SpinRow) (rs : List SpinRow) → lowest (r ∷ rs) ≡ lower r.energy_milli (lowest rs)
unfolding lowest lower
lowest-cons r rs = ground arith

lower_swap : (a b : ℤ) (m : Option ℤ) → lower a (lower b m) ≡ lower b (lower a m)
unfolding lower
lower_swap a b none = ap some (ground (arith, min_ℤ_comm a b))
lower_swap a b (some m) = ap some (min_ℤ_swap a b m)

lowest-insert_by_key :
    (r : SpinRow) (rs : List SpinRow) → lowest (insert_by_key energy r rs) ≡ lowest (r ∷ rs)
unfolding insert_by_key
lowest-insert_by_key r [] = refl
lowest-insert_by_key r (x ∷ xs) = elim (Bool-cases (leb_ℤ r.energy_milli x.energy_milli)) [
  | inl at ↦ rw at refl
  | inr on ↦ rw on (
      rw (lowest-cons, lowest-insert_by_key r xs, lowest-cons, lowest-cons, lowest-cons)
        (lower_swap x.energy_milli r.energy_milli (lowest xs)))
]

pub lowest-sort_by_key : (rs : List SpinRow) → lowest (sort_by_key energy rs) ≡ lowest rs
unfolding sort_by_key
lowest-sort_by_key [] = refl
lowest-sort_by_key (r ∷ rs) =
    rw
      (
        lowest-insert_by_key r (sort_by_key energy rs),
        lowest-cons,
        lowest-cons,
        lowest-sort_by_key rs,
      )
      refl

lowest-bound :
    (x : SpinRow) (xs : List SpinRow) (e : ℤ)
    → AtMost energy x xs
    → lowest xs ≡ some e
    → x.energy_milli ≤ℤ e
unfolding lowest
lowest-bound x [] e a h = cc
lowest-bound x (y ∷ ys) e a h = elim (Option-cases (lowest ys)) [
  | inl n ↦ ground (arith, n, h, a)
  | inr (m, s) ↦ ground (arith, s, h, a, lowest-bound x ys m a.1 s, min_ℤ-either y.energy_milli m)
]

pub lowest-AtMost :
    (x : SpinRow) (xs : List SpinRow) → AtMost energy x xs → lowest (x ∷ xs) ≡ some x.energy_milli
lowest-AtMost x xs a = elim (Option-cases (lowest xs)) [
  | inl n ↦ rw (lowest-cons, n) (unfold lower in refl)
  | inr (m, s) ↦ rw (lowest-cons, s) (unfold lower min_ℤ in ground (arith, lowest-bound x xs m a s))
]
