-- ===== src/Validate/Energy.antt =====
-- The energy of a row and of its flip (`energy_of_row` of
-- `crates/quip-coordinator/src/validate.rs`).
use quip_miner.Prelude.{
  ℕ, zero, suc, List, [], ◌∷◌, Option, none, some, ◌≡◌, refl, ap, sym, ◌∙◌, ◌==◌, Bool-cases,
  replicate, length, get_elem?, arith, inl, inr, Option-cases, if_ind,
}
use quip_miner.Prelude.Int.{ℤ, pos, negsuc, ◌+ℤ◌, ◌-ℤ◌, ◌*ℤ◌, int_laws}
use quip_miner.Validate.{
  flip, canonicalize_spins, is_minus_one, field_energy, coupling_energy, energy_of_row,
}

mul_neg : (a b : ℤ) → a *ℤ (pos 0 -ℤ b) ≡ pos 0 -ℤ (a *ℤ b)
unfolding ◌*ℤ◌ ◌-ℤ◌
mul_neg (pos m) (pos zero) = ground arith
mul_neg (pos m) (pos (suc n)) = grind arith
mul_neg (pos m) (negsuc n) = grind arith
mul_neg (negsuc m) (pos zero) = ground arith
mul_neg (negsuc m) (pos (suc n)) = grind arith
mul_neg (negsuc m) (negsuc n) = grind arith

neg_mul : (a b : ℤ) → (pos 0 -ℤ a) *ℤ b ≡ pos 0 -ℤ (a *ℤ b)
unfolding ◌*ℤ◌ ◌-ℤ◌
neg_mul (pos zero) b = ground arith
neg_mul (pos (suc m)) (pos n) = grind arith
neg_mul (pos (suc m)) (negsuc n) = grind arith
neg_mul (negsuc m) (pos n) = grind arith
neg_mul (negsuc m) (negsuc n) = grind arith

neg_neg : (a : ℤ) → pos 0 -ℤ (pos 0 -ℤ a) ≡ a
neg_neg a = omega int_laws

product_flip : (c a b : ℤ) → c *ℤ (pos 0 -ℤ a) *ℤ (pos 0 -ℤ b) ≡ c *ℤ a *ℤ b
product_flip c a b =
    rw (mul_neg c a, neg_mul (c *ℤ a) (pos 0 -ℤ b), mul_neg (c *ℤ a) b) (neg_neg (c *ℤ a *ℤ b))

zero_mul : (a : ℤ) → pos 0 *ℤ a ≡ pos 0
unfolding ◌*ℤ◌
zero_mul (pos n) = grind arith
zero_mul (negsuc n) = grind arith

negated : Option ℤ → Option ℤ
negated none = none
negated (some x) = some (pos 0 -ℤ x)

get_elem?-flip : (s : List ℤ) (i : ℕ) → get_elem? (flip s) i ≡ negated (get_elem? s i)
unfolding negated
get_elem?-flip [] i = refl
get_elem?-flip (x ∷ xs) zero = refl
get_elem?-flip (x ∷ xs) (suc i) = get_elem?-flip xs i

length-flip : (s : List ℤ) → length (flip s) ≡ length s
length-flip [] = refl
length-flip (x ∷ xs) = ap suc (length-flip xs)

coupling_energy-flip :
    (s : List ℤ) (e : ℤ) (es : List (ℕ × ℕ)) (js : List ℤ)
    → coupling_energy (flip s) e es js ≡ coupling_energy s e es js
unfolding coupling_energy negated
coupling_energy-flip s e [] js = refl
coupling_energy-flip s e ((u, v) ∷ es) [] = refl
coupling_energy-flip s e ((u, v) ∷ es) (c ∷ js) = elim (Option-cases (get_elem? s u)) [
  | inl n ↦ rw (coupling_energy, get_elem?-flip s u, n) refl
  | inr (su, hu) ↦ elim (Option-cases (get_elem? s v)) [
    | inl n ↦ rw (coupling_energy, get_elem?-flip s u, hu, get_elem?-flip s v, n) refl
    | inr (sv, hv) ↦
        rw (coupling_energy, get_elem?-flip s u, hu, get_elem?-flip s v, hv, product_flip c su sv)
          (coupling_energy-flip s (e +ℤ c *ℤ su *ℤ sv) es js)
  ]
]

add_zero : (a : ℤ) → a +ℤ pos 0 ≡ a
add_zero a = omega int_laws

field_energy_zero : (n : ℕ) (e : ℤ) (s : List ℤ) → field_energy e (replicate n (pos 0)) s ≡ e
unfolding field_energy
field_energy_zero zero e s = refl
field_energy_zero (suc n) e [] = refl
field_energy_zero (suc n) e (x ∷ xs) =
    let same : e +ℤ pos 0 *ℤ x ≡ e = rw (zero_mul x) (add_zero e) in
    ap (λ a. field_energy a (replicate n (pos 0)) xs) same ∙ field_energy_zero n e xs

flip-energy_of_row :
    (s : List ℤ) (n : ℕ) (es : List (ℕ × ℕ)) (js : List ℤ)
    → energy_of_row (flip s) (replicate n (pos 0)) es js
      ≡ energy_of_row s (replicate n (pos 0)) es js
unfolding energy_of_row
flip-energy_of_row s n es js = elim (Bool-cases (length s == length (replicate n (pos 0)))) [
  | inl fits ↦
      rw (energy_of_row, length-flip s, fits)
        (ap (λ e. coupling_energy (flip s) e es js) (unscored (flip s))
          ∙ coupling_energy-flip s (pos 0) es js
          ∙ ap (λ e. coupling_energy s e es js) (sym (unscored s)))
  | inr short ↦ rw (energy_of_row, length-flip s, short) refl
]
  where
    unscored : (r : List ℤ) → field_energy (pos 0) (replicate n (pos 0)) r ≡ pos 0
    unscored r = field_energy_zero n (pos 0) r

-- Where every field is zero, a row and its canonical form have the same energy, or both have none:
-- counting a row and its flip once loses no energy.
pub energy_of_row-canonicalize_spins :
    (s : List ℤ) (n : ℕ) (es : List (ℕ × ℕ)) (js : List ℤ)
    → energy_of_row (canonicalize_spins s) (replicate n (pos 0)) es js
      ≡ energy_of_row s (replicate n (pos 0)) es js
unfolding canonicalize_spins
energy_of_row-canonicalize_spins [] n es js = refl
energy_of_row-canonicalize_spins (x ∷ xs) n es js =
    if_ind
      (λ (t : List ℤ).
        energy_of_row t (replicate n (pos 0)) es js
        ≡ energy_of_row (x ∷ xs) (replicate n (pos 0)) es js)
      (is_minus_one x) (flip-energy_of_row (x ∷ xs) n es js) refl
