-- ===== src/Prelude/Sort.antt =====
-- Stable sorting by an integer key, as `sort_by_key` does, and lists that are sorted by it.
use mathlib.Core.Path.{◌≡◌, refl}
use mathlib.Core.List.{List, [], ◌∷◌, Perm}
use mathlib.Core.List.Perm
use mathlib.Core.Logic.{inl, inr}
use Prim.Native.Nat.{ℕ, zero, suc}
use native.Mathlib.Omega.{arith}
use quip_miner.Prelude.Logic.{Bool-cases, if◌then◌else◌}
use quip_miner.Prelude.Lists.{All, length, take}
use quip_miner.Prelude.Int.{ℤ, ◌≤ℤ◌, leb_ℤ, leb_ℤ→le, leb_ℤ→lt}

module _ {ℓ} {A : Type ℓ} (key : A → ℤ) where
  -- Of two equal keys the earlier stays first.
  unfoldable pub insert_by_key : A → List A → List A
  insert_by_key x [] = x ∷ []
  insert_by_key x (y ∷ ys) = if leb_ℤ (key x) (key y) then x ∷ y ∷ ys else y ∷ insert_by_key x ys

  unfoldable pub sort_by_key : List A → List A
  unfolding insert_by_key
  sort_by_key [] = []
  sort_by_key (x ∷ xs) = insert_by_key x (sort_by_key xs)

  -- No key of the list is below that of the element.
  abbrev pub AtMost : A → List A → Type 0
  AtMost x = All (λ y. key x ≤ℤ key y)

  abbrev pub IsSorted : List A → Type 0
  IsSorted [] = Unit
  IsSorted (x ∷ xs) = AtMost x xs × IsSorted xs

  pub AtMost-trans : (x y : A) (zs : List A) → key x ≤ℤ key y → AtMost y zs → AtMost x zs
  AtMost-trans x y [] h n = tt
  AtMost-trans x y (z ∷ zs) h n = (omega arith, AtMost-trans x y zs h n.1)

  AtMost-insert_by_key :
      (b x : A) (ys : List A) → key b ≤ℤ key x → AtMost b ys → AtMost b (insert_by_key x ys)
  unfolding insert_by_key
  AtMost-insert_by_key b x [] h n = (h, tt)
  AtMost-insert_by_key b x (y ∷ ys) h n = elim (Bool-cases (leb_ℤ (key x) (key y))) [
    | inl at ↦ rw at (h, n)
    | inr on ↦ rw on (n.0, AtMost-insert_by_key b x ys h n.1)
  ]

  insert_by_key-IsSorted : (x : A) (ys : List A) → IsSorted ys → IsSorted (insert_by_key x ys)
  unfolding insert_by_key
  insert_by_key-IsSorted x [] r = (tt, tt)
  insert_by_key-IsSorted x (y ∷ ys) r = elim (Bool-cases (leb_ℤ (key x) (key y))) [
    | inl at ↦ let le = leb_ℤ→le (key x) (key y) at in rw at ((le, AtMost-trans x y ys le r.0), r)
    | inr on ↦
        let lt = leb_ℤ→lt (key x) (key y) on in
        rw on (AtMost-insert_by_key y x ys (omega (arith, lt)) r.0, insert_by_key-IsSorted x ys r.1)
  ]

  pub sort_by_key-IsSorted : (xs : List A) → IsSorted (sort_by_key xs)
  unfolding sort_by_key
  sort_by_key-IsSorted [] = tt
  sort_by_key-IsSorted (x ∷ xs) =
      insert_by_key-IsSorted x (sort_by_key xs) (sort_by_key-IsSorted xs)

  insert_by_key-perm : (x : A) (ys : List A) → Perm (insert_by_key x ys) (x ∷ ys)
  unfolding insert_by_key
  insert_by_key-perm x [] = Perm.refl _
  insert_by_key-perm x (y ∷ ys) = elim (Bool-cases (leb_ℤ (key x) (key y))) [
    | inl at ↦ rw at (Perm.refl _)
    | inr on ↦ rw on (Perm.trans (Perm.cons y (insert_by_key-perm x ys)) (Perm.swap x y ys))
  ]

  pub sort_by_key-perm : (xs : List A) → Perm (sort_by_key xs) xs
  unfolding sort_by_key
  sort_by_key-perm [] = Perm.refl _
  sort_by_key-perm (x ∷ xs) =
      Perm.trans (insert_by_key-perm x (sort_by_key xs)) (Perm.cons x (sort_by_key-perm xs))

  length-insert_by_key : (x : A) (ys : List A) → length (insert_by_key x ys) ≡ suc (length ys)
  unfolding insert_by_key
  length-insert_by_key x [] = refl
  length-insert_by_key x (y ∷ ys) = ground (arith, length-insert_by_key x ys)

  pub length-sort_by_key : (xs : List A) → length (sort_by_key xs) ≡ length xs
  unfolding sort_by_key
  length-sort_by_key [] = refl
  length-sort_by_key (x ∷ xs) =
      omega (arith, length-insert_by_key x (sort_by_key xs), length-sort_by_key xs)

  AtMost-take : (n : ℕ) (x : A) (xs : List A) → AtMost x xs → AtMost x (take n xs)
  AtMost-take zero x xs h = tt
  AtMost-take (suc n) x [] h = tt
  AtMost-take (suc n) x (y ∷ ys) h = (h.0, AtMost-take n x ys h.1)

  pub take-IsSorted : (n : ℕ) (xs : List A) → IsSorted xs → IsSorted (take n xs)
  take-IsSorted zero xs r = tt
  take-IsSorted (suc n) [] r = tt
  take-IsSorted (suc n) (x ∷ xs) r = (AtMost-take n x xs r.0, take-IsSorted n xs r.1)
