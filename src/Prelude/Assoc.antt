-- ===== src/Prelude/Assoc.antt =====
-- A map keyed by byte strings, as an association list; the first entry of a key counts.
use mathlib.Core.Path.{◌≡◌, refl, subst}
use mathlib.Core.List.{List, [], ◌∷◌}
use mathlib.Core.Option.{Option, none, some}
use native.Mathlib.Omega.{arith}
use mathlib.Core.Logic.{inl, inr}
use quip_miner.Prelude.Logic.{if◌then◌else◌, Bool-cases}
use quip_miner.Prelude.Lists.{All}
use quip_miner.Prelude.Bytes.{Bytes, bytes_eq, bytes_eq_iff}

module _ {ℓ} {V : Type ℓ} where
  unfoldable pub get : Bytes → List (Bytes × V) → Option V
  get k [] = none
  get k ((j, v) ∷ m) = if bytes_eq j k then some v else get k m

  -- Writes through an entry that is there; a missing key leaves the map as it was.
  unfoldable pub update : Bytes → V → List (Bytes × V) → List (Bytes × V)
  update k v [] = []
  update k v ((j, w) ∷ m) = if bytes_eq j k then (j, v) ∷ m else (j, w) ∷ update k v m

  -- `HashMap::insert`: replaces the entry of the key or adds one.
  unfoldable pub insert : Bytes → V → List (Bytes × V) → List (Bytes × V)
  insert k v [] = (k, v) ∷ []
  insert k v ((j, w) ∷ m) = if bytes_eq j k then (j, v) ∷ m else (j, w) ∷ insert k v m

  -- `HashMap::remove`.
  unfoldable pub remove : Bytes → List (Bytes × V) → List (Bytes × V)
  remove k [] = []
  remove k ((j, v) ∷ m) = let rest = remove k m in if bytes_eq j k then rest else (j, v) ∷ rest

  abbrev pub keys : List (Bytes × V) → List Bytes
  keys [] = []
  keys ((j, v) ∷ m) = j ∷ keys m

  pub get-remove :
      (k j : Bytes) (m : List (Bytes × V))
      → get j (remove k m) ≡ (if bytes_eq k j then none else get j m)
  unfolding get remove
  get-remove k j [] = ground arith
  get-remove k j ((i, v) ∷ m) =
      ground (arith, bytes_eq_iff k j, bytes_eq_iff i k, bytes_eq_iff i j, get-remove k j m)

  pub get-insert :
      (k j : Bytes) (v : V) (m : List (Bytes × V))
      → get j (insert k v m) ≡ (if bytes_eq k j then some v else get j m)
  unfolding get insert
  get-insert k j v [] = refl
  get-insert k j v ((i, w) ∷ m) =
      ground (arith, bytes_eq_iff k j, bytes_eq_iff i k, bytes_eq_iff i j, get-insert k j v m)

  -- A write through a present key is read back; the other keys keep their entries.
  pub get-update :
      (k j : Bytes) (v w : V) (m : List (Bytes × V))
      → get k m ≡ some w
      → get j (update k v m) ≡ (if bytes_eq k j then some v else get j m)
  unfolding get update
  get-update k j v w [] h = cc
  get-update k j v w ((i, u) ∷ m) h =
      ground (arith, bytes_eq_iff k j, bytes_eq_iff i k, bytes_eq_iff i j, get-update k j v w m)

  pub keys-update : (k : Bytes) (v : V) (m : List (Bytes × V)) → keys (update k v m) ≡ keys m
  unfolding update
  keys-update k v [] = refl
  keys-update k v ((i, u) ∷ m) = ground (arith, keys-update k v m)

  abbrev pub values : List (Bytes × V) → List V
  values [] = []
  values ((j, v) ∷ m) = v ∷ values m

  -- Every key has one entry, as in a `HashMap`.
  abbrev pub IsDistinct : List (Bytes × V) → Type ℓ
  IsDistinct [] = Unit
  IsDistinct ((j, v) ∷ m) = (get j m ≡ none) × IsDistinct m

  pub remove-IsDistinct :
      (k : Bytes) (m : List (Bytes × V)) → IsDistinct m → IsDistinct (remove k m)
  unfolding remove
  remove-IsDistinct k [] d = tt
  remove-IsDistinct k ((j, v) ∷ m) d = elim (Bool-cases (bytes_eq j k)) [
    | inl same ↦ rw same (remove-IsDistinct k m d.1)
    | inr other ↦ rw other (ground (arith, get-remove k j m, d.0), remove-IsDistinct k m d.1)
  ]

  -- A key with an entry is among the keys.
  pub All-get {κ} :
      (P : Bytes → Type κ) (k : Bytes) (v : V) (m : List (Bytes × V))
      → All P (keys m)
      → get k m ≡ some v
      → P k
  unfolding get
  All-get P k v [] h e = cc
  All-get P k v ((j, w) ∷ m) h e = elim (Bool-cases (bytes_eq j k)) [
    | inl same ↦ subst P ((bytes_eq_iff j k).0 same) h.0
    | inr other ↦ All-get P k v m h.1 (rw (other, if◌then◌else◌) at e)
  ]
