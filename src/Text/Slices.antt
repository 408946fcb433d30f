-- ===== src/Text/Slices.antt =====
-- Slices at character boundaries: `str::is_char_boundary` and `str::get(..end)`.
use quip_miner.Prelude.{
  ℕ, zero, suc, ◌+◌, ◌-◌, ◌≤◌, ◌<◌, Bool, true, false, [], ◌∷◌, Option, none, some, ◌≡◌, refl, ap,
  ◌∙◌, inl, inr, Bool-cases, ltb, ltb→lt, ltb→le, ◌==◌, if◌then◌else◌, arith,
}
use quip_miner.Text.{Text, char_len, text_len}

-- `str::is_char_boundary`, at a byte index.
unfoldable pub is_boundary : Text → ℕ → Bool
is_boundary [] i = i == 0
is_boundary (c ∷ s) i =
    if i == 0 then true else if ltb i (char_len c) then false else is_boundary s (i - char_len c)

abbrev pub after : ℕ → Option Text → Option Text
after c none = none
after c (some s) = some (c ∷ s)

-- `str::get(..end)`
unfoldable pub slice_to : Text → ℕ → Option Text
slice_to [] i = if i == 0 then some [] else none
slice_to (c ∷ s) i =
    if i == 0
    then some []
    else if ltb i (char_len c)
    then none
    else after c (slice_to s (i - char_len c))

abbrev pub or_nil : Option Text → Text
or_nil none = []
or_nil (some s) = s

-- The last boundary at or before a byte index: a loop that steps down.
unfoldable pub floor_boundary : Text → ℕ → ℕ
unfolding is_boundary
floor_boundary s zero = 0
floor_boundary s (suc i) = if is_boundary s (suc i) then suc i else floor_boundary s i

-- The longest beginning of a text within a number of bytes.
unfoldable pub fitting : ℕ → Text → Text
fitting limit [] = []
fitting limit (c ∷ s) = if ltb limit (char_len c) then [] else c ∷ fitting (limit - char_len c) s

pub text_len-fitting : (limit : ℕ) (s : Text) → text_len (fitting limit s) ≤ limit
unfolding fitting text_len
text_len-fitting limit [] = omega arith
text_len-fitting limit (c ∷ s) = ground (arith, text_len-fitting (limit - char_len c) s)

pub fitting_whole : (limit : ℕ) (s : Text) → text_len s ≤ limit → fitting limit s ≡ s
unfolding fitting text_len
fitting_whole limit [] h = refl
fitting_whole limit (c ∷ s) h = ground (arith, fitting_whole (limit - char_len c) s)

-- Below the length of the first character the only boundary is the start.
floor_boundary-below : (c : ℕ) (s : Text) (i : ℕ) → i < char_len c → floor_boundary (c ∷ s) i ≡ 0
unfolding floor_boundary is_boundary
floor_boundary-below c s zero h = refl
floor_boundary-below c s (suc i) h = ground (arith, floor_boundary-below c s i)

char_len_pos : (c : ℕ) → 1 ≤ char_len c
char_len_pos c = ground arith

is_boundary-start : (s : Text) → is_boundary s 0 ≡ true
unfolding is_boundary
is_boundary-start [] = refl
is_boundary-start (c ∷ s) = refl

is_boundary-cons :
    (c : ℕ) (s : Text) (n i : ℕ)
    → char_len c ≡ n
    → 1 ≤ n
    → is_boundary (c ∷ s) (n + i) ≡ is_boundary s i
unfolding is_boundary
is_boundary-cons c s n i e h =
    let a : n + i - n ≡ i = omega arith in
    let z : (n + i == 0) ≡ false = ground arith in
    let l : ltb (n + i) n ≡ false = ground arith in rw (e, z, l, a) refl

module _ (c : ℕ) (s : Text) where
  step_down :
      (j : ℕ) (b : Bool)
      → is_boundary (c ∷ s) j ≡ b
      → 1 ≤ j
      → floor_boundary (c ∷ s) j ≡ (if b then j else floor_boundary (c ∷ s) (j - 1))
  unfolding floor_boundary
  step_down zero b e h = absurd (omega arith)
  step_down (suc j) true e h = rw e refl
  step_down (suc j) false e h = let d : suc j - 1 ≡ j = omega arith in rw (e, d) refl

  floor_boundary-above :
      (n i : ℕ) → char_len c ≡ n → 1 ≤ n → floor_boundary (c ∷ s) (n + i) ≡ n + floor_boundary s i
  unfolding floor_boundary
  floor_boundary-above n zero e h =
      let b : is_boundary (c ∷ s) (n + 0) ≡ true =
        is_boundary-cons c s n 0 e h ∙ is_boundary-start s in
      step_down (n + 0) true b (omega arith)
  floor_boundary-above n (suc i) e h = elim (Bool-cases (is_boundary s (suc i))) [
    | inl yes' ↦
        rw yes'
          (step_down (n + suc i) true (is_boundary-cons c s n (suc i) e h ∙ yes') (omega arith))
    | inr no' ↦
        let d : n + suc i - 1 ≡ n + i = omega arith in
        rw no' (
          step_down (n + suc i) false (is_boundary-cons c s n (suc i) e h ∙ no') (omega arith)
          ∙ ap (floor_boundary (c ∷ s)) d
          ∙ floor_boundary-above n i e h)
  ]

slice_to-cons :
    (c : ℕ) (s : Text) (n i : ℕ)
    → char_len c ≡ n
    → 1 ≤ n
    → slice_to (c ∷ s) (n + i) ≡ after c (slice_to s i)
unfolding slice_to
slice_to-cons c s n i e h =
    let a : n + i - n ≡ i = omega arith in
    let z : (n + i == 0) ≡ false = ground arith in
    let l : ltb (n + i) n ≡ false = ground arith in rw (e, z, l, a) refl

slice_to-start : (s : Text) → slice_to s 0 ≡ some []
unfolding slice_to
slice_to-start [] = refl
slice_to-start (c ∷ s) = refl

floor_boundary-nil : (k : ℕ) → floor_boundary [] k ≡ 0
unfolding floor_boundary is_boundary
floor_boundary-nil zero = refl
floor_boundary-nil (suc k) = ground (arith, floor_boundary-nil k)

-- The slice up to the last boundary in reach is the longest beginning that fits.
pub slice_to-floor_boundary :
    (s : Text) (limit : ℕ) → slice_to s (floor_boundary s limit) ≡ some (fitting limit s)
unfolding fitting
slice_to-floor_boundary [] limit = ap (slice_to []) (floor_boundary-nil limit) ∙ slice_to-start []
slice_to-floor_boundary (c ∷ s) limit = elim (Bool-cases (ltb limit (char_len c))) [
  | inl short ↦
      rw (short, floor_boundary-below c s limit (ltb→lt limit (char_len c) short))
        (slice_to-start (c ∷ s))
  | inr fits ↦
      let j : ℕ = limit - char_len c in
      let e : limit ≡ char_len c + j = omega (arith, ltb→le limit (char_len c) fits) in
      rw fits (
        ap (λ k. slice_to (c ∷ s) (floor_boundary (c ∷ s) k)) e
        ∙ ap (slice_to (c ∷ s)) (floor_boundary-above c s (char_len c) j refl (char_len_pos c))
        ∙ slice_to-cons c s (char_len c) (floor_boundary s j) refl (char_len_pos c)
        ∙ ap (after c) (slice_to-floor_boundary s j))
]
