-- ===== src/Survey/Printable.antt =====
-- What is left of a scrubbed text (`scrub` of `crates/quip-coordinator/src/survey.rs`).
use quip_miner.Prelude.{
  ℕ, Bool, true, false, not, ◌&&◌, ◌||◌, [], ◌∷◌, ◌++◌, ◌≡◌, refl, ap, ◌∙◌, ◌⊎◌, inl, inr,
  Bool-cases, ◌==◌, if◌then◌else◌, arith,
}
use quip_miner.Text.{Text, is_whitespace, is_control, trim_start, trim_end, trim, keep_unless_last}
use quip_miner.Survey.{is_dropped, is_nil, is_invisible, scrub_loop, scrub}

-- A text that ends with a visible character and has single spaces after such ones only; the flag says
-- that a visible character stands before it.
unfoldable pub ends_visible : Bool → Text → Bool
unfolding is_dropped
ends_visible after [] = after
ends_visible after (c ∷ s) =
    if is_dropped c then (c == 32) && after && ends_visible false s else ends_visible true s

-- Visible words with single spaces between them.
abbrev pub IsTidy : Text → Type 0
IsTidy s = (s ≡ []) ⊎ (ends_visible false s ≡ true)

ends_visible-append :
    (after : Bool) (out t : Text)
    → ends_visible after out ≡ true
    → ends_visible after (out ++ t) ≡ ends_visible true t
unfolding ends_visible
ends_visible-append after [] t h = rw h refl
ends_visible-append after (c ∷ out) t h = elim (Bool-cases (is_dropped c)) [
  | inl gone ↦ ground (arith, gone, ends_visible-append false out t)
  | inr kept ↦ ground (arith, kept, ends_visible-append true out t)
]

visible-ends : (c : ℕ) (after : Bool) → is_dropped c ≡ false → ends_visible after (c ∷ []) ≡ true
unfolding ends_visible
visible-ends c after h = rw h refl

spaced-ends : (c : ℕ) → is_dropped c ≡ false → ends_visible true (32 ∷ c ∷ []) ≡ true
unfolding ends_visible
spaced-ends c h = rw h refl

abbrev spaced : Bool → Text → Text
spaced gap out = if gap && not (is_nil out) then out ++ 32 ∷ [] else out

append_two : (out : Text) (a b : ℕ) → (out ++ a ∷ []) ++ b ∷ [] ≡ out ++ a ∷ b ∷ []
append_two [] a b = refl
append_two (x ∷ out) a b = ap (λ t. x ∷ t) (append_two out a b)

push-IsTidy :
    (gap : Bool) (out : Text) (c : ℕ)
    → IsTidy out
    → is_dropped c ≡ false
    → ends_visible false (spaced gap out ++ c ∷ []) ≡ true
push-IsTidy gap [] c t h = ground (arith, visible-ends c false h)
push-IsTidy gap (x ∷ out) c (inl e) h = cc
push-IsTidy false (x ∷ out) c (inr e) h =
    ends_visible-append false (x ∷ out) (c ∷ []) e ∙ visible-ends c true h
push-IsTidy true (x ∷ out) c (inr e) h =
    ap (ends_visible false) (append_two (x ∷ out) 32 c)
    ∙ ends_visible-append false (x ∷ out) (32 ∷ c ∷ []) e
    ∙ spaced-ends c h

scrub_loop-IsTidy : (gap : Bool) (out s : Text) → IsTidy out → IsTidy (scrub_loop gap out s)
unfolding scrub_loop
scrub_loop-IsTidy gap out [] t = t
scrub_loop-IsTidy gap out (c ∷ s) t = elim (Bool-cases (is_dropped c)) [
  | inl gone ↦ rw gone (scrub_loop-IsTidy true out s t)
  | inr kept ↦
      rw kept
        (scrub_loop-IsTidy false (spaced gap out ++ c ∷ []) s (inr (push-IsTidy gap out c t kept)))
]

append_one : (out : Text) (c : ℕ) (s : Text) → (out ++ c ∷ []) ++ s ≡ out ++ c ∷ s
append_one [] c s = refl
append_one (x ∷ out) c s = ap (λ t. x ∷ t) (append_one out c s)

snoc-full : (out : Text) (c : ℕ) → is_nil (out ++ c ∷ []) ≡ false
snoc-full [] c = refl
snoc-full (x ∷ out) c = refl

append_empty : (out : Text) → out ≡ out ++ []
append_empty [] = refl
append_empty (x ∷ out) = ap (λ t. x ∷ t) (append_empty out)

spaced_full : (out : Text) → is_nil out ≡ false → spaced true out ≡ out ++ 32 ∷ []
spaced_full out f = rw f refl

-- A tidy rest is written after what is there, with the space that is due.
scrub_loop-tidy :
    (after : Bool) (out s : Text)
    → is_nil out ≡ false
    → ends_visible after s ≡ true
    → scrub_loop (not after) out s ≡ spaced (not after) out ++ s
unfolding scrub_loop ends_visible
scrub_loop-tidy true out [] f h = append_empty out
scrub_loop-tidy false out [] f h = cc
scrub_loop-tidy true out (c ∷ s) f h = elim (Bool-cases (is_dropped c)) [
  | inl gone ↦
      let tail : ends_visible false s ≡ true = ground (arith, gone, h) in
      let space : 32 ≡ c = ground (arith, gone, h) in
      rw gone (
        scrub_loop-tidy false out s f tail
        ∙ ap (λ t. t ++ s) (spaced_full out f)
        ∙ append_one out 32 s
        ∙ ap (λ k. out ++ k ∷ s) space)
  | inr kept ↦
      let tail : ends_visible true s ≡ true = ground (arith, kept, h) in
      rw kept (scrub_loop-tidy true (out ++ c ∷ []) s (snoc-full out c) tail ∙ append_one out c s)
]
scrub_loop-tidy false out (c ∷ s) f h = elim (Bool-cases (is_dropped c)) [
  | inl gone ↦ ground (arith, gone, h)
  | inr kept ↦
      let tail : ends_visible true s ≡ true = ground (arith, kept, h) in
      rw kept (
        scrub_loop-tidy true (spaced true out ++ c ∷ []) s (snoc-full (spaced true out) c) tail
        ∙ append_one (spaced true out) c s)
]

scrub_tidy : (s : Text) → IsTidy s → scrub s ≡ s
unfolding scrub scrub_loop ends_visible
scrub_tidy [] t = refl
scrub_tidy (c ∷ s) (inl e) = cc
scrub_tidy (c ∷ s) (inr e) = elim (Bool-cases (is_dropped c)) [
  | inl gone ↦ ground (arith, gone, e)
  | inr kept ↦
      let tail : ends_visible true s ≡ true = ground (arith, kept, e) in
      rw kept (scrub_loop-tidy true (c ∷ []) s refl tail)
]

no_part : (a b c : Bool) → (a || b || c) ≡ false → b ≡ false
no_part true b c h = cc
no_part false true c h = cc
no_part false false c h = refl

space-dropped : (c : ℕ) → is_dropped c ≡ false → is_whitespace c ≡ false
unfolding is_dropped
space-dropped c h = no_part (is_control c) (is_whitespace c) (is_invisible c) h

starts_visible : (c : ℕ) (s : Text) → is_dropped c ≡ false → trim_start (c ∷ s) ≡ c ∷ s
unfolding trim_start
starts_visible c s kept = rw (space-dropped c kept) refl

no_end : (c : ℕ) (after : Bool) → is_dropped c ≡ true → ends_visible after (c ∷ []) ≡ true → ⊥
unfolding ends_visible
no_end c after gone h = ground (arith, gone, h)

last_and : (a b c : Bool) → (a && b && c) ≡ true → c ≡ true
last_and false b c h = cc
last_and true false c h = cc
last_and true true c h = h

after_space :
    (c : ℕ) (after : Bool) (s : Text)
    → is_dropped c ≡ true
    → ends_visible after (c ∷ s) ≡ true
    → ends_visible false s ≡ true
unfolding ends_visible
after_space c after s gone h =
    let k : ((c == 32) && after && ends_visible false s) ≡ true = rw gone at h in
    last_and (c == 32) after (ends_visible false s) k

trim_end_visible : (after : Bool) (s : Text) → ends_visible after s ≡ true → trim_end s ≡ s
unfolding trim_end ends_visible
trim_end_visible after [] h = refl
trim_end_visible after (c ∷ []) h = elim (Bool-cases (is_dropped c)) [
  | inl gone ↦ absurd (no_end c after gone h)
  | inr kept ↦ rw (space-dropped c kept) refl
]
trim_end_visible after (c ∷ d ∷ s) h = elim (Bool-cases (is_dropped c)) [
  | inl gone ↦
      ap (keep_unless_last c) (trim_end_visible false (d ∷ s) (after_space c after (d ∷ s) gone h))
  | inr kept ↦
      let tail : ends_visible true (d ∷ s) ≡ true = ground (arith, kept, h) in
      ap (keep_unless_last c) (trim_end_visible true (d ∷ s) tail)
]

-- Trimming leaves a tidy text alone.
trim_tidy : (s : Text) → IsTidy s → trim s ≡ s
unfolding trim trim_start trim_end ends_visible
trim_tidy [] t = refl
trim_tidy (c ∷ s) (inl e) = cc
trim_tidy (c ∷ s) (inr e) = elim (Bool-cases (is_dropped c)) [
  | inl gone ↦ ground (arith, gone, e)
  | inr kept ↦ ap trim_end (starts_visible c s kept) ∙ trim_end_visible false (c ∷ s) e
]

-- A scrubbed text has visible words with single spaces between them, so that scrubbing or trimming it
-- again changes nothing.
pub scrub_lem :
    (value : Text)
    → IsTidy (scrub value)
      × (scrub (scrub value) ≡ scrub value)
      × (trim (scrub value) ≡ scrub value)
unfolding scrub
scrub_lem value =
    let tidy : IsTidy (scrub value) = scrub_loop-IsTidy false [] value (inl refl) in
    (tidy, scrub_tidy (scrub value) tidy, trim_tidy (scrub value) tidy)
