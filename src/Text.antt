-- ===== src/Text.antt =====
-- Texts: a `str` as its list of characters (code points), with the operations of Rust's standard
-- library that `crates/quip-coordinator/src/survey.rs`, `readiness.rs` and `chain/submit.rs` use.
pub mod Slices
use Prim.Native.Char.{code}
use Prim.Native.String.{String}
use quip_miner.Prelude.{
  ℕ, zero, suc, ◌+◌, ◌-◌, ◌/◌, ◌%◌, ◌≤◌, Bool, true, false, not, ◌&&◌, ◌||◌, List, [], ◌∷◌, ◌++◌,
  Option, none, some, ◌≡◌, refl, length, length-append, ltb, leb, ◌==◌, if◌then◌else◌, arith,
}
use quip_miner.Prelude.Bytes.{Bytes}

abbrev pub Text : Type 0
Text = List ℕ

-- The characters of a literal.
abbrev pub codes : String → Text
codes String.[] = []
codes (String.◌∷◌ c s) = code c ∷ codes s

-- `char::len_utf8`
abbrev pub char_len : ℕ → ℕ
char_len c = if ltb c 128 then 1 else if ltb c 2048 then 2 else if ltb c 65536 then 3 else 4

-- `str::len`, in bytes
unfoldable pub text_len : Text → ℕ
text_len [] = 0
text_len (c ∷ s) = char_len c + text_len s

abbrev pub encode_char : ℕ → Bytes
encode_char c =
    if ltb c 128
    then c ∷ []
    else if ltb c 2048
    then (192 + c / 64) ∷ (128 + c % 64) ∷ []
    else if ltb c 65536
    then (224 + c / 4096) ∷ (128 + c / 64 % 64) ∷ (128 + c % 64) ∷ []
    else (240 + c / 262144) ∷ (128 + c / 4096 % 64) ∷ (128 + c / 64 % 64) ∷ (128 + c % 64) ∷ []

-- `str::as_bytes`
unfoldable pub as_bytes : Text → Bytes
as_bytes [] = []
as_bytes (c ∷ s) = encode_char c ++ as_bytes s

-- `char::is_control`, the category Cc.
abbrev pub is_control : ℕ → Bool
is_control c = ltb c 32 || (leb 127 c && leb c 159)

-- `char::is_whitespace`, the property White_Space.
abbrev pub is_whitespace : ℕ → Bool
is_whitespace c =
    (leb 9 c && leb c 13)
    || c == 32
    || c == 0x85
    || c == 0xa0
    || c == 0x1680
    || (leb 0x2000 c && leb c 0x200a)
    || c == 0x2028
    || c == 0x2029
    || c == 0x202f
    || c == 0x205f
    || c == 0x3000

unfoldable pub trim_start : Text → Text
trim_start [] = []
trim_start (c ∷ s) = if is_whitespace c then trim_start s else c ∷ s

abbrev pub keep_unless_last : ℕ → Text → Text
keep_unless_last c [] = if is_whitespace c then [] else c ∷ []
keep_unless_last c (d ∷ s) = c ∷ d ∷ s

unfoldable pub trim_end : Text → Text
trim_end [] = []
trim_end (c ∷ s) = keep_unless_last c (trim_end s)

unfoldable pub trim : Text → Text
unfolding trim_start trim_end
trim s = trim_end (trim_start s)

-- What follows the pattern, where the text starts with it.
unfoldable pub after_prefix : Text → Text → Option Text
after_prefix [] s = some s
after_prefix (p ∷ ps) [] = none
after_prefix (p ∷ ps) (c ∷ s) = if p == c then after_prefix ps s else none

abbrev pub is_some {ℓ} : {A : Type ℓ} → Option A → Bool
is_some none = false
is_some (some a) = true

-- `str::contains`
unfoldable pub str_contains : Text → Text → Bool
unfolding after_prefix
str_contains pattern' [] = is_some (after_prefix pattern' [])
str_contains pattern' (c ∷ s) = is_some (after_prefix pattern' (c ∷ s)) || str_contains pattern' s

-- `str::match_indices`: what follows each match, the matches not overlapping. The number counts the
-- characters of the last match that are still to be passed.
unfoldable pub match_rests : Text → ℕ → Text → List Text
unfolding after_prefix
match_rests pattern' k [] = []
match_rests pattern' (suc k) (c ∷ s) = match_rests pattern' k s
match_rests pattern' zero (c ∷ s) = elim (after_prefix pattern' (c ∷ s)) [
  | none ↦ match_rests pattern' zero s
  | some rest ↦ rest ∷ match_rests pattern' (length pattern' - 1) s
]

unfoldable pub take_while : (ℕ → Bool) → Text → Text
take_while ok [] = []
take_while ok (c ∷ s) = if ok c then c ∷ take_while ok s else []

encode_char-length : (c : ℕ) → length (encode_char c) ≡ char_len c
encode_char-length c = ground arith

pub length-as_bytes : (s : Text) → length (as_bytes s) ≡ text_len s
unfolding as_bytes text_len
length-as_bytes [] = refl
length-as_bytes (c ∷ s) =
    omega
      (arith, length-append (encode_char c) (as_bytes s), encode_char-length c, length-as_bytes s)
