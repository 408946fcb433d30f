-- ===== src/Survey/Credential.antt =====
-- The scan for credentials: `looks_like_credential` of `crates/quip-coordinator/src/survey.rs` with its
-- helpers. `str::to_lowercase` is a parameter.
use quip_miner.Prelude.{
  ℕ, Bool, false, not, ◌&&◌, ◌||◌, List, [], ◌∷◌, leb, ◌==◌, if◌then◌else◌, length,
}
use quip_miner.Text.{
  Text, codes, text_len, is_whitespace, trim_start, str_contains, match_rests, take_while,
}

unfoldable pub is_token_char : ℕ → Bool
is_token_char c =
    (leb 48 c && leb c 57)
    || (leb 65 c && leb c 90)
    || (leb 97 c && leb c 122)
    || c == 46
    || c == 45
    || c == 95

-- Whether one of the texts is in the value, and whether one of them is assigned in it.
abbrev pub any {ℓ} : {A : Type ℓ} → (A → Bool) → List A → Bool
any p [] = false
any p (x ∷ xs) = p x || any p xs

unfoldable pub has_prefixed_run : Text → Text → ℕ → (ℕ → Bool) → Bool
unfolding match_rests take_while
has_prefixed_run value prefix run ok =
    any (λ rest. leb run (length (take_while ok rest))) (match_rests prefix 0 value)

abbrev pub not_space : ℕ → Bool
not_space c = not (is_whitespace c)

-- The first word after the separator, where there is one, has eight bytes at least.
unfoldable pub has_long_word : Text → Bool
unfolding trim_start take_while text_len
has_long_word tail = elim (take_while not_space (trim_start tail)) [
  | [] ↦ false
  | c ∷ s ↦ leb 8 (text_len (c ∷ s))
]

abbrev pub assigned : Text → Bool
assigned [] = false
assigned (sep ∷ tail) = (sep == 58 || sep == 61) && has_long_word tail

unfoldable pub assigns_value : Text → Text → Bool
unfolding match_rests trim_start has_long_word
assigns_value haystack key = any (λ rest. assigned (trim_start rest)) (match_rests key 0 haystack)

unfoldable pub squash : Text → Text
squash [] = []
squash (c ∷ s) = if c == 45 || c == 95 then squash s else c ∷ squash s

abbrev pub needles : List Text
needles =
    codes "dwaveapikey"
    ∷ codes "dwaveapitoken"
    ∷ codes "awsaccesskey"
    ∷ codes "awssecretkey"
    ∷ codes "privatekey"
    ∷ []

abbrev pub keys : List Text
keys = codes "apikey" ∷ codes "token" ∷ codes "secret" ∷ codes "password" ∷ []

abbrev pub is_upper_or_digit : ℕ → Bool
is_upper_or_digit c = (leb 65 c && leb c 90) || (leb 48 c && leb c 57)

-- Of a value and its lowercase.
unfoldable pub looks_like_credential : (Text → Text) → Text → Bool
unfolding str_contains squash assigns_value has_prefixed_run is_token_char
looks_like_credential to_lowercase value =
    let lowered = to_lowercase value in
    any (λ needle. str_contains needle (squash lowered)) needles
    || any (λ key. assigns_value lowered key) keys
    || has_prefixed_run value (codes "AKIA") 16 is_upper_or_digit
    || has_prefixed_run lowered (codes "sk-") 20 is_token_char
    || has_prefixed_run lowered (codes "bearer ") 20 is_token_char
    || has_prefixed_run value (codes "eyJ") 20 is_token_char
