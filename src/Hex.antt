-- ===== src/Hex.antt =====
-- Hexadecimal text: `hex_encode` and `hex_decode` of `crates/quip-coordinator/src/chain/extrinsic.rs`.
-- A string is its UTF-8 bytes.
mod Examples
use quip_miner.Prelude.{
  ℕ, zero, suc, ◌+◌, ◌*◌, ◌/◌, ◌%◌, ◌-◌, ◌<◌, Bool, true, false, ◌&&◌, List, [], ◌∷◌, Option, none,
  some, ◌≡◌, refl, ◌⊎◌, inl, inr, All, ltb, leb, ◌==◌, if◌then◌else◌, length, arith,
}
use quip_miner.Prelude.Bytes.{Bytes}

-- Which of the two messages the error has.
pub data HexError : Type 0 where
  odd_length : ℕ → HexError
  invalid_digit : HexError

-- A digit as `{b:02x}` writes it.
abbrev pub hex_digit : ℕ → ℕ
hex_digit n = if ltb n 10 then 48 + n else 87 + n

unfoldable pub hex_digits : Bytes → Bytes
hex_digits [] = []
hex_digits (b ∷ bs) = hex_digit (b / 16) ∷ hex_digit (b % 16) ∷ hex_digits bs

unfoldable pub hex_encode : Bytes → Bytes
unfolding hex_digits
hex_encode bytes = 48 ∷ 120 ∷ hex_digits bytes

abbrev pub is_between : ℕ → ℕ → ℕ → Bool
is_between low high n = leb low n && leb n high

unfoldable pub decode_nibble : ℕ → Option ℕ
decode_nibble byte =
    if is_between 48 57 byte
    then some (byte - 48)
    else if is_between 97 102 byte
    then some (byte - 87)
    else if is_between 65 70 byte
    then some (byte - 55)
    else none

unfoldable pub strip_prefix : Bytes → Bytes
strip_prefix [] = []
strip_prefix (a ∷ []) = a ∷ []
strip_prefix (a ∷ b ∷ s) = if (a == 48) && (b == 120) then s else a ∷ b ∷ s

-- A pair of digits, the first error first. `(high << 4) | low` of two nibbles is a sum.
abbrev pub join : Option ℕ → Option ℕ → Option ℕ
join none low = none
join (some high) none = none
join (some high) (some low) = some (high * 16 + low)

abbrev pub prepend : Option ℕ → Bytes ⊎ HexError → Bytes ⊎ HexError
prepend none rest = inr invalid_digit
prepend (some b) (inl bytes) = inl (b ∷ bytes)
prepend (some b) (inr e) = inr e

-- The chunks of two bytes; a byte left over is not read.
unfoldable pub decode_pairs : Bytes → Bytes ⊎ HexError
unfolding decode_nibble
decode_pairs [] = inl []
decode_pairs (a ∷ []) = inl []
decode_pairs (high ∷ low ∷ s) =
    prepend (join (decode_nibble high) (decode_nibble low)) (decode_pairs s)

unfoldable pub hex_decode : Bytes → Bytes ⊎ HexError
unfolding strip_prefix decode_pairs
hex_decode s =
    let digits = strip_prefix s in
    if length digits % 2 == 0 then decode_pairs digits else inr (odd_length (length digits))

decode_nibble-hex_digit : (n : ℕ) → n < 16 → decode_nibble (hex_digit n) ≡ some n
unfolding decode_nibble
decode_nibble-hex_digit n h = ground arith

joined :
    (b : ℕ)
    → b < 256
    → join (decode_nibble (hex_digit (b / 16))) (decode_nibble (hex_digit (b % 16))) ≡ some b
joined b h =
    rw
      (
        decode_nibble-hex_digit (b / 16) (omega arith),
        decode_nibble-hex_digit (b % 16) (omega arith),
      )
      (ground arith)

even : (bs : Bytes) → length (hex_digits bs) ≡ 2 * length bs
unfolding hex_digits
even [] = refl
even (b ∷ bs) = omega (arith, even bs)

decode_pairs-hex_digits :
    (bs : Bytes) → All (λ b. b < 256) bs → decode_pairs (hex_digits bs) ≡ inl bs
unfolding decode_pairs hex_digits
decode_pairs-hex_digits [] h = refl
decode_pairs-hex_digits (b ∷ bs) h = rw (joined b h.0, decode_pairs-hex_digits bs h.1) refl

-- Decoding reads back every string of bytes that encoding wrote.
pub hex_decode-hex_encode :
    (bs : Bytes) → All (λ b. b < 256) bs → hex_decode (hex_encode bs) ≡ inl bs
unfolding hex_decode hex_encode strip_prefix
hex_decode-hex_encode bs h =
    let e : length (hex_digits bs) % 2 ≡ 0 = omega (arith, even bs) in
    rw (e, decode_pairs-hex_digits bs h) refl
