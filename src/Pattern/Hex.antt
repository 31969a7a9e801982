-- ===== src/Pattern/Hex.antt =====
-- src/pattern.rs: a binary pattern in hexadecimal digits (`parse_hex_pattern`).
pub mod Roundtrip
pub mod Ascii
use rustmate.Base.{
  ℕ, ◌+◌, ◌++◌, ◌%◌, Bool, true, false, not, ◌&&◌, ◌||◌, Option, none, some, List, [], ◌∷◌, leb,
  ◌==◌, if◌then◌else◌, length, drop, is_empty,
}
use rustmate.Bytes.{codes, starts_with, is_ascii_whitespace}
use rustmate.Bytes.Hex.{from_hex}

-- Why a pattern is refused, in the order of the source: `parse_hex_pattern`, then `compile`.
pub data PatternError : Type 0 where
  binary_is_empty odd_number_of_digits invalid_hex_byte : PatternError
  pattern_is_empty : (id : List ℕ) → PatternError
  regex_not_compiled automaton_not_built : PatternError

-- `panicked` where a string is sliced within a character.
pub data HexPattern : Type 0 where
  ok : List ℕ → HexPattern
  err : PatternError → HexPattern
  panicked : HexPattern

-- The filter of the characters. All that it drops have one byte.
unfoldable pub is_separator : ℕ → Bool
unfolding is_ascii_whitespace
is_separator c = is_ascii_whitespace c || c == b':' || c == b'_' || c == b'-'

unfoldable pub digits_of : List ℕ → List ℕ
unfolding is_separator
digits_of [] = []
digits_of (c ∷ cs) = let rest = digits_of cs in if is_separator c then rest else c ∷ rest

-- `strip_prefix("0x")`, or with a capital letter.
unfoldable pub strip_hex_prefix : List ℕ → List ℕ
strip_hex_prefix digits =
    if starts_with (codes "0x") digits || starts_with (codes "0X") digits
    then drop 2 digits
    else digits

-- Whether the text starts with a byte within a character.
abbrev pub within_char : List ℕ → Bool
within_char [] = false
within_char (b ∷ bs) = leb 128 b && leb b 191

-- The loop. The index it starts at is where a character starts: 0, or the end of the slice before.
unfoldable pub hex_pairs : List ℕ → List ℕ → HexPattern
unfolding from_hex
hex_pairs [] bytes = ok bytes
hex_pairs (a ∷ []) bytes = panicked
hex_pairs (a ∷ b ∷ rest) bytes = elim (within_char rest) [
  | true ↦ panicked
  | false ↦ elim (from_hex 255 (a ∷ b ∷ [])) [
    | none ↦ err invalid_hex_byte
    | some byte ↦ hex_pairs rest (bytes ++ byte ∷ [])
  ]
]

unfoldable pub parse_hex_pattern : List ℕ → HexPattern
unfolding digits_of strip_hex_prefix hex_pairs
parse_hex_pattern value =
    let digits = strip_hex_prefix (digits_of value) in
    if is_empty digits
    then err binary_is_empty
    else if not (length digits % 2 == 0)
    then err odd_number_of_digits
    else hex_pairs digits []
