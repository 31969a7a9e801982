-- ===== src/Pattern/Hex/Ascii.antt =====
-- `parse_hex_pattern` answers every text of ASCII characters.
use rustmate.Base.{
  ℕ, zero, suc, ◌%◌, ◌≡◌, ◌≢◌, ◌<◌, refl, true, false, not, ◌||◌, Option, none, some, List, [], ◌∷◌,
  ◌++◌, arith, ◌==◌, if_both, All, length, drop, is_empty,
}
use rustmate.Bytes.{codes, starts_with}
use rustmate.Bytes.Hex.{from_hex}
use rustmate.Pattern.Hex.{
  err, panicked, invalid_hex_byte, is_separator, digits_of, strip_hex_prefix, within_char,
  hex_pairs, parse_hex_pattern,
}

abbrev Ascii : List ℕ → Type 0
Ascii = All (λ c. c < 128)

digits_of-Ascii : (cs : List ℕ) → Ascii cs → Ascii (digits_of cs)
unfolding digits_of
digits_of-Ascii [] a = tt
digits_of-Ascii (c ∷ cs) a =
    if_both Ascii (is_separator c) (λ _. digits_of-Ascii cs a.1)
      (λ _. (a.0, digits_of-Ascii cs a.1))

drop-Ascii : (n : ℕ) (cs : List ℕ) → Ascii cs → Ascii (drop n cs)
drop-Ascii zero cs a = a
drop-Ascii (suc n) [] a = tt
drop-Ascii (suc n) (c ∷ cs) a = drop-Ascii n cs a.1

strip_hex_prefix-Ascii : (cs : List ℕ) → Ascii cs → Ascii (strip_hex_prefix cs)
unfolding strip_hex_prefix
strip_hex_prefix-Ascii cs a =
    if_both Ascii (starts_with (codes "0x") cs || starts_with (codes "0X") cs)
      (λ _. drop-Ascii 2 cs a) (λ _. a)

within_char-Ascii : (cs : List ℕ) → Ascii cs → within_char cs ≡ false
within_char-Ascii [] a = refl
within_char-Ascii (c ∷ cs) a = let h : c < 128 = a.0 in ground arith

hex_pairs-Ascii :
    (cs bytes : List ℕ) → Ascii cs → (length cs % 2 == 0) ≡ true → hex_pairs cs bytes ≢ panicked
unfolding hex_pairs
hex_pairs-Ascii [] bytes a e = λ p. ground arith
hex_pairs-Ascii (x ∷ []) bytes a e = ground arith
hex_pairs-Ascii (x ∷ y ∷ rest) bytes a e =
    rw (within_char-Ascii rest a.1.1, hex_pairs)
      (go (λ bytes. hex_pairs-Ascii rest bytes a.1.1 (ground arith)) (from_hex 255 (x ∷ y ∷ [])))
  where
    go :
        ((bytes : List ℕ) → hex_pairs rest bytes ≢ panicked)
        → (byte : Option ℕ)
        → elim byte [
          | none ↦ err invalid_hex_byte
          | some byte ↦ hex_pairs rest (bytes ++ byte ∷ [])
        ]
          ≢ panicked
    go h none = λ p. ground arith
    go h (some byte) = h (bytes ++ byte ∷ [])

-- `parse_hex_pattern` does not panic on a text of ASCII characters.
pub parse_hex_pattern-ascii :
    (value : List ℕ) → All (λ c. c < 128) value → parse_hex_pattern value ≢ panicked
unfolding parse_hex_pattern
parse_hex_pattern-ascii value a =
    if_both (λ p. p ≢ panicked) (is_empty digits) (λ _. λ p. ground arith)
      (λ _.
        if_both (λ p. p ≢ panicked) (not (length digits % 2 == 0)) (λ _. λ p. ground arith)
          (λ even. hex_pairs-Ascii digits [] ascii (ground arith)))
  where
    digits : List ℕ
    digits = strip_hex_prefix (digits_of value)

    ascii : Ascii digits
    ascii = strip_hex_prefix-Ascii (digits_of value) (digits_of-Ascii value a)
