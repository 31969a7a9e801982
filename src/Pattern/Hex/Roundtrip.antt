-- ===== src/Pattern/Hex/Roundtrip.antt =====
-- A binary pattern may be given as the hex dump that a slice is copied as.
use rustmate.Base.{
  ℕ, ◌+◌, ◌*◌, ◌/◌, ◌%◌, ◌≡◌, ◌<◌, refl, sym, ap, ◌∙◌, true, false, some, List, [], ◌∷◌, ◌++◌,
  arith, ◌==◌, All, length, is_empty, append_assoc, append-nil,
}
use rustmate.Bytes.{starts_with, is_ascii_whitespace}
use rustmate.Bytes.Hex.{from_hex, hex_digits, hex_digit, hex_byte}
use rustmate.Bytes.Hex.Numbers.{hex_digits-step, from_hex-digits}
use rustmate.Slice.Render.{spaced_hex, bytes_to_hex}
use rustmate.Pattern.Hex.{
  ok, is_separator, digits_of, strip_hex_prefix, within_char, hex_pairs, parse_hex_pattern,
}

-- The digits alone.
unfoldable pub hex_string : List ℕ → List ℕ
unfolding hex_byte
hex_string [] = []
hex_string (b ∷ bs) = hex_byte b ++ hex_string bs

digit-kept : (n : ℕ) → n < 16 → is_separator (hex_digit n) ≡ false
unfolding is_separator is_ascii_whitespace hex_digit
digit-kept n h = ground arith

digits_of-hex_byte :
    (b : ℕ) (cs : List ℕ) → b < 256 → digits_of (hex_byte b ++ cs) ≡ hex_byte b ++ digits_of cs
unfolding digits_of hex_byte
digits_of-hex_byte b cs h =
    rw (digit-kept (b / 16) (omega arith), digit-kept (b % 16) (omega arith)) refl

digits_of-space : (cs : List ℕ) → digits_of (b' ' ∷ cs) ≡ digits_of cs
unfolding digits_of is_separator is_ascii_whitespace
digits_of-space cs = refl

digits_of-nil : digits_of [] ≡ []
unfolding digits_of
digits_of-nil = refl

hex_digits-nil : (value : ℕ) → hex_digits 255 [] value ≡ some value
unfolding hex_digits
hex_digits-nil value = refl

digits_of-spaced_hex :
    (bs : List ℕ) → All (λ b. b < 256) bs → digits_of (spaced_hex bs) ≡ hex_string bs
unfolding spaced_hex hex_string
digits_of-spaced_hex [] h = digits_of-nil
digits_of-spaced_hex (b ∷ bs) h =
    digits_of-space (hex_byte b ++ spaced_hex bs)
    ∙ digits_of-hex_byte b (spaced_hex bs) h.0
    ∙ ap (λ cs. hex_byte b ++ cs) (digits_of-spaced_hex bs h.1)

digits_of-bytes_to_hex :
    (bs : List ℕ) → All (λ b. b < 256) bs → digits_of (bytes_to_hex bs) ≡ hex_string bs
unfolding bytes_to_hex hex_string
digits_of-bytes_to_hex [] h = digits_of-nil
digits_of-bytes_to_hex (b ∷ bs) h =
    digits_of-hex_byte b (spaced_hex bs) h.0
    ∙ ap (λ cs. hex_byte b ++ cs) (digits_of-spaced_hex bs h.1)

from_hex-hex_byte : (b : ℕ) → b < 256 → from_hex 255 (hex_byte b) ≡ some b
unfolding hex_byte
from_hex-hex_byte b h =
    from_hex-digits 255 (hex_byte b) b
      ((b / 16, omega arith, refl), ((b % 16, omega arith, refl), tt)) (λ e. ground arith)
      (hex_digits-step 255 (b / 16) 0 (hex_digit (b % 16) ∷ []) (omega arith) (omega arith)
        ∙ hex_digits-step 255 (b % 16) (0 * 16 + b / 16) [] (omega arith) (omega arith)
        ∙ whole)
  where
    whole : hex_digits 255 [] ((0 * 16 + b / 16) * 16 + b % 16) ≡ some b
    whole = hex_digits-nil ((0 * 16 + b / 16) * 16 + b % 16) ∙ ap some (omega arith)

within_char-hex_string : (bs : List ℕ) → All (λ b. b < 256) bs → within_char (hex_string bs) ≡ false
unfolding hex_string hex_byte hex_digit
within_char-hex_string [] h = refl
within_char-hex_string (b ∷ bs) h = let k : b / 16 < 16 = omega (arith, h.0) in ground arith

hex_pairs-step :
    (a b byte : ℕ) (rest bytes : List ℕ)
    → within_char rest ≡ false
    → from_hex 255 (a ∷ b ∷ []) ≡ some byte
    → hex_pairs (a ∷ b ∷ rest) bytes ≡ hex_pairs rest (bytes ++ byte ∷ [])
unfolding hex_pairs
hex_pairs-step a b byte rest bytes w e = rw (w, hex_pairs, e) refl

hex_pairs-hex_string :
    (bs bytes : List ℕ) → All (λ b. b < 256) bs → hex_pairs (hex_string bs) bytes ≡ ok (bytes ++ bs)
unfolding hex_pairs hex_string hex_byte
hex_pairs-hex_string [] bytes h = ap ok (sym (append-nil bytes))
hex_pairs-hex_string (b ∷ bs) bytes h =
    hex_pairs-step (hex_digit (b / 16)) (hex_digit (b % 16)) b (hex_string bs) bytes
      (within_char-hex_string bs h.1) (from_hex-hex_byte b h.0)
    ∙ hex_pairs-hex_string bs (bytes ++ b ∷ []) h.1
    ∙ ap ok (append_assoc bytes (b ∷ []) bs)

strip_hex_prefix-hex_string :
    (bs : List ℕ) → All (λ b. b < 256) bs → strip_hex_prefix (hex_string bs) ≡ hex_string bs
unfolding strip_hex_prefix hex_string hex_byte hex_digit starts_with
strip_hex_prefix-hex_string [] h = refl
strip_hex_prefix-hex_string (b ∷ bs) h = let k : b % 16 < 16 = omega (arith, h.0) in ground arith

even-hex_string : (bs : List ℕ) → (length (hex_string bs) % 2 == 0) ≡ true
unfolding hex_string hex_byte
even-hex_string [] = refl
even-hex_string (b ∷ bs) = ground (arith, even-hex_string bs)

is_empty-hex_string : (bs : List ℕ) → is_empty (hex_string bs) ≡ is_empty bs
unfolding hex_string hex_byte
is_empty-hex_string [] = refl
is_empty-hex_string (b ∷ bs) = refl

-- The hex dump of bytes, as a slice is copied, is read as these bytes by `parse_hex_pattern`, if there is
-- one at least.
pub parse_hex_pattern-bytes_to_hex :
    (bs : List ℕ)
    → All (λ b. b < 256) bs
    → is_empty bs ≡ false
    → parse_hex_pattern (bytes_to_hex bs) ≡ ok bs
unfolding parse_hex_pattern
parse_hex_pattern-bytes_to_hex bs h some_byte =
    rw
      (
        digits_of-bytes_to_hex bs h,
        strip_hex_prefix-hex_string bs h,
        is_empty-hex_string bs,
        some_byte,
        even-hex_string bs,
      )
      (hex_pairs-hex_string bs [] h)
