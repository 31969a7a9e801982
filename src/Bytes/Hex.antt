-- ===== src/Bytes/Hex.antt =====
-- Hexadecimal digits: `from_str_radix(_, 16)` and the format `{:02x}`.
pub mod Numbers
use rustmate.Base.{
  ℕ, ◌-◌, ◌+◌, ◌*◌, ◌/◌, ◌%◌, ◌≡◌, ◌<◌, ◌≤◌, refl, Bool, true, false, ◌&&◌, Option, none, some,
  List, [], ◌∷◌, arith, leb, ltb, ◌==◌, if◌then◌else◌, u64_max, is_empty,
}

-- `hex_value` of src/stream_transform.rs, which is also how the standard library reads a digit.
unfoldable pub hex_value : ℕ → Option ℕ
hex_value byte =
    if leb b'0' byte && leb byte b'9'
    then some (byte - b'0')
    else if leb b'a' byte && leb byte b'f'
    then some (byte - b'a' + 10)
    else if leb b'A' byte && leb byte b'F'
    then some (byte - b'A' + 10)
    else none

-- The digits behind `value`; `none` at a character that is none, or past `max`.
unfoldable pub hex_digits : ℕ → List ℕ → ℕ → Option ℕ
unfolding hex_value
hex_digits max [] value = some value
hex_digits max (c ∷ cs) value = elim (hex_value c) [
  | none ↦ none
  | some digit ↦ elim (leb (value * 16 + digit) max) [
    | true ↦ hex_digits max cs (value * 16 + digit)
    | false ↦ none
  ]
]

-- `from_str_radix(_, 16)` of an unsigned type up to `max`: a plus sign may stand first.
unfoldable pub from_hex : ℕ → List ℕ → Option ℕ
unfolding hex_digits
from_hex max [] = none
from_hex max (c ∷ cs) =
    if c == b'+'
    then (if is_empty cs then none else hex_digits max cs 0)
    else hex_digits max (c ∷ cs) 0

unfoldable pub hex_digit : ℕ → ℕ
hex_digit n = if ltb n 10 then b'0' + n else b'a' + n - 10

-- `{:02x}` of a byte.
unfoldable pub hex_byte : ℕ → List ℕ
unfolding hex_digit
hex_byte b = hex_digit (b / 16) ∷ hex_digit (b % 16) ∷ []

pub hex_value-hex_digit : (n : ℕ) → n < 16 → hex_value (hex_digit n) ≡ some n
unfolding hex_value hex_digit
hex_value-hex_digit n h = ground arith
