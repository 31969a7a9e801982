-- ===== src/Bytes.antt =====
-- Bytes and texts, as the standard library treats them where src/stream_transform.rs, src/pattern.rs and
-- src/stream_slice.rs call it. A byte is a number below 256, a text the list of its code points.
pub mod Utf8
pub mod Lines
pub mod Hex
pub mod Xor
use Prim.Native.Char.{code}
use Prim.Native.String.{String}
use rustmate.Base.{
  ℕ, ◌-◌, ◌+◌, Bool, true, false, ◌&&◌, ◌||◌, List, [], ◌∷◌, ◌++◌, leb, ◌==◌, if◌then◌else◌,
  is_empty,
}

-- The code points of a literal.
abbrev pub codes : String → List ℕ
codes String.[] = []
codes (String.◌∷◌ c s) = code c ∷ codes s

unfoldable pub bytes_eq : List ℕ → List ℕ → Bool
bytes_eq [] [] = true
bytes_eq [] (y ∷ ys) = false
bytes_eq (x ∷ xs) [] = false
bytes_eq (x ∷ xs) (y ∷ ys) = x == y && bytes_eq xs ys

-- `starts_with(prefix)`, the prefix first.
unfoldable pub starts_with : List ℕ → List ℕ → Bool
starts_with [] xs = true
starts_with (p ∷ ps) [] = false
starts_with (p ∷ ps) (x ∷ xs) = p == x && starts_with ps xs

unfoldable pub to_ascii_lowercase : ℕ → ℕ
to_ascii_lowercase c = if leb b'A' c && leb c b'Z' then c + 32 else c

unfoldable pub eq_ignore_ascii_case : List ℕ → List ℕ → Bool
unfolding to_ascii_lowercase
eq_ignore_ascii_case [] [] = true
eq_ignore_ascii_case [] (y ∷ ys) = false
eq_ignore_ascii_case (x ∷ xs) [] = false
eq_ignore_ascii_case (x ∷ xs) (y ∷ ys) =
    to_ascii_lowercase x == to_ascii_lowercase y && eq_ignore_ascii_case xs ys

-- Space, tab, line feed, form feed, carriage return.
unfoldable pub is_ascii_whitespace : ℕ → Bool
is_ascii_whitespace c = c == 32 || c == 9 || c == 10 || c == 12 || c == 13

-- `char::is_whitespace`.
unfoldable pub is_whitespace : ℕ → Bool
is_whitespace c =
    c == 32
    || leb 9 c && leb c 13
    || c == 0x85
    || c == 0xa0
    || c == 0x1680
    || leb 0x2000 c && leb c 0x200a
    || c == 0x2028
    || c == 0x2029
    || c == 0x202f
    || c == 0x205f
    || c == 0x3000

-- The elements without those at either end that satisfy `space`.
unfoldable pub trim_start : (ℕ → Bool) → List ℕ → List ℕ
trim_start space [] = []
trim_start space (x ∷ xs) = elim (space x) [ true ↦ trim_start space xs | false ↦ x ∷ xs ]

unfoldable pub trim_end : (ℕ → Bool) → List ℕ → List ℕ
trim_end space [] = []
trim_end space (x ∷ xs) =
    let rest = trim_end space xs in if is_empty rest && space x then [] else x ∷ rest

unfoldable pub trim : List ℕ → List ℕ
unfolding trim_start trim_end is_whitespace
trim xs = trim_end is_whitespace (trim_start is_whitespace xs)

unfoldable pub trim_ascii : List ℕ → List ℕ
unfolding trim_start trim_end is_ascii_whitespace
trim_ascii xs = trim_end is_ascii_whitespace (trim_start is_ascii_whitespace xs)

-- `split(c)`: the pieces between the separators, one more than there are of these.
unfoldable pub put_first : ℕ → List (List ℕ) → List (List ℕ)
put_first x [] = (x ∷ []) ∷ []
put_first x (piece ∷ pieces) = (x ∷ piece) ∷ pieces

unfoldable pub split : ℕ → List ℕ → List (List ℕ)
unfolding put_first
split c [] = [] ∷ []
split c (x ∷ xs) = let rest = split c xs in if x == c then [] ∷ rest else put_first x rest
