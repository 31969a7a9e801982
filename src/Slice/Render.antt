-- ===== src/Slice/Render.antt =====
-- src/stream_slice.rs: bytes as text and in rows of hexadecimal digits; src/stream_transform.rs has the
-- same functions a second time.
use rustmate.Base.{
  ℕ, zero, suc, ◌+◌, ◌*◌, Bool, true, false, ◌&&◌, ◌||◌, List, [], ◌∷◌, ◌++◌, map, leb, ◌==◌,
  if◌then◌else◌, length, take, drop, saturating_add,
}
use rustmate.Bytes.Hex.{hex_byte}

pub record SafeText : Type 0 where
  pub text : List ℕ
  pub lossy : Bool

-- A line feed, a carriage return, a tab, or a printable character.
unfoldable pub is_textish : ℕ → Bool
is_textish byte = byte == 10 || byte == 13 || byte == 9 || leb 0x20 byte && leb byte 0x7e

unfoldable pub safe_text : List ℕ → SafeText
unfolding is_textish
safe_text [] = record { text = []; lossy = false }
safe_text (byte ∷ bytes) =
    let rest = safe_text bytes in
    if is_textish byte
    then record { text = byte ∷ rest.text; lossy = rest.lossy }
    else record { text = b'.' ∷ rest.text; lossy = true }

-- The bytes behind the first one, a space before each.
unfoldable pub spaced_hex : List ℕ → List ℕ
unfolding hex_byte
spaced_hex [] = []
spaced_hex (b ∷ bs) = b' ' ∷ (hex_byte b ++ spaced_hex bs)

unfoldable pub bytes_to_hex : List ℕ → List ℕ
unfolding hex_byte spaced_hex
bytes_to_hex [] = []
bytes_to_hex (b ∷ bs) = hex_byte b ++ spaced_hex bs

pub record StreamSliceHexRow : Type 0 where
  pub logical_start : ℕ
  pub hex : List ℕ
  pub ascii : List ℕ

unfoldable pub ascii_of : ℕ → ℕ
ascii_of byte = if leb 0x20 byte && leb byte 0x7e then byte else b'.'

-- `chunks(row_bytes)`: rows from `row_index` on, as many as `fuel` allows.
unfoldable pub hex_rows_from : ℕ → ℕ → List ℕ → ℕ → ℕ → List StreamSliceHexRow
unfolding bytes_to_hex ascii_of
hex_rows_from zero logical_start bytes row_bytes row_index = []
hex_rows_from (suc fuel) logical_start [] row_bytes row_index = []
hex_rows_from (suc fuel) logical_start (b ∷ bytes) row_bytes row_index =
    record {
      logical_start = saturating_add logical_start (row_index * row_bytes);
      hex = bytes_to_hex (take row_bytes (b ∷ bytes));
      ascii = map ascii_of (take row_bytes (b ∷ bytes));
    }
    ∷ hex_rows_from fuel logical_start (drop row_bytes (b ∷ bytes)) row_bytes (row_index + 1)

-- A row has a byte at least, since `normalized` leaves `row_bytes` at least 1.
unfoldable pub hex_rows : ℕ → List ℕ → ℕ → List StreamSliceHexRow
unfolding hex_rows_from
hex_rows logical_start bytes row_bytes =
    hex_rows_from (length bytes) logical_start bytes row_bytes 0
