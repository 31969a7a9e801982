-- ===== src/Transform/Url.antt =====
-- src/stream_transform.rs: the URL decoder (`url_decode_transform`).
pub mod Roundtrip
use rustmate.Base.{
  ℕ, suc, ◌+◌, ◌*◌, ◌||◌, Bool, true, false, not, Option, none, some, List, [], ◌∷◌, ◌++◌, ◌==◌,
  if◌then◌else◌,
}
use rustmate.Bytes.Hex.{hex_value}
use rustmate.Transform.Outcome.{
  StreamTransformApplied, applied, TransformOutcome, Note, no_url_bytes, invalid_escapes_left,
  noop_with,
}

-- The variables of the loop, but for `index`: the loop goes down the rest of the input.
pub record UrlDecoding : Type 0 where
  pub output : List ℕ
  pub changed : Bool
  pub invalid_escapes : ℕ

-- The byte that a percent sign and two digits stand for.
unfoldable pub escape : ℕ → ℕ → ℕ → Option ℕ
unfolding hex_value
escape byte first second =
    if byte == b'%'
    then (elim (hex_value first) [
      | none ↦ none
      | some hi ↦ elim (hex_value second) [ none ↦ none | some lo ↦ some (hi * 16 + lo) ]
    ])
    else none

-- A byte that starts no valid escape.
unfoldable pub push_byte : ℕ → UrlDecoding → UrlDecoding
push_byte byte d =
    if byte == b'%'
    then record d { output = d.output ++ byte ∷ []; invalid_escapes = d.invalid_escapes + 1 }
    else if byte == b'+'
    then record d { output = d.output ++ b' ' ∷ []; changed = true }
    else record d { output = d.output ++ byte ∷ [] }

unfoldable pub url_decode_loop : List ℕ → UrlDecoding → UrlDecoding
unfolding escape push_byte
url_decode_loop [] d = d
url_decode_loop (x ∷ []) d = push_byte x d
url_decode_loop (x ∷ y ∷ []) d = push_byte y (push_byte x d)
url_decode_loop (x ∷ y ∷ z ∷ rest) d = elim (escape x y z) [
  | some byte ↦ url_decode_loop rest (record d { output = d.output ++ byte ∷ []; changed = true })
  | none ↦ url_decode_loop (y ∷ z ∷ rest) (push_byte x d)
]

unfoldable pub url_decode_transform : List ℕ → TransformOutcome Note
unfolding url_decode_loop noop_with
url_decode_transform input =
    let d = url_decode_loop input (record { output = []; changed = false; invalid_escapes = 0 }) in
    if not d.changed then noop_with no_url_bytes else record {
      applied = StreamTransformApplied.url_decode;
      status = applied;
      bytes = d.output;
      truncated_by_limit = false;
      notes = if d.invalid_escapes == 0 then [] else invalid_escapes_left d.invalid_escapes ∷ [];
    }
