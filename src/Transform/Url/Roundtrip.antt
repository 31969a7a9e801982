-- ===== src/Transform/Url/Roundtrip.antt =====
-- The URL decoder undoes percent encoding.
use rustmate.Base.{
  ℕ, ◌/◌, ◌%◌, ◌≡◌, ◌≢◌, ◌<◌, refl, ap, ◌∙◌, Bool, true, false, ◌&&◌, ◌||◌, none, some, List, [],
  ◌∷◌, ◌++◌, arith, leb, ◌==◌, if◌then◌else◌, All, append_assoc, append-nil, not, Bool-cases, inl,
  inr,
}
use rustmate.Bytes.Hex.{hex_digit, hex_byte, hex_value-hex_digit}
use rustmate.Transform.Outcome.{StreamTransformApplied, applied}
use rustmate.Transform.Url.{UrlDecoding, escape, push_byte, url_decode_loop, url_decode_transform}

-- What RFC 3986 leaves as it is: letters, digits, and four signs.
unfoldable pub is_unreserved : ℕ → Bool
is_unreserved b =
    leb b'a' b && leb b b'z'
    || leb b'A' b && leb b b'Z'
    || leb b'0' b && leb b b'9'
    || b == b'-'
    || b == b'.'
    || b == b'_'
    || b == b'~'

-- The specification: a sender's percent encoding.
unfoldable pub percent_encode : List ℕ → List ℕ
unfolding is_unreserved hex_byte
percent_encode [] = []
percent_encode (b ∷ bs) =
    let rest = percent_encode bs in
    if is_unreserved b then b ∷ rest else b'%' ∷ (hex_byte b ++ rest)

escape-hex_byte : (b : ℕ) → b < 256 → escape b'%' (hex_digit (b / 16)) (hex_digit (b % 16)) ≡ some b
unfolding escape
escape-hex_byte b h =
    ground (
      arith,
      hex_value-hex_digit (b / 16) (omega arith),
      hex_value-hex_digit (b % 16) (omega arith),
    )

escape-plain : (b y z : ℕ) → b ≢ b'%' → escape b y z ≡ none
unfolding escape
escape-plain b y z h = ground arith

push_byte-plain :
    (b : ℕ) (d : UrlDecoding)
    → is_unreserved b ≡ true
    → push_byte b d ≡ record d { output = d.output ++ b ∷ [] }
unfolding push_byte is_unreserved
push_byte-plain b d h = ground arith

unreserved-ne : (b : ℕ) → is_unreserved b ≡ true → b ≢ b'%'
unfolding is_unreserved
unreserved-ne b h = ground arith

-- The loop takes an unreserved byte as it is, whatever follows.
loop-plain :
    (b : ℕ) (rest : List ℕ) (d : UrlDecoding)
    → is_unreserved b ≡ true
    → url_decode_loop (b ∷ rest) d ≡ url_decode_loop rest (record d { output = d.output ++ b ∷ [] })
unfolding url_decode_loop
loop-plain b [] d h = push_byte-plain b d h
loop-plain b (y ∷ []) d h = ap (push_byte y) (push_byte-plain b d h)
loop-plain b (y ∷ z ∷ rest) d h =
    rw (escape-plain b y z (unreserved-ne b h), url_decode_loop)
      (ap (url_decode_loop (y ∷ z ∷ rest)) (push_byte-plain b d h))

loop-escaped :
    (b : ℕ) (rest : List ℕ) (d : UrlDecoding)
    → b < 256
    → url_decode_loop (b'%' ∷ (hex_byte b ++ rest)) d
      ≡ url_decode_loop rest (record d { output = d.output ++ b ∷ []; changed = true })
unfolding url_decode_loop hex_byte
loop-escaped b rest d h = rw (escape-hex_byte b h, url_decode_loop) refl

-- Some byte has to be encoded.
unfoldable pub has_reserved : List ℕ → Bool
unfolding is_unreserved
has_reserved [] = false
has_reserved (b ∷ bs) = not (is_unreserved b) || has_reserved bs

loop-percent_encode :
    (bs : List ℕ) (output : List ℕ) (changed : Bool) (invalid : ℕ)
    → All (λ b. b < 256) bs
    → url_decode_loop
        (percent_encode bs)
        (record { output = output; changed = changed; invalid_escapes = invalid })
      ≡ record {
        output = output ++ bs;
        changed = changed || has_reserved bs;
        invalid_escapes = invalid;
      }
unfolding percent_encode has_reserved url_decode_loop
loop-percent_encode [] output true invalid h = rw append-nil refl
loop-percent_encode [] output false invalid h = rw append-nil refl
loop-percent_encode (b ∷ bs) output changed invalid h = elim (Bool-cases (is_unreserved b)) [
  | inl u ↦
      rw (u, percent_encode, has_reserved)
        (loop-plain b (percent_encode bs) _ u
          ∙ loop-percent_encode bs (output ++ b ∷ []) changed invalid h.1
          ∙ ground (arith, append_assoc output (b ∷ []) bs))
  | inr u ↦
      rw (u, percent_encode, has_reserved)
        (loop-escaped b (percent_encode bs) _ h.0
          ∙ loop-percent_encode bs (output ++ b ∷ []) true invalid h.1
          ∙ ground (arith, append_assoc output (b ∷ []) bs))
]

-- Decoding undoes percent encoding: of any bytes of which one has to be encoded, the decoder gives
-- back exactly these, and reports no invalid escape.
pub url_decode-percent_encode :
    (bs : List ℕ)
    → All (λ b. b < 256) bs
    → has_reserved bs ≡ true
    → url_decode_transform (percent_encode bs) ≡ record {
      applied = StreamTransformApplied.url_decode;
      status = applied;
      bytes = bs;
      truncated_by_limit = false;
      notes = [];
    }
unfolding url_decode_transform
url_decode-percent_encode bs h r = ground (arith, loop-percent_encode bs [] false 0 h)
