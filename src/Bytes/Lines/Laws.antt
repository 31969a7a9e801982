-- ===== src/Bytes/Lines/Laws.antt =====
-- Texts without the character that they are searched for.
use rustmate.Base.{ℕ, ◌≡◌, ◌≢◌, refl, ap, ◌∙◌, Bool, false, some, List, [], ◌∷◌, ◌++◌, arith, All}
use rustmate.Bytes.{split, trim_start, trim_end, trim_ascii, is_ascii_whitespace}
use rustmate.Bytes.Lines.{split_once, strip_cr}

pub split_once-append :
    (c : ℕ) (line rest : List ℕ)
    → All (λ x. x ≢ c) line
    → split_once c (line ++ c ∷ rest) ≡ some (line, rest)
unfolding split_once
split_once-append c [] rest h = ground arith
split_once-append c (x ∷ line) rest h = ground (arith, split_once-append c line rest h.1)

pub strip_cr-append : (line : List ℕ) → strip_cr (line ++ 13 ∷ []) ≡ line
unfolding strip_cr
strip_cr-append [] = refl
strip_cr-append (x ∷ []) = refl
strip_cr-append (x ∷ y ∷ line) = ap (◌∷◌ x) (strip_cr-append (y ∷ line))

pub split-none : (c : ℕ) (xs : List ℕ) → All (λ x. x ≢ c) xs → split c xs ≡ xs ∷ []
unfolding split
split-none c [] h = refl
split-none c (x ∷ xs) h = ground (arith, split-none c xs h.1)

trim_start-none :
    (space : ℕ → Bool) (xs : List ℕ) → All (λ x. space x ≡ false) xs → trim_start space xs ≡ xs
unfolding trim_start
trim_start-none space [] h = refl
trim_start-none space (x ∷ xs) h = rw (h.0, trim_start) refl

trim_end-none :
    (space : ℕ → Bool) (xs : List ℕ) → All (λ x. space x ≡ false) xs → trim_end space xs ≡ xs
unfolding trim_end
trim_end-none space [] h = refl
trim_end-none space (x ∷ xs) h = ground (arith, trim_end-none space xs h.1)

-- A text without white space is its own trimmed text.
pub trim_ascii-none :
    (xs : List ℕ) → All (λ x. is_ascii_whitespace x ≡ false) xs → trim_ascii xs ≡ xs
unfolding trim_ascii
trim_ascii-none xs h =
    ap (trim_end is_ascii_whitespace) (trim_start-none is_ascii_whitespace xs h)
    ∙ trim_end-none is_ascii_whitespace xs h
