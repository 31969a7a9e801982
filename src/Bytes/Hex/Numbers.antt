-- ===== src/Bytes/Hex/Numbers.antt =====
-- Numbers in hexadecimal digits, and that `from_hex` reads them.
use rustmate.Base.{
  ℕ, zero, suc, ◌+◌, ◌*◌, ◌/◌, ◌%◌, ◌≡◌, ◌≢◌, ◌<◌, ◌≤◌, refl, ap, ◌∙◌, some, List, [], ◌∷◌, arith,
  ltb, if◌then◌else◌, All, Bool-cases, inl, inr,
}
use rustmate.Bytes.Hex.{hex_digit, hex_digits, from_hex, hex_value-hex_digit}

-- The digits of `n` before `digits`; `fuel` is above `n`.
unfoldable pub to_hex_from : ℕ → ℕ → List ℕ → List ℕ
unfolding hex_digit
to_hex_from zero n digits = digits
to_hex_from (suc fuel) n digits =
    let more = to_hex_from fuel (n / 16) (hex_digit (n % 16) ∷ digits) in
    if ltb n 16 then hex_digit n ∷ digits else more

-- `{:x}`.
unfoldable pub to_hex : ℕ → List ℕ
unfolding to_hex_from
to_hex n = to_hex_from (suc n) n []

pub hex_digits-step :
    (max n value : ℕ) (digits : List ℕ)
    → n < 16
    → value * 16 + n ≤ max
    → hex_digits max (hex_digit n ∷ digits) value ≡ hex_digits max digits (value * 16 + n)
unfolding hex_digits
hex_digits-step max n value digits h b = ground (arith, hex_value-hex_digit n h)

hex_digits-to_hex_from :
    (max fuel n : ℕ) (digits : List ℕ)
    → n < fuel
    → n ≤ max
    → hex_digits max (to_hex_from fuel n digits) 0 ≡ hex_digits max digits n
unfolding to_hex_from
hex_digits-to_hex_from max zero n digits h b = absurd (omega arith)
hex_digits-to_hex_from max (suc fuel) n digits h b = elim (Bool-cases (ltb n 16)) [
  | inl small ↦
      rw (small, to_hex_from)
        (hex_digits-step max n 0 digits (ground arith) (omega arith)
          ∙ ap (hex_digits max digits) start)
  | inr large ↦
      rw (large, to_hex_from)
        (hex_digits-to_hex_from max fuel (n / 16) (hex_digit (n % 16) ∷ digits) (ground arith)
            (omega arith)
          ∙ rest)
]
  where
    start : 0 * 16 + n ≡ n
    start = omega arith

    rest : hex_digits max (hex_digit (n % 16) ∷ digits) (n / 16) ≡ hex_digits max digits n
    rest =
        hex_digits-step max (n % 16) (n / 16) digits (omega arith) (omega arith)
        ∙ ap (hex_digits max digits) (omega arith)

-- Decimal digits and the letters a to f.
abbrev pub IsDigit : ℕ → Type 0
IsDigit c = (n : ℕ) × (n < 16) × (c ≡ hex_digit n)

to_hex_from-IsDigit :
    (fuel n : ℕ) (digits : List ℕ) → All IsDigit digits → All IsDigit (to_hex_from fuel n digits)
unfolding to_hex_from
to_hex_from-IsDigit zero n digits h = h
to_hex_from-IsDigit (suc fuel) n digits h = elim (Bool-cases (ltb n 16)) [
  | inl small ↦ rw (small, to_hex_from) ((n, ground arith, refl), h)
  | inr large ↦
      rw (large, to_hex_from)
        (to_hex_from-IsDigit fuel (n / 16) (hex_digit (n % 16) ∷ digits)
          ((n % 16, omega arith, refl), h))
]

pub to_hex-IsDigit : (n : ℕ) → All IsDigit (to_hex n)
unfolding to_hex
to_hex-IsDigit n = to_hex_from-IsDigit (suc n) n [] tt

pub from_hex-digits :
    (max : ℕ) (xs : List ℕ) (n : ℕ)
    → All IsDigit xs
    → xs ≢ []
    → hex_digits max xs 0 ≡ some n
    → from_hex max xs ≡ some n
unfolding from_hex hex_digit
from_hex-digits max [] n d h e = absurd (h refl)
from_hex-digits max (c ∷ cs) n d h e = let (m, b, q) = d.0 in ground arith

to_hex_from-ne : (fuel n : ℕ) (digits : List ℕ) → digits ≢ [] → to_hex_from fuel n digits ≢ []
unfolding to_hex_from
to_hex_from-ne zero n digits h = h
to_hex_from-ne (suc fuel) n digits h =
    ground (arith, to_hex_from-ne fuel (n / 16) (hex_digit (n % 16) ∷ digits))

pub to_hex-ne : (n : ℕ) → to_hex n ≢ []
unfolding to_hex to_hex_from
to_hex-ne n = ground (arith, to_hex_from-ne n (n / 16) (hex_digit (n % 16) ∷ []))

hex_digits-to_hex : (max n : ℕ) → n ≤ max → hex_digits max (to_hex n) 0 ≡ some n
unfolding to_hex hex_digits
hex_digits-to_hex max n h = hex_digits-to_hex_from max (suc n) n [] (omega arith) h

pub from_hex-to_hex : (max n : ℕ) → n ≤ max → from_hex max (to_hex n) ≡ some n
from_hex-to_hex max n h =
    from_hex-digits max (to_hex n) n (to_hex-IsDigit n) (to_hex-ne n) (hex_digits-to_hex max n h)
