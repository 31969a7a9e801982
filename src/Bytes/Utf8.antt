-- ===== src/Bytes/Utf8.antt =====
-- `std::str::from_utf8`: the code points of well-formed UTF-8.
use rustmate.Base.{
  ℕ, ◌-◌, ◌+◌, ◌*◌, ◌≡◌, ◌<◌, ◌&&◌, Option, none, some, List, [], ◌∷◌, arith, leb, ltb, ◌==◌,
  if◌then◌else◌, All, refl,
}

-- What is expected inside a sequence: so many bytes, the next of them between `low` and `high`.
pub record Pending : Type 0 where
  pub left : ℕ
  pub low : ℕ
  pub high : ℕ
  pub value : ℕ

abbrev pub between_chars : Pending
between_chars = record { left = 0; low = 0; high = 0; value = 0 }

abbrev await : ℕ → ℕ → ℕ → ℕ → Option (Pending × List ℕ)
await left low high value = some (record { left = left; low = low; high = high; value = value }, [])

lead : ℕ → Option (Pending × List ℕ)
lead b =
    if ltb b 0x80
    then some (between_chars, b ∷ [])
    else if leb 0xc2 b && leb b 0xdf
    then await 1 0x80 0xbf (b - 0xc0)
    else if b == 0xe0
    then await 2 0xa0 0xbf 0
    else if b == 0xed
    then await 2 0x80 0x9f 0xd
    else if leb 0xe1 b && leb b 0xef
    then await 2 0x80 0xbf (b - 0xe0)
    else if b == 0xf0
    then await 3 0x90 0xbf 0
    else if leb 0xf1 b && leb b 0xf3
    then await 3 0x80 0xbf (b - 0xf0)
    else if b == 0xf4
    then await 3 0x80 0x8f 4
    else none

continue_with : ℕ → ℕ → Pending → Option (Pending × List ℕ)
continue_with b left p =
    let value = p.value * 64 + (b - 0x80) in
    if leb p.low b && leb b p.high
    then (if left == 0 then some (between_chars, value ∷ []) else await left 0x80 0xbf value)
    else none

next_byte : ℕ → Pending → Option (Pending × List ℕ)
unfolding lead continue_with
next_byte b p = if p.left == 0 then lead b else continue_with b (p.left - 1) p

unfoldable pub from_utf8_at : List ℕ → Pending → Option (List ℕ)
unfolding next_byte
from_utf8_at [] p = if p.left == 0 then some [] else none
from_utf8_at (b ∷ bs) p = elim (next_byte b p) [
  | none ↦ none
  | some (q, []) ↦ from_utf8_at bs q
  | some (q, c ∷ cs) ↦ elim (from_utf8_at bs q) [ none ↦ none | some chars ↦ some (c ∷ chars) ]
]

unfoldable pub from_utf8 : List ℕ → Option (List ℕ)
unfolding from_utf8_at
from_utf8 bs = from_utf8_at bs between_chars

-- ASCII is its own text.
from_utf8_at-ascii :
    (bs : List ℕ) → All (λ b. b < 0x80) bs → from_utf8_at bs between_chars ≡ some bs
unfolding from_utf8_at
from_utf8_at-ascii [] h = refl
from_utf8_at-ascii (b ∷ bs) h = ground (arith, from_utf8_at-ascii bs h.1)

pub from_utf8-ascii : (bs : List ℕ) → All (λ b. b < 0x80) bs → from_utf8 bs ≡ some bs
unfolding from_utf8
from_utf8-ascii = from_utf8_at-ascii
