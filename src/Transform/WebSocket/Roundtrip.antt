-- ===== src/Transform/WebSocket/Roundtrip.antt =====
-- The parser reads the frames that RFC 6455 describes.
use rustmate.Base.{
  ℕ, zero, suc, ◌+◌, ◌*◌, ◌/◌, ◌%◌, ◌≡◌, ◌<◌, Bool, true, false, Option, none, some, List, [], ◌∷◌,
  ◌++◌, ltb, if◌then◌else◌, All, length,
}
use rustmate.Transform.WebSocket.{WebSocketFrame, apply_mask}

abbrev bit : Bool → ℕ
bit true = 1
bit false = 0

-- The specification: a frame as it is sent. Its length is written in seven bits where it fits, in 16
-- where it fits, else in 64; `mask` is `none` or four bytes.
unfoldable pub be_bytes : ℕ → ℕ → List ℕ → List ℕ
be_bytes zero n bytes = bytes
be_bytes (suc width) n bytes = be_bytes width (n / 256) (n % 256 ∷ bytes)

abbrev length7_of : ℕ → ℕ
length7_of n = if ltb n 126 then n else if ltb n 65536 then 126 else 127

abbrev length_bytes : ℕ → List ℕ
length_bytes n = if ltb n 126 then [] else if ltb n 65536 then be_bytes 2 n [] else be_bytes 8 n []

abbrev mask_bytes : Option (List ℕ) → List ℕ
mask_bytes none = []
mask_bytes (some mask) = mask

abbrev masked : Option (List ℕ) → ℕ
masked none = 0
masked (some mask) = 1

unfoldable pub encode_frame : WebSocketFrame → Option (List ℕ) → List ℕ → List ℕ
unfolding be_bytes apply_mask
encode_frame frame mask rest =
    (bit frame.fin * 128 + bit frame.rsv1 * 64 + frame.opcode)
    ∷ (masked mask * 128 + length7_of (length frame.payload))
    ∷ (length_bytes (length frame.payload)
        ++ (mask_bytes mask ++ (apply_mask mask frame.payload ++ rest)))

-- `none`, or four bytes.
abbrev pub IsMask : Option (List ℕ) → Type 0
IsMask none = Unit
IsMask (some mask) = (length mask ≡ 4) × All (λ b. b < 256) mask
