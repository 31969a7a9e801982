-- ===== src/Transform/WebSocket.antt =====
-- src/stream_transform.rs: the frames of a WebSocket stream (`WebSocketParser`), and the messages that
-- they carry (`websocket_deflate_transform`).
pub mod Messages
pub mod Roundtrip
pub mod Limit
use Prim.Native.Nat.{bit_xor}
use rustmate.Base.{
  ℕ, zero, suc, ◌+◌, ◌-◌, ◌*◌, ◌/◌, ◌%◌, Bool, true, false, ◌&&◌, Option, none, some, List, [], ◌∷◌,
  ◌++◌, ltb, leb, ◌==◌, if◌then◌else◌, length, take, drop, get_elem?,
}
use rustmate.Transform.Outcome.{
  WebSocketError, truncated_header, truncated_length_or_mask, truncated_payload,
}

pub record WebSocketFrame : Type 0 where
  pub fin : Bool
  pub opcode : ℕ
  pub rsv1 : Bool
  pub payload : List ℕ

-- A value and the input behind it, or an error.
pub data Parsed (A : Type 0) : Type 0 where
  ok : A → List ℕ → Parsed A
  err : WebSocketError → Parsed A

unfoldable pub read_array : ℕ → List ℕ → Parsed (List ℕ)
read_array n input =
    if ltb (length input) n then err truncated_length_or_mask else ok (take n input) (drop n input)

-- `from_be_bytes`: the digits to base 256 behind `value`.
unfoldable pub be_value : ℕ → List ℕ → ℕ
be_value value [] = value
be_value value (b ∷ bs) = be_value (value * 256 + b) bs

-- The length of the payload, `length7` being the seven bits of the header. No length is too large for
-- a `usize` of 64 bits.
unfoldable pub read_length : ℕ → List ℕ → Parsed ℕ
unfolding read_array be_value
read_length length7 input =
    if length7 == 126
    then (elim (read_array 2 input) [
      | err error ↦ err error
      | ok bytes rest ↦ ok (be_value 0 bytes) rest
    ])
    else if length7 == 127
    then (elim (read_array 8 input) [
      | err error ↦ err error
      | ok bytes rest ↦ ok (be_value 0 bytes) rest
    ])
    else ok length7 input

unfoldable pub read_mask : Bool → List ℕ → Parsed (Option (List ℕ))
unfolding read_array
read_mask false input = ok none input
read_mask true input = elim (read_array 4 input) [
  | err error ↦ err error
  | ok bytes rest ↦ ok (some bytes) rest
]

mask_byte : Option ℕ → ℕ
mask_byte none = 0
mask_byte (some b) = b

-- `*byte ^= mask[index % 4]`, from `index` on.
unfoldable pub unmask : List ℕ → ℕ → List ℕ → List ℕ
unfolding mask_byte
unmask mask index [] = []
unmask mask index (b ∷ bs) =
    bit_xor b (mask_byte (get_elem? mask (index % 4))) ∷ unmask mask (index + 1) bs

unfoldable pub apply_mask : Option (List ℕ) → List ℕ → List ℕ
unfolding unmask
apply_mask none payload = payload
apply_mask (some mask) payload = unmask mask 0 payload

unfoldable pub read_payload : ℕ → ℕ → Option (List ℕ) → List ℕ → Parsed WebSocketFrame
unfolding apply_mask
read_payload first payload_len mask input =
    if ltb (length input) payload_len
    then err truncated_payload
    else ok
        (record {
          fin = first / 128 % 2 == 1;
          opcode = first % 16;
          rsv1 = first / 64 % 2 == 1;
          payload = apply_mask mask (take payload_len input);
        })
        (drop payload_len input)

-- The frame whose header starts with these two bytes.
unfoldable pub read_frame : ℕ → ℕ → List ℕ → Parsed WebSocketFrame
read_frame first second input = elim (read_length (second % 128) input) [
  | err error ↦ err error
  | ok payload_len after_length ↦ elim (read_mask (second / 128 % 2 == 1) after_length) [
    | err error ↦ err error
    | ok mask after_mask ↦ read_payload first payload_len mask after_mask
  ]
]

-- `none` at the end of the input; the source keeps the offset of the rest.
unfoldable pub next_frame : List ℕ → Parsed (Option WebSocketFrame)
next_frame [] = ok none []
next_frame (first ∷ []) = err truncated_header
next_frame (first ∷ second ∷ input) = elim (read_frame first second input) [
  | err error ↦ err error
  | ok frame rest ↦ ok (some frame) rest
]
