-- ===== src/Packet/Segment.antt =====
-- src/packet/mod.rs: the TCP segment that a packet carries, and the sequence space it takes up.
use rustmate.Base.{ℕ, Bool, true, false, as_u32, saturating_add32, wrapping_add}

pub data TransportProtocol : Type 0 where
  tcp udp icmpv4 icmpv6 : TransportProtocol

pub record TcpFlags : Type 0 where
  pub fin : Bool
  pub syn : Bool
  pub rst : Bool
  pub psh : Bool
  pub ack : Bool
  pub urg : Bool
  pub ece : Bool
  pub cwr : Bool

pub record TcpSegment : Type 0 where
  pub sequence_number : ℕ
  pub acknowledgment_number : ℕ
  pub flags : TcpFlags
  pub window_size : ℕ
  pub payload_len : ℕ

-- `u32::from(bool)`.
abbrev pub of_bool : Bool → ℕ
of_bool true = 1
of_bool false = 0

unfoldable pub sequence_span : TcpSegment → ℕ
sequence_span s =
    saturating_add32 (saturating_add32 (as_u32 s.payload_len) (of_bool s.flags.syn))
      (of_bool s.flags.fin)

unfoldable pub payload_sequence_start : TcpSegment → ℕ
payload_sequence_start s = wrapping_add s.sequence_number (of_bool s.flags.syn)

unfoldable pub payload_sequence_end : TcpSegment → ℕ
unfolding payload_sequence_start
payload_sequence_end s = wrapping_add (payload_sequence_start s) (as_u32 s.payload_len)
