-- ===== src/Payload/Packet.antt =====
-- payload/packet.hh: the headers of packets, their payloads, and packets.
-- The fields that every constructor of a class sets to the same value (headerForm, fixedBit, and
-- spinBit, reservedBits and keyPhase of a short header) are written out where they are used.
pub mod Codec
pub mod Wire
pub mod Writing
pub mod Reading
pub mod RoundTrip
pub mod Frames
pub mod Whole
pub mod Loop
pub mod Trip
pub mod Make
pub mod Acked
pub mod Examples
use simple_quic.Common.{ℕ, ◌+◌, ◌-◌, ◌%◌, ◌^◌, List, Bool, true, false, not, ◌||◌, ◌&&◌}
use simple_quic.Context.ConnectionId.{ConnectionId}
use simple_quic.Payload.Frame.{FrameType}

pub data PacketType : Type 0 where
  initial zero_rtt handshake retry one_rtt : PacketType

-- `lower` is the union of reserved and unusedLower, `upper` that of pktNumLen and unusedUpper.
pub record LongHeader : Type 0 where
  pub packet_type : ℕ
  pub lower : ℕ
  pub upper : ℕ
  pub version : ℕ
  pub dst : ConnectionId
  pub src : ConnectionId

-- A token stands for its buffer and its length.
pub data Header : Type 0 where
  short : (pkt_num_len : ℕ) (dst : ConnectionId) (pkt_num : ℕ) → Header
  initial : (long : LongHeader) (token : List ℕ) (len pkt_num : ℕ) → Header
  zero_rtt : (long : LongHeader) (len pkt_num : ℕ) → Header
  handshake : (long : LongHeader) (len pkt_num : ℕ) → Header
  retry : (long : LongHeader) (token tag : List ℕ) → Header

-- Type()
unfoldable pub packet_type : Header → PacketType
packet_type (Header.short n dst num) = PacketType.one_rtt
packet_type (Header.initial long token len num) = PacketType.initial
packet_type (Header.zero_rtt long len num) = PacketType.zero_rtt
packet_type (Header.handshake long len num) = PacketType.handshake
packet_type (Header.retry long token tag) = PacketType.retry

-- GetPktNum()
unfoldable pub get_pkt_num : Header → ℕ
get_pkt_num (Header.short n dst num) = num
get_pkt_num (Header.initial long token len num) = num
get_pkt_num (Header.zero_rtt long len num) = num
get_pkt_num (Header.handshake long len num) = num
get_pkt_num (Header.retry long token tag) = 0

-- GetDstID()
unfoldable pub get_dst_id : Header → ConnectionId
get_dst_id (Header.short n dst num) = dst
get_dst_id (Header.initial long token len num) = long.dst
get_dst_id (Header.zero_rtt long len num) = long.dst
get_dst_id (Header.handshake long len num) = long.dst
get_dst_id (Header.retry long token tag) = long.dst

-- IsFrameAllowed of Initial and of Handshake.
handshake_allows : FrameType → Bool
handshake_allows FrameType.padding = true
handshake_allows FrameType.ping = true
handshake_allows FrameType.ack = true
handshake_allows FrameType.crypto = true
handshake_allows _ = false

-- IsFrameAllowed of ZeroRTT.
zero_rtt_allows : FrameType → Bool
zero_rtt_allows FrameType.ack = false
zero_rtt_allows FrameType.crypto = false
zero_rtt_allows FrameType.new_token = false
zero_rtt_allows FrameType.handshake_done = false
zero_rtt_allows _ = true

unfoldable pub is_frame_allowed : Header → FrameType → Bool
unfolding handshake_allows zero_rtt_allows
is_frame_allowed (Header.short n dst num) type = true
is_frame_allowed (Header.initial long token len num) type = handshake_allows type
is_frame_allowed (Header.zero_rtt long len num) type = zero_rtt_allows type
is_frame_allowed (Header.handshake long len num) type = handshake_allows type
is_frame_allowed (Header.retry long token tag) type = false

-- PayloadLen(). The subtraction is of size_t, so it wraps.
payload_left : ℕ → ℕ → ℕ
payload_left len upper = (len + 2 ^ 64 - (upper + 1)) % 2 ^ 64

unfoldable pub payload_length : Header → ℕ
unfolding payload_left
payload_length (Header.short n dst num) = 0
payload_length (Header.initial long token len num) = payload_left len long.upper
payload_length (Header.zero_rtt long len num) = payload_left len long.upper
payload_length (Header.handshake long len num) = payload_left len long.upper
payload_length (Header.retry long token tag) = 0
