-- ===== src/Payload/Packet/Whole.antt =====
-- Payload and Packet of payload/packet.hh on a stream. The addresses and the times of a packet are
-- not on the wire, and nothing here reads them.
use simple_quic.Common.{
  ℕ, zero, suc, ◌-◌, List, [], ◌∷◌, Bool, not, ltb, if◌then◌else◌, Result, ok, Error, Option, none,
  some,
}
use simple_quic.Utils.ByteStream.{ByteStream, Io, ◌>>=◌, ◌>>◌, pure, throw, get_free, empty}
use simple_quic.Payload.Frame.{Frame}
use simple_quic.Payload.Frame.Encode.{encode}
use simple_quic.Payload.Frame.Parse.{parse}
use simple_quic.Payload.Packet.{Header, PacketType, packet_type, payload_length}
use simple_quic.Payload.Packet.Codec.{check_room, encode_header, header_len, parse_header}
use simple_quic.Payload.Packet.Frames.{payload_len, plus}

-- Payload::Encode
unfoldable pub encode_frames : List Frame → Io (Unit {0})
encode_frames [] = pure tt
encode_frames (f ∷ fs) = do encode f; encode_frames fs

unfoldable pub encode_payload : List Frame → Io (Unit {0})
encode_payload fs = do check_room (payload_len fs); encode_frames fs

-- The loops of the two constructors of Payload from a stream, which go on while `more` holds. A
-- frame takes at least a byte, so the free bytes bound the turns; when none is left, the next
-- Frame::Parse fails the assertion of Fetch(1).
unfoldable pub parse_while : (ByteStream → Bool) → ℕ → Io (List Frame)
parse_while more zero = do go ← λ s. ok (more s, s); if go then throw Error.assertion else pure []
parse_while more (suc turns) = do
  go ← λ s. ok (more s, s)
  let turn = (parse >>= λ f. parse_while more turns >>= λ fs. pure (f ∷ fs))
  if go then turn else pure []

-- Payload(stream, len) and Payload(stream).
unfoldable pub parse_payload_of : ℕ → Io (List Frame)
unfolding parse_while
parse_payload_of len = do
  pos ← λ s. ok (s.pos, s)
  free ← λ s. ok (get_free s, s)
  parse_while (λ s. ltb (s.pos - pos) len) free

unfoldable pub parse_payload : Io (List Frame)
unfolding parse_while
parse_payload = do free ← λ s. ok (get_free s, s); parse_while (λ s. not (empty s)) free

pub record Packet : Type 0 where
  pub header : Header
  pub payload : Option (List Frame)

-- Packet(stream, ...)
unfoldable pub parse_behind : PacketType → Header → Io Packet
parse_behind PacketType.one_rtt h = do
  fs ← parse_payload
  pure (record { header = h; payload = some fs })
parse_behind PacketType.retry h = pure (record { header = h; payload = none })
parse_behind _ h = do
  fs ← parse_payload_of (payload_length h)
  pure (record { header = h; payload = some fs })

unfoldable pub parse_packet : Io Packet
unfolding parse_behind
parse_packet = do h ← parse_header; parse_behind (packet_type h) h

-- Packet::EncodeLen and Packet::Encode, of a packet with a header.
unfoldable pub some_len : Option (List Frame) → Result ℕ
some_len none = ok 0
some_len (some fs) = payload_len fs

unfoldable pub packet_len : Packet → Result ℕ
packet_len p = plus (header_len p.header) (some_len p.payload)

unfoldable pub encode_some : Option (List Frame) → Io (Unit {0})
unfolding encode_payload
encode_some none = pure tt
encode_some (some fs) = encode_payload fs

unfoldable pub encode_packet : Packet → Io (Unit {0})
encode_packet p = do check_room (packet_len p); encode_header p.header; encode_some p.payload
