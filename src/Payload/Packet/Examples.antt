-- ===== src/Payload/Packet/Examples.antt =====
-- Packets on concrete streams, and the theorems at concrete packets.
use simple_quic.Common.{ℕ, ◌≡◌, refl, List, [], ◌∷◌, ok, arith, true, length, some, replicate}
use simple_quic.Utils.ByteStream.{ByteStream, make, seek, put, get_free}
use simple_quic.Utils.Codec.{be_bytes, encode_var_int_len, encode_index, encode_params, size_at}
use simple_quic.Utils.Codec.VarInt.{var_bytes, tagged}
use simple_quic.Utils.Interval.Sets.{IntervalSet, contain}
use simple_quic.Utils.Interval.Add.{IsOrdered}
use simple_quic.Context.ConnectionId.{ConnectionId, padded, encode_id_len}
use simple_quic.Context.ConnectionId.RoundTrip.{IsWellFormed}
use simple_quic.Payload.Frame.{Frame, frame_type}
use simple_quic.Payload.Frame.Length.{encode_len, lens}
use simple_quic.Payload.Frame.Wire.{frame_bytes}
use simple_quic.Payload.Packet.{Header, LongHeader}
use simple_quic.Payload.Packet.Codec.{encode_header, parse_header, header_len}
use simple_quic.Payload.Packet.Wire.{header_bytes, FitsLong}
use simple_quic.Payload.Packet.RoundTrip.{parse_header-encode_header}
use simple_quic.Payload.Packet.Writing.{header_len-length}
use simple_quic.Payload.Packet.Frames.{collect_ack_range, payload_len, is_ack_eliciting, elicits}
use simple_quic.Payload.Packet.Whole.{encode_packet, parse_packet, packet_len, some_len}
use simple_quic.Payload.Packet.Loop.{AllSendable}
use simple_quic.Payload.Packet.Trip.{parse_packet-encode_packet}
use simple_quic.Payload.Packet.Acked.{acks, contain-collect_ack_range}

abbrev pub some_id : ConnectionId
some_id = record { id = 1 ∷ 2 ∷ 3 ∷ 4 ∷ 5 ∷ 6 ∷ 7 ∷ 8 ∷ replicate 12 0; valid = true; len = 8 }

pub some_id-IsWellFormed : IsWellFormed some_id
unfolding padded
some_id-IsWellFormed = record { short = omega arith; counted = refl; zeros = refl; set = refl }

abbrev pub short_header : Header
short_header = Header.short 0 some_id 5

abbrev pub some_frames : List Frame
some_frames = Frame.max_data 5 ∷ Frame.ping ∷ []

pub some_frames-AllSendable : AllSendable some_frames
unfolding encode_len lens encode_var_int_len encode_index encode_params size_at frame_bytes
    var_bytes tagged be_bytes
some_frames-AllSendable = ((omega arith, tt, refl), ((tt, tt, refl), tt))

parse_packet-encode_packet_example :
    (t : ByteStream) × (encode_packet
        (record { header = short_header; payload = some some_frames })
        (make 13)
      ≡ ok (tt, t))
    × (get_free t ≡ 0)
    × (parse_packet (seek 0 t)
        ≡ ok (record { header = short_header; payload = some some_frames }, t))
unfolding packet_len some_len header_len payload_len encode_len lens encode_var_int_len encode_index
    encode_params size_at encode_id_len get_free make
parse_packet-encode_packet_example =
    parse_packet-encode_packet short_header some_frames (make 13)
      (omega arith, some_id-IsWellFormed) (refl, omega arith, omega arith) some_frames-AllSendable
      tt (omega arith) refl

parse_header-encode_header_example :
    (encode_header short_header (make 13) ≡ ok (tt, put (header_bytes short_header) (make 13)))
    × (parse_header (seek 0 (put (header_bytes short_header) (make 13)))
        ≡ ok (short_header, put (header_bytes short_header) (make 13)))
unfolding make header_bytes be_bytes get_free
parse_header-encode_header_example =
    parse_header-encode_header short_header (make 13) (omega arith, some_id-IsWellFormed)
      (refl, omega arith, omega arith) (omega arith) (omega arith)

header_len-length_example : header_len short_header ≡ ok (length (header_bytes short_header))
header_len-length_example = header_len-length short_header (omega arith, some_id-IsWellFormed)

abbrev acking : List Frame
acking =
    Frame.ack 0 (record { start = 1; end = 3 } ∷ [])
    ∷ Frame.ping
    ∷ Frame.ack 0 (record { start = 4; end = 6 } ∷ [])
    ∷ []

eliciting : is_ack_eliciting acking ≡ true
unfolding is_ack_eliciting elicits frame_type
eliciting = refl

contain-collect_ack_range_example :
    (t : IntervalSet) × (collect_ack_range acking ≡ ok t)
    × IsOrdered t
    × ((x : ℕ) → contain t x ≡ acks acking x)
contain-collect_ack_range_example = contain-collect_ack_range acking (omega arith)

abbrev early_long : LongHeader
early_long = record {
  packet_type = 2;
  lower = 0;
  upper = 3;
  version = 1;
  dst = some_id;
  src = some_id;
}

early_long-FitsLong : FitsLong early_long
early_long-FitsLong = record {
  type_bits = omega arith;
  lower_bits = omega arith;
  upper_bits = omega arith;
  dst_wf = some_id-IsWellFormed;
  src_wf = some_id-IsWellFormed;
}
