-- ===== src/Context/Handshake/Receive/Wire.antt =====
-- What the receiver reads of an INITIAL packet. The header that the code builds has the Length 1, so
-- that it counts the packet number and no byte of the frames.
use simple_quic.Common.{
  ℕ, ◌+◌, ◌<◌, ◌≡◌, refl, ◌∙◌, List, [], ◌∷◌, ◌++◌, append_assoc, length, drop, some, ok, arith,
}
use simple_quic.Utils.ByteStream.{
  ◌>>=◌, ByteStream, seek, put, make, get_free, IsValid, remaining, advance,
}
use simple_quic.Utils.ByteStream.Laws.{remaining-seek-put}
use simple_quic.Payload.Frame.{Frame, frame_type}
use simple_quic.Payload.Frame.Measure.{encode_len-length}
use simple_quic.Payload.Packet.{Header, packet_type, payload_length}
use simple_quic.Payload.Packet.Wire.{header_bytes, FitsHeader}
use simple_quic.Payload.Packet.RoundTrip.{IsReadableHeader, parse_header-Reads}
use simple_quic.Payload.Packet.Loop.{AllSendable, payload_bytes, parse_payload_of-Reads}
use simple_quic.Payload.Packet.Whole.{Packet, parse_packet, parse_behind}
use simple_quic.Context.ConnectionId.{ConnectionId}
use simple_quic.Context.ConnectionId.RoundTrip.{IsWellFormed}
use simple_quic.Context.Queue.{single}
use simple_quic.Context.Sending.{encode_datagram}
use simple_quic.Context.Sending.Datagram.{get_free-make, encode_datagram-put}
use simple_quic.Context.Handshake.Receive.{received}
use simple_quic.Context.Handshake.Receive.Runs.{initial_of, ack_one}

-- The datagram of a packet, and what is received of it.
abbrev pub Arrives : Packet → Packet → Type 0
Arrives p p' = (b : ByteStream) × (encode_datagram p ≡ ok b) × (received (seek 0 b) ≡ ok p')

module _ (src dst : ConnectionId) (num : ℕ) (fs : List Frame) (ws : IsWellFormed src)
    (wd : IsWellFormed dst) (small : num < 256) (a : AllSendable fs) where
  abbrev header : Header
  header = (initial_of src dst num fs).header

  fits : FitsHeader header
  fits = (
    record {
      type_bits = omega arith;
      lower_bits = omega arith;
      upper_bits = omega arith;
      dst_wf = wd;
      src_wf = ws;
    },
    omega arith,
    omega arith,
  )

  readable : IsReadableHeader header
  readable = ((refl, omega arith, omega (arith, small), omega (arith, small)), omega arith)

  abbrev bytes : List ℕ
  bytes = header_bytes header ++ payload_bytes fs

  abbrev room : ByteStream
  room = make (length bytes)

  valid : IsValid room
  unfolding make
  valid = omega arith

  enough : get_free room ≡ length bytes
  enough = get_free-make (length bytes)

  no_frames :
      (t : ByteStream)
      → parse_behind (packet_type header) header t
        ≡ ok (record { header = header; payload = some [] }, advance 0 t)
  unfolding parse_behind packet_type payload_length
  no_frames t = rw (parse_payload_of-Reads [] tt t (remaining t) refl, ◌>>=◌) refl

  pub initial_of-Arrives : Arrives (initial_of src dst num fs) (initial_of src dst num [])
  unfolding received parse_packet make
  initial_of-Arrives =
      let t = put bytes room in
      let whole : remaining (seek 0 t)
          ≡ header_bytes header ++ (payload_bytes fs ++ drop (0 + length bytes) room.buffer) =
        remaining-seek-put room valid bytes (omega (arith, enough))
        ∙ append_assoc (header_bytes header) (payload_bytes fs)
            (drop (0 + length bytes) room.buffer) in
      let read = parse_header-Reads header fits readable (seek 0 t) _ whole in
      (
        t,
        encode_datagram-put header fs fits a,
        rw (read, ◌>>=◌, no_frames (advance (length (header_bytes header)) (seek 0 t))) refl,
      )

ack_one-AllSendable : AllSendable ack_one
unfolding frame_type
ack_one-AllSendable = (
  (
    omega arith,
    omega arith,
    encode_len-length (Frame.ack 0 (single 1 ∷ [])) (omega arith) (λ e. cc),
  ),
  tt,
)

pub answer-Arrives :
    (src dst : ConnectionId) (num : ℕ)
    → IsWellFormed src
    → IsWellFormed dst
    → num < 256
    → Arrives (initial_of src dst num ack_one) (initial_of src dst num [])
answer-Arrives src dst num ws wd small =
    initial_of-Arrives src dst num ack_one ws wd small ack_one-AllSendable
