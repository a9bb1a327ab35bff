-- ===== src/Payload/Packet/Make.antt =====
-- The constructors that build a header from values, and how a reader takes what they build.
use simple_quic.Common.{
  ℕ, ◌+◌, ◌*◌, ◌%◌, ◌^◌, ◌≤◌, ◌<◌, ◌≡◌, refl, sym, List, [], length, Result, ok, err, Error, ◌>>=◌,
  arith, Bool, true, false, if◌then◌else◌,
}
use simple_quic.Utils.ByteStream.{ByteStream, IsValid, get_free, seek}
use simple_quic.Utils.ByteStream.Laws.{round_trip}
use simple_quic.Utils.Codec.{encode_var_int_len}
use simple_quic.Context.ConnectionId.{ConnectionId}
use simple_quic.Payload.Packet.{LongHeader, Header, PacketType}
use simple_quic.Payload.Packet.Wire.{header_bytes, FitsHeader}
use simple_quic.Payload.Packet.Writing.{encode_header-Writes}
use simple_quic.Payload.Packet.RoundTrip.{parse_header-Reads}
use simple_quic.Payload.Packet.Codec.{encode_header, parse_header}

-- packetType, or the exception.
unfoldable pub type_code : PacketType → Result ℕ
type_code PacketType.initial = ok 0
type_code PacketType.zero_rtt = ok 1
type_code PacketType.handshake = ok 2
type_code _ = err Error.invalid_argument

unfoldable pub is_retry : PacketType → Bool
is_retry PacketType.retry = true
is_retry _ = false

-- LongHeader(version, pktNumLen, srcConnID, dstConnID, type). pktNumLen - 1 goes into two bits.
unfoldable pub make_long : ℕ → ℕ → ConnectionId → ConnectionId → PacketType → Result LongHeader
unfolding type_code is_retry
make_long version pkt_num_len src dst type = do
  bits ← if is_retry type then err Error.assertion else type_code type
  ok (record {
    packet_type = bits;
    lower = 0;
    upper = (pkt_num_len + 3) % 4;
    version = version;
    dst = dst;
    src = src;
  })

-- LongHeader(version, srcConnID, dstConnID, type), which asserts the type of Retry.
unfoldable pub make_long_retry : ℕ → ConnectionId → ConnectionId → PacketType → Result LongHeader
unfolding is_retry
make_long_retry version src dst type =
    if is_retry type
    then ok
        (record { packet_type = 3; lower = 0; upper = 0; version = version; dst = dst; src = src })
    else err Error.assertion

unfoldable pub make_initial : ℕ → ℕ → ConnectionId → ConnectionId → ℕ → Result Header
make_initial version pkt_num_len src dst pkt_num = do
  long ← make_long version pkt_num_len src dst PacketType.initial
  len ← encode_var_int_len pkt_num
  ok (Header.initial long [] len pkt_num)

unfoldable pub make_handshake : ℕ → ℕ → ConnectionId → ConnectionId → ℕ → Result Header
make_handshake version pkt_num_len src dst pkt_num = do
  long ← make_long version pkt_num_len src dst PacketType.handshake
  len ← encode_var_int_len pkt_num
  ok (Header.handshake long len pkt_num)

-- ZeroRTT(...) hands the type of a Handshake header on.
unfoldable pub make_zero_rtt : ℕ → ℕ → ConnectionId → ConnectionId → ℕ → Result Header
make_zero_rtt version pkt_num_len src dst pkt_num = do
  long ← make_long version pkt_num_len src dst PacketType.handshake
  len ← encode_var_int_len pkt_num
  ok (Header.zero_rtt long len pkt_num)

-- So does Retry(...).
unfoldable pub make_retry : ℕ → ConnectionId → ConnectionId → List ℕ → List ℕ → Result Header
make_retry version src dst token tag = do
  long ← make_long_retry version src dst PacketType.handshake
  ok (Header.retry long token tag)

-- ShortHeader(pktNumLen, dstConnID, pktNum)
unfoldable pub make_short : ℕ → ConnectionId → ℕ → Header
make_short pkt_num_len dst pkt_num = Header.short ((pkt_num_len + 3) % 4) dst pkt_num

made_type :
    (r : Result ℕ) (made l : LongHeader) (len num k : ℕ)
    → (r >>= λ n. ok (Header.zero_rtt made n k)) ≡ ok (Header.zero_rtt l len num)
    → made.packet_type ≡ l.packet_type
made_type (ok n) made l len num k e = ground (arith, e)
made_type (err x) made l len num k e = absurd (ground (arith, e))

-- A 0-RTT header that its constructor built, its fields within their bits, is written where there
-- is room, and it is read as the Handshake header with the same fields.
pub parse_header-make_zero_rtt :
    (version n pkt_num : ℕ) (src dst : ConnectionId) (l : LongHeader) (len num : ℕ) (s : ByteStream)
    → make_zero_rtt version n src dst pkt_num ≡ ok (Header.zero_rtt l len num)
    → FitsHeader (Header.zero_rtt l len num)
    → l.version < 2 ^ 32
    → num < 2 ^ 32
    → num < 2 ^ (8 * (l.upper + 1))
    → IsValid s
    → length (header_bytes (Header.zero_rtt l len num)) ≤ get_free s
    → (t : ByteStream) × (encode_header (Header.zero_rtt l len num) s ≡ ok (tt, t))
      × (parse_header (seek s.pos t) ≡ ok (Header.handshake l len num, t))
unfolding make_zero_rtt make_long header_bytes
parse_header-make_zero_rtt version n pkt_num src dst l len num s e f hv h32 hn v room =
    let kind : 2 ≡ l.packet_type = made_type (encode_var_int_len pkt_num) _ l len num pkt_num e in
    let (w, r) =
      round_trip (encode_header (Header.zero_rtt l len num)) parse_header
        (header_bytes (Header.zero_rtt l len num)) (Header.handshake l len num)
        (encode_header-Writes (Header.zero_rtt l len num) f)
        (parse_header-Reads (Header.handshake l len num) f (sym kind, hv, h32, hn)) s v room in
    (_, w, r)

-- The constructor of Retry fails its own assertion, whatever it is given.
pub make_retry-fails :
    (version : ℕ) (src dst : ConnectionId) (token tag : List ℕ)
    → make_retry version src dst token tag ≡ err Error.assertion
unfolding make_retry make_long_retry
make_retry-fails version src dst token tag = refl
