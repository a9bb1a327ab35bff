-- ===== src/Payload/Packet/Wire.antt =====
-- The wire form of a header, as a list of bytes, and what Encode writes and EncodeLen counts.
use simple_quic.Common.{ℕ, ◌+◌, ◌*◌, ◌<◌, ◌≡◌, List, [], ◌∷◌, ◌++◌, length}
use simple_quic.Utils.Codec.{be_bytes}
use simple_quic.Utils.Codec.VarInt.{var_bytes, IsVarInt}
use simple_quic.Context.ConnectionId.RoundTrip.{IsWellFormed, sized_bytes, id_bytes}
use simple_quic.Payload.Packet.{LongHeader, Header}

-- RFC 9000, 17.2 and 17.3: the fields of the first byte, from the highest bit down.
abbrev pub first_of_long : ℕ → ℕ → ℕ → ℕ
first_of_long type lower upper = 192 + (16 * type + 4 * lower + upper)

unfoldable pub long_bytes : LongHeader → List ℕ
long_bytes long =
    (first_of_long long.packet_type long.lower long.upper ∷ [])
    ++ (be_bytes 4 long.version ++ (id_bytes long.dst ++ id_bytes long.src))

unfoldable pub header_bytes : Header → List ℕ
header_bytes (Header.short n dst num) = ((64 + n) ∷ []) ++ (sized_bytes dst ++ be_bytes (n + 1) num)
header_bytes (Header.initial long token len num) =
    long_bytes long
    ++ (var_bytes (length token) ++ (token ++ (var_bytes len ++ be_bytes (long.upper + 1) num)))
header_bytes (Header.zero_rtt long len num) =
    long_bytes long ++ (var_bytes len ++ be_bytes (long.upper + 1) num)
header_bytes (Header.handshake long len num) =
    long_bytes long ++ (var_bytes len ++ be_bytes (long.upper + 1) num)
header_bytes (Header.retry long token tag) = long_bytes long ++ (token ++ tag)

-- The fields are within their bits.
pub record FitsLong (long : LongHeader) : Type 0 where
  pub type_bits : long.packet_type < 4
  pub lower_bits : long.lower < 4
  pub upper_bits : long.upper < 4
  pub dst_wf : IsWellFormed long.dst
  pub src_wf : IsWellFormed long.src

abbrev pub FitsHeader : Header → Type 0
FitsHeader (Header.short n dst num) = (n < 4) × IsWellFormed dst
FitsHeader (Header.initial long token len num) =
    FitsLong long × IsVarInt (length token) × IsVarInt len
FitsHeader (Header.zero_rtt long len num) = FitsLong long × IsVarInt len
FitsHeader (Header.handshake long len num) = FitsLong long × IsVarInt len
FitsHeader (Header.retry long token tag) = FitsLong long × (length tag ≡ 16)
