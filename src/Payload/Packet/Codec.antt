-- ===== src/Payload/Packet/Codec.antt =====
-- The headers of payload/packet.hh: EncodeLen, Encode, and the constructors from a stream.
use simple_quic.Common.{
  ℕ, ◌+◌, ◌*◌, ◌/◌, ◌%◌, ◌^◌, List, [], ◌∷◌, bit_and, bit_or, ◌==◌, leb, if◌then◌else◌, length,
  true, false, Result, ok, Error,
}
use simple_quic.Utils.ByteStream.{
  Io, ◌>>=◌, ◌>>◌, pure, throw, assert, check_free, peek_bytes, read_bytes, write_bytes, get_free,
}
use simple_quic.Utils.Codec.{encode_uint, decode_uint, encode_var_int, decode_var_int, first_byte}
use simple_quic.Context.ConnectionId.{
  local_connection_id_length, parse_id, parse_sized, encode_id, encode_id_len,
}
use simple_quic.Payload.Frame.Encode.{sub64}
use simple_quic.Payload.Frame.Length.{lens}
use simple_quic.Payload.Frame.Parse.{lift}
use simple_quic.Payload.Packet.{LongHeader, Header}

-- The capacity of Initial::token.
abbrev pub token_room : ℕ
token_room = 512

-- LongHeader::EncodeLen
unfoldable pub long_header_len : LongHeader → ℕ
long_header_len long = 5 + encode_id_len long.src true + encode_id_len long.dst true

-- EncodeLen
unfoldable pub header_len : Header → Result ℕ
unfolding long_header_len
header_len (Header.short n dst num) = ok (1 + n + 1 + encode_id_len dst false)
header_len (Header.initial long token len num) =
    lens (length token ∷ len ∷ []) (long_header_len long + length token + (long.upper + 1))
header_len (Header.zero_rtt long len num) =
    lens (len ∷ []) (long_header_len long + (long.upper + 1))
header_len (Header.handshake long len num) =
    lens (len ∷ []) (long_header_len long + (long.upper + 1))
header_len (Header.retry long token tag) = ok (long_header_len long + length token + 16)

-- Serialization::CheckBufferRoom, given what EncodeLen returns.
unfoldable pub check_room : Result ℕ → Io (Unit {0})
check_room len = do n ← lift len; check_free n

-- The first byte of a header, with the bits that are always 0 left out.
unfoldable pub short_byte : ℕ → ℕ
short_byte pkt_num_len = bit_or (bit_or (0 * 2 ^ 7) (1 * 2 ^ 6)) pkt_num_len

unfoldable pub long_byte : ℕ → ℕ → ℕ → ℕ
long_byte type lower upper =
    bit_or (bit_or (bit_or (bit_or (1 * 2 ^ 7) (1 * 2 ^ 6)) (type * 2 ^ 4)) (lower * 2 ^ 2)) upper

-- LongHeader::Encode. The check of the room calls the EncodeLen of the whole header.
unfoldable pub encode_long : Result ℕ → LongHeader → Io (Unit {0})
encode_long len long = do
  check_room len
  write_bytes (long_byte long.packet_type long.lower long.upper ∷ [])
  encode_uint long.version 4
  encode_id long.dst true
  encode_id long.src true

-- Encode, behind the check of the room.
unfoldable pub encode_fields : Header → Io (Unit {0})
unfolding header_len
encode_fields (Header.short n dst num) = do
  write_bytes (short_byte n ∷ [])
  encode_id dst false
  encode_uint num (n + 1)
encode_fields (Header.initial long token len num) = do
  encode_long (header_len (Header.initial long token len num)) long
  encode_var_int (length token)
  write_bytes token
  encode_var_int len
  encode_uint num (long.upper + 1)
encode_fields (Header.zero_rtt long len num) = do
  encode_long (header_len (Header.zero_rtt long len num)) long
  encode_var_int len
  encode_uint num (long.upper + 1)
encode_fields (Header.handshake long len num) = do
  encode_long (header_len (Header.handshake long len num)) long
  encode_var_int len
  encode_uint num (long.upper + 1)
encode_fields (Header.retry long token tag) = do
  encode_long (header_len (Header.retry long token tag)) long
  write_bytes token
  write_bytes tag

unfoldable pub encode_header : Header → Io (Unit {0})
encode_header header = do check_room (header_len header); encode_fields header

-- ShortHeader(stream, LOCAL_CONNECTION_ID_LENGTH). pktNum has 32 bits.
unfoldable pub parse_short : Io Header
parse_short = do
  front ← read_bytes 1
  assert (bit_and (first_byte front) 0x80 / 2 ^ 7 == 0)
  assert (bit_and (first_byte front) 0x40 / 2 ^ 6 == 1)
  assert (bit_and (first_byte front) 0x18 / 2 ^ 3 == 0)
  dst ← parse_sized local_connection_id_length
  num ← decode_uint (bit_and (first_byte front) 0x03 + 1)
  pure (Header.short (bit_and (first_byte front) 0x03) dst (num % 2 ^ 32))

-- LongHeader(stream)
unfoldable pub parse_long : Io LongHeader
parse_long = do
  front ← read_bytes 1
  assert (bit_and (first_byte front) 0x80 / 2 ^ 7 == 1)
  assert (bit_and (first_byte front) 0x40 / 2 ^ 6 == 1)
  version ← decode_uint 4
  dst ← parse_id
  src ← parse_id
  pure (record {
    packet_type = bit_and (first_byte front) 0x30 / 2 ^ 4;
    lower = bit_and (first_byte front) 0x0c / 2 ^ 2;
    upper = bit_and (first_byte front) 0x03;
    version = version % 2 ^ 32;
    dst = dst;
    src = src;
  })

-- std::copy of the token into an array of fixed size, without a check.
unfoldable pub copy_token : List ℕ → Io (Unit {0})
copy_token token = if leb (length token) token_room then pure tt else throw Error.out_of_bounds

unfoldable pub parse_initial : Io Header
parse_initial = do
  long ← parse_long
  token_length ← decode_var_int
  token ← read_bytes token_length
  copy_token token
  len ← decode_var_int
  num ← decode_uint (long.upper + 1)
  pure (Header.initial long token len (num % 2 ^ 32))

-- ZeroRTT(stream) and Handshake(stream).
abbrev pub parse_numbered : (LongHeader → ℕ → ℕ → Header) → Io Header
parse_numbered make = do
  long ← parse_long
  len ← decode_var_int
  num ← decode_uint (long.upper + 1)
  pure (make long len (num % 2 ^ 32))

unfoldable pub parse_retry : Io Header
parse_retry = do
  long ← parse_long
  left ← λ s. ok (get_free s, s)
  token ← read_bytes (sub64 left 16)
  tag ← read_bytes 16
  pure (Header.retry long token tag)

-- The switches of Header::Parse; the two defaults cannot be reached.
unfoldable pub parse_header_by : ℕ → Io Header
parse_header_by b =
    if bit_and b 0x80 == 0x80
    then if bit_and b 0x30 == 0x00
      then parse_initial
      else if bit_and b 0x30 == 0x10
      then parse_numbered Header.zero_rtt
      else if bit_and b 0x30 == 0x20
      then parse_numbered Header.handshake
      else if bit_and b 0x30 == 0x30
      then parse_retry
      else throw Error.runtime_error
    else if bit_and b 0x80 == 0x00
    then parse_short
    else throw Error.runtime_error

unfoldable pub parse_header : Io Header
unfolding parse_header_by
parse_header = do front ← peek_bytes 1; parse_header_by (first_byte front)
