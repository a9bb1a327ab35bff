-- ===== src/Payload/Packet/RoundTrip.antt =====
-- Header::Parse of payload/packet.hh on what Encode wrote.
use simple_quic.Common.{
  ℕ, ◌+◌, ◌*◌, ◌^◌, ◌≤◌, ◌<◌, ◌≡◌, refl, ◌∙◌, List, [], ◌∷◌, ◌++◌, length, ok, arith, bit_and,
}
use simple_quic.Utils.ByteStream.{ByteStream, Io, ◌>>=◌, seek, get_free, IsValid, put}
use simple_quic.Utils.ByteStream.Laws.{Reads, peek_bytes_lem, round_trip}
use simple_quic.Utils.Codec.{first_byte}
use simple_quic.Context.ConnectionId.{local_connection_id_length}
use simple_quic.Payload.Packet.{LongHeader, Header}
use simple_quic.Payload.Packet.Wire.{long_bytes, header_bytes, FitsLong, FitsHeader, first_of_long}
use simple_quic.Payload.Packet.Writing.{encode_header-Writes}
use simple_quic.Payload.Packet.Reading.{
  parse_short-Reads, parse_numbered-Reads, parse_initial-Reads, long-80, long-30, short-80,
}
use simple_quic.Payload.Packet.Codec.{
  parse_header, parse_header_by, parse_short, parse_initial, parse_numbered, encode_header,
  token_room,
}

abbrev IsNumbered : LongHeader → ℕ → ℕ → Type 0
IsNumbered long type num =
    (long.packet_type ≡ type)
    × (long.version < 2 ^ 32)
    × (num < 2 ^ 32)
    × (num < 2 ^ (8 * (long.upper + 1)))

-- The headers that are read back with anything behind them: those whose packet number fits its
-- bytes and whose type bits are those of the class, with a destination of 8 bytes in a short header
-- and a token of at most 512 bytes. A Retry header takes all that is left in the stream.
abbrev pub IsReadableHeader : Header → Type 0
IsReadableHeader (Header.short n dst num) =
    (dst.len ≡ local_connection_id_length) × (num < 2 ^ 32) × (num < 2 ^ (8 * (n + 1)))
IsReadableHeader (Header.initial long token len num) =
    IsNumbered long 0 num × (length token ≤ token_room)
IsReadableHeader (Header.zero_rtt long len num) = IsNumbered long 1 num
IsReadableHeader (Header.handshake long len num) = IsNumbered long 2 num
IsReadableHeader (Header.retry long token tag) = ⊥

-- The first byte chooses the class.
dispatch_header :
    (b : ℕ) (cs : List ℕ) (m : Io Header) (h : Header)
    → parse_header_by b ≡ m
    → Reads m (b ∷ cs) h
    → Reads parse_header (b ∷ cs) h
unfolding parse_header first_byte
dispatch_header b cs m h e r s rest q =
    rw (peek_bytes_lem s (b ∷ []) (cs ++ rest) q 1 refl, ◌>>=◌, e) (r s rest q)

short_choice : (n : ℕ) → n < 4 → parse_header_by (64 + n) ≡ parse_short
unfolding parse_header_by
short_choice n h = rw (short-80 n h) refl

module _ (l : LongHeader) (f : FitsLong l) where
  small : 16 * l.packet_type + 4 * l.lower + l.upper < 64
  small = omega (arith, f.type_bits, f.lower_bits, f.upper_bits)

  type_field :
      (t : ℕ)
      → l.packet_type ≡ t
      → bit_and (first_of_long l.packet_type l.lower l.upper) 0x30 ≡ t * 16
  type_field t e = long-30 _ small ∙ omega (arith, f.type_bits, f.lower_bits, f.upper_bits)

  initial_choice :
      l.packet_type ≡ 0
      → parse_header_by (first_of_long l.packet_type l.lower l.upper) ≡ parse_initial
  unfolding parse_header_by
  initial_choice e = rw (long-80 _ small, type_field 0 e) refl

  zero_rtt_choice :
      l.packet_type ≡ 1
      → parse_header_by (first_of_long l.packet_type l.lower l.upper)
        ≡ parse_numbered Header.zero_rtt
  unfolding parse_header_by
  zero_rtt_choice e = rw (long-80 _ small, type_field 1 e) refl

  handshake_choice :
      l.packet_type ≡ 2
      → parse_header_by (first_of_long l.packet_type l.lower l.upper)
        ≡ parse_numbered Header.handshake
  unfolding parse_header_by
  handshake_choice e = rw (long-80 _ small, type_field 2 e) refl

pub parse_header-Reads :
    (h : Header) → FitsHeader h → IsReadableHeader h → Reads parse_header (header_bytes h) h
unfolding header_bytes long_bytes
parse_header-Reads (Header.short n dst num) (hn, w) (e, h32, fits) =
    dispatch_header _ _ _ _ (short_choice n hn) (parse_short-Reads n dst num hn w e h32 fits)
parse_header-Reads (Header.initial l t len num) (f, ht, hl) ((e, v, h32, fits), room) =
    dispatch_header _ _ _ _ (initial_choice l f e)
      (parse_initial-Reads l f v num h32 fits len hl t ht room)
parse_header-Reads (Header.zero_rtt l len num) (f, hl) (e, v, h32, fits) =
    dispatch_header _ _ _ _ (zero_rtt_choice l f e)
      (parse_numbered-Reads l f v num h32 fits len hl Header.zero_rtt)
parse_header-Reads (Header.handshake l len num) (f, hl) (e, v, h32, fits) =
    dispatch_header _ _ _ _ (handshake_choice l f e)
      (parse_numbered-Reads l f v num h32 fits len hl Header.handshake)
parse_header-Reads (Header.retry l t tag) f r = absurd r

-- A readable header whose fields fit is, where there is room, written as header_bytes has it and
-- read back, and the parser stops where the encoder did.
pub parse_header-encode_header :
    (h : Header) (s : ByteStream)
    → FitsHeader h
    → IsReadableHeader h
    → IsValid s
    → length (header_bytes h) ≤ get_free s
    → (encode_header h s ≡ ok (tt, put (header_bytes h) s))
      × (parse_header (seek s.pos (put (header_bytes h) s)) ≡ ok (h, put (header_bytes h) s))
parse_header-encode_header h s f r v room =
    round_trip (encode_header h) parse_header (header_bytes h) h (encode_header-Writes h f)
      (parse_header-Reads h f r) s v room
