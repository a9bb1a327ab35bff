-- ===== src/Payload/Packet/Writing.antt =====
-- What Encode writes for a header, and what EncodeLen counts.
use simple_quic.Common.{
  ℕ, ◌+◌, ◌*◌, ◌/◌, ◌%◌, ◌<◌, ◌≡◌, refl, ap, subst, ◌∙◌, List, [], ◌∷◌, ◌++◌, length, length-append,
  ok, arith, Result,
}
use simple_quic.Common.Bits.{by_table}
use simple_quic.Utils.ByteStream.{Io, ◌>>=◌, ◌>>◌, write_bytes}
use simple_quic.Utils.ByteStream.Laws.{Writes, Writes-seq, write_bytes-Writes, check_free_ok}
use simple_quic.Utils.Codec.{be_bytes, encode_var_int, encode_uint}
use simple_quic.Utils.Codec.Uint.{encode_uint-Writes, length-be_bytes}
use simple_quic.Utils.Codec.VarInt.{
  var_bytes, IsVarInt, encode_var_int-Writes, encode_var_int_len-length,
}
use simple_quic.Context.ConnectionId.RoundTrip.{
  sized_bytes, id_bytes, length-id_bytes, encode_id-Writes, encode_sized-Writes,
}
use simple_quic.Context.ConnectionId.{encode_id_len}
use simple_quic.Payload.Frame.Length.{lens}
use simple_quic.Payload.Frame.Parse.{lift}
use simple_quic.Payload.Packet.{LongHeader, Header}
use simple_quic.Payload.Packet.Wire.{long_bytes, header_bytes, FitsLong, FitsHeader, first_of_long}
use simple_quic.Payload.Packet.Codec.{
  header_len, long_header_len, check_room, encode_long, encode_fields, encode_header, long_byte,
  short_byte,
}

lens-one : (v n m : ℕ) → IsVarInt v → length (var_bytes v) + n ≡ m → lens (v ∷ []) n ≡ ok m
unfolding lens
lens-one v n m h e = rw (encode_var_int_len-length v h) (ap ok e)

lens-two :
    (v w n m : ℕ)
    → IsVarInt v
    → IsVarInt w
    → length (var_bytes v) + (length (var_bytes w) + n) ≡ m
    → lens (v ∷ w ∷ []) n ≡ ok m
unfolding lens
lens-two v w n m h k e = rw (encode_var_int_len-length v h, encode_var_int_len-length w k) (ap ok e)

length-long_bytes : (l : LongHeader) → FitsLong l → length (long_bytes l) ≡ long_header_len l
unfolding long_bytes long_header_len
length-long_bytes l f = omega (
  arith,
  length-append (be_bytes 4 l.version) (id_bytes l.dst ++ id_bytes l.src),
  length-append (id_bytes l.dst) (id_bytes l.src),
  length-be_bytes 4 l.version,
  length-id_bytes l.dst f.dst_wf,
  length-id_bytes l.src f.src_wf,
)

numbered_len :
    (l : LongHeader) (n num : ℕ)
    → FitsLong l
    → IsVarInt n
    → lens (n ∷ []) (long_header_len l + (l.upper + 1))
      ≡ ok (length (long_bytes l ++ (var_bytes n ++ be_bytes (l.upper + 1) num)))
numbered_len l n num f hn = lens-one n _ _ hn (
    omega (
      arith,
      length-append (long_bytes l) (var_bytes n ++ be_bytes (l.upper + 1) num),
      length-append (var_bytes n) (be_bytes (l.upper + 1) num),
      length-be_bytes (l.upper + 1) num,
      length-long_bytes l f,
    ))

-- EncodeLen of a header whose fields fit is the number of bytes of its wire form.
pub header_len-length : (h : Header) → FitsHeader h → header_len h ≡ ok (length (header_bytes h))
unfolding header_len header_bytes encode_id_len
header_len-length (Header.short n dst num) f = ap ok (
    omega (
      arith,
      length-append (sized_bytes dst) (be_bytes (n + 1) num),
      length-be_bytes (n + 1) num,
      f.1.counted,
    ))
header_len-length (Header.initial l t n num) (f, ht, hn) = lens-two (length t) n _ _ ht hn (
    omega (
      arith,
      length-append (long_bytes l)
          (var_bytes (length t) ++ (t ++ (var_bytes n ++ be_bytes (l.upper + 1) num))),
      length-append (var_bytes (length t)) (t ++ (var_bytes n ++ be_bytes (l.upper + 1) num)),
      length-append t (var_bytes n ++ be_bytes (l.upper + 1) num),
      length-append (var_bytes n) (be_bytes (l.upper + 1) num),
      length-be_bytes (l.upper + 1) num,
      length-long_bytes l f,
    ))
header_len-length (Header.zero_rtt l n num) (f, hn) = numbered_len l n num f hn
header_len-length (Header.handshake l n num) (f, hn) = numbered_len l n num f hn
header_len-length (Header.retry l t tag) (f, e) = ap ok (
    omega
      (arith, length-append (long_bytes l) (t ++ tag), length-append t tag, length-long_bytes l f))

-- The first byte of each kind of header.
pub short_byte_lem : (n : ℕ) → n < 4 → short_byte n ≡ 64 + n
unfolding short_byte
short_byte_lem = by_table short_byte (λ n. 64 + n) 4 refl

long_byte_table : (x : ℕ) → x < 64 → long_byte (x / 16) (x / 4 % 4) (x % 4) ≡ 192 + x
unfolding long_byte
long_byte_table = by_table (λ x. long_byte (x / 16) (x / 4 % 4) (x % 4)) (λ x. 192 + x) 64 refl

pub long_byte_lem : (t l u : ℕ) → t < 4 → l < 4 → u < 4 → long_byte t l u ≡ first_of_long t l u
long_byte_lem t l u ht hl hu = (λ i. long_byte (high i) (middle i) (low i)) ∙ table
  where
    high : t ≡ (16 * t + 4 * l + u) / 16
    high = omega arith

    middle : l ≡ (16 * t + 4 * l + u) / 4 % 4
    middle = omega arith

    low : u ≡ (16 * t + 4 * l + u) % 4
    low = omega arith

    table :
        long_byte
          ((16 * t + 4 * l + u) / 16)
          ((16 * t + 4 * l + u) / 4 % 4)
          ((16 * t + 4 * l + u) % 4)
        ≡ first_of_long t l u
    table = omega (arith, long_byte_table (16 * t + 4 * l + u) (omega arith))

-- A check for the room of all that follows, in front of a part of it.
check_room-Writes :
    (r : Result ℕ) (m k : Io (Unit {0})) (a b : List ℕ)
    → r ≡ ok (length (a ++ b))
    → Writes m a
    → Writes k b
    → Writes (check_room r >> m >> k) (a ++ b)
unfolding check_room lift
check_room-Writes r m k a b e wm wk s v room =
    rw (e, check_free_ok (length (a ++ b)) s room, ◌>>=◌) (Writes-seq m k a b wm wk s v room)

pub check_room_once :
    (r : Result ℕ) (m : Io (Unit {0})) (bs : List ℕ)
    → r ≡ ok (length bs)
    → Writes m bs
    → Writes (check_room r >> m) bs
unfolding check_room lift
check_room_once r m bs e w s v room = rw (e, check_free_ok (length bs) s room, ◌>>=◌) (w s v room)

encode_long-Writes :
    (r : Result ℕ) (l : LongHeader) (k : Io (Unit {0})) (b : List ℕ)
    → FitsLong l
    → r ≡ ok (length (long_bytes l ++ b))
    → Writes k b
    → Writes (encode_long r l >> k) (long_bytes l ++ b)
unfolding encode_long long_bytes
encode_long-Writes r l k b f e w =
    check_room-Writes r _ k _ b e
      (Writes-seq _ _ _ _
        (subst (λ x. Writes (write_bytes (long_byte l.packet_type l.lower l.upper ∷ [])) (x ∷ []))
          (long_byte_lem l.packet_type l.lower l.upper f.type_bits f.lower_bits f.upper_bits)
          (write_bytes-Writes _))
        (Writes-seq _ _ _ _ (encode_uint-Writes l.version 4 (omega arith) (omega arith))
          (Writes-seq _ _ _ _ (encode_id-Writes l.dst f.dst_wf) (encode_id-Writes l.src f.src_wf))))
      w

-- The length field and the packet number.
number-Writes :
    (l : LongHeader) (n num : ℕ)
    → FitsLong l
    → IsVarInt n
    → Writes
        (encode_var_int n >> encode_uint num (l.upper + 1))
        (var_bytes n ++ be_bytes (l.upper + 1) num)
number-Writes l n num f hn =
    Writes-seq _ _ _ _ (encode_var_int-Writes n hn)
      (encode_uint-Writes num (l.upper + 1) (omega arith) (omega (arith, f.upper_bits)))

encode_fields-Writes : (h : Header) → FitsHeader h → Writes (encode_fields h) (header_bytes h)
unfolding encode_fields header_bytes
encode_fields-Writes (Header.short n dst num) f =
    Writes-seq _ _ _ _
      (subst (λ x. Writes (write_bytes (short_byte n ∷ [])) (x ∷ [])) (short_byte_lem n f.0)
        (write_bytes-Writes _))
      (Writes-seq _ _ _ _ (encode_sized-Writes dst f.1)
        (encode_uint-Writes num (n + 1) (omega arith) (omega (arith, f.0))))
encode_fields-Writes (Header.initial l t n num) (f, ht, hn) =
    encode_long-Writes _ l _ _ f (header_len-length (Header.initial l t n num) (f, ht, hn)) (
      Writes-seq _ _ _ _ (encode_var_int-Writes (length t) ht)
        (Writes-seq _ _ _ _ (write_bytes-Writes t) (number-Writes l n num f hn)))
encode_fields-Writes (Header.zero_rtt l n num) (f, hn) =
    encode_long-Writes _ l _ _ f (header_len-length (Header.zero_rtt l n num) (f, hn))
      (number-Writes l n num f hn)
encode_fields-Writes (Header.handshake l n num) (f, hn) =
    encode_long-Writes _ l _ _ f (header_len-length (Header.handshake l n num) (f, hn))
      (number-Writes l n num f hn)
encode_fields-Writes (Header.retry l t tag) (f, e) =
    encode_long-Writes _ l _ _ f (header_len-length (Header.retry l t tag) (f, e))
      (Writes-seq _ _ _ _ (write_bytes-Writes t) (write_bytes-Writes tag))

pub encode_header-Writes : (h : Header) → FitsHeader h → Writes (encode_header h) (header_bytes h)
unfolding encode_header
encode_header-Writes h f =
    check_room_once (header_len h) (encode_fields h) (header_bytes h) (header_len-length h f)
      (encode_fields-Writes h f)
