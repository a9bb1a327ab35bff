-- ===== src/Payload/Packet/Reading.antt =====
-- The constructors of payload/packet.hh that read a header, on the wire form.
use native.Mathlib.Nat.{mod-eq_of_lt}
use simple_quic.Common.{
  ℕ, ◌+◌, ◌*◌, ◌/◌, ◌%◌, ◌^◌, ◌≤◌, ◌<◌, ◌≡◌, refl, sym, ap, subst, ◌∙◌, List, [], ◌∷◌, ◌++◌, length,
  ok, arith, true, ◌==◌, ==-refl, bit_and, le→leb,
}
use simple_quic.Common.Bits.{by_table}
use simple_quic.Utils.ByteStream.{ByteStream, Io, ◌>>=◌, pure}
use simple_quic.Utils.ByteStream.Laws.{
  Reads, Reads-bind, Reads-then, read_bytes-Reads, assert-Reads,
}
use simple_quic.Utils.Codec.{be_bytes, first_byte, decode_var_int, decode_uint}
use simple_quic.Utils.Codec.Uint.{decode_uint-Reads}
use simple_quic.Utils.Codec.VarInt.{var_bytes, IsVarInt, decode_var_int-Reads}
use simple_quic.Context.ConnectionId.{local_connection_id_length, ConnectionId, parse_sized}
use simple_quic.Context.ConnectionId.RoundTrip.{
  sized_bytes, parse_id-Reads, parse_sized-Reads, IsWellFormed,
}
use simple_quic.Payload.Packet.{LongHeader, Header}
use simple_quic.Payload.Packet.Wire.{long_bytes, header_bytes, FitsLong, first_of_long}
use simple_quic.Payload.Packet.Codec.{
  parse_short, parse_long, parse_initial, parse_numbered, copy_token, token_room,
}

-- The flags and fields of a first byte.
module _ (y : ℕ) (h : y < 64) where
  pub long-80 : bit_and (192 + y) 0x80 ≡ 128
  long-80 = by_table (λ z. bit_and (192 + z) 0x80) (λ z. 128) 64 refl y h

  long-40 : bit_and (192 + y) 0x40 ≡ 64
  long-40 = by_table (λ z. bit_and (192 + z) 0x40) (λ z. 64) 64 refl y h

  pub long-30 : bit_and (192 + y) 0x30 ≡ y / 16 * 16
  long-30 = by_table (λ z. bit_and (192 + z) 0x30) (λ z. z / 16 * 16) 64 refl y h

  long-0c : bit_and (192 + y) 0x0c ≡ y / 4 % 4 * 4
  long-0c = by_table (λ z. bit_and (192 + z) 0x0c) (λ z. z / 4 % 4 * 4) 64 refl y h

  long-03 : bit_and (192 + y) 0x03 ≡ y % 4
  long-03 = by_table (λ z. bit_and (192 + z) 0x03) (λ z. z % 4) 64 refl y h

module _ (n : ℕ) (h : n < 4) where
  pub short-80 : bit_and (64 + n) 0x80 ≡ 0
  short-80 = by_table (λ z. bit_and (64 + z) 0x80) (λ z. 0) 4 refl n h

  short-40 : bit_and (64 + n) 0x40 ≡ 64
  short-40 = by_table (λ z. bit_and (64 + z) 0x40) (λ z. 64) 4 refl n h

  short-18 : bit_and (64 + n) 0x18 ≡ 0
  short-18 = by_table (λ z. bit_and (64 + z) 0x18) (λ z. 0) 4 refl n h

  short-03 : bit_and (64 + n) 0x03 ≡ n
  short-03 = by_table (λ z. bit_and (64 + z) 0x03) (λ z. z) 4 refl n h

-- Dividing a masked field down gives a value the parser compares with.
field : (x m d v : ℕ) → x ≡ m → m / d ≡ v → (x / d == v) ≡ true
field x m d v e q = ap (λ y. y / d == v) e ∙ (ap (λ y. y == v) q ∙ ==-refl v)

-- The number in a field of 32 bits.
number_then :
    {B : Type 0} (n num : ℕ) (f : ℕ → Io B) (b : B)
    → n < 4
    → num < 2 ^ (8 * (n + 1))
    → ((t : ByteStream) → f num t ≡ ok (b, t))
    → Reads (decode_uint (n + 1) >>= f) (be_bytes (n + 1) num) b
number_then n num f b h small e =
    Reads-then _ f _ _ _ (decode_uint-Reads num (n + 1) (omega arith) (omega arith) small) e

LongHeader-path :
    (dst src : ConnectionId) {a b c d t l u v : ℕ}
    → a ≡ t
    → b ≡ l
    → c ≡ u
    → d ≡ v
    → ◌≡◌ {A = LongHeader}
        (record { packet_type = a; lower = b; upper = c; version = d; dst = dst; src = src })
        (record { packet_type = t; lower = l; upper = u; version = v; dst = dst; src = src })
LongHeader-path dst src p q r s i = record {
  packet_type = p i;
  lower = q i;
  upper = r i;
  version = s i;
  dst = dst;
  src = src;
}

abbrev long_of : ℕ → ℕ → ℕ → ℕ → ConnectionId → ConnectionId → LongHeader
long_of t l u v dst src = record {
  packet_type = t;
  lower = l;
  upper = u;
  version = v;
  dst = dst;
  src = src;
}

parse_long_fields :
    (t l u v : ℕ) (dst src : ConnectionId)
    → t < 4
    → l < 4
    → u < 4
    → v < 2 ^ 32
    → IsWellFormed dst
    → IsWellFormed src
    → Reads parse_long (long_bytes (long_of t l u v dst src)) (long_of t l u v dst src)
unfolding parse_long long_bytes first_byte
parse_long_fields t l u v dst src ht hl hu hv wd ws =
    let small : 16 * t + 4 * l + u < 64 = omega arith in
    Reads-bind _ _ (first_of_long t l u ∷ []) _ (first_of_long t l u ∷ []) _
      (read_bytes-Reads 1 _ refl)
      (assert-Reads _ _ _ _ (field _ 128 (2 ^ 7) 1 (long-80 _ small) refl) (
        assert-Reads _ _ _ _ (field _ 64 (2 ^ 6) 1 (long-40 _ small) refl) (
          Reads-bind _ _ _ _ _ _ (decode_uint-Reads v 4 (omega arith) (omega arith) hv) (
            Reads-bind _ _ _ _ _ _ (parse_id-Reads dst wd) (
              Reads-then _ _ _ _ _ (parse_id-Reads src ws) λ s.
                ap (λ z. ok (z, s))
                  (LongHeader-path dst src (ap (λ z. z / 2 ^ 4) (long-30 _ small) ∙ omega arith)
                    (ap (λ z. z / 2 ^ 2) (long-0c _ small) ∙ omega arith)
                    (long-03 _ small ∙ omega arith) (mod-eq_of_lt hv)))))))

pub parse_long-Reads :
    (l : LongHeader) → FitsLong l → l.version < 2 ^ 32 → Reads parse_long (long_bytes l) l
parse_long-Reads l f hv =
    parse_long_fields l.packet_type l.lower l.upper l.version l.dst l.src f.type_bits f.lower_bits
      f.upper_bits hv f.dst_wf f.src_wf

pub parse_short-Reads :
    (n : ℕ) (dst : ConnectionId) (num : ℕ)
    → n < 4
    → IsWellFormed dst
    → dst.len ≡ local_connection_id_length
    → num < 2 ^ 32
    → num < 2 ^ (8 * (n + 1))
    → Reads parse_short (header_bytes (Header.short n dst num)) (Header.short n dst num)
unfolding parse_short header_bytes first_byte
parse_short-Reads n dst num h w e h32 hn =
    Reads-bind _ _ ((64 + n) ∷ []) _ ((64 + n) ∷ []) _ (read_bytes-Reads 1 _ refl) (
      assert-Reads _ _ _ _ (field _ 0 (2 ^ 7) 0 (short-80 n h) refl) (
        assert-Reads _ _ _ _ (field _ 64 (2 ^ 6) 1 (short-40 n h) refl) (
          assert-Reads _ _ _ _ (field _ 0 (2 ^ 3) 0 (short-18 n h) refl) (
            Reads-bind _ _ _ _ _ _
              (subst (λ k. Reads (parse_sized k) (sized_bytes dst) dst) e (parse_sized-Reads dst w))
              (subst
                (λ k.
                  Reads (decode_uint (k + 1) >>= λ x. pure (Header.short k dst (x % 2 ^ 32)))
                    (be_bytes (n + 1) num) (Header.short n dst num))
                (sym (short-03 n h))
                (number_then n num _ _ h hn
                  λ t. ap (λ z. ok (Header.short n dst z, t)) (mod-eq_of_lt h32)))))))

-- The length field and the packet number, as the last fields of a header.
length_then :
    (n len num : ℕ) (f : ℕ → ℕ → Header) (b : Header)
    → n < 4
    → IsVarInt len
    → num < 2 ^ 32
    → num < 2 ^ (8 * (n + 1))
    → f len num ≡ b
    → Reads
        (decode_var_int >>= λ k. decode_uint (n + 1) >>= λ x t. ok (f k (x % 2 ^ 32), t))
        (var_bytes len ++ be_bytes (n + 1) num)
        b
length_then n len num f b h hl h32 hn e =
    Reads-bind _ _ _ _ _ _ (decode_var_int-Reads len hl)
      (number_then n num _ _ h hn λ t. ap (λ z. ok (z, t)) (ap (f len) (mod-eq_of_lt h32) ∙ e))

module _ (l : LongHeader) (f : FitsLong l) (hv : l.version < 2 ^ 32) (num : ℕ) (h32 : num < 2 ^ 32)
    (hn : num < 2 ^ (8 * (l.upper + 1))) (len : ℕ) (hl : IsVarInt len) where
  pub parse_numbered-Reads :
      (make : LongHeader → ℕ → ℕ → Header)
      → Reads
          (parse_numbered make)
          (long_bytes l ++ (var_bytes len ++ be_bytes (l.upper + 1) num))
          (make l len num)
  parse_numbered-Reads make =
      Reads-bind _ _ _ _ _ _ (parse_long-Reads l f hv)
        (length_then l.upper len num (make l) _ f.upper_bits hl h32 hn refl)

  pub parse_initial-Reads :
      (token : List ℕ)
      → IsVarInt (length token)
      → length token ≤ token_room
      → Reads parse_initial
          (header_bytes (Header.initial l token len num))
          (Header.initial l token len num)
  unfolding parse_initial copy_token header_bytes
  parse_initial-Reads token ht room = Reads-bind _ _ _ _ _ _ (parse_long-Reads l f hv) (
      Reads-bind _ _ _ _ _ _ (decode_var_int-Reads (length token) ht) (
        Reads-bind _ _ _ _ _ _ (read_bytes-Reads (length token) token refl) (
          rw (le→leb (length token) token_room room)
            (length_then l.upper len num (Header.initial l token) _ f.upper_bits hl h32 hn refl))))
