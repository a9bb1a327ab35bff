-- ===== src/Utils/Codec/VarInt.antt =====
-- Variable-length integers: what encodeVarInt writes, what decodeVarInt reads, and their lengths.
use native.Mathlib.Nat.{mod-eq_of_lt, mod-lt, one-le-pow, div-add-mod'}
use simple_quic.Common.{
  ℕ, suc, ◌+◌, ◌-◌, ◌*◌, ◌/◌, ◌%◌, ◌^◌, ◌≤◌, ◌<◌, ◌≡◌, refl, sym, ap, ◌∙◌, inl, inr, List, [], ◌∷◌,
  ◌++◌, arith, length, bit_and, bit_or, ok, err, Error, some, if◌then◌else◌, ltb, ltb→lt, lt→ltb,
  Bool-cases,
}
use simple_quic.Common.Bits.{bit_or-shift, bit_and-3f, bit_and-c0}
use simple_quic.Utils.ByteStream.{ByteStream, ◌>>=◌, put, remaining, IsValid, get_free, seek}
use simple_quic.Utils.ByteStream.Laws.{
  round_trip, Writes, Reads, peek_bytes_lem, write_bytes-Writes, read_bytes-Reads,
}
use simple_quic.Utils.Codec.{
  be_bytes, be_value, encode_index, encode_params, encode_var_int_len, encode_var_int, or_first,
  decode_var_int, decode_size, mask_first, first_byte,
}
use simple_quic.Utils.Codec.Uint.{length-be_bytes, be_value-be_bytes}

-- The values that encodeVarInt takes: below 2^62 - 1.
abbrev pub IsVarInt : ℕ → Type 0
IsVarInt v = v < 0x3fff_ffff_ffff_ffff

-- `k` more bytes follow the first, which holds the length bits `c` above the top of the value.
unfoldable pub tagged : ℕ → ℕ → ℕ → List ℕ
tagged c k v = (v / 2 ^ (8 * k) + c * 64) ∷ be_bytes k v

-- The encoding of a value, in plain arithmetic.
unfoldable pub var_bytes : ℕ → List ℕ
var_bytes v =
    if ltb v 0x3f
    then tagged 0 0 v
    else if ltb v 0x3fff
    then tagged 1 1 v
    else if ltb v 0x3fff_ffff
    then tagged 2 3 v
    else tagged 3 7 v

module _ (c k v : ℕ) (class : c < 4) (fits : v / 2 ^ (8 * k) < 64) where
  length-tagged : length (tagged c k v) ≡ suc k
  unfolding tagged
  length-tagged = ap suc (length-be_bytes k v)

  or_first-be_bytes : or_first (c * 64) (be_bytes (suc k) v) ≡ tagged c k v
  unfolding or_first be_bytes tagged
  or_first-be_bytes =
      ap (λ b. b ∷ be_bytes k v)
        (ap (λ b. bit_or b (c * 64)) (mod-eq_of_lt (omega arith))
          ∙ bit_or-shift 6 (v / 2 ^ (8 * k)) c fits)

  be_value-mask_first : be_value (mask_first (tagged c k v)) ≡ v
  unfolding be_value mask_first tagged be_bytes
  be_value-mask_first =
      let top : bit_and (v / 2 ^ (8 * k) + c * 64) 0x3f ≡ v / 2 ^ (8 * k) =
        omega (arith, bit_and-3f (v / 2 ^ (8 * k) + c * 64) (omega arith)) in
      rw (top, be_value-be_bytes k v, length-be_bytes k v)
        (bit_or-shift (8 * k) (v % 2 ^ (8 * k)) (v / 2 ^ (8 * k))
            (mod-lt v (one-le-pow (8 * k) 2 (omega arith)))
          ∙ omega (arith, div-add-mod' v (2 ^ (8 * k))))

  class-first_byte : bit_and (first_byte (tagged c k v)) 0xc0 / 2 ^ 6 ≡ c
  unfolding first_byte tagged
  class-first_byte = omega (arith, bit_and-c0 (v / 2 ^ (8 * k) + c * 64) (omega arith))

  -- The encoding survives the way through the reader, whatever follows it.
  decode-tagged : decode_size c ≡ suc k → Reads decode_var_int (tagged c k v) v
  unfolding decode_var_int
  decode-tagged h s rest e =
      let front : List ℕ = first_byte (tagged c k v) ∷ [] in
      let whole : remaining s ≡ front ++ (be_bytes k v ++ rest) = unfold first_byte tagged in e in
      let size : decode_size (bit_and (first_byte front) 0xc0 / 2 ^ 6) ≡ suc k =
        unfold first_byte in (ap decode_size class-first_byte ∙ h) in
      rw (peek_bytes_lem s front (be_bytes k v ++ rest) whole 1 refl, ◌>>=◌)
        (rw size (
          rw (read_bytes-Reads (suc k) (tagged c k v) (sym length-tagged) s rest e, ◌>>=◌)
            (rw be_value-mask_first)))

-- The class of a value: its index in the tables, and what stands there.
record Class (v : ℕ) : Type 0 where
  index : ℕ
  more : ℕ
  found : encode_index v ≡ index
  params : encode_params index ≡ some (index * 64, suc more)
  size : decode_size index ≡ suc more
  bytes : var_bytes v ≡ tagged index more v
  below : index < 4
  fits : v / 2 ^ (8 * more) < 64

classify : (v : ℕ) → IsVarInt v → Class v
unfolding encode_index encode_params decode_size var_bytes
classify v h = elim (Bool-cases (ltb v 0x3f)) [
  | inl a ↦ record {
    index = 0;
    more = 0;
    found = rw a;
    params = refl;
    size = refl;
    bytes = rw a;
    below = omega arith;
    fits = omega (arith, ltb→lt v 0x3f a);
  }
  | inr a ↦ elim (Bool-cases (ltb v 0x3fff)) [
    | inl b ↦ record {
      index = 1;
      more = 1;
      found = rw (a, b);
      params = refl;
      size = refl;
      bytes = rw (a, b);
      below = omega arith;
      fits = omega (arith, ltb→lt v 0x3fff b);
    }
    | inr b ↦ elim (Bool-cases (ltb v 0x3fff_ffff)) [
      | inl c ↦ record {
        index = 2;
        more = 3;
        found = rw (a, b, c);
        params = refl;
        size = refl;
        bytes = rw (a, b, c);
        below = omega arith;
        fits = omega (arith, ltb→lt v 0x3fff_ffff c);
      }
      | inr c ↦ record {
        index = 3;
        more = 7;
        found = rw (a, b, c, lt→ltb v 0x3fff_ffff_ffff_ffff h);
        params = refl;
        size = refl;
        bytes = rw (a, b, c);
        below = omega arith;
        fits = omega arith;
      }
    ]
  ]
]

pub encode_var_int-Writes : (v : ℕ) → IsVarInt v → Writes (encode_var_int v) (var_bytes v)
unfolding encode_var_int
encode_var_int-Writes v h =
    let k = classify v h in
    rw (k.found, k.params, or_first-be_bytes k.index k.more v k.below k.fits, k.bytes)
      (write_bytes-Writes (tagged k.index k.more v))

pub decode_var_int-Reads : (v : ℕ) → IsVarInt v → Reads decode_var_int (var_bytes v) v
decode_var_int-Reads v h =
    let k = classify v h in rw k.bytes (decode-tagged k.index k.more v k.below k.fits k.size)

pub encode_var_int_len-length :
    (v : ℕ) → IsVarInt v → encode_var_int_len v ≡ ok (length (var_bytes v))
unfolding encode_var_int_len
encode_var_int_len-length v h =
    let k = classify v h in
    rw (k.found, k.params, k.bytes, length-tagged k.index k.more v k.below k.fits)

pub length-var_bytes : (v : ℕ) → (1 ≤ length (var_bytes v)) × (length (var_bytes v) ≤ 8)
unfolding var_bytes tagged
length-var_bytes v =
    ground
      (arith, length-be_bytes 0 v, length-be_bytes 1 v, length-be_bytes 3 v, length-be_bytes 7 v)

-- A value below 2^62 - 1 that was written where there is room is read back, and the reader stops
-- where the writer did: the encoded length further on.
pub decode_var_int-encode_var_int :
    (v : ℕ) (s : ByteStream)
    → IsVarInt v
    → IsValid s
    → length (var_bytes v) ≤ get_free s
    → (encode_var_int v s ≡ ok (tt, put (var_bytes v) s))
      × (decode_var_int (seek s.pos (put (var_bytes v) s)) ≡ ok (v, put (var_bytes v) s))
      × (encode_var_int_len v ≡ ok ((put (var_bytes v) s).pos - s.pos))
unfolding put
decode_var_int-encode_var_int v s h valid room =
    let (w, r) =
      round_trip (encode_var_int v) decode_var_int (var_bytes v) v (encode_var_int-Writes v h)
        (decode_var_int-Reads v h) s valid room in
    (w, r, encode_var_int_len-length v h ∙ ap ok (omega arith))

-- From 2^62 - 1 on the encoder throws and writes nothing, and the length function reads past the
-- end of its table.
pub encode_var_int-too_large :
    (v : ℕ) (s : ByteStream)
    → 0x3fff_ffff_ffff_ffff ≤ v
    → (encode_var_int v s ≡ err Error.invalid_argument)
      × (encode_var_int_len v ≡ err Error.out_of_bounds)
unfolding encode_var_int encode_var_int_len encode_index encode_params
encode_var_int-too_large v s h = ground arith

pub var_bytes_small : (v : ℕ) → v < 0x3f → length (var_bytes v) ≡ 1
unfolding var_bytes
var_bytes_small v h = rw (lt→ltb v 0x3f h) (length-tagged 0 0 v (omega arith) (omega arith))

-- A small value is its own encoding.
pub var_byte : (v : ℕ) → v < 0x3f → var_bytes v ≡ v ∷ []
unfolding var_bytes tagged be_bytes
var_byte v h = rw (lt→ltb v 0x3f h) (ap (λ b. b ∷ []) (omega arith))
