-- ===== src/Utils/Codec.antt =====
-- utils/variable_codec.hh and .cc: big-endian integers of 1 to 8 bytes, the variable-length
-- integers of QUIC, and raw buffers.
-- A `switch` that falls through its cases is a recursion on the bytes that are left. A shift of a
-- byte is by at most 56 bits, so it stays inside uint64_t and needs no wrap.
pub mod Uint
pub mod VarInt
pub mod Examples
use simple_quic.Common.{
  ℕ, zero, suc, ◌*◌, ◌/◌, ◌%◌, ◌^◌, List, [], ◌∷◌, Bool, ◌&&◌, bit_and, bit_or, leb, ltb,
  if◌then◌else◌,
}
use simple_quic.Common.{length, Option, none, some, Result, ok, err, Error}
use simple_quic.Utils.ByteStream.{
  ByteStream, Io, ◌>>=◌, ◌>>◌, pure, throw, peek_bytes, read_bytes, write_bytes, consume, copy_in,
  copy_out,
}

-- buf[i] = uint8_t(value >> 8 * (n - 1 - i)) for i below n.
unfoldable pub be_bytes : ℕ → ℕ → List ℕ
be_bytes zero v = []
be_bytes (suc n) v = (v / 2 ^ (8 * n) % 256) ∷ be_bytes n v

-- value |= uint64_t(buf[i]) << 8 * (n - 1 - i), from the last byte to the first.
unfoldable pub be_value : List ℕ → ℕ
be_value [] = 0
be_value (b ∷ bs) = bit_or (be_value bs) (b * 2 ^ (8 * length bs))

abbrev one_to_eight : ℕ → Bool
one_to_eight n = leb 1 n && leb n 8

-- The room is claimed before the size is looked at.
unfoldable pub encode_uint : ℕ → ℕ → Io (Unit {0})
encode_uint value int_size = do
  r ← consume int_size
  if one_to_eight int_size
      then copy_in r.0 (be_bytes int_size value)
      else throw Error.invalid_argument

unfoldable pub decode_uint : ℕ → Io ℕ
decode_uint int_size = do
  bs ← read_bytes int_size
  if one_to_eight int_size then pure (be_value bs) else throw Error.invalid_argument

-- std::upper_bound over encodeUpperBound: the index of the first bound above the value, 4 if none.
unfoldable pub encode_index : ℕ → ℕ
encode_index value =
    if ltb value 0x3f
    then 0
    else if ltb value 0x3fff
    then 1
    else if ltb value 0x3fff_ffff
    then 2
    else if ltb value 0x3fff_ffff_ffff_ffff
    then 3
    else 4

-- encodeParams[index]: the flag bits and the size. Index 4 is past the end of the array.
unfoldable pub encode_params : ℕ → Option (ℕ × ℕ)
encode_params zero = some (0x00, 1)
encode_params (suc zero) = some (0x40, 2)
encode_params (suc (suc zero)) = some (0x80, 4)
encode_params (suc (suc (suc zero))) = some (0xc0, 8)
encode_params i = none

-- encodeParams[index].second
unfoldable pub size_at : Option (ℕ × ℕ) → Result ℕ
size_at (some (flag, size)) = ok size
size_at none = err Error.out_of_bounds

unfoldable pub encode_var_int_len : ℕ → Result ℕ
unfolding size_at
encode_var_int_len value = size_at (encode_params (encode_index value))

-- buf[0] |= encodeFlag
unfoldable pub or_first : ℕ → List ℕ → List ℕ
or_first flag [] = []
or_first flag (b ∷ bs) = bit_or b flag ∷ bs

-- The room is claimed, and the bytes are written with the flag over the first.
unfoldable pub write_flagged : Option (ℕ × ℕ) → ℕ → Io (Unit {0})
write_flagged (some (flag, size)) value = write_bytes (or_first flag (be_bytes size value))
write_flagged none value = throw Error.invalid_argument

unfoldable pub encode_var_int : ℕ → Io (Unit {0})
unfolding write_flagged
encode_var_int value = write_flagged (encode_params (encode_index value)) value

-- decodeParams[flag].first
unfoldable pub decode_size : ℕ → ℕ
decode_size zero = 1
decode_size (suc zero) = 2
decode_size (suc (suc zero)) = 4
decode_size _ = 8

-- buf[0] & 0x3F, the other bytes as they are.
unfoldable pub mask_first : List ℕ → List ℕ
mask_first [] = []
mask_first (b ∷ bs) = bit_and b 0x3f ∷ bs

unfoldable pub first_byte : List ℕ → ℕ
first_byte [] = 0
first_byte (b ∷ bs) = b

unfoldable pub decode_var_int : Io ℕ
unfolding decode_size first_byte
decode_var_int = do
  front ← peek_bytes 1
  let flag = bit_and (first_byte front) 0xc0 / 2 ^ 6
  bs ← read_bytes (decode_size flag)
  pure (be_value (mask_first bs))

unfoldable pub encode_buffer : List ℕ → Io (Unit {0})
encode_buffer bs = write_bytes bs

unfoldable pub decode_buffer : ℕ → Io (List ℕ)
decode_buffer n = read_bytes n
