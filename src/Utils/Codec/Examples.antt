-- ===== src/Utils/Codec/Examples.antt =====
-- Integers of RFC 9000, appendix A.1, and the theorems at concrete values.
use simple_quic.Common.{◌≡◌, refl, ◌-◌, [], ◌∷◌, ok, arith}
use simple_quic.Utils.ByteStream.{
  ByteStream, make, read_bytes, peek_bytes, write_bytes, seek, put, get_free,
}
use simple_quic.Utils.Codec.{
  be_bytes, be_value, encode_index, encode_params, encode_var_int_len, encode_var_int,
  decode_var_int, mask_first, or_first,
}
use simple_quic.Utils.Codec.VarInt.{decode_var_int-encode_var_int, var_bytes, tagged}

abbrev room : ByteStream
room = record { buffer = 0 ∷ 0 ∷ 0 ∷ 0 ∷ 0 ∷ 0 ∷ 0 ∷ 0 ∷ 0 ∷ 0 ∷ []; pos = 1 }

decodes_rfc_value :
    decode_var_int (record { buffer = 0x9d ∷ 0x7f ∷ 0x3e ∷ 0x7d ∷ []; pos = 0 })
    ≡ ok (494878333, record { buffer = 0x9d ∷ 0x7f ∷ 0x3e ∷ 0x7d ∷ []; pos = 4 })
unfolding decode_var_int peek_bytes read_bytes be_value mask_first
decodes_rfc_value = refl

encodes_rfc_value :
    encode_var_int 15293 (make 2) ≡ ok (tt, record { buffer = 0x7b ∷ 0xbd ∷ []; pos = 2 })
unfolding encode_var_int encode_index encode_params or_first be_bytes write_bytes make
encodes_rfc_value = refl

-- 63 fits one byte in the RFC and takes two here.
length_at_bound : encode_var_int_len 63 ≡ ok 2
unfolding encode_var_int_len encode_index encode_params
length_at_bound = refl

decode_var_int-encode_var_int_example :
    (encode_var_int 15293 room ≡ ok (tt, put (var_bytes 15293) room))
    × (decode_var_int (seek 1 (put (var_bytes 15293) room))
        ≡ ok (15293, put (var_bytes 15293) room))
    × (encode_var_int_len 15293 ≡ ok ((put (var_bytes 15293) room).pos - 1))
decode_var_int-encode_var_int_example =
    decode_var_int-encode_var_int 15293 room (omega arith) (omega arith)
      (unfold var_bytes tagged be_bytes get_free in omega arith)
