-- ===== src/Payload/Frame/Examples.antt =====
-- Frames on concrete streams, and the theorems at concrete frames.
use simple_quic.Common.{ℕ, ◌≡◌, ◌≢◌, ◌+◌, refl, [], ◌∷◌, ok, err, Error, arith, true, false}
use simple_quic.Utils.ByteStream.{
  ByteStream, make, seek, peek_bytes, read_bytes, write_bytes, get_free,
}
use simple_quic.Utils.Codec.{
  encode_var_int_len, encode_var_int, encode_index, encode_params, or_first, be_bytes,
  decode_var_int, be_value, mask_first,
}
use simple_quic.Utils.Codec.VarInt.{var_bytes, tagged}
use simple_quic.Utils.Interval.{range_comp, point_comp}
use simple_quic.Utils.Interval.Sets.{IntervalSet, add_interval}
use simple_quic.Payload.Frame.{Frame, FrameType, frame_id, frame_type}
use simple_quic.Payload.Frame.Encode.{encode}
use simple_quic.Payload.Frame.Length.{encode_len}
use simple_quic.Payload.Frame.Measure.{encode_len-encode, encode_len-crypto, WritesOut}
use simple_quic.Payload.Frame.Wire.{frame_bytes}
use simple_quic.Payload.Frame.Parse.{parse, parse_ack}
use simple_quic.Payload.Frame.RoundTrip.{parse-encode}
use simple_quic.Payload.Frame.Faults.{parse-ack_ecn, parse-directed}

abbrev acked : IntervalSet
acked = record { start = 20; end = 25 } ∷ record { start = 10; end = 12 } ∷ []

-- Largest 25, delay 7, one further range, 5 below the largest; a gap of 6 and 2 more packets.
encodes_ack :
    encode (Frame.ack 7 acked) (make 7)
    ≡ ok (tt, record { buffer = 2 ∷ 25 ∷ 7 ∷ 1 ∷ 5 ∷ 6 ∷ 2 ∷ []; pos = 7 })
unfolding encode encode_var_int encode_index encode_params or_first be_bytes write_bytes make
encodes_ack = refl

parses_ack :
    parse (record { buffer = 2 ∷ 25 ∷ 7 ∷ 1 ∷ 5 ∷ 6 ∷ 2 ∷ []; pos = 0 })
    ≡ ok (Frame.ack 7 acked, record { buffer = 2 ∷ 25 ∷ 7 ∷ 1 ∷ 5 ∷ 6 ∷ 2 ∷ []; pos = 7 })
unfolding parse parse_ack decode_var_int peek_bytes read_bytes be_value mask_first add_interval
    range_comp point_comp
parses_ack = refl

-- Stream 4, offset 9, two bytes of data and the end of the stream: identifier 0x0f.
encodes_stream :
    encode (Frame.stream true true true 4 9 (1 ∷ 2 ∷ [])) (make 6)
    ≡ ok (tt, record { buffer = 0x0f ∷ 4 ∷ 9 ∷ 2 ∷ 1 ∷ 2 ∷ []; pos = 6 })
unfolding encode encode_var_int encode_index encode_params or_first be_bytes write_bytes make
encodes_stream = refl

ack_is_not_crypto : frame_type (Frame.ack 7 acked) ≢ FrameType.crypto
unfolding frame_type
ack_is_not_crypto e = cc

offset_is_given : true ≡ false → ◌≡◌ {A = ℕ} 9 0
offset_is_given e = cc

parse-encode_example :
    (t : ByteStream) × (encode (Frame.stream true true true 4 9 (1 ∷ 2 ∷ [])) (make 8) ≡ ok (tt, t))
    × (parse (seek 0 t) ≡ ok (Frame.stream true true true 4 9 (1 ∷ 2 ∷ []), t))
unfolding make
parse-encode_example =
    parse-encode (Frame.stream true true true 4 9 (1 ∷ 2 ∷ [])) (make 8) (omega arith)
      (refl, offset_is_given) (omega arith)
      (unfold frame_bytes frame_id var_bytes tagged be_bytes get_free in omega arith)

encode_len-encode_example :
    (n : ℕ) × (encode_len (Frame.ack 7 acked) ≡ ok n) × WritesOut (Frame.ack 7 acked) n
encode_len-encode_example = encode_len-encode (Frame.ack 7 acked) (omega arith) ack_is_not_crypto

encode_len-crypto_example :
    (n m a b : ℕ) × (encode_len (Frame.crypto 1000 (1 ∷ 2 ∷ [])) ≡ ok n)
    × WritesOut (Frame.crypto 1000 (1 ∷ 2 ∷ [])) m
    × (encode_var_int_len 2 ≡ ok a)
    × (encode_var_int_len 1000 ≡ ok b)
    × (n + a ≡ m + b)
encode_len-crypto_example = encode_len-crypto 1000 (1 ∷ 2 ∷ []) (omega arith)

parse-ack_ecn_example :
    parse (record { buffer = 3 ∷ 25 ∷ 7 ∷ 0 ∷ 5 ∷ 1 ∷ 1 ∷ 1 ∷ []; pos = 0 }) ≡ err Error.assertion
parse-ack_ecn_example =
    parse-ack_ecn (record { buffer = 3 ∷ 25 ∷ 7 ∷ 0 ∷ 5 ∷ 1 ∷ 1 ∷ 1 ∷ []; pos = 0 })
      (25 ∷ 7 ∷ 0 ∷ 5 ∷ 1 ∷ 1 ∷ 1 ∷ []) refl

parse-directed_example :
    (t : ByteStream) × (encode (Frame.max_streams true 12) (make 4) ≡ ok (tt, t))
    × ((u : ByteStream) → parse (seek 0 t) ≢ ok (Frame.max_streams true 12, u))
unfolding make
parse-directed_example =
    parse-directed (Frame.max_streams true 12) (make 4) tt (omega arith) (omega arith)
      (unfold frame_bytes frame_id var_bytes tagged be_bytes get_free in omega arith)
