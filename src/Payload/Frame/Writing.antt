-- ===== src/Payload/Frame/Writing.antt =====
-- Encode of payload/frame.hh against the wire form of the frame.
use simple_quic.Common.{
  ℕ, ◌≤◌, ◌<◌, ◌≡◌, refl, List, [], ◌∷◌, ◌++◌, Bool, true, false, if◌then◌else◌, length, arith,
}
use simple_quic.Utils.ByteStream.{Io, ◌>>◌, write_bytes}
use simple_quic.Utils.ByteStream.Laws.{Writes, Writes-seq, write_bytes-Writes, pure-Writes}
use simple_quic.Utils.Codec.{encode_var_int}
use simple_quic.Utils.Codec.Uint.{encode_uint-Writes}
use simple_quic.Utils.Codec.VarInt.{var_bytes, IsVarInt, encode_var_int-Writes}
use simple_quic.Utils.Interval.{Interval}
use simple_quic.Utils.Interval.Sets.{IntervalSet}
use simple_quic.Context.ConnectionId.RoundTrip.{encode_id-Writes}
use simple_quic.Payload.Frame.{Frame, frame_id}
use simple_quic.Payload.Frame.Encode.{encode, encode_ack, encode_ranges, when}
use simple_quic.Payload.Frame.Wire.{
  frame_bytes, ack_bytes, range_bytes, Fits, FitsAck, FitsRanges, buffer_bytes,
}

-- A value, and what is written behind it.
value_then :
    (v : ℕ) (k : Io (Unit {0})) (bs : List ℕ)
    → IsVarInt v
    → Writes k bs
    → Writes (encode_var_int v >> k) (var_bytes v ++ bs)
value_then v k bs h w = Writes-seq _ _ _ _ (encode_var_int-Writes v h) w

buffer-Writes :
    (bs : List ℕ)
    → IsVarInt (length bs)
    → Writes (encode_var_int (length bs) >> write_bytes bs) (buffer_bytes bs)
buffer-Writes bs h = value_then _ _ _ h (write_bytes-Writes bs)

when-Writes :
    (b : Bool) (v : ℕ)
    → IsVarInt v
    → Writes (when b (encode_var_int v)) (if b then var_bytes v else [])
when-Writes true v h = encode_var_int-Writes v h
when-Writes false v h = pure-Writes

pub frame_id-stream :
    (off len fin : Bool) (s o : ℕ) (bs : List ℕ)
    → (8 ≤ frame_id (Frame.stream off len fin s o bs))
      × (frame_id (Frame.stream off len fin s o bs) < 16)
unfolding frame_id
frame_id-stream true true true s o bs = omega arith
frame_id-stream true true false s o bs = omega arith
frame_id-stream true false true s o bs = omega arith
frame_id-stream true false false s o bs = omega arith
frame_id-stream false true true s o bs = omega arith
frame_id-stream false true false s o bs = omega arith
frame_id-stream false false true s o bs = omega arith
frame_id-stream false false false s o bs = omega arith

-- The direction bit is masked away: the identifier is that of PADDING, whatever the direction.
pub frame_id-directed :
    (u : Bool) (n : ℕ)
    → (frame_id (Frame.max_streams u n) ≡ 0) × (frame_id (Frame.streams_blocked u n) ≡ 0)
unfolding frame_id
frame_id-directed true n = (refl, refl)
frame_id-directed false n = (refl, refl)

encode_ranges-Writes :
    (prev : Interval) (is : IntervalSet)
    → FitsRanges prev is
    → Writes (encode_ranges prev is) (range_bytes prev is)
unfolding encode_ranges range_bytes
encode_ranges-Writes prev [] h = pure-Writes
encode_ranges-Writes prev (i ∷ is) h =
    value_then _ _ _ h.0 (value_then _ _ _ h.1 (encode_ranges-Writes i is h.2))

encode_ack-Writes :
    (delay : ℕ) (is : IntervalSet)
    → FitsAck delay is
    → Writes (encode_ack delay is) (ack_bytes delay is)
unfolding encode_ack ack_bytes
encode_ack-Writes delay [] h = pure-Writes
encode_ack-Writes delay (i ∷ is) h = value_then _ _ _ h.0 (
    value_then _ _ _ h.1
      (value_then _ _ _ h.2 (value_then _ _ _ h.3 (encode_ranges-Writes i is h.4))))

pub encode-Writes : (f : Frame) → Fits f → Writes (encode f) (frame_bytes f)
unfolding encode frame_bytes
encode-Writes (Frame.padding n) h = write_bytes-Writes _
encode-Writes Frame.ping h = encode_var_int-Writes _ (omega arith)
encode-Writes (Frame.ack d r) h = value_then _ _ _ (omega arith) (encode_ack-Writes d r h)
encode-Writes (Frame.ack_ecn d r x y z) h = value_then _ _ _ (omega arith) (
    Writes-seq _ _ _ _ (encode_ack-Writes d r h.0)
      (value_then _ _ _ h.1 (value_then _ _ _ h.2 (encode_var_int-Writes z h.3))))
encode-Writes (Frame.reset_stream s e z) h =
    value_then _ _ _ (omega arith)
      (value_then _ _ _ h.0 (value_then _ _ _ h.1 (encode_var_int-Writes z h.2)))
encode-Writes (Frame.stop_sending s e) h =
    value_then _ _ _ (omega arith) (value_then _ _ _ h.0 (encode_var_int-Writes e h.1))
encode-Writes (Frame.crypto o bs) h =
    value_then _ _ _ (omega arith) (value_then _ _ _ h.0 (buffer-Writes bs h.1))
encode-Writes (Frame.new_token bs) h = value_then _ _ _ (omega arith) (buffer-Writes bs h)
encode-Writes (Frame.stream off len fin s o bs) h =
    value_then _ _ _ (omega (arith, frame_id-stream off len fin s o bs)) (
      value_then _ _ _ h.0 (
        Writes-seq _ _ _ _ (when-Writes off o h.1)
          (Writes-seq _ _ _ _ (when-Writes len (length bs) h.2) (write_bytes-Writes bs))))
encode-Writes (Frame.max_data m) h = value_then _ _ _ (omega arith) (encode_var_int-Writes m h)
encode-Writes (Frame.max_stream_data s m) h =
    value_then _ _ _ (omega arith) (value_then _ _ _ h.0 (encode_var_int-Writes m h.1))
encode-Writes (Frame.max_streams u n) h =
    value_then _ _ _ (omega (arith, frame_id-directed u n)) (encode_var_int-Writes n h)
encode-Writes (Frame.data_blocked m) h = value_then _ _ _ (omega arith) (encode_var_int-Writes m h)
encode-Writes (Frame.stream_data_blocked s m) h =
    value_then _ _ _ (omega arith) (value_then _ _ _ h.0 (encode_var_int-Writes m h.1))
encode-Writes (Frame.streams_blocked u m) h =
    value_then _ _ _ (omega (arith, frame_id-directed u m)) (encode_var_int-Writes m h)
encode-Writes (Frame.new_connection_id s r c t) h = value_then _ _ _ (omega arith) (
    value_then _ _ _ h.0
      (value_then _ _ _ h.1 (Writes-seq _ _ _ _ (encode_id-Writes c h.2) (write_bytes-Writes t))))
encode-Writes (Frame.retire_connection_id s) h =
    value_then _ _ _ (omega arith) (encode_var_int-Writes s h)
encode-Writes (Frame.path_challenge d) h =
    value_then _ _ _ (omega arith) (encode_uint-Writes d 8 (omega arith) (omega arith))
encode-Writes (Frame.path_response d) h =
    value_then _ _ _ (omega arith) (encode_uint-Writes d 8 (omega arith) (omega arith))
encode-Writes (Frame.connection_close_quic e t r) h =
    value_then _ _ _ (omega arith)
      (value_then _ _ _ h.0 (value_then _ _ _ h.1 (buffer-Writes r h.2)))
encode-Writes (Frame.connection_close_app e r) h =
    value_then _ _ _ (omega arith) (value_then _ _ _ h.0 (buffer-Writes r h.1))
encode-Writes Frame.handshake_done h = encode_var_int-Writes _ (omega arith)
