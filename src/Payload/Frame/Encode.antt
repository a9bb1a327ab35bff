-- ===== src/Payload/Frame/Encode.antt =====
-- Encode of each class of payload/frame.hh.
use simple_quic.Common.{
  ℕ, ◌+◌, ◌-◌, ◌%◌, ◌^◌, [], ◌∷◌, Bool, if◌then◌else◌, length, replicate, true,
}
use simple_quic.Utils.ByteStream.{Io, ◌>>◌, pure, write_bytes}
use simple_quic.Utils.Codec.{encode_uint, encode_var_int}
use simple_quic.Utils.Interval.{Interval}
use simple_quic.Utils.Interval.Sets.{IntervalSet}
use simple_quic.Context.ConnectionId.{encode_id}
use simple_quic.Payload.Frame.{Frame, frame_id}

-- uint64_t a - b.
abbrev pub sub64 : ℕ → ℕ → ℕ
sub64 a b = (a + 2 ^ 64 - b) % 2 ^ 64

-- The loop of ACKFrame::Encode; `prev` is the interval before the iterator.
unfoldable pub encode_ranges : Interval → IntervalSet → Io (Unit {0})
encode_ranges prev [] = pure tt
encode_ranges prev (i ∷ is) = do
  encode_var_int (sub64 (sub64 prev.start i.end) 2)
  encode_var_int (sub64 i.end i.start)
  encode_ranges i is

-- What ACKFrame::Encode writes behind the identifier: nothing for an empty set.
unfoldable pub encode_ack : ℕ → IntervalSet → Io (Unit {0})
unfolding encode_ranges
encode_ack delay [] = pure tt
encode_ack delay (i ∷ is) = do
  encode_var_int i.end
  encode_var_int delay
  encode_var_int (length (i ∷ is) - 1)
  encode_var_int (sub64 i.end i.start)
  encode_ranges i is

abbrev pub when : Bool → Io (Unit {0}) → Io (Unit {0})
when b m = if b then m else pure tt

unfoldable pub encode : Frame → Io (Unit {0})
unfolding frame_id encode_ack
encode (Frame.padding n) = write_bytes (replicate n 0)
encode Frame.ping = encode_var_int 0x01
encode (Frame.ack delay ranges) = do encode_var_int 0x02; encode_ack delay ranges
encode (Frame.ack_ecn delay ranges ect0 ect1 ectce) = do
  encode_var_int 0x03
  encode_ack delay ranges
  encode_var_int ect0
  encode_var_int ect1
  encode_var_int ectce
encode (Frame.reset_stream stream_id error_code final_size) = do
  encode_var_int 0x04
  encode_var_int stream_id
  encode_var_int error_code
  encode_var_int final_size
encode (Frame.stop_sending stream_id error_code) = do
  encode_var_int 0x05
  encode_var_int stream_id
  encode_var_int error_code
encode (Frame.crypto offset bytes) = do
  encode_var_int 0x06
  encode_var_int offset
  encode_var_int (length bytes)
  write_bytes bytes
encode (Frame.new_token token) = do
  encode_var_int 0x07
  encode_var_int (length token)
  write_bytes token
encode (Frame.stream off len fin stream_id offset bytes) = do
  encode_var_int (frame_id (Frame.stream off len fin stream_id offset bytes))
  encode_var_int stream_id
  when off (encode_var_int offset)
  when len (encode_var_int (length bytes))
  write_bytes bytes
encode (Frame.max_data maximum) = do encode_var_int 0x10; encode_var_int maximum
encode (Frame.max_stream_data stream_id maximum) = do
  encode_var_int 0x11
  encode_var_int stream_id
  encode_var_int maximum
encode (Frame.max_streams unidirectional streams) = do
  encode_var_int (frame_id (Frame.max_streams unidirectional streams))
  encode_var_int streams
encode (Frame.data_blocked maximum) = do encode_var_int 0x14; encode_var_int maximum
encode (Frame.stream_data_blocked stream_id maximum) = do
  encode_var_int 0x15
  encode_var_int stream_id
  encode_var_int maximum
encode (Frame.streams_blocked unidirectional maximum) = do
  encode_var_int (frame_id (Frame.streams_blocked unidirectional maximum))
  encode_var_int maximum
encode (Frame.new_connection_id sequence retire_prior_to connection_id token) = do
  encode_var_int 0x18
  encode_var_int sequence
  encode_var_int retire_prior_to
  encode_id connection_id true
  write_bytes token
encode (Frame.retire_connection_id sequence) = do encode_var_int 0x19; encode_var_int sequence
encode (Frame.path_challenge content) = do encode_var_int 0x1a; encode_uint content 8
encode (Frame.path_response content) = do encode_var_int 0x1b; encode_uint content 8
encode (Frame.connection_close_quic error_code type reason) = do
  encode_var_int 0x1c
  encode_var_int error_code
  encode_var_int type
  encode_var_int (length reason)
  write_bytes reason
encode (Frame.connection_close_app error_code reason) = do
  encode_var_int 0x1d
  encode_var_int error_code
  encode_var_int (length reason)
  write_bytes reason
encode Frame.handshake_done = encode_var_int 0x1e
