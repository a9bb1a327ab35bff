-- ===== src/Payload/Frame/Parse.antt =====
-- Frame::Parse and the constructors of payload/frame.hh that read a stream.
use simple_quic.Common.{
  ℕ, zero, suc, ◌+◌, ◌/◌, ◌^◌, List, [], Bool, ◌||◌, leb, ◌==◌, if◌then◌else◌, bit_and,
}
use simple_quic.Common.{Result, ok, err, Error}
use simple_quic.Utils.ByteStream.{
  Io, ◌>>=◌, ◌>>◌, pure, throw, assert, peek_bytes, read_bytes, get_free,
}
use simple_quic.Utils.Codec.{decode_uint, decode_var_int, first_byte}
use simple_quic.Utils.Interval.Sets.{IntervalSet, add_interval}
use simple_quic.Context.ConnectionId.{parse_id}
use simple_quic.Payload.Frame.{Frame}
use simple_quic.Payload.Frame.Encode.{sub64}

-- auto ID = decodeVarInt(stream); assert(ID == n);
abbrev pub expect_id : ℕ → Io (Unit {0})
expect_id n = do id ← decode_var_int; assert (id == n)

-- A length and as many bytes.
abbrev pub sized_buffer : Io (List ℕ)
sized_buffer = do n ← decode_var_int; read_bytes n

-- PaddingFrame(stream). The loop takes a byte a turn, so the free bytes bound its turns; when none
-- is left, Fetch(1) fails its assertion.
unfoldable pub padding_loop : ℕ → ℕ → Io ℕ
padding_loop zero len = throw Error.assertion
padding_loop (suc turns) len = do
  front ← peek_bytes 1
  let more = (read_bytes 1 >> padding_loop turns (len + 1))
  if first_byte front == 0x00 then more else pure len

unfoldable pub parse_padding : Io Frame
unfolding padding_loop
parse_padding = do free ← λ s. ok (get_free s, s); n ← padding_loop free 0; pure (Frame.padding n)

-- A method of a set that may throw, called in the middle of parsing.
unfoldable pub lift : {A : Type 0} → Result A → Io A
lift (ok a) s = ok (a, s)
lift (err e) s = err e

-- The loop of ACKFrame(stream), `count` turns before its end. Its counter of 32 bits cannot wrap
-- before the stream is used up.
unfoldable pub parse_ranges : ℕ → ℕ → IntervalSet → Io IntervalSet
unfolding lift
parse_ranges zero smallest set = pure set
parse_ranges (suc count) smallest set = do
  gap ← decode_var_int
  range ← decode_var_int
  let largest = sub64 (sub64 smallest gap) 2
  set' ← lift (add_interval (record { start = sub64 largest range; end = largest }) set)
  parse_ranges count (sub64 largest range) set'

-- The constructor of the base class ACKFrame: the call of ID() in it is that of ACKFrame.
unfoldable pub parse_ack_fields : Io (ℕ × IntervalSet)
unfolding parse_ranges
parse_ack_fields = do
  expect_id 0x02
  largest ← decode_var_int
  delay ← decode_var_int
  count ← decode_var_int
  first ← decode_var_int
  set ← lift (add_interval (record { start = sub64 largest first; end = largest }) [])
  ranges ← parse_ranges count (sub64 largest first) set
  pure (delay, ranges)

unfoldable pub parse_ack : Io Frame
unfolding parse_ack_fields
parse_ack = do fields ← parse_ack_fields; pure (Frame.ack fields.0 fields.1)

unfoldable pub parse_ack_ecn : Io Frame
unfolding parse_ack_fields
parse_ack_ecn = do
  fields ← parse_ack_fields
  ect0 ← decode_var_int
  ect1 ← decode_var_int
  ectce ← decode_var_int
  pure (Frame.ack_ecn fields.0 fields.1 ect0 ect1 ectce)

unfoldable pub parse_reset_stream : Io Frame
parse_reset_stream = do
  expect_id 0x04
  stream_id ← decode_var_int
  error_code ← decode_var_int
  final_size ← decode_var_int
  pure (Frame.reset_stream stream_id error_code final_size)

unfoldable pub parse_stop_sending : Io Frame
parse_stop_sending = do
  expect_id 0x05
  stream_id ← decode_var_int
  error_code ← decode_var_int
  pure (Frame.stop_sending stream_id error_code)

unfoldable pub parse_crypto : Io Frame
parse_crypto = do
  expect_id 0x06
  offset ← decode_var_int
  bytes ← sized_buffer
  pure (Frame.crypto offset bytes)

unfoldable pub parse_new_token : Io Frame
parse_new_token = do expect_id 0x07; token ← sized_buffer; pure (Frame.new_token token)

unfoldable pub parse_stream : Io Frame
parse_stream = do
  id ← decode_var_int
  assert (bit_and id 0x08 == 0x08)
  let off = bit_and id 0x04 / 2 ^ 2 == 1
  let len = bit_and id 0x02 / 2 ^ 1 == 1
  stream_id ← decode_var_int
  offset ← if off then decode_var_int else pure 0
  n ← if len then decode_var_int else λ s. ok (get_free s, s)
  bytes ← read_bytes n
  pure (Frame.stream off len (bit_and id 0x01 == 1) stream_id offset bytes)

-- The frames whose class has one value behind the identifier.
abbrev pub parse_value : ℕ → (ℕ → Frame) → Io Frame
parse_value id make = do expect_id id; v ← decode_var_int; pure (make v)

-- The frames of one stream, with one value.
abbrev pub parse_stream_value : ℕ → (ℕ → ℕ → Frame) → Io Frame
parse_stream_value id make = do
  expect_id id
  stream_id ← decode_var_int
  v ← decode_var_int
  pure (make stream_id v)

-- MaxStreamsFrame and StreamsBlockedFrame: two identifiers, the direction in the lowest bit.
abbrev pub parse_directed : ℕ → ℕ → (Bool → ℕ → Frame) → Io Frame
parse_directed bidi uni make = do
  id ← decode_var_int
  assert (id == bidi || id == uni)
  v ← decode_var_int
  pure (make (bit_and id 0x1 == 1) v)

unfoldable pub parse_new_connection_id : Io Frame
parse_new_connection_id = do
  expect_id 0x18
  sequence ← decode_var_int
  retire_prior_to ← decode_var_int
  connection_id ← parse_id
  token ← read_bytes 16
  pure (Frame.new_connection_id sequence retire_prior_to connection_id token)

abbrev pub parse_path : ℕ → (ℕ → Frame) → Io Frame
parse_path id make = do expect_id id; content ← decode_uint 8; pure (make content)

unfoldable pub parse_close_quic : Io Frame
parse_close_quic = do
  expect_id 0x1c
  error_code ← decode_var_int
  type ← decode_var_int
  reason ← sized_buffer
  pure (Frame.connection_close_quic error_code type reason)

unfoldable pub parse_close_app : Io Frame
parse_close_app = do
  expect_id 0x1d
  error_code ← decode_var_int
  reason ← sized_buffer
  pure (Frame.connection_close_app error_code reason)

abbrev pub parse_bare : ℕ → Frame → Io Frame
parse_bare id f = do expect_id id; pure f

-- The switch of Frame::Parse on the first byte.
unfoldable pub parse_by : ℕ → Io Frame
parse_by b =
    if b == 0x00
    then parse_padding
    else if b == 0x01
    then parse_bare 0x01 Frame.ping
    else if b == 0x02
    then parse_ack
    else if b == 0x03
    then parse_ack_ecn
    else if b == 0x04
    then parse_reset_stream
    else if b == 0x05
    then parse_stop_sending
    else if b == 0x06
    then parse_crypto
    else if b == 0x07
    then parse_new_token
    else if leb b 0x0f
    then parse_stream
    else if b == 0x10
    then parse_value 0x10 Frame.max_data
    else if b == 0x11
    then parse_stream_value 0x11 Frame.max_stream_data
    else if b == 0x12 || b == 0x13
    then parse_directed 0x12 0x13 Frame.max_streams
    else if b == 0x14
    then parse_value 0x14 Frame.data_blocked
    else if b == 0x15
    then parse_stream_value 0x15 Frame.stream_data_blocked
    else if b == 0x16 || b == 0x17
    then parse_directed 0x16 0x17 Frame.streams_blocked
    else if b == 0x18
    then parse_new_connection_id
    else if b == 0x19
    then parse_value 0x19 Frame.retire_connection_id
    else if b == 0x1a
    then parse_path 0x1a Frame.path_challenge
    else if b == 0x1b
    then parse_path 0x1b Frame.path_response
    else if b == 0x1c
    then parse_close_quic
    else if b == 0x1d
    then parse_close_app
    else if b == 0x1e
    then parse_bare 0x1e Frame.handshake_done
    else throw Error.invalid_argument

unfoldable pub parse : Io Frame
unfolding parse_by
parse = do front ← peek_bytes 1; parse_by (first_byte front)
