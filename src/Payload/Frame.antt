-- ===== src/Payload/Frame.antt =====
-- payload/frame.hh: the frames, their types and identifiers. The classes are the constructors of
-- one data type. A buffer and the field with its length are one list, since every constructor of
-- a class sets both together; a fixed array of 16 bytes is a list too.
pub mod Encode
pub mod Length
pub mod Parse
pub mod Wire
pub mod Writing
pub mod Measure
pub mod Reading
pub mod Acks
pub mod RoundTrip
pub mod Faults
pub mod Examples
use simple_quic.Common.{ℕ, ◌*◌, ◌^◌, List, Bool, if◌then◌else◌, bit_and, bit_or, ◌==◌, not}
use simple_quic.Utils.Interval.Sets.{IntervalSet}
use simple_quic.Context.ConnectionId.{ConnectionId}

pub data FrameType : Type 0 where
  padding ping ack reset_stream stop_sending crypto new_token stream : FrameType
  max_data max_stream_data max_streams data_blocked stream_data_blocked : FrameType
  streams_blocked new_connection_id retire_connection_id path_challenge : FrameType
  path_response connection_close handshake_done : FrameType

pub data Frame : Type 0 where
  padding : (len : ℕ) → Frame
  ping : Frame
  ack : (delay : ℕ) (ranges : IntervalSet) → Frame
  ack_ecn : (delay : ℕ) (ranges : IntervalSet) (ect0 ect1 ectce : ℕ) → Frame
  reset_stream : (stream_id error_code final_size : ℕ) → Frame
  stop_sending : (stream_id error_code : ℕ) → Frame
  crypto : (offset : ℕ) (bytes : List ℕ) → Frame
  new_token : (token : List ℕ) → Frame
  stream : (off len fin : Bool) (stream_id offset : ℕ) (bytes : List ℕ) → Frame
  max_data : (maximum : ℕ) → Frame
  max_stream_data : (stream_id maximum : ℕ) → Frame
  max_streams : (unidirectional : Bool) (streams : ℕ) → Frame
  data_blocked : (maximum : ℕ) → Frame
  stream_data_blocked : (stream_id maximum : ℕ) → Frame
  streams_blocked : (unidirectional : Bool) (maximum : ℕ) → Frame
  new_connection_id :
      (sequence retire_prior_to : ℕ) (connection_id : ConnectionId) (token : List ℕ) → Frame
  retire_connection_id : (sequence : ℕ) → Frame
  path_challenge : (content : ℕ) → Frame
  path_response : (content : ℕ) → Frame
  connection_close_quic : (error_code frame_type : ℕ) (reason : List ℕ) → Frame
  connection_close_app : (error_code : ℕ) (reason : List ℕ) → Frame
  handshake_done : Frame

-- A `bool`, or a bit field of one bit, used as a number.
abbrev pub bit : Bool → ℕ
bit b = if b then 1 else 0

-- The constructor StreamFrame(streamID, buf, bufLen, offset, len, fin).
unfoldable pub make_stream : ℕ → List ℕ → ℕ → Bool → Bool → Frame
make_stream stream_id bytes offset len fin =
    Frame.stream (not (offset == 0)) len fin stream_id offset bytes

-- ID(). The operator between the constant and the direction bit is `&`, as in the source.
unfoldable pub frame_id : Frame → ℕ
frame_id (Frame.padding n) = 0x00
frame_id Frame.ping = 0x01
frame_id (Frame.ack delay ranges) = 0x02
frame_id (Frame.ack_ecn delay ranges ect0 ect1 ectce) = 0x03
frame_id (Frame.reset_stream s e z) = 0x04
frame_id (Frame.stop_sending s e) = 0x05
frame_id (Frame.crypto o bs) = 0x06
frame_id (Frame.new_token bs) = 0x07
frame_id (Frame.stream off len fin s o bs) =
    bit_or (bit_or (bit_or 0x08 (bit off * 2 ^ 2)) (bit len * 2 ^ 1)) (bit fin)
frame_id (Frame.max_data m) = 0x10
frame_id (Frame.max_stream_data s m) = 0x11
frame_id (Frame.max_streams u n) = bit_and 0x12 (bit u)
frame_id (Frame.data_blocked m) = 0x14
frame_id (Frame.stream_data_blocked s m) = 0x15
frame_id (Frame.streams_blocked u m) = bit_and 0x16 (bit u)
frame_id (Frame.new_connection_id s r c t) = 0x18
frame_id (Frame.retire_connection_id s) = 0x19
frame_id (Frame.path_challenge d) = 0x1a
frame_id (Frame.path_response d) = 0x1b
frame_id (Frame.connection_close_quic e t r) = 0x1c
frame_id (Frame.connection_close_app e r) = 0x1d
frame_id Frame.handshake_done = 0x1e

-- Type().
unfoldable pub frame_type : Frame → FrameType
frame_type (Frame.padding n) = FrameType.padding
frame_type Frame.ping = FrameType.ping
frame_type (Frame.ack delay ranges) = FrameType.ack
frame_type (Frame.ack_ecn delay ranges ect0 ect1 ectce) = FrameType.ack
frame_type (Frame.reset_stream s e z) = FrameType.reset_stream
frame_type (Frame.stop_sending s e) = FrameType.stop_sending
frame_type (Frame.crypto o bs) = FrameType.crypto
frame_type (Frame.new_token bs) = FrameType.new_token
frame_type (Frame.stream off len fin s o bs) = FrameType.stream
frame_type (Frame.max_data m) = FrameType.max_data
frame_type (Frame.max_stream_data s m) = FrameType.max_stream_data
frame_type (Frame.max_streams u n) = FrameType.max_streams
frame_type (Frame.data_blocked m) = FrameType.data_blocked
frame_type (Frame.stream_data_blocked s m) = FrameType.stream_data_blocked
frame_type (Frame.streams_blocked u m) = FrameType.streams_blocked
frame_type (Frame.new_connection_id s r c t) = FrameType.new_connection_id
frame_type (Frame.retire_connection_id s) = FrameType.retire_connection_id
frame_type (Frame.path_challenge d) = FrameType.path_challenge
frame_type (Frame.path_response d) = FrameType.path_response
frame_type (Frame.connection_close_quic e t r) = FrameType.connection_close
frame_type (Frame.connection_close_app e r) = FrameType.connection_close
frame_type Frame.handshake_done = FrameType.handshake_done
