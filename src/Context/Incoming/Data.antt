-- ===== src/Context/Incoming/Data.antt =====
-- How incomingMsg of context/quic.cc handles a STREAM frame, once the connection is found. The
-- callbacks that hand the data over are left out: Context/Stream has what they are called with.
pub mod Moves
use simple_quic.Common.{
  ℕ, ◌+◌, ◌*◌, ◌%◌, ◌^◌, List, [], ◌∷◌, Bool, true, false, not, ◌&&◌, ◌||◌, length, Result, ok, err,
  ◌>>=◌, if◌then◌else◌,
}
use simple_quic.Payload.Frame.{Frame}
use simple_quic.Payload.Packet.Whole.{Packet}
use simple_quic.Context.Floats.{scaled_limit}
use simple_quic.Context.Stream.{Stream, Chunk, receive, is_rec_permitted, set_max_recv_offset}
use simple_quic.Context.Streams.{
  Streams, stream_at, set_stream, touch, insert_stream, is_stream_id_used, is_recv_size_permitted,
  set_max_recv_size, set_max_recv_stream_num,
}
use simple_quic.Context.Streams.Limits.{
  should_inc_recv_limit, should_inc_recv_size, should_inc_stream_num_limit,
}
use simple_quic.Context.Ledger.{TimeVal}
use simple_quic.Context.Closing.{close_connection}
use simple_quic.Context.Incoming.{Connection, Handling, note_received, with_streams, queue_frame}
use simple_quic.Context.Incoming.Frames.{has_received, refresh_idle, unless_received}

-- The reasons, as bytes of their text.
abbrev pub stream_limit_reason : List ℕ
stream_limit_reason =
    83 ∷ 116 ∷ 114 ∷ 101 ∷ 97 ∷ 109 ∷ 32 ∷ 108 ∷ 105 ∷ 109 ∷ 105 ∷ 116 ∷ 32 ∷ 101 ∷ 120 ∷ 99 ∷ 101
    ∷ 101 ∷ 100 ∷ 101 ∷ 100 ∷ []

abbrev pub flow_control_reason : List ℕ
flow_control_reason =
    70 ∷ 108 ∷ 111 ∷ 119 ∷ 32 ∷ 99 ∷ 111 ∷ 110 ∷ 116 ∷ 114 ∷ 111 ∷ 108 ∷ 32 ∷ 99 ∷ 111 ∷ 110 ∷ 100
    ∷ 105 ∷ 116 ∷ 105 ∷ 111 ∷ 110 ∷ 32 ∷ 118 ∷ 105 ∷ 111 ∷ 108 ∷ 97 ∷ 116 ∷ 101 ∷ 100 ∷ []

abbrev pub flow_control_error : ℕ
flow_control_error = 3

abbrev pub stream_limit_error : ℕ
stream_limit_error = 4

-- CloseConnection of the connection that is handled.
close_by : Bool → TimeVal → List ℕ → ℕ → Handling → Result Handling
close_by false now reason error_code h = ok h
close_by true now reason error_code h = do
  c ← close_connection now reason error_code h.connection
  ok (record h { connection = c })

-- A frame that raises a limit, and the connection with the limit raised.
raise_by : Bool → Frame → (Streams → Streams) → Handling → Result Handling
unfolding with_streams
raise_by false frame raise h = ok h
raise_by true frame raise h = do
  h' ← queue_frame frame h
  ok (with_streams (raise h'.connection.streams) h')

raise_stream_num : Handling → Result Handling
unfolding raise_by
raise_stream_num h =
    let t = h.connection.streams in
    let n = t.max_recv_stream_num * 2 % 2 ^ 64 in
    raise_by (should_inc_stream_num_limit t) (Frame.max_streams false n) (set_max_recv_stream_num n)
      h

-- The block for a stream that is not used yet.
open_by : (used : Bool) → ℕ → TimeVal → Handling → Result Handling
unfolding close_by raise_stream_num with_streams
open_by true id now h = ok h
open_by false id now h =
    let inserted = insert_stream id true h.connection.streams in
    do
      h' ←
          close_by (not inserted.0) now stream_limit_reason stream_limit_error
            (with_streams inserted.1 h)
      raise_stream_num h'

raise_stream : ℕ → Handling → Result Handling
unfolding raise_by
raise_stream id h =
    let s = stream_at id h.connection.streams in
    let limit = scaled_limit s.max_recv_offset in
    raise_by (should_inc_recv_limit s) (Frame.max_stream_data id limit)
      (λ t. set_stream id (set_max_recv_offset limit (stream_at id t)) t) h

raise_size : Handling → Result Handling
unfolding raise_by
raise_size h =
    let t = h.connection.streams in
    let limit = scaled_limit t.max_recv_size in
    raise_by (should_inc_recv_size t) (Frame.max_data limit) (set_max_recv_size limit) h

take_data : ℕ → Chunk → Handling → Handling
unfolding with_streams
take_data id c h =
    let t = h.connection.streams in with_streams (set_stream id (receive c (stream_at id t)).1 t) h

-- The data of the frame, once the limits permit it, or the end of the connection.
data_by : (permitted : Bool) → ℕ → Chunk → TimeVal → Packet → Handling → Result Handling
unfolding close_by raise_stream raise_size take_data
data_by false id c now p h = close_by true now flow_control_reason flow_control_error h
data_by true id c now p h = do
  noted ← note_received now p h
  raised ← raise_stream id (take_data id c noted)
  raised' ← raise_size raised
  ok (refresh_idle now raised')

permits : ℕ → Chunk → Streams → Bool
permits id c t =
    is_rec_permitted c.offset (length c.bytes) (stream_at id t)
    && is_recv_size_permitted (length c.bytes) t

accept_data : ℕ → Chunk → TimeVal → Packet → Handling → Result Handling
unfolding open_by data_by permits with_streams
accept_data id c now p h = do
  opened ← open_by (is_stream_id_used id h.connection.streams) id now h
  let t = touch id opened.connection.streams in
      data_by (permits id c t) id c now p (with_streams t opened)

unfoldable pub on_stream : ℕ → Chunk → TimeVal → Packet → Handling → Result (Bool × Handling)
unfolding accept_data
on_stream id c now p h = unless_received (has_received p h) (accept_data id c now p) h
