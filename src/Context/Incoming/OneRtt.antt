-- ===== src/Context/Incoming/OneRtt.antt =====
-- The loop of incomingMsg of context/quic.cc over the frames of a ONE_RTT packet.
pub mod Search
pub mod Moves
pub mod Acks
use simple_quic.Common.{
  ℕ, List, [], ◌∷◌, Bool, true, false, not, ◌&&◌, some, Option, none, Result, ok, err, Error, ◌>>=◌,
}
use simple_quic.Utils.Interval.Sets.{IntervalSet}
use simple_quic.Payload.Frame.{Frame}
use simple_quic.Payload.Packet.{get_dst_id}
use simple_quic.Payload.Packet.Whole.{Packet}
use simple_quic.Context.ConnectionId.{ConnectionId, same_id}
use simple_quic.Context.Congestion.{ConnectionState}
use simple_quic.Context.Stream.{Chunk}
use simple_quic.Context.Ledger.{TimeVal}
use simple_quic.Context.Incoming.{
  Connection, Handling, state_of, is_closed, is_waiting, on_ack, on_max_data, on_max_stream_data,
  on_max_streams, on_stream_data_blocked, on_data_blocked,
}
use simple_quic.Context.Incoming.Frames.{on_reset_stream, on_connection_close, on_ping}
use simple_quic.Context.Incoming.Data.{on_stream}

-- The connections, haveAddedToACK, and whether the loop goes on.
pub record Batch : Type 0 where
  pub connections : List Connection
  pub have_added_to_ack : Bool
  pub goes_on : Bool

abbrev pub Handler : Type 0
Handler = Handling → Result (Bool × Handling)

unfoldable pub found_by :
    Bool → Handler → Bool → Connection → List Connection → Result Batch → Result Batch
found_by true f added c cs rest = do
  (on, h) ← f (record { connection = c; have_added_to_ack = added })
  ok (record {
    connections = h.connection ∷ cs;
    have_added_to_ack = h.have_added_to_ack;
    goes_on = on;
  })
found_by false f added c cs rest = do b ← rest; ok (record b { connections = c ∷ b.connections })

-- The first connection that meets the test is handled; `missing` is what happens if there is none.
unfoldable pub handle_first :
    (Connection → Bool) → Handler → Result Bool → Bool → List Connection → Result Batch
unfolding found_by
handle_first test f missing added [] = do
  on ← missing
  ok (record { connections = []; have_added_to_ack = added; goes_on = on })
handle_first test f missing added (c ∷ cs) =
    found_by (test c) f added c cs (handle_first test f missing added cs)

-- The loop goes on.
then_on : Result Handling → Result (Bool × Handling)
then_on r = do h ← r; ok (true, h)

unfoldable pub ack_handler : TimeVal → IntervalSet → Handler
ack_handler now acked h = do
  c ← on_ack now acked h.connection
  ok (true, record h { connection = c })

-- `continue` for a connection that is closing, and for a PING one that is not PEER_ESTABLISHED.
unless_skipped : Bool → Handler → Handler
unless_skipped true f h = ok (true, h)
unless_skipped false f h = f h

is_peer_established : ConnectionState → Bool
is_peer_established ConnectionState.peer_established = true
is_peer_established _ = false

-- Whether a connection is done with, in the search for STREAM frames.
abbrev pub is_ending : ConnectionState → Bool
is_ending ConnectionState.wait_for_peer_close = true
is_ending ConnectionState.closed = true
is_ending _ = false

abbrev pub is_for : ConnectionId → Connection → Bool
is_for dst c = same_id c.local dst

abbrev pub is_open_for : ConnectionId → Connection → Bool
is_open_for dst c = not (is_closed (state_of c)) && same_id c.local dst

-- One frame. A frame of an application's CONNECTION_CLOSE is cast to the class of the other, and the
-- null pointer is followed. A frame of another type changes nothing.
unfoldable pub on_frame : TimeVal → Packet → Frame → Bool → List Connection → Result Batch
unfolding ack_handler then_on unless_skipped is_peer_established
on_frame now p (Frame.stream off len fin id offset bytes) added cs =
    handle_first (is_for (get_dst_id p.header))
      (λ h.
        unless_skipped (is_ending (state_of h.connection))
          (on_stream id (record { bytes = bytes; offset = offset; fin = fin }) now p) h)
      (err Error.assertion) added cs
on_frame now p (Frame.reset_stream id error_code final_size) added cs =
    handle_first (is_for (get_dst_id p.header)) (on_reset_stream id now p) (err Error.assertion)
      added cs
on_frame now p (Frame.connection_close_quic error_code frame_type reason) added cs =
    handle_first (is_for (get_dst_id p.header)) (on_connection_close now p) (err Error.assertion)
      added cs
on_frame now p (Frame.connection_close_app error_code reason) added cs = err Error.out_of_bounds
on_frame now p (Frame.ack delay ranges) added cs =
    handle_first (is_open_for (get_dst_id p.header)) (ack_handler now ranges) (ok false) added cs
on_frame now p (Frame.ack_ecn delay ranges ect0 ect1 ectce) added cs =
    handle_first (is_open_for (get_dst_id p.header)) (ack_handler now ranges) (ok false) added cs
on_frame now p (Frame.max_data maximum) added cs =
    handle_first (is_open_for (get_dst_id p.header)) (λ h. then_on (on_max_data maximum now p h))
      (ok false) added cs
on_frame now p (Frame.max_stream_data id maximum) added cs =
    handle_first (is_open_for (get_dst_id p.header))
      (λ h. then_on (on_max_stream_data id maximum now p h)) (ok false) added cs
on_frame now p (Frame.max_streams unidirectional count) added cs =
    handle_first (is_open_for (get_dst_id p.header)) (λ h. then_on (on_max_streams count now p h))
      (ok false) added cs
on_frame now p Frame.ping added cs =
    handle_first (is_for (get_dst_id p.header))
      (λ h. unless_skipped (not (is_peer_established (state_of h.connection))) (on_ping now p) h)
      (ok true) added cs
on_frame now p (Frame.stream_data_blocked id wanted) added cs =
    handle_first (is_open_for (get_dst_id p.header))
      (λ h. then_on (on_stream_data_blocked id wanted now p h)) (ok false) added cs
on_frame now p (Frame.data_blocked wanted) added cs =
    handle_first (is_open_for (get_dst_id p.header)) (λ h. then_on (on_data_blocked wanted now p h))
      (ok false) added cs
on_frame now p _ added cs =
    ok (record { connections = cs; have_added_to_ack = added; goes_on = true })

-- The next frame, or `break`.
unfoldable pub next_by : Bool → (Bool → List Connection → Result Batch) → Batch → Result Batch
next_by true on b = on b.have_added_to_ack b.connections
next_by false on b = ok b

unfoldable pub on_frames : TimeVal → Packet → List Frame → Bool → List Connection → Result Batch
unfolding next_by
on_frames now p [] added cs =
    ok (record { connections = cs; have_added_to_ack = added; goes_on = true })
on_frames now p (f ∷ fs) added cs = do
  b ← on_frame now p f added cs
  next_by b.goes_on (on_frames now p fs) b

unfoldable pub frames_of : Option (List Frame) → Result (List Frame)
frames_of none = err Error.out_of_bounds
frames_of (some fs) = ok fs

-- The case of ONE_RTT.
unfoldable pub on_one_rtt : TimeVal → Packet → List Connection → Result (List Connection)
unfolding frames_of
on_one_rtt now p cs = do fs ← frames_of p.payload; b ← on_frames now p fs false cs; ok b.connections
