-- ===== src/Context/Incoming.antt =====
-- How incomingMsg of context/quic.cc handles the frames of a ONE_RTT packet that steer sending: ACK,
-- MAX_DATA, MAX_STREAM_DATA, MAX_STREAMS, STREAM_DATA_BLOCKED and DATA_BLOCKED.
pub mod Acks
pub mod Kept
pub mod Frames
pub mod Data
pub mod OneRtt
pub mod Examples
use simple_quic.Common.{
  ℕ, ◌+◌, ◌%◌, ◌^◌, List, [], ◌∷◌, Bool, true, false, not, ◌&&◌, ◌==◌, if◌then◌else◌, Result, ok,
  err, Error, ◌>>=◌,
}
use simple_quic.Utils.Interval.Sets.{IntervalSet, contain}
use simple_quic.Payload.Frame.{Frame}
use simple_quic.Payload.Packet.Whole.{Packet}
use simple_quic.Context.ConnectionId.{ConnectionId, same_id}
use simple_quic.Context.Congestion.{ConnectionState}
use simple_quic.Context.Stream.{Stream, set_max_recv_offset}
use simple_quic.Context.Streams.{
  Streams, stream_at, set_stream, set_stream_max_send_offset, set_max_send_size, set_max_recv_size,
  set_max_send_stream_num,
}
use simple_quic.Context.Queue.{enqueue}
use simple_quic.Context.Ledger.{
  TimeVal, Ledger, rem_need_ack_pkt, update_largest_acked_packet, add_acked_sent_pkt_num,
  add_need_ack_rec_pkt,
}
use simple_quic.Context.Rtt.{Rtt}
use simple_quic.Context.Sending.{Sender, update_idle_time, new_packet}
use simple_quic.Context.Unsent.{Buffer}

-- A Connection. What unsentBuf holds, and congestedByFlow, are the last two fields.
pub record Connection : Type 0 where
  pub local : ConnectionId
  pub remote : ConnectionId
  pub sender : Sender
  pub streams : Streams
  pub now_pkt_num : ℕ
  pub connection_close_pkt_num : ℕ
  pub start_wait_for_peer : ℕ
  pub rtt : Rtt
  pub unsent : List Buffer
  pub congested_by_flow : ℕ

unfoldable pub state_of : Connection → ConnectionState
state_of c = c.sender.ledger.congestion.cur_state

unfoldable pub set_connection_state : ConnectionState → Ledger → Ledger
set_connection_state state l = record l { congestion = record l.congestion { cur_state = state } }

unfoldable pub is_closed : ConnectionState → Bool
is_closed ConnectionState.closed = true
is_closed _ = false

unfoldable pub is_waiting : ConnectionState → Bool
is_waiting ConnectionState.wait_for_peer_close = true
is_waiting _ = false

-- The connection's state once the acknowledgement of its CONNECTION_CLOSE may have come.
closed_by : Bool → Ledger → Ledger
unfolding set_connection_state
closed_by true l = set_connection_state ConnectionState.closed l
closed_by false l = l

unfoldable pub on_ack : TimeVal → IntervalSet → Connection → Result Connection
unfolding closed_by is_waiting
on_ack now acked c = do
  noted ← update_largest_acked_packet acked (
      closed_by (is_waiting (state_of c) && contain acked c.connection_close_pkt_num)
        c.sender.ledger)
  l ← rem_need_ack_pkt now acked noted
  l' ← add_acked_sent_pkt_num acked l
  ok (record c { sender = update_idle_time now true (record c.sender { ledger = l' }) })

-- A connection, and haveAddedToACK.
pub record Handling : Type 0 where
  pub connection : Connection
  pub have_added_to_ack : Bool

note_by : Bool → TimeVal → Packet → Handling → Result Handling
note_by true now p h = ok h
note_by false now p h = do
  l ← add_need_ack_rec_pkt now p h.connection.sender.ledger
  ok (record {
    connection = record h.connection { sender = record h.connection.sender { ledger = l } };
    have_added_to_ack = true;
  })

-- `if (!haveAddedToACK)`
unfoldable pub note_received : TimeVal → Packet → Handling → Result Handling
unfolding note_by
note_received now p h = note_by h.have_added_to_ack now p h

pub with_streams : Streams → Handling → Handling
with_streams t h = record h { connection = record h.connection { streams = t } }

unfoldable pub on_max_data : ℕ → TimeVal → Packet → Handling → Result Handling
unfolding with_streams
on_max_data maximum now p h =
    note_received now p (with_streams (set_max_send_size maximum h.connection.streams) h)

unfoldable pub on_max_stream_data : ℕ → ℕ → TimeVal → Packet → Handling → Result Handling
unfolding with_streams
on_max_stream_data id maximum now p h =
    note_received now p
      (with_streams (set_stream_max_send_offset id maximum h.connection.streams) h)

unfoldable pub on_max_streams : ℕ → TimeVal → Packet → Handling → Result Handling
unfolding with_streams
on_max_streams count now p h =
    note_received now p (with_streams (set_max_send_stream_num count h.connection.streams) h)

-- A packet of one frame for the peer, which needs an acknowledgement.
unfoldable pub queue_frame : Frame → Handling → Result Handling
queue_frame frame h =
    let c = h.connection in
    let n : ℕ = (c.now_pkt_num + 1) % 2 ^ 64 in
    do
      p ← new_packet c.remote n (frame ∷ [])
      q ← enqueue p true c.sender.queue
      ok (record h {
        connection = record c { sender = record c.sender { queue = q }; now_pkt_num = n };
      })

unfoldable pub on_stream_data_blocked : ℕ → ℕ → TimeVal → Packet → Handling → Result Handling
unfolding with_streams
on_stream_data_blocked id wanted now p h =
    let t = h.connection.streams in
    let s = stream_at id t in
    let s' = set_max_recv_offset ((s.max_recv_offset + wanted) % 2 ^ 64) s in
    do
      h' ← note_received now p (with_streams (set_stream id s' t) h)
      queue_frame (Frame.max_stream_data id s'.max_recv_offset) h'

unfoldable pub on_data_blocked : ℕ → TimeVal → Packet → Handling → Result Handling
unfolding with_streams
on_data_blocked wanted now p h =
    let t = h.connection.streams in
    let t' = set_max_recv_size ((t.max_recv_size + wanted) % 2 ^ 64) t in
    do
      h' ← note_received now p (with_streams t' h)
      queue_frame (Frame.max_data t'.max_recv_size) h'
