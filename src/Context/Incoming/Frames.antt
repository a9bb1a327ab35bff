-- ===== src/Context/Incoming/Frames.antt =====
-- How incomingMsg of context/quic.cc handles RESET_STREAM, CONNECTION_CLOSE and PING frames, once
-- the connection is found. A handler returns whether the loop over the frames goes on.
pub mod Moves
pub mod Peer
pub mod Examples
use simple_quic.Common.{
  ℕ, ◌+◌, ◌%◌, ◌^◌, List, [], ◌∷◌, Bool, true, false, ◌&&◌, Result, ok, err, ◌>>=◌,
}
use simple_quic.Utils.Interval.Sets.{IntervalSet, add_interval}
use simple_quic.Payload.Frame.{Frame}
use simple_quic.Payload.Packet.Whole.{Packet}
use simple_quic.Context.Congestion.{ConnectionState}
use simple_quic.Context.Stream.{Stream, StreamState}
use simple_quic.Context.Streams.{stream_at, touch, close_stream_by_id}
use simple_quic.Context.Queue.{enqueue, num_of, single}
use simple_quic.Context.Ledger.{
  TimeVal, Ledger, add_rec_pkt, have_received_pkt, get_need_ack_rec_pkt,
}
use simple_quic.Context.Sending.{update_idle_time, new_packet}
use simple_quic.Context.Incoming.{
  Connection, Handling, state_of, is_closed, note_received, set_connection_state, with_streams,
}

unfoldable pub is_fin : StreamState → Bool
is_fin StreamState.fin = true
is_fin _ = false

abbrev pub with_ledger : Ledger → Handling → Handling
with_ledger l h = record h {
  connection = record h.connection { sender = record h.connection.sender { ledger = l } };
}

abbrev pub refresh_idle : TimeVal → Handling → Handling
refresh_idle now h = record h {
  connection = record h.connection { sender = update_idle_time now true h.connection.sender };
}

-- addRecPkt, where haveAddedToACK becomes true.
record_received : Packet → Handling → Result Handling
record_received p h = do
  l ← add_rec_pkt p h.connection.sender.ledger
  ok (record (with_ledger l h) { have_added_to_ack = true })

-- `if (foundCon->HaveReceivedPkt(_recPktNum)) break;` before the rest of a handler.
unfoldable pub unless_received :
    Bool → (Handling → Result Handling) → Handling → Result (Bool × Handling)
unless_received true f h = ok (false, h)
unless_received false f h = do h' ← f h; ok (true, h')

abbrev pub has_received : Packet → Handling → Bool
has_received p h = have_received_pkt (num_of p) h.connection.sender.ledger

reset_by : Bool → TimeVal → Packet → Handling → Result Handling
unfolding record_received
reset_by true now p h = record_received p h
reset_by false now p h = note_received now p h

-- The state of the stream decides whether its reset is acknowledged. Reading it makes an entry.
receive_reset : ℕ → TimeVal → Packet → Handling → Result Handling
unfolding reset_by touch is_fin with_streams
receive_reset id now p h = do
  h' ←
      reset_by (is_fin (stream_at id h.connection.streams).state) now p
        (with_streams (touch id h.connection.streams) h)
  ok (refresh_idle now (with_streams (close_stream_by_id id h'.connection.streams) h'))

unfoldable pub on_reset_stream : ℕ → TimeVal → Packet → Handling → Result (Bool × Handling)
unfolding receive_reset unless_received
on_reset_stream id now p h = unless_received (has_received p h) (receive_reset id now p) h

-- `GetConnectionState() != CLOSED`, then `!haveAddedToACK`.
received_by : (closed added : Bool) → Packet → Handling → Result Handling
unfolding record_received
received_by false false p h = record_received p h
received_by _ _ p h = ok h

-- The packet that acknowledges what has been received.
queue_ack : IntervalSet → Bool → Connection → Result Connection
queue_ack acked need c =
    let n : ℕ = (c.now_pkt_num + 1) % 2 ^ 64 in
    do
      a ← new_packet c.remote n (Frame.ack 0 acked ∷ [])
      q ← enqueue a need c.sender.queue
      ok (record c { sender = record c.sender { queue = q }; now_pkt_num = n })

-- The rest of the handler.
closes : TimeVal → Packet → Handling → Result Handling
unfolding queue_ack set_connection_state
closes now p h = do
  got ← get_need_ack_rec_pkt h.connection.sender.ledger
  acked ← add_interval (single (num_of p)) got.0
  c ← queue_ack acked false (with_ledger got.1 h).connection
  ok (
      refresh_idle now (
        with_ledger (set_connection_state ConnectionState.closed c.sender.ledger)
          (record h { connection = c })))

connection_close : TimeVal → Packet → Handling → Result Handling
unfolding received_by closes
connection_close now p h = do
  h' ← received_by (is_closed (state_of h.connection)) h.have_added_to_ack p h
  closes now p h'

unfoldable pub on_connection_close : TimeVal → Packet → Handling → Result (Bool × Handling)
unfolding connection_close unless_received
on_connection_close now p h = unless_received (has_received p h) (connection_close now p) h

receive_ping : TimeVal → Packet → Handling → Result Handling
receive_ping now p h = do h' ← note_received now p h; ok (refresh_idle now h')

unfoldable pub on_ping : TimeVal → Packet → Handling → Result (Bool × Handling)
unfolding receive_ping unless_received
on_ping now p h = unless_received (has_received p h) (receive_ping now p) h
