-- ===== src/Context/Incoming/Frames/Moves.antt =====
-- The state of the connection after RESET_STREAM, CONNECTION_CLOSE and PING frames.
use simple_quic.Common.{
  refl, sym, subst, ◌∙◌, ℕ, Bool, true, false, Result, Yields, Yields-bind, Yields-then,
  Yields-weaken,
}
use simple_quic.Utils.Interval.Sets.{add_interval}
use simple_quic.Payload.Packet.Whole.{Packet}
use simple_quic.Context.Congestion.{ConnectionState, closed}
use simple_quic.Context.Streams.{stream_at, touch, close_stream_by_id}
use simple_quic.Context.Queue.{num_of, single}
use simple_quic.Context.Ledger.{TimeVal, add_rec_pkt, get_need_ack_rec_pkt}
use simple_quic.Context.Ledger.Kept.{Same, add_rec_pkt-Same}
use simple_quic.Context.Sending.{update_idle_time}
use simple_quic.Context.States.{◌⟶*◌, here, then, end, ⟶*-of}
use simple_quic.Context.Incoming.{
  Handling, state_of, is_closed, set_connection_state, note_received, with_streams,
}
use simple_quic.Context.Incoming.Kept.{Stays, note_received-Stays, with_streams-Stays}
use simple_quic.Context.Incoming.Frames.{
  record_received, unless_received, has_received, reset_by, receive_reset, on_reset_stream,
  received_by, queue_ack, closes, connection_close, on_connection_close, receive_ping, on_ping,
  is_fin, refresh_idle, with_ledger,
}

-- Where the handler returns, the state has moved along the diagram.
abbrev pub Goes : ConnectionState → Bool × Handling → Type 0
Goes s (on, h) = s ⟶* state_of h.connection

pub unless_received-Goes :
    (b : Bool) (f : Handling → Result Handling) (h : Handling)
    → Yields (λ h'. state_of h.connection ⟶* state_of h'.connection) (f h)
    → Yields (Goes (state_of h.connection)) (unless_received b f h)
unfolding unless_received
unless_received-Goes true f h k = here
unless_received-Goes false f h k = Yields-bind _ _ (f h) _ k (λ h' g. g)

record_received-Stays :
    (p : Packet) (h : Handling) → Yields (Stays (state_of h.connection)) (record_received p h)
unfolding record_received state_of
record_received-Stays p h =
    Yields-bind (Same h.connection.sender.ledger.congestion.cur_state) _
      (add_rec_pkt p h.connection.sender.ledger) _ (add_rec_pkt-Same p h.connection.sender.ledger)
      (λ l e. e)

reset_by-Stays :
    (b : Bool) (now : TimeVal) (p : Packet) (h : Handling)
    → Yields (Stays (state_of h.connection)) (reset_by b now p h)
unfolding reset_by
reset_by-Stays true now p h = record_received-Stays p h
reset_by-Stays false now p h = note_received-Stays now p h

refresh_idle-Stays :
    (now : TimeVal) (h : Handling) → Stays (state_of h.connection) (refresh_idle now h)
unfolding state_of update_idle_time
refresh_idle-Stays now h = refl

receive_reset-Stays :
    (id : ℕ) (now : TimeVal) (p : Packet) (h : Handling)
    → Yields (Stays (state_of h.connection)) (receive_reset id now p h)
unfolding receive_reset
receive_reset-Stays id now p h =
    let touched_one = with_streams (touch id h.connection.streams) h in
    let fin = is_fin (stream_at id h.connection.streams).state in
    Yields-bind _ _ (reset_by fin now p touched_one) _ (reset_by-Stays fin now p touched_one)
      λ h' e.
        let closed_one = with_streams (close_stream_by_id id h'.connection.streams) h' in
        refresh_idle-Stays now closed_one
        ∙ with_streams-Stays (close_stream_by_id id h'.connection.streams) h'
        ∙ e
        ∙ with_streams-Stays (touch id h.connection.streams) h

pub on_reset_stream-Goes :
    (id : ℕ) (now : TimeVal) (p : Packet) (h : Handling)
    → Yields (Goes (state_of h.connection)) (on_reset_stream id now p h)
unfolding on_reset_stream
on_reset_stream-Goes id now p h =
    unless_received-Goes (has_received p h) (receive_reset id now p) h (
      Yields-weaken _ _ (receive_reset id now p h) (receive_reset-Stays id now p h)
        (λ h' e. ⟶*-of e))

-- The handler of CONNECTION_CLOSE leaves the connection CLOSED.
closes-closed : (now : TimeVal) (p : Packet) (h : Handling) → Yields (Stays closed) (closes now p h)
unfolding closes state_of set_connection_state update_idle_time
closes-closed now p h = Yields-then _ (get_need_ack_rec_pkt h.connection.sender.ledger) _ λ got.
    Yields-then _ (add_interval (single (num_of p)) got.0) _
      λ acked. Yields-then _ (queue_ack acked false (with_ledger got.1 h).connection) _ (λ c. refl)

connection_close-closed :
    (now : TimeVal) (p : Packet) (h : Handling) → Yields (Stays closed) (connection_close now p h)
unfolding connection_close
connection_close-closed now p h =
    Yields-then _ (received_by (is_closed (state_of h.connection)) h.have_added_to_ack p h) _
      (λ h'. closes-closed now p h')

pub on_connection_close-Goes :
    (now : TimeVal) (p : Packet) (h : Handling)
    → Yields (Goes (state_of h.connection)) (on_connection_close now p h)
unfolding on_connection_close
on_connection_close-Goes now p h =
    unless_received-Goes (has_received p h) (connection_close now p) h (
      Yields-weaken _ _ (connection_close now p h) (connection_close-closed now p h)
        (λ h' e. subst (λ s. state_of h.connection ⟶* s) (sym e) (then end here)))

receive_ping-Stays :
    (now : TimeVal) (p : Packet) (h : Handling)
    → Yields (Stays (state_of h.connection)) (receive_ping now p h)
unfolding receive_ping
receive_ping-Stays now p h =
    Yields-bind _ _ (note_received now p h) _ (note_received-Stays now p h)
      (λ h' e. refresh_idle-Stays now h' ∙ e)

pub on_ping-Goes :
    (now : TimeVal) (p : Packet) (h : Handling)
    → Yields (Goes (state_of h.connection)) (on_ping now p h)
unfolding on_ping
on_ping-Goes now p h =
    unless_received-Goes (has_received p h) (receive_ping now p) h
      (Yields-weaken _ _ (receive_ping now p h) (receive_ping-Stays now p h) (λ h' e. ⟶*-of e))
