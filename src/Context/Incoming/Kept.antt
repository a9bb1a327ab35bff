-- ===== src/Context/Incoming/Kept.antt =====
-- The state of the connection after the handlers of ACK and of the frames of flow control.
use simple_quic.Common.{
  ◌≡◌, refl, sym, subst, ◌∙◌, ℕ, [], ◌∷◌, Bool, true, false, ◌&&◌, ◌>>=◌, ◌+◌, ◌%◌, ◌^◌, Yields,
  Yields-bind, Yields-then,
}
use simple_quic.Utils.Interval.Sets.{IntervalSet, contain}
use simple_quic.Payload.Frame.{Frame}
use simple_quic.Payload.Packet.Whole.{Packet}
use simple_quic.Context.Congestion.{ConnectionState}
use simple_quic.Context.Stream.{set_max_recv_offset}
use simple_quic.Context.Streams.{
  Streams, stream_at, set_stream, set_max_recv_size, set_max_send_size, set_stream_max_send_offset,
  set_max_send_stream_num,
}
use simple_quic.Context.Queue.{enqueue}
use simple_quic.Context.Ledger.{
  TimeVal, Ledger, add_need_ack_rec_pkt, rem_need_ack_pkt, add_acked_sent_pkt_num,
  update_largest_acked_packet,
}
use simple_quic.Context.Ledger.Kept.{
  Same, add_need_ack_rec_pkt-Same, rem_need_ack_pkt-Same, add_acked_sent_pkt_num-Same,
  update_largest_acked_packet-Same,
}
use simple_quic.Context.Sending.{new_packet, update_idle_time}
use simple_quic.Context.States.{◌⟶*◌, here, then, end}
use simple_quic.Context.Incoming.{
  Connection, Handling, state_of, set_connection_state, closed_by, is_waiting, on_ack,
  note_received, note_by, queue_frame, with_streams, on_max_data, on_max_stream_data,
  on_max_streams, on_stream_data_blocked, on_data_blocked,
}

abbrev pub Stays : ConnectionState → Handling → Type 0
Stays s h = state_of h.connection ≡ s

note_by-Stays :
    (b : Bool) (now : TimeVal) (p : Packet) (h : Handling)
    → Yields (Stays (state_of h.connection)) (note_by b now p h)
unfolding note_by state_of
note_by-Stays true now p h = refl
note_by-Stays false now p h =
    Yields-bind (Same h.connection.sender.ledger.congestion.cur_state) _
      (add_need_ack_rec_pkt now p h.connection.sender.ledger) _
      (add_need_ack_rec_pkt-Same now p h.connection.sender.ledger) (λ l e. e)

pub note_received-Stays :
    (now : TimeVal) (p : Packet) (h : Handling)
    → Yields (Stays (state_of h.connection)) (note_received now p h)
unfolding note_received
note_received-Stays now p h = note_by-Stays h.have_added_to_ack now p h

pub with_streams-Stays :
    (t : Streams) (h : Handling) → Stays (state_of h.connection) (with_streams t h)
unfolding with_streams state_of
with_streams-Stays t h = refl

pub queue_frame-Stays :
    (frame : Frame) (h : Handling) → Yields (Stays (state_of h.connection)) (queue_frame frame h)
unfolding queue_frame state_of
queue_frame-Stays frame h =
    let c = h.connection in
    let n : ℕ = (c.now_pkt_num + 1) % 2 ^ 64 in
    Yields-then _ (new_packet c.remote n (frame ∷ [])) _
      λ p. Yields-then _ (enqueue p true c.sender.queue) _ (λ q. refl)

-- A handler that changes limits, notes the packet, and queues a frame.
noted-Stays :
    (now : TimeVal) (p : Packet) (t : Streams) (h : Handling)
    → Yields (Stays (state_of h.connection)) (note_received now p (with_streams t h))
noted-Stays now p t h =
    subst (λ s. Yields (Stays s) (note_received now p (with_streams t h))) (with_streams-Stays t h)
      (note_received-Stays now p (with_streams t h))

answered-Stays :
    (now : TimeVal) (p : Packet) (t : Streams) (frame : Frame) (h : Handling)
    → Yields
        (Stays (state_of h.connection))
        (note_received now p (with_streams t h) >>= queue_frame frame)
answered-Stays now p t frame h =
    Yields-bind _ _ (note_received now p (with_streams t h)) _ (noted-Stays now p t h)
      (λ h' e. subst (λ s. Yields (Stays s) (queue_frame frame h')) e (queue_frame-Stays frame h'))

pub on_max_data-Stays :
    (n : ℕ) (now : TimeVal) (p : Packet) (h : Handling)
    → Yields (Stays (state_of h.connection)) (on_max_data n now p h)
unfolding on_max_data
on_max_data-Stays n now p h = noted-Stays now p (set_max_send_size n h.connection.streams) h

pub on_max_stream_data-Stays :
    (id n : ℕ) (now : TimeVal) (p : Packet) (h : Handling)
    → Yields (Stays (state_of h.connection)) (on_max_stream_data id n now p h)
unfolding on_max_stream_data
on_max_stream_data-Stays id n now p h =
    noted-Stays now p (set_stream_max_send_offset id n h.connection.streams) h

pub on_max_streams-Stays :
    (n : ℕ) (now : TimeVal) (p : Packet) (h : Handling)
    → Yields (Stays (state_of h.connection)) (on_max_streams n now p h)
unfolding on_max_streams
on_max_streams-Stays n now p h =
    noted-Stays now p (set_max_send_stream_num n h.connection.streams) h

pub on_stream_data_blocked-Stays :
    (id n : ℕ) (now : TimeVal) (p : Packet) (h : Handling)
    → Yields (Stays (state_of h.connection)) (on_stream_data_blocked id n now p h)
unfolding on_stream_data_blocked
on_stream_data_blocked-Stays id n now p h =
    let t = h.connection.streams in
    let s = stream_at id t in
    let s' = set_max_recv_offset ((s.max_recv_offset + n) % 2 ^ 64) s in
    answered-Stays now p (set_stream id s' t) (Frame.max_stream_data id s'.max_recv_offset) h

pub on_data_blocked-Stays :
    (n : ℕ) (now : TimeVal) (p : Packet) (h : Handling)
    → Yields (Stays (state_of h.connection)) (on_data_blocked n now p h)
unfolding on_data_blocked
on_data_blocked-Stays n now p h =
    let t = h.connection.streams in
    let t' = set_max_recv_size ((t.max_recv_size + n) % 2 ^ 64) t in
    answered-Stays now p t' (Frame.max_data t'.max_recv_size) h

-- The state may have become CLOSED.
closed_by-Goes :
    (b : Bool) (l : Ledger) → l.congestion.cur_state ⟶* (closed_by b l).congestion.cur_state
unfolding closed_by set_connection_state
closed_by-Goes true l = then end here
closed_by-Goes false l = here

pub on_ack-Goes :
    (now : TimeVal) (acked : IntervalSet) (c : Connection)
    → Yields (λ c'. state_of c ⟶* state_of c') (on_ack now acked c)
unfolding on_ack update_idle_time state_of
on_ack-Goes now acked c =
    let l =
      closed_by (is_waiting (state_of c) && contain acked c.connection_close_pkt_num)
        c.sender.ledger in
    Yields-bind _ _ (update_largest_acked_packet acked l) _
      (update_largest_acked_packet-Same acked l)
      λ l0 e0.
        Yields-bind _ _ (rem_need_ack_pkt now acked l0) _ (rem_need_ack_pkt-Same now acked l0)
          λ l' e.
            Yields-bind _ _ (add_acked_sent_pkt_num acked l') _
              (add_acked_sent_pkt_num-Same acked l')
              λ l'' e'.
                subst (λ s. state_of c ⟶* s) (sym (e' ∙ e ∙ e0))
                  (closed_by-Goes
                    (is_waiting (state_of c) && contain acked c.connection_close_pkt_num)
                    c.sender.ledger)
