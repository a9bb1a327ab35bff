-- ===== src/Context/Handshake/Receive/Kept.antt =====
-- The state of a connection after the steps of the case of INITIAL.
use simple_quic.Common.{
  ◌≡◌, refl, ◌∙◌, ℕ, List, [], ◌∷◌, Bool, true, false, ok, ◌>>=◌, ◌*◌, Yields, Yields-bind,
  Yields-then, Yields-weaken,
}
use simple_quic.Utils.Interval.Sets.{IntervalSet, add_interval}
use simple_quic.Payload.Frame.{Frame}
use simple_quic.Payload.Packet.Whole.{Packet}
use simple_quic.Context.ConnectionId.{ConnectionId}
use simple_quic.Context.Congestion.{
  ConnectionState, established, peer_established, max_packet_length, init_congestion_state,
}
use simple_quic.Context.Queue.{num_of, single}
use simple_quic.Context.Ledger.{
  TimeVal, Ledger, add_rec_pkt, rem_need_ack_pkt, add_acked_sent_pkt_num, get_need_ack_rec_pkt,
  update_largest_acked_packet,
}
use simple_quic.Context.Ledger.Kept.{
  Same, add_rec_pkt-Same, rem_need_ack_pkt-Same, add_acked_sent_pkt_num-Same,
  get_need_ack_rec_pkt-Same, update_largest_acked_packet-Same,
}
use simple_quic.Context.Rtt.{update_rtt}
use simple_quic.Context.Rtt.Samples.{update_rtt-Same}
use simple_quic.Context.Sending.{update_idle_time}
use simple_quic.Context.Incoming.{Connection, state_of, set_connection_state}
use simple_quic.Context.Closing.{next_pkt_num, queue_new, with_state}
use simple_quic.Context.Closing.Laws.{queue_new-state}
use simple_quic.Context.Handshake.{
  with_ledger, acks_of, initial_packet, accept_connection, ack_frame, ack_frames, new_connection,
  new_ledger,
}
use simple_quic.Context.Handshake.Receive.{
  establish, refresh_time, answer_as, answer_if, confirm, acknowledge, again_frame, again_frames,
  acknowledge_again, largest_acked,
}

-- The state of the connection that a step yields.
abbrev pub Is : ConnectionState → Connection → Type 0
Is s c = state_of c ≡ s

acked-Same :
    (now : TimeVal) (acked : IntervalSet) (l : Ledger)
    → Yields (Same l.congestion.cur_state) (do
      l0 ← update_largest_acked_packet acked l
      l' ← rem_need_ack_pkt now acked l0
      add_acked_sent_pkt_num acked l')
acked-Same now acked l =
    Yields-bind _ _ (update_largest_acked_packet acked l) _
      (update_largest_acked_packet-Same acked l)
      λ l0 e0.
        Yields-bind _ _ (rem_need_ack_pkt now acked l0) _ (rem_need_ack_pkt-Same now acked l0)
          λ l' e.
            Yields-weaken _ _ (add_acked_sent_pkt_num acked l')
              (add_acked_sent_pkt_num-Same acked l') (λ l'' e'. e' ∙ e ∙ e0)

ack_frame-Same :
    (now : TimeVal) (f : Frame) (l : Ledger)
    → Yields (Same l.congestion.cur_state) (ack_frame now f l)
unfolding ack_frame
ack_frame-Same now (Frame.ack delay ranges) l = acked-Same now ranges l
ack_frame-Same now (Frame.ack_ecn delay ranges ect0 ect1 ectce) l = acked-Same now ranges l
ack_frame-Same now _ l = refl

ack_frames-Same :
    (now : TimeVal) (fs : List Frame) (l : Ledger)
    → Yields (Same l.congestion.cur_state) (ack_frames now fs l)
unfolding ack_frames
ack_frames-Same now [] l = refl
ack_frames-Same now (f ∷ fs) l =
    Yields-bind _ _ (ack_frame now f l) _ (ack_frame-Same now f l) (λ l' e.
      Yields-weaken _ _ (ack_frames now fs l') (ack_frames-Same now fs l') (λ l'' e'. e' ∙ e))

acks_of-Same :
    (p : Packet) (l : Ledger)
    → Yields (λ (r : IntervalSet × Ledger). Same l.congestion.cur_state r.1) (acks_of p l)
unfolding acks_of
acks_of-Same p l =
    Yields-bind _ _ (get_need_ack_rec_pkt l) _ (get_need_ack_rec_pkt-Same l)
      (λ got e. Yields-then _ (add_interval (single (num_of p)) got.0) _ (λ acked. e))

establish-Is :
    (window threshold : ℕ) (c : Connection) → Is established (establish window threshold c)
unfolding establish state_of with_ledger init_congestion_state with_state set_connection_state
establish-Is window threshold c = refl

with_ledger-Is :
    (s : ConnectionState) (l : Ledger) (c : Connection) → Same s l → Is s (with_ledger l c)
unfolding with_ledger state_of
with_ledger-Is s l c e = e

-- The packet is noted, then its ACK frames.
noted-Is :
    (now : TimeVal) (p : Packet) (fs : List Frame) (s : ConnectionState) (c : Connection)
    → Is s c
    → Yields (Is s) (do
      l ← add_rec_pkt p c.sender.ledger
      l' ← ack_frames now fs l
      ok (refresh_time now (with_ledger l' c)))
unfolding state_of with_ledger refresh_time update_idle_time
noted-Is now p fs s c known =
    Yields-bind _ _ (add_rec_pkt p c.sender.ledger) _ (add_rec_pkt-Same p c.sender.ledger) (λ l e.
      Yields-bind _ _ (ack_frames now fs l) _ (ack_frames-Same now fs l) (λ l' e'. e' ∙ e ∙ known))

established-acks :
    (p : Packet) (c : Connection)
    → Is established c
    → Yields (λ (r : IntervalSet × Ledger). Same established r.1) (acks_of p c.sender.ledger)
unfolding state_of
established-acks p c e =
    Yields-weaken _ _ (acks_of p c.sender.ledger) (acks_of-Same p c.sender.ledger) (λ r e'. e' ∙ e)

answer_as-Is :
    (now : TimeVal) (p : Packet) (src dst : ConnectionId) (fs : List Frame) (c : Connection)
    → Yields (Is established) (answer_as now p src dst fs c)
unfolding answer_as
answer_as-Is now p src dst fs c =
    let e = establish max_packet_length (max_packet_length * 10) (record c { local = dst }) in
    Yields-bind _ _ (acks_of p e.sender.ledger) _
      (established-acks p e
        (establish-Is max_packet_length (max_packet_length * 10) (record c { local = dst })))
      λ (acked, l) same.
        Yields-then _ (initial_packet dst src (next_pkt_num e) (Frame.ack 0 acked ∷ [])) _ λ reply.
          Yields-bind _ _ (queue_new reply false (with_ledger l e)) _
            (queue_new-state reply false (with_ledger l e))
            (λ c' same'.
              noted-Is now p fs established c' (same' ∙ with_ledger-Is established l e same))

pub answer_if-Is :
    (b : Bool) (now : TimeVal) (p : Packet) (src dst : ConnectionId) (fs : List Frame)
    (c : Connection)
    → Yields (Is established) (answer_if b now p src dst fs c)
unfolding answer_if
answer_if-Is true now p src dst fs c = answer_as-Is now p src dst fs c
answer_if-Is false now p src dst fs c = tt

pub confirm-Is :
    (now : TimeVal) (p : Packet) (fs : List Frame) (c : Connection)
    → Yields (Is established) (confirm now p fs c)
unfolding confirm
confirm-Is now p fs c =
    noted-Is now p fs established (establish (max_packet_length * 10) (max_packet_length * 100) c)
      (establish-Is (max_packet_length * 10) (max_packet_length * 100) c)

acknowledge-Is :
    (now : TimeVal) (delay : ℕ) (acked : IntervalSet) (c : Connection)
    → Yields (Is (state_of c)) (acknowledge now delay acked c)
unfolding acknowledge with_ledger state_of
acknowledge-Is now delay acked c =
    Yields-bind _ _ (update_largest_acked_packet acked c.sender.ledger) _
      (update_largest_acked_packet-Same acked c.sender.ledger)
      λ l0 e0.
        Yields-bind _ _ (rem_need_ack_pkt now acked l0) _ (rem_need_ack_pkt-Same now acked l0)
          λ l e. Yields-then _ (largest_acked acked) _ λ largest.
            let u = update_rtt now delay largest c.rtt l in
            Yields-bind _ _ (add_acked_sent_pkt_num acked u.1) _
              (add_acked_sent_pkt_num-Same acked u.1)
              (λ l' e'. e' ∙ update_rtt-Same now delay largest c.rtt l ∙ e ∙ e0)

again_frame-Is :
    (now : TimeVal) (f : Frame) (c : Connection) → Yields (Is (state_of c)) (again_frame now f c)
unfolding again_frame
again_frame-Is now (Frame.ack delay ranges) c = acknowledge-Is now delay ranges c
again_frame-Is now (Frame.ack_ecn delay ranges ect0 ect1 ectce) c =
    acknowledge-Is now delay ranges c
again_frame-Is now _ c = refl

again_frames-Is :
    (now : TimeVal) (fs : List Frame) (c : Connection)
    → Yields (Is (state_of c)) (again_frames now fs c)
unfolding again_frames
again_frames-Is now [] c = refl
again_frames-Is now (f ∷ fs) c =
    Yields-bind _ _ (again_frame now f c) _ (again_frame-Is now f c) (λ c' e.
      Yields-weaken _ _ (again_frames now fs c') (again_frames-Is now fs c') (λ d e'. e' ∙ e))

pub acknowledge_again-Is :
    (now : TimeVal) (fs : List Frame) (c : Connection)
    → Yields (Is (state_of c)) (acknowledge_again now fs c)
unfolding acknowledge_again refresh_time state_of update_idle_time
acknowledge_again-Is now fs c =
    Yields-bind _ _ (again_frames now fs c) _ (again_frames-Is now fs c) (λ c' e. e)

-- A server's new connection.
pub accept_connection-Is :
    (now : TimeVal) (p : Packet) (dst fresh : ConnectionId)
    → Yields (Is peer_established) (accept_connection now p dst fresh)
unfolding accept_connection state_of with_state set_connection_state update_idle_time
accept_connection-Is now p dst fresh = Yields-then _ (add_rec_pkt p new_ledger) _ λ l.
    Yields-then _ (acks_of p l) _ λ (acked, l').
      Yields-then _
        (initial_packet dst fresh (next_pkt_num new_connection) (Frame.ack 0 acked ∷ [])) _
        λ reply. Yields-then _ (queue_new reply true (with_ledger l' new_connection)) _ (λ c. refl)
