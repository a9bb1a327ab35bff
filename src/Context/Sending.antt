-- ===== src/Context/Sending.antt =====
-- What SocketLoop of context/quic.cc does for one connection: the packets it sends from the queue,
-- and those it puts back there since no acknowledgement has come. All calls of gettimeofday in one
-- turn of a loop are given the same time `now`.
pub mod Resend
pub mod Sent
pub mod Step
pub mod Loop
pub mod Datagram
pub mod Examples
use simple_quic.Common.{
  ℕ, zero, suc, ◌+◌, ◌-◌, ◌*◌, ◌%◌, ◌^◌, List, [], ◌∷◌, ◌++◌, Bool, true, false, not, ◌&&◌, ltb,
  leb, if◌then◌else◌, some, Result, ok, err, Error, ◌>>=◌,
}
use simple_quic.Utils.Interval.Sets.{IntervalSet, contain, add_interval}
use simple_quic.Utils.Codec.{encode_var_int_len}
use simple_quic.Context.ConnectionId.{ConnectionId}
use simple_quic.Payload.Frame.{Frame}
use simple_quic.Payload.Packet.Make.{make_short}
use simple_quic.Utils.ByteStream.{ByteStream, make}
use simple_quic.Payload.Packet.Whole.{Packet, packet_len, encode_packet}
use simple_quic.Context.Congestion.{whether_can_send_pkt, update_on_flight}
use simple_quic.Context.Queue.{
  Queue, num_of, single, enqueue, dequeue, get_pending_package_need_ack, whether_to_send_pkt_num,
}
use simple_quic.Context.Ledger.{
  TimeVal, msec_of, AckTimer, Ledger, get_sent_pkt_by_idx, add_need_ack_sent_pkt, add_sent_pkt,
  whether_acked_pkt_num,
}

-- The fields of Connection that the loops use.
pub record Sender : Type 0 where
  pub queue : Queue
  pub ledger : Ledger
  pub idle_time : ℕ
  pub no_ack_elicity_packet_sent : Bool

unfoldable pub update_idle_time : TimeVal → Bool → Sender → Sender
update_idle_time now ack_elicited s = record s {
  idle_time = msec_of now;
  no_ack_elicity_packet_sent = ack_elicited;
}

-- A packet of frames with a short header, as the connection builds its own: the length of the packet
-- number is its length as a variable-length integer, and the header takes it as uint32_t.
unfoldable pub new_packet : ConnectionId → ℕ → List Frame → Result Packet
new_packet dst pkt_num frames = do
  len ← encode_var_int_len pkt_num
  ok (record { header = make_short len dst (pkt_num % 2 ^ 32); payload = some frames })

unfoldable pub encode_datagram : Packet → Result ByteStream
encode_datagram p = do len ← packet_len p; out ← encode_packet p (make len); ok out.1

-- `msec - _needACKStPkt.remTime > 500`, where msec is `curTime.tv_sec * 1000`.
unfoldable pub late : TimeVal → AckTimer → Bool
late now t = ltb 500 ((now.sec * 1000 % 2 ^ 64 + 2 ^ 64 - t.rem_time) % 2 ^ 64)

-- The set ackedPktNum of the loop over the packets that are not acknowledged, and the queue.
pub record Resending : Type 0 where
  pub resent : IntervalSet
  pub queue : Queue

unfoldable pub due : TimeVal → Resending → AckTimer → Bool
due now r t =
    late now t
    && (not (contain r.resent t.pkt_num) && not (whether_to_send_pkt_num t.pkt_num r.queue))

-- The body of the loop, by its test. The list newNeedACK, which only a copy of the connection's
-- list takes, is left out.
unfoldable pub resend_by : Bool → Ledger → AckTimer → Resending → Result Resending
resend_by false l t r = ok r
resend_by true l t r = do
  nums ← add_interval (single t.pkt_num) r.resent
  p ← get_sent_pkt_by_idx t.idx l
  q ← enqueue p true r.queue
  ok (record { resent = nums; queue = q })

unfoldable pub resend_each : TimeVal → Ledger → List AckTimer → Resending → Result Resending
unfolding resend_by
resend_each now l [] r = ok r
resend_each now l (t ∷ ts) r = do r' ← resend_by (due now r t) l t r; resend_each now l ts r'

unfoldable pub resend : TimeVal → Sender → Result Sender
resend now s = do
  r ← resend_each now s.ledger s.ledger.not_acked_sent_pkt (record { resent = []; queue = s.queue })
  ok (record s { queue = r.queue })

-- The loop over pendingPackets: the connection, sentWhenCongested, and the datagrams sent so far.
pub record Sends : Type 0 where
  pub sender : Sender
  pub sent_when_congested : ℕ
  pub datagrams : List ByteStream

-- How a turn of the loop ends: it goes on to the next turn, or breaks.
pub data Turn : Type 0 where
  again : Sends → Turn
  break : Sends → Turn

unfoldable pub drop_front : Packet → Sends → Result Turn
drop_front p s = do
  q ← dequeue p s.sender.queue
  ok (Turn.again (record s { sender = record s.sender { queue = q } }))

unfoldable pub idle_by : Bool → TimeVal → Sender → Sender
unfolding update_idle_time
idle_by false now s = s
idle_by true now s = update_idle_time now false s

-- addNeedACKSentPkt, with the idle time of the first such packet, or addSentPkt.
unfoldable pub note_by : Bool → TimeVal → Packet → Sender → Result Sender
unfolding idle_by
note_by false now p s = do l ← add_sent_pkt p s.ledger; ok (record s { ledger = l })
note_by true now p s = do
  l ← add_need_ack_sent_pkt now p s.ledger
  ok (idle_by s.no_ack_elicity_packet_sent now (record s { ledger = l }))

-- UpdateOnFlightBySentPktLen, for a packet that needs an acknowledgement.
unfoldable pub in_flight_by : Bool → ℕ → Ledger → Ledger
in_flight_by false len l = l
in_flight_by true len l = record l { congestion = update_on_flight len l.congestion }

-- The rest of a turn once the packet is to be sent.
unfoldable pub send_front : (pto_expired need : Bool) → TimeVal → Packet → ℕ → Sends → Result Turn
unfolding note_by in_flight_by
send_front pto_expired need now p congested s = do
  len ← packet_len p
  noted ← note_by need now p s.sender
  datagram ← encode_datagram p
  q ← dequeue p noted.queue
  let s' : Sends = record {
    sender = record noted { queue = q; ledger = in_flight_by need len noted.ledger };
    sent_when_congested = congested;
    datagrams = s.datagrams ++ (datagram ∷ []);
  } in
      ok (if pto_expired then Turn.break s' else Turn.again s')

-- The tests on the window, by whether the packet needs an acknowledgement and cannot be sent.
unfoldable pub try_front : (pto_expired held need : Bool) → TimeVal → Packet → Sends → Result Turn
unfolding send_front
try_front pto_expired false need now p s = send_front pto_expired need now p s.sent_when_congested s
try_front pto_expired true need now p s =
    if leb 2 s.sent_when_congested
    then ok (Turn.break s)
    else send_front pto_expired need now p (suc s.sent_when_congested) s

unfoldable pub send_by : (acked pto_expired : Bool) → TimeVal → Packet → Sends → Result Turn
unfolding drop_front try_front
send_by true pto_expired now p s = drop_front p s
send_by false pto_expired now p s = do
  len ← packet_len p
  need ← get_pending_package_need_ack s.sender.queue
  try_front pto_expired (need && not (whether_can_send_pkt len s.sender.ledger.congestion)) need now
      p s

unfoldable pub next_turn : (Sends → Result Sends) → Turn → Result Sends
next_turn on (Turn.again s) = on s
next_turn on (Turn.break s) = ok s

-- The condition of the loop and one turn; `on` is the loop gone on with.
unfoldable pub one_turn :
    (Sends → Result Sends) → (pto_expired : Bool) → TimeVal → List Packet → Sends → Result Sends
unfolding next_turn
one_turn on pto_expired now [] s = ok s
one_turn on pto_expired now (p ∷ ps) s = do
  t ← send_by (whether_acked_pkt_num (num_of p) s.sender.ledger) pto_expired now p s
  next_turn on t

-- `while (!pendingPackets.empty())`, for as many further turns as the fuel says.
unfoldable pub send_loop : ℕ → (pto_expired : Bool) → TimeVal → Sends → Result Sends
unfolding one_turn
send_loop zero pto_expired now s =
    one_turn (λ s'. err Error.runtime_error) pto_expired now s.sender.queue.pending s
send_loop (suc fuel) pto_expired now s =
    one_turn (send_loop fuel pto_expired now) pto_expired now s.sender.queue.pending s
