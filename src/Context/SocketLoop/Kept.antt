-- ===== src/Context/SocketLoop/Kept.antt =====
-- The blocks of a turn that leave the state of the connection as it is: the timers, the loop over the
-- pending packets, and what follows it.
use simple_quic.Common.{
  ℕ, zero, suc, ◌+◌, ◌%◌, ◌^◌, ◌≡◌, refl, List, [], ◌∷◌, ◌++◌, Bool, true, false, not, ◌&&◌, leb,
  if◌then◌else◌, Option, Result, ok, err, Error, Yields, Yields-bind, Yields-then,
}
use simple_quic.Utils.Interval.Sets.{IntervalSet, add_interval, add_interval_set}
use simple_quic.Payload.Packet.Whole.{Packet, packet_len}
use simple_quic.Context.ConnectionId.{ConnectionId}
use simple_quic.Context.Congestion.{
  ConnectionState, update_on_flight, is_established, whether_can_send_pkt,
}
use simple_quic.Context.Congestion.Kept.{if-state}
use simple_quic.Context.Queue.{num_of, single, dequeue, enqueue_front, get_pending_package_need_ack}
use simple_quic.Context.Ledger.{
  TimeVal, AckTimer, PtoTimer, Ledger, add_sent_pkt, add_need_ack_sent_pkt, whether_acked_pkt_num,
}
use simple_quic.Context.Ledger.Kept.{Same}
use simple_quic.Context.Rtt.{Rtt, update_pto}
use simple_quic.Context.Sending.{
  Sender, Sends, Turn, update_idle_time, new_packet, encode_datagram, drop_front, idle_by, note_by,
  in_flight_by, send_front, try_front, send_by, next_turn, one_turn, send_loop, resend, resend_each,
}
use simple_quic.Context.Incoming.{Connection, state_of}
use simple_quic.Context.Timeouts.{
  split_timers, ack_packet, get_spe_ack_packet, is_expired, refresh_pto, expire_one, ping_front,
}

pub if-holds {ℓ κ} :
    {A : Type ℓ} (P : A → Type κ) (b : Bool) (x y : A) → P x → P y → P (if b then x else y)
if-holds P true x y h k = h
if-holds P false x y h k = k

refresh_pto-Same :
    (now : TimeVal) (ts : List PtoTimer) (r : Rtt) (s : ConnectionState) (l : Ledger)
    → Same s l
    → Same s (refresh_pto now ts r l)
unfolding refresh_pto update_pto
refresh_pto-Same now [] r s l e = e
refresh_pto-Same now (t ∷ ts) r s l e =
    if-holds (Same s) (is_expired now t) (refresh_pto now ts r (update_pto r l))
      (refresh_pto now ts r l) (refresh_pto-Same now ts r s (update_pto r l) e)
      (refresh_pto-Same now ts r s l e)

pub expire_one-state : (now : TimeVal) (c : Connection) → state_of (expire_one now c) ≡ state_of c
unfolding expire_one state_of
expire_one-state now c =
    refresh_pto-Same now c.sender.ledger.not_acked_sent_pkt_pto c.rtt
      c.sender.ledger.congestion.cur_state c.sender.ledger refl

pub ping_front-state : (c : Connection) → Yields (λ d. state_of d ≡ state_of c) (ping_front c)
unfolding ping_front state_of
ping_front-state c =
    Yields-then _ (new_packet c.remote _ _) _
      λ p. Yields-then _ (enqueue_front p true c.sender.queue) _ (λ q. refl)

ack_packet-Same :
    (dst : ConnectionId) (set : IntervalSet) (kept : List AckTimer) (l : Ledger)
    → Same l.congestion.cur_state (ack_packet dst set kept l).1
unfolding ack_packet
ack_packet-Same dst [] kept l = refl
ack_packet-Same dst (i ∷ set) kept l = refl

pub get_spe_ack_packet-Same :
    (now : TimeVal) (dst : ConnectionId) (l : Ledger)
    → Yields
        (λ (r : Option Packet × Ledger). Same l.congestion.cur_state r.1)
        (get_spe_ack_packet now dst l)
unfolding get_spe_ack_packet
get_spe_ack_packet-Same now dst l =
    Yields-then _ (split_timers now l l.not_acked_rec_pkt [] []) _ λ (set, kept).
      Yields-then _ (add_interval_set set l.rec_pkt_num) _
        (λ acked. ack_packet-Same dst acked kept l)

-- The sender has the state.
abbrev pub SenderIs : ConnectionState → Sender → Type 0
SenderIs s x = Same s x.ledger

abbrev TurnIs : ConnectionState → Turn → Type 0
TurnIs s (Turn.again x) = SenderIs s x.sender
TurnIs s (Turn.break x) = SenderIs s x.sender

idle_by-Is :
    (b : Bool) (now : TimeVal) (s : ConnectionState) (x : Sender)
    → SenderIs s x
    → SenderIs s (idle_by b now x)
unfolding idle_by update_idle_time
idle_by-Is false now s x e = e
idle_by-Is true now s x e = e

note_by-Is :
    (need : Bool) (now : TimeVal) (p : Packet) (s : ConnectionState) (x : Sender)
    → SenderIs s x
    → Yields (SenderIs s) (note_by need now p x)
unfolding note_by add_sent_pkt add_need_ack_sent_pkt
note_by-Is false now p s x e =
    Yields-bind (Same s) _ (add_sent_pkt p x.ledger) _
      (Yields-then _ (add_interval (single (num_of p)) x.ledger.sent_pkt_num) _ (λ nums. e))
      (λ l e'. e')
note_by-Is true now p s x e =
    Yields-bind (Same s) _ (add_need_ack_sent_pkt now p x.ledger) _
      (Yields-then _ (packet_len p) _ (λ len. e))
      (λ l e'. idle_by-Is x.no_ack_elicity_packet_sent now s (record x { ledger = l }) e')

in_flight_by-Same :
    (need : Bool) (len : ℕ) (s : ConnectionState) (l : Ledger)
    → Same s l
    → Same s (in_flight_by need len l)
unfolding in_flight_by update_on_flight
in_flight_by-Same false len s l e = e
in_flight_by-Same true len s l e =
    let c = l.congestion in
    if-state (is_established c.cur_state) (record c { on_flight = (c.on_flight + len) % 2 ^ 64 }) c
      s e e

send_front-TurnIs :
    (pto_expired need : Bool) (now : TimeVal) (p : Packet) (n : ℕ) (s : ConnectionState) (x : Sends)
    → SenderIs s x.sender
    → Yields (TurnIs s) (send_front pto_expired need now p n x)
unfolding send_front
send_front-TurnIs pto_expired need now p n s x e = Yields-then _ (packet_len p) _ λ len.
    Yields-bind (SenderIs s) _ (note_by need now p x.sender) _ (note_by-Is need now p s x.sender e)
      λ noted e'. Yields-then _ (encode_datagram p) _ λ b.
        Yields-then _ (dequeue p noted.queue) _ λ q.
          let x' : Sends = record {
            sender = record noted { queue = q; ledger = in_flight_by need len noted.ledger };
            sent_when_congested = n;
            datagrams = x.datagrams ++ (b ∷ []);
          } in
          let e'' : SenderIs s x'.sender = in_flight_by-Same need len s noted.ledger e' in
          if-holds (TurnIs s) pto_expired (Turn.break x') (Turn.again x') e'' e''

try_front-TurnIs :
    (pto_expired held need : Bool) (now : TimeVal) (p : Packet) (s : ConnectionState) (x : Sends)
    → SenderIs s x.sender
    → Yields (TurnIs s) (try_front pto_expired held need now p x)
unfolding try_front
try_front-TurnIs pto_expired false need now p s x e =
    send_front-TurnIs pto_expired need now p x.sent_when_congested s x e
try_front-TurnIs pto_expired true need now p s x e =
    if-holds (Yields (TurnIs s)) (leb 2 x.sent_when_congested) (ok (Turn.break x))
      (send_front pto_expired need now p (suc x.sent_when_congested) x) e
      (send_front-TurnIs pto_expired need now p (suc x.sent_when_congested) s x e)

send_by-TurnIs :
    (acked pto_expired : Bool) (now : TimeVal) (p : Packet) (s : ConnectionState) (x : Sends)
    → SenderIs s x.sender
    → Yields (TurnIs s) (send_by acked pto_expired now p x)
unfolding send_by drop_front
send_by-TurnIs true pto_expired now p s x e = Yields-then _ (dequeue p x.sender.queue) _ (λ q. e)
send_by-TurnIs false pto_expired now p s x e = Yields-then _ (packet_len p) _ λ len.
    Yields-then _ (get_pending_package_need_ack x.sender.queue) _ λ need.
      try_front-TurnIs pto_expired
        (need && not (whether_can_send_pkt len x.sender.ledger.congestion)) need now p s x e

next_turn-Is :
    (on : Sends → Result Sends) (s : ConnectionState) (t : Turn)
    → ((x : Sends) → SenderIs s x.sender → Yields (λ y. SenderIs s y.sender) (on x))
    → TurnIs s t
    → Yields (λ y. SenderIs s y.sender) (next_turn on t)
unfolding next_turn
next_turn-Is on s (Turn.again x) k e = k x e
next_turn-Is on s (Turn.break x) k e = e

one_turn-Is :
    (on : Sends → Result Sends) (pto_expired : Bool) (now : TimeVal) (s : ConnectionState)
    (ps : List Packet) (x : Sends)
    → ((y : Sends) → SenderIs s y.sender → Yields (λ z. SenderIs s z.sender) (on y))
    → SenderIs s x.sender
    → Yields (λ y. SenderIs s y.sender) (one_turn on pto_expired now ps x)
unfolding one_turn
one_turn-Is on pto_expired now s [] x k e = e
one_turn-Is on pto_expired now s (p ∷ ps) x k e =
    let acked = whether_acked_pkt_num (num_of p) x.sender.ledger in
    Yields-bind (TurnIs s) _ (send_by acked pto_expired now p x) _
      (send_by-TurnIs acked pto_expired now p s x e) (λ t e'. next_turn-Is on s t k e')

pub send_loop-Is :
    (fuel : ℕ) (pto_expired : Bool) (now : TimeVal) (s : ConnectionState) (x : Sends)
    → SenderIs s x.sender
    → Yields (λ y. SenderIs s y.sender) (send_loop fuel pto_expired now x)
unfolding send_loop
send_loop-Is zero pto_expired now s x e =
    one_turn-Is (λ y. err Error.runtime_error) pto_expired now s x.sender.queue.pending x
      (λ y e'. tt) e
send_loop-Is (suc fuel) pto_expired now s x e =
    one_turn-Is (send_loop fuel pto_expired now) pto_expired now s x.sender.queue.pending x
      (λ y e'. send_loop-Is fuel pto_expired now s y e') e

pub resend-Is :
    (now : TimeVal) (s : ConnectionState) (x : Sender)
    → SenderIs s x
    → Yields (SenderIs s) (resend now x)
unfolding resend
resend-Is now s x e = Yields-then _ (resend_each now x.ledger _ _) _ (λ r. e)
