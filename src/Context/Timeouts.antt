-- ===== src/Context/Timeouts.antt =====
-- The timers of SocketLoop in context/quic.cc: the probe timeout, the idle timeout, and the packet
-- that acknowledges what has been received (GetSpeACKPacketForRecPkt of context/connection.hh).
pub mod Acks
pub mod Idle
pub mod Examples
use simple_quic.Common.{
  ℕ, ◌+◌, ◌%◌, ◌^◌, List, [], ◌∷◌, ◌++◌, Bool, true, false, not, ◌&&◌, ◌||◌, ltb, Option, none,
  some, Result, ok, err, ◌>>=◌, if◌then◌else◌,
}
use simple_quic.Utils.Interval.Sets.{IntervalSet, add_interval, add_interval_set}
use simple_quic.Payload.Frame.{Frame}
use simple_quic.Payload.Packet.Make.{make_short}
use simple_quic.Payload.Packet.Whole.{Packet}
use simple_quic.Context.ConnectionId.{ConnectionId}
use simple_quic.Context.Congestion.{ConnectionState}
use simple_quic.Context.Streams.{PeerType, check_valid_stream}
use simple_quic.Context.Queue.{Queue, single, enqueue_front, get_pending_package_need_ack}
use simple_quic.Context.Ledger.{TimeVal, msec_of, AckTimer, PtoTimer, Ledger}
use simple_quic.Context.Rtt.{Rtt, minus, update_pto}
use simple_quic.Context.Sending.{Sender, new_packet, update_idle_time}
use simple_quic.Context.Incoming.{Connection, state_of}
use simple_quic.Context.Closing.{close_connection, next_pkt_num}

-- GetSpeACKPacketForRecPkt. `msec - _notACKPkt.remTime > latest_rtt`
unfoldable pub must_ack : TimeVal → Ledger → AckTimer → Bool
must_ack now l t = ltb l.latest_rtt (minus (msec_of now) t.rem_time)

-- The loop: the numbers that are acknowledged now, and the timers that stay.
split_by : Bool → AckTimer → IntervalSet → List AckTimer → Result (IntervalSet × List AckTimer)
split_by true t set kept = do set' ← add_interval (single t.pkt_num) set; ok (set', kept)
split_by false t set kept = ok (set, kept ++ (t ∷ []))

unfoldable pub split_timers :
    TimeVal
    → Ledger
    → List AckTimer
    → IntervalSet
    → List AckTimer
    → Result (IntervalSet × List AckTimer)
unfolding split_by
split_timers now l [] set kept = ok (set, kept)
split_timers now l (t ∷ ts) set kept = do
  (set', kept') ← split_by (must_ack now l t) t set kept
  split_timers now l ts set' kept'

-- The packet has the number 0, and one byte for it.
unfoldable pub ack_packet :
    ConnectionId → IntervalSet → List AckTimer → Ledger → Option Packet × Ledger
ack_packet dst [] kept l = (none, l)
ack_packet dst (i ∷ set) kept l = (
  some (record {
    header = make_short 1 dst 0;
    payload = some (Frame.ack l.latest_rtt (i ∷ set) ∷ []);
  }),
  record l { not_acked_rec_pkt = kept },
)

unfoldable pub get_spe_ack_packet :
    TimeVal → ConnectionId → Ledger → Result (Option Packet × Ledger)
unfolding ack_packet
get_spe_ack_packet now dst l = do
  (set, kept) ← split_timers now l l.not_acked_rec_pkt [] []
  acked ← add_interval_set set l.rec_pkt_num
  ok (ack_packet dst acked kept l)

-- The probe timeout. Each timer that has run out computes PTO again.
unfoldable pub is_expired : TimeVal → PtoTimer → Bool
is_expired now t = ltb t.pto_expire_time (msec_of now)

unfoldable pub any_expired : TimeVal → List PtoTimer → Bool
unfolding is_expired
any_expired now [] = false
any_expired now (t ∷ ts) = is_expired now t || any_expired now ts

unfoldable pub refresh_pto : TimeVal → List PtoTimer → Rtt → Ledger → Ledger
unfolding is_expired
refresh_pto now [] r l = l
refresh_pto now (t ∷ ts) r l =
    let rest = refresh_pto now ts r (update_pto r l) in
    if is_expired now t then rest else refresh_pto now ts r l

unfoldable pub expire_one : TimeVal → Connection → Connection
unfolding refresh_pto
expire_one now c = record c {
  sender = record c.sender {
    ledger = refresh_pto now c.sender.ledger.not_acked_sent_pkt_pto c.rtt c.sender.ledger;
  };
}

-- PTO_expired, which one connection's timer sets for all, and the connections.
unfoldable pub expire_pto : TimeVal → List Connection → Bool × List Connection
unfolding expire_one
expire_pto now [] = (false, [])
expire_pto now (c ∷ cs) =
    let rest = expire_pto now cs in
    (any_expired now c.sender.ledger.not_acked_sent_pkt_pto || rest.0, expire_one now c ∷ rest.1)

-- Neither CREATED nor CLOSED.
unfoldable pub may_ping : ConnectionState → Bool
may_ping ConnectionState.created = false
may_ping ConnectionState.closed = false
may_ping _ = true

is_ping : List Frame → Bool
is_ping (Frame.ping ∷ fs) = true
is_ping _ = false

-- GetPendingPackageFrontIsPing. A packet without a payload has no frame to ask for.
payload_ping : Option (List Frame) → Bool
unfolding is_ping
payload_ping (some fs) = is_ping fs
payload_ping none = false

front_ping : List Packet → Bool
unfolding payload_ping
front_ping [] = false
front_ping (p ∷ ps) = payload_ping p.payload

unfoldable pub front_is_ping : Queue → Bool
unfolding front_ping
front_is_ping q = front_ping q.pending

-- A packet with a PING frame, at the front of the queue.
unfoldable pub ping_front : Connection → Result Connection
ping_front c = do
  p ← new_packet c.remote (next_pkt_num c) (Frame.ping ∷ [])
  q ← enqueue_front p true c.sender.queue
  ok (record c { sender = record c.sender { queue = q }; now_pkt_num = next_pkt_num c })

-- `current_time > getIdleTimeoutTime()`
unfoldable pub is_idle : TimeVal → Sender → Bool
is_idle now s = ltb ((s.idle_time + 10000) % 2 ^ 64) (msec_of now)

unfoldable pub is_client : PeerType → Bool
is_client PeerType.client = true
is_client PeerType.server = false

-- The text of the reason, "Idle Timeout".
abbrev pub idle_reason : List ℕ
idle_reason = 73 ∷ 100 ∷ 108 ∷ 101 ∷ 32 ∷ 84 ∷ 105 ∷ 109 ∷ 101 ∷ 111 ∷ 117 ∷ 116 ∷ []

-- There are packets without an acknowledgement: a PING defers the timeout.
unfoldable pub defer_idle : Bool → TimeVal → Connection → Result Connection
defer_idle false now c = ok c
defer_idle true now c = do
  c' ← ping_front c
  ok (record c' { sender = update_idle_time now false c'.sender })

unfoldable pub close_idle : Bool → TimeVal → Connection → Result Connection
close_idle false now c = ok c
close_idle true now c = close_connection now idle_reason 1 c

unfoldable pub idle_by :
    (idle : Bool) → List AckTimer → PeerType → TimeVal → Connection → Result Connection
unfolding defer_idle close_idle is_client
idle_by false ts type now c = ok c
idle_by true [] type now c = close_idle (is_client type && may_ping (state_of c)) now c
idle_by true (t ∷ ts) type now c =
    defer_idle (may_ping (state_of c) && not (front_is_ping c.sender.queue)) now c

-- The block on the idle timeout.
unfoldable pub idle_timeout : PeerType → TimeVal → Connection → Result Connection
unfolding idle_by
idle_timeout type now c =
    idle_by (is_idle now c.sender && check_valid_stream c.streams.states)
      c.sender.ledger.not_acked_sent_pkt type now c

unfoldable pub probe_if : Bool → Connection → Result Connection
probe_if false c = ok c
probe_if true c = ping_front c

-- `pendingPackets.empty() || GetPendingPackageNeedACK() == false`
unfoldable pub idle_queue : List Packet → Queue → Result Bool
idle_queue [] q = ok true
idle_queue (p ∷ ps) q = do need ← get_pending_package_need_ack q; ok (not need)

unfoldable pub probe_by : Bool → Connection → Result Connection
unfolding idle_queue probe_if
probe_by false c = ok c
probe_by true c = do
  none_waits ← idle_queue c.sender.queue.pending c.sender.queue
  probe_if (none_waits && (may_ping (state_of c) && check_valid_stream c.streams.states)) c

-- The block that sends a packet with only a PING frame.
unfoldable pub probe : (pto_expired : Bool) → Connection → Result Connection
unfolding probe_by
probe pto_expired c = probe_by pto_expired c
