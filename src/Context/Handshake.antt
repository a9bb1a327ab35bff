-- ===== src/Context/Handshake.antt =====
-- How a connection comes about: CreateConnection of a client in context/quic.cc, and what the case of
-- INITIAL in incomingMsg does for a new connection; Receive has the rest of incomingMsg. RandomByteGenerator::Fill is a parameter, as in
-- Context/ConnectionId/Generator. The callbacks, addresses and descriptors are left out: a new
-- connection gets the largest descriptor, so it is the last of the map.
pub mod Receive
use simple_quic.Common.{
  ℕ, suc, ◌+◌, ◌*◌, ◌%◌, ◌^◌, List, [], ◌∷◌, ◌++◌, Bool, true, false, not, ◌&&◌, ◌||◌, some, Option,
  none, Result, ok, err, Error, ◌>>=◌, if◌then◌else◌,
}
use simple_quic.Utils.Interval.Sets.{IntervalSet, add_interval}
use simple_quic.Payload.Frame.{Frame}
use simple_quic.Payload.Packet.{Header}
use simple_quic.Payload.Packet.Make.{make_initial}
use simple_quic.Payload.Packet.Whole.{Packet}
use simple_quic.Context.ConnectionId.{ConnectionId, no_id, same_id}
use simple_quic.Context.ConnectionId.Generator.{Generator, generate}
use simple_quic.Context.Congestion.{
  Congestion, ConnectionState, CongestionState, max_packet_length, init_congestion_state,
}
use simple_quic.Context.Streams.{Streams}
use simple_quic.Context.Queue.{num_of, single}
use simple_quic.Context.Ledger.{
  TimeVal, Ledger, add_rec_pkt, rem_need_ack_pkt, update_largest_acked_packet,
  add_acked_sent_pkt_num, have_received_pkt, get_need_ack_rec_pkt,
}
use simple_quic.Context.Rtt.{Rtt, update_rtt, update_pto, reset_rtt}
use simple_quic.Context.Sending.{Sender, update_idle_time}
use simple_quic.Context.Incoming.{Connection, Handling, state_of}
use simple_quic.Context.Incoming.OneRtt.{handle_first, is_ending, on_one_rtt}
use simple_quic.Context.Closing.{next_pkt_num, queue_new, with_state}

-- Connection(): the fields without an initial value are zero, since make_shared value-initializes.
abbrev pub new_ledger : Ledger
new_ledger = record {
  sent_pkt = [];
  rec_pkt = [];
  sent_pkt_num = [];
  rec_pkt_num = [];
  acked_sent_pkt_num = [];
  not_acked_rec_pkt = [];
  not_acked_sent_pkt = [];
  not_acked_sent_pkt_pto = [];
  pto = 0;
  latest_rtt = 0;
  larget_acked_packet = 0;
  congestion = record {
    cur_state = ConnectionState.created;
    window = 0;
    threshold = 0;
    state = CongestionState.slow_start;
    on_flight = 0;
    three_times_ack = 0;
  };
}

abbrev pub new_streams : Streams
new_streams = record {
  used = [];
  states = [];
  features = [];
  streams = [];
  max_recv_stream_offset = 10240;
  max_send_stream_offset = 10240;
  max_recv_size = 10 * 10240;
  max_send_size = 10 * 10240;
  max_recv_stream_num = 10;
  max_send_stream_num = 10;
}

abbrev pub new_connection : Connection
new_connection = record {
  local = no_id;
  remote = no_id;
  sender = record {
    queue = record { pending = []; need_ack = []; to_send = [] };
    ledger = new_ledger;
    idle_time = 0;
    no_ack_elicity_packet_sent = false;
  };
  streams = new_streams;
  now_pkt_num = 0;
  connection_close_pkt_num = 0;
  start_wait_for_peer = 0;
  rtt = record {
    latest_acked_sent_pkt_num = [];
    smoothed_rtt = 0;
    rtt_var = 0;
    min_rtt = 0;
    first_rtt_sample = 0;
  };
  unsent = [];
  congested_by_flow = 0;
}

-- A QUIC, and the generator that all of a program share.
pub record Endpoint : Type 0 where
  pub connections : List Connection
  pub generator : Generator

with_ledger : Ledger → Connection → Connection
with_ledger l c = record c { sender = record c.sender { ledger = l } }

-- Connection::Initial
unfoldable pub connection_initial : TimeVal → Connection → Connection
unfolding with_ledger
connection_initial now c =
    let r = reset_rtt c.rtt in
    let l =
      update_pto r (record c.sender.ledger { latest_rtt = 0; larget_acked_packet = 0xffff_ffff }) in
    record c { rtt = r; sender = update_idle_time now true (record c.sender { ledger = l }) }

-- Initial(4, 1, src, dst, _usePktNum) with a payload of frames, in a packet.
unfoldable pub initial_packet : ConnectionId → ConnectionId → ℕ → List Frame → Result Packet
initial_packet src dst num frames = do
  h ← make_initial 4 1 src dst (num % 2 ^ 32)
  ok (record { header = h; payload = some frames })

-- The connection that CreateConnection makes, with its first packet in the queue.
unfoldable pub client_connection : TimeVal → ConnectionId → ConnectionId → Result Connection
unfolding connection_initial initial_packet
client_connection now src dst = do
  p ← initial_packet src dst (next_pkt_num new_connection) []
  c ← queue_new p true (connection_initial now new_connection)
  ok (record c { local = src; remote = dst })

unfoldable pub create_connection : (ℕ → List ℕ) → TimeVal → Endpoint → Result Endpoint
unfolding client_connection
create_connection fill now e = do
  (src, g) ← generate fill e.generator
  (dst, g') ← generate fill g
  c ← client_connection now src dst
  ok (record { connections = e.connections ++ (c ∷ []); generator = g' })

-- The set that acknowledges what has been received, `_recPktNum` included, and the ledger.
acks_of : Packet → Ledger → Result (IntervalSet × Ledger)
acks_of p l = do
  got ← get_need_ack_rec_pkt l
  acked ← add_interval (single (num_of p)) got.0
  ok (acked, got.1)

-- `isNewCon`, with the identifier that Generate has returned.
unfoldable pub accept_connection :
    TimeVal → Packet → ConnectionId → ConnectionId → Result Connection
unfolding acks_of initial_packet with_ledger
accept_connection now p dst fresh = do
  l ← add_rec_pkt p new_ledger
  (acked, l') ← acks_of p l
  reply ← initial_packet dst fresh (next_pkt_num new_connection) (Frame.ack 0 acked ∷ [])
  c ← queue_new reply true (with_ledger l' new_connection)
  let c' = with_state ConnectionState.peer_established c in
      ok (record c' { local = dst; remote = fresh; sender = update_idle_time now true c'.sender })

-- The ACK frames of an INITIAL packet.
ack_frame : TimeVal → Frame → Ledger → Result Ledger
ack_frame now (Frame.ack delay ranges) l = do
  l' ← update_largest_acked_packet ranges l
  l'' ← rem_need_ack_pkt now ranges l'
  add_acked_sent_pkt_num ranges l''
ack_frame now (Frame.ack_ecn delay ranges ect0 ect1 ectce) l = do
  l' ← update_largest_acked_packet ranges l
  l'' ← rem_need_ack_pkt now ranges l'
  add_acked_sent_pkt_num ranges l''
ack_frame now _ l = ok l

unfoldable pub ack_frames : TimeVal → List Frame → Ledger → Result Ledger
unfolding ack_frame
ack_frames now [] l = ok l
ack_frames now (f ∷ fs) l = do l' ← ack_frame now f l; ack_frames now fs l'
