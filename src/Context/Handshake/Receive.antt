-- ===== src/Context/Handshake/Receive.antt =====
-- incomingMsg of context/quic.cc: the case of INITIAL, and the switch on the type of the packet.
pub mod Runs
pub mod Meets
pub mod Kept
pub mod Moves
pub mod Acks
pub mod Wire
pub mod Examples
use simple_quic.Common.{
  ℕ, ◌*◌, ◌+◌, ◌%◌, ◌^◌, List, [], ◌∷◌, ◌++◌, Bool, true, false, not, ◌&&◌, ◌||◌, some, Option,
  none, Result, ok, err, Error, ◌>>=◌,
}
use simple_quic.Utils.Interval.{Interval}
use simple_quic.Utils.Interval.Sets.{IntervalSet}
use simple_quic.Payload.Frame.{Frame}
use simple_quic.Payload.Packet.{Header}
use simple_quic.Utils.ByteStream.{ByteStream}
use simple_quic.Payload.Packet.Whole.{Packet, parse_packet}
use simple_quic.Context.ConnectionId.{ConnectionId, same_id}
use simple_quic.Context.ConnectionId.Generator.{Generator, generate}
use simple_quic.Context.Congestion.{ConnectionState, max_packet_length, init_congestion_state}
use simple_quic.Context.Queue.{num_of}
use simple_quic.Context.Ledger.{
  TimeVal, Ledger, add_rec_pkt, rem_need_ack_pkt, update_largest_acked_packet,
  add_acked_sent_pkt_num, have_received_pkt,
}
use simple_quic.Context.Rtt.{update_rtt}
use simple_quic.Context.Sending.{update_idle_time}
use simple_quic.Context.Incoming.{Connection, Handling, state_of}
use simple_quic.Context.Incoming.OneRtt.{
  Batch, Handler, handle_first, is_ending, frames_of, on_one_rtt,
}
use simple_quic.Context.Closing.{next_pkt_num, queue_new, with_state}
use simple_quic.Context.Handshake.{
  Endpoint, with_ledger, acks_of, initial_packet, accept_connection, ack_frames,
}

-- SetConnectionState(ESTABLISHED) and InitCongestionState.
establish : ℕ → ℕ → Connection → Connection
unfolding with_ledger
establish window threshold c =
    let c' = with_state ConnectionState.established c in
    let l = c'.sender.ledger in
    with_ledger (record l { congestion = init_congestion_state window threshold l.congestion }) c'

refresh_time : TimeVal → Connection → Connection
refresh_time now c = record c { sender = update_idle_time now true c.sender }

-- The case of CREATED: the client takes the identifier that the server has chosen for it.
answer_as :
    TimeVal → Packet → (src dst : ConnectionId) → List Frame → Connection → Result Connection
unfolding establish acks_of with_ledger refresh_time
answer_as now p src dst frames c =
    let e = establish max_packet_length (max_packet_length * 10) (record c { local = dst }) in
    do
      (acked, l) ← acks_of p e.sender.ledger
      reply ← initial_packet dst src (next_pkt_num e) (Frame.ack 0 acked ∷ [])
      c' ← queue_new reply false (with_ledger l e)
      l' ← add_rec_pkt p c'.sender.ledger
      l'' ← ack_frames now frames l'
      ok (refresh_time now (with_ledger l'' c'))

-- `assert(foundConnection->getRemoteConnectionID() == remoteConID)`
pub answer_if :
    Bool → TimeVal → Packet → (src dst : ConnectionId) → List Frame → Connection → Result Connection
unfolding answer_as
answer_if true now p src dst frames c = answer_as now p src dst frames c
answer_if false now p src dst frames c = err Error.assertion

answer : TimeVal → Packet → (src dst : ConnectionId) → List Frame → Connection → Result Connection
unfolding answer_if
answer now p src dst frames c = answer_if (same_id c.remote src) now p src dst frames c

-- The case of PEER_ESTABLISHED.
pub confirm : TimeVal → Packet → List Frame → Connection → Result Connection
unfolding establish with_ledger refresh_time
confirm now p frames c =
    let e = establish (max_packet_length * 10) (max_packet_length * 100) c in
    do
      l ← add_rec_pkt p e.sender.ledger
      l' ← ack_frames now frames l
      ok (refresh_time now (with_ledger l' e))

-- GetLargestACKed: the end of the first interval.
largest_acked : IntervalSet → Result ℕ
largest_acked [] = err Error.out_of_bounds
largest_acked (i ∷ is) = ok i.end

acknowledge : TimeVal → (delay : ℕ) → IntervalSet → Connection → Result Connection
unfolding largest_acked with_ledger
acknowledge now delay acked c = do
  noted ← update_largest_acked_packet acked c.sender.ledger
  l ← rem_need_ack_pkt now acked noted
  largest ← largest_acked acked
  let u = update_rtt now delay largest c.rtt l in
      do l' ← add_acked_sent_pkt_num acked u.1; ok (with_ledger l' (record c { rtt = u.0 }))

again_frame : TimeVal → Frame → Connection → Result Connection
unfolding acknowledge
again_frame now (Frame.ack delay ranges) c = acknowledge now delay ranges c
again_frame now (Frame.ack_ecn delay ranges ect0 ect1 ectce) c = acknowledge now delay ranges c
again_frame now _ c = ok c

again_frames : TimeVal → List Frame → Connection → Result Connection
unfolding again_frame
again_frames now [] c = ok c
again_frames now (f ∷ fs) c = do c' ← again_frame now f c; again_frames now fs c'

-- The case of ESTABLISHED, which does not ask whether the packet has been received.
pub acknowledge_again : TimeVal → List Frame → Connection → Result Connection
unfolding again_frames refresh_time
acknowledge_again now frames c = do c' ← again_frames now frames c; ok (refresh_time now c')

-- `if (foundConnection->HaveReceivedPkt(_recPktNum)) break;`
if_new : Bool → (Connection → Result Connection) → Connection → Result Connection
if_new true f c = ok c
if_new false f c = f c

-- The cases for a connection that is known, by its state.
unfoldable pub on_known :
    ConnectionState
    → TimeVal
    → Packet
    → (src dst : ConnectionId) → List Frame
    → Connection
    → Result Connection
unfolding if_new answer confirm acknowledge_again
on_known ConnectionState.created now p src dst frames c =
    if_new (have_received_pkt (num_of p) c.sender.ledger) (answer now p src dst frames) c
on_known ConnectionState.peer_established now p src dst frames c =
    if_new (have_received_pkt (num_of p) c.sender.ledger) (confirm now p frames) c
on_known ConnectionState.established now p src dst frames c = acknowledge_again now frames c
on_known _ now p src dst frames c = ok c

-- The test of the search.
unfoldable pub is_known : ConnectionId → ConnectionId → Connection → Bool
is_known src dst c = not (is_ending (state_of c)) && (same_id c.remote src || same_id c.local dst)

known_handler : TimeVal → Packet → (src dst : ConnectionId) → Handler
known_handler now p src dst h = do
  frames ← frames_of p.payload
  c ← on_known (state_of h.connection) now p src dst frames h.connection
  ok (true, record h { connection = c })

-- `isNewCon`: Generate is called on a copy of the generator, so the identifier is not marked as used.
add_new : (ℕ → List ℕ) → TimeVal → Packet → ConnectionId → Endpoint → Result Endpoint
add_new fill now p dst e = do
  (fresh, g) ← generate fill e.generator
  c ← accept_connection now p dst fresh
  ok (record {
    connections = e.connections ++ (c ∷ []);
    generator = record e.generator { drawn = g.drawn };
  })

unless_known : Bool → (ℕ → List ℕ) → TimeVal → Packet → ConnectionId → Endpoint → Result Endpoint
unfolding add_new
unless_known true fill now p dst e = ok e
unless_known false fill now p dst e = add_new fill now p dst e

unfoldable pub on_initial :
    (ℕ → List ℕ) → TimeVal → Packet → (src dst : ConnectionId) → Endpoint → Result Endpoint
unfolding known_handler unless_known
on_initial fill now p src dst e = do
  b ← handle_first (is_known src dst) (known_handler now p src dst) (ok false) false e.connections
  unless_known b.goes_on fill now p dst (record e { connections = b.connections })

-- The switch on the type.
unfoldable pub incoming_by : Header → (ℕ → List ℕ) → TimeVal → Packet → Endpoint → Result Endpoint
incoming_by (Header.initial long token len num) fill now p e =
    on_initial fill now p long.src long.dst e
incoming_by (Header.short n dst num) fill now p e = do
  cs ← on_one_rtt now p e.connections
  ok (record e { connections = cs })
incoming_by _ fill now p e = ok e

-- incomingMsg, from the packet that the datagram holds.
unfoldable pub incoming_msg : (ℕ → List ℕ) → TimeVal → Packet → Endpoint → Result Endpoint
unfolding incoming_by
incoming_msg fill now p e = incoming_by p.header fill now p e

-- Packet(bstream, …), of the bytes of a datagram.
unfoldable pub received : ByteStream → Result Packet
received s = do r ← parse_packet s; ok r.0

-- incomingMsg, from the datagram.
unfoldable pub incoming_datagram : (ℕ → List ℕ) → TimeVal → ByteStream → Endpoint → Result Endpoint
unfolding received
incoming_datagram fill now s e = do p ← received s; incoming_msg fill now p e
