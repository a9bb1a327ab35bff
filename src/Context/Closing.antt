-- ===== src/Context/Closing.antt =====
-- CloseConnection and CloseStream of context/quic.cc, for one connection, and the turn of SocketLoop
-- that gives up waiting for the peer.
pub mod Laws
pub mod Waiting
pub mod Examples
use simple_quic.Common.{
  ℕ, ◌+◌, ◌-◌, ◌%◌, ◌^◌, List, [], ◌∷◌, Bool, true, false, ◌&&◌, leb, if◌then◌else◌, some, Result,
  ok, ◌>>=◌,
}
use simple_quic.Utils.Codec.{encode_var_int_len}
use simple_quic.Payload.Frame.{Frame}
use simple_quic.Payload.Packet.Make.{make_short}
use simple_quic.Payload.Packet.Whole.{Packet}
use simple_quic.Context.Congestion.{ConnectionState}
use simple_quic.Context.Stream.{StreamState}
use simple_quic.Context.Streams.{Streams, stream_at, touch, close_stream_by_id}
use simple_quic.Context.Queue.{enqueue}
use simple_quic.Context.Ledger.{TimeVal, msec_of}
use simple_quic.Context.Rtt.{minus}
use simple_quic.Context.Sending.{new_packet}
use simple_quic.Context.Incoming.{Connection, state_of, set_connection_state, is_waiting}

-- GetNewPktNum
abbrev pub next_pkt_num : Connection → ℕ
next_pkt_num c = (c.now_pkt_num + 1) % 2 ^ 64

-- SetConnectionState
unfoldable pub with_state : ConnectionState → Connection → Connection
unfolding set_connection_state
with_state state c = record c {
  sender = record c.sender { ledger = set_connection_state state c.sender.ledger };
}

-- AddPacket and AddWhetherNeedACK for a packet with a number that GetNewPktNum has just given.
unfoldable pub queue_new : Packet → Bool → Connection → Result Connection
queue_new p need c = do
  q ← enqueue p need c.sender.queue
  ok (record c { sender = record c.sender { queue = q }; now_pkt_num = next_pkt_num c })

-- The packet of CloseConnection: three bytes for its number.
unfoldable pub close_packet : (reason : List ℕ) → (error_code : ℕ) → Connection → Packet
close_packet reason error_code c = record {
  header = make_short 3 c.remote (next_pkt_num c % 2 ^ 32);
  payload = some (Frame.connection_close_quic error_code 18 reason ∷ []);
}

-- The identifier stays in use, since the call acts on a copy of the generator.
unfoldable pub close_connection :
    TimeVal → (reason : List ℕ) → (error_code : ℕ) → Connection → Result Connection
unfolding queue_new close_packet with_state
close_connection now reason error_code c = do
  c' ← queue_new (close_packet reason error_code c) true c
  ok (record (with_state ConnectionState.wait_for_peer_close c') {
    start_wait_for_peer = msec_of now;
    connection_close_pkt_num = next_pkt_num c;
  })

unfoldable pub close_stream : ℕ → Connection → Result Connection
unfolding queue_new touch
close_stream id c = do
  p ←
      new_packet c.remote (next_pkt_num c)
        (Frame.reset_stream id 0 (stream_at id c.streams).offset ∷ [])
  c' ← queue_new p true (record c { streams = touch id c.streams })
  ok (record c' { streams = close_stream_by_id id c'.streams })

-- `current_time - GetStartWaitForPeer() >= 2000`
unfoldable pub give_up_waiting : TimeVal → Connection → Connection
unfolding with_state
give_up_waiting now c =
    if is_waiting (state_of c) && leb 2000 (minus (msec_of now) c.start_wait_for_peer)
    then with_state ConnectionState.closed c
    else c
