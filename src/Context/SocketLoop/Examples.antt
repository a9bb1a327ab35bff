-- ===== src/Context/SocketLoop/Examples.antt =====
-- A server that is served, gets a packet and is served again, a connection that is closed, and the
-- theorems at them.
use simple_quic.Common.{ℕ, ◌≡◌, ◌++◌, ok, refl, arith, List, [], ◌∷◌, Yields}
use simple_quic.Context.Streams.{PeerType}
use simple_quic.Context.Handshake.{Endpoint}
use simple_quic.Context.Handshake.Receive.Runs.{initial_of}
use simple_quic.Context.Handshake.Receive.Examples.{
  at, busy_server, fill_server, first_id, second_id,
}
use simple_quic.Utils.ByteStream.{ByteStream}
use simple_quic.Payload.Frame.{Frame, frame_type}
use simple_quic.Payload.Frame.Measure.{encode_len-length}
use simple_quic.Payload.Packet.{Header}
use simple_quic.Payload.Packet.Make.{make_short}
use simple_quic.Payload.Packet.Whole.{Packet}
use simple_quic.Payload.Packet.Loop.{AllSendable}
use simple_quic.Payload.Packet.Examples.{some_id-IsWellFormed}
use simple_quic.Context.Congestion.{wait_for_peer_close, closed}
use simple_quic.Context.Ledger.Examples.{two_sent-IsLedger}
use simple_quic.Context.Sending.Datagram.{datagram-parse_packet}
use simple_quic.Context.Sending.Examples.{some_packet-AllEncode}
use simple_quic.Context.Sending.Sent.{AllEncode, encode_each, unacked_packets}
use simple_quic.Context.Incoming.{Connection, state_of}
use simple_quic.Context.Incoming.Examples.{open_one}
use simple_quic.Context.Closing.{close_packet, close_connection}
use simple_quic.Context.Closing.Examples.{open_one-IsNextFree}
use simple_quic.Context.SocketLoop.{socket_turn}
use simple_quic.Context.SocketLoop.Waiting.{AllAre, socket_turn-gives_up}
use simple_quic.Context.SocketLoop.Events.{Event, run}
use simple_quic.Context.SocketLoop.Runs.{Extends, run-Extends}

abbrev some_events : List Event
some_events =
    Event.serves (at 3)
    ∷ Event.arrives (at 4) (initial_of first_id second_id 1 [])
    ∷ Event.serves (at 5)
    ∷ []

run-Extends_example :
    Yields
      (λ (e : Endpoint). Extends busy_server.connections e.connections)
      (run PeerType.server fill_server some_events busy_server)
run-Extends_example = run-Extends PeerType.server fill_server some_events busy_server

abbrev bye : List ℕ
bye = 66 ∷ 89 ∷ 69 ∷ []

bye-AllSendable : AllSendable (Frame.connection_close_quic 0 18 bye ∷ [])
unfolding frame_type
bye-AllSendable = (
  (
    omega arith,
    omega arith,
    encode_len-length (Frame.connection_close_quic 0 18 bye) (omega arith) (λ e. cc),
  ),
  tt,
)

bye-AllEncode : AllEncode (close_packet bye 0 open_one ∷ [])
unfolding close_packet make_short
bye-AllEncode =
    let header : Header = make_short 3 open_one.remote 6 in
    let (len, b, size, run, full, back) =
      datagram-parse_packet header (Frame.connection_close_quic 0 18 bye ∷ [])
        (omega arith, some_id-IsWellFormed) (refl, omega arith, omega arith) bye-AllSendable tt in
    ((len, b, size, run), tt)

both-AllEncode : AllEncode (open_one.sender.queue.pending ++ (close_packet bye 0 open_one ∷ []))
both-AllEncode = (some_packet-AllEncode.0, bye-AllEncode)

socket_turn-gives_up_example :
    (c' d : Connection) × (ds : List ByteStream) × (front : List Packet) × (close_connection
        (at 20)
        bye
        0
        open_one
      ≡ ok c')
    × Yields (AllAre wait_for_peer_close) (socket_turn PeerType.client (at 21) (c' ∷ []))
    × (socket_turn PeerType.client (at 22) (c' ∷ []) ≡ ok (d ∷ [], ds))
    × (state_of d ≡ closed)
    × (open_one.sender.queue.pending ++ (close_packet bye 0 open_one ∷ [])
        ≡ front ++ d.sender.queue.pending)
    × (encode_each (unacked_packets open_one.sender.ledger.acked_sent_pkt_num front) ≡ ok ds)
socket_turn-gives_up_example =
    socket_turn-gives_up PeerType.client (at 20) (at 21) (at 22) bye 0 open_one open_one-IsNextFree
      two_sent-IsLedger both-AllEncode (omega arith) (omega arith) (omega arith)
