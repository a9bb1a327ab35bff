-- ===== src/Context/SocketLoop/Events.antt =====
-- What happens to an endpoint: a datagram arrives, which incomingMsg of context/quic.cc handles; a
-- turn of SocketLoop serves the connections; or the user calls CreateConnection.
use simple_quic.Common.{ℕ, List, [], ◌∷◌, Result, ok, ◌>>=◌}
use simple_quic.Payload.Packet.Whole.{Packet}
use simple_quic.Context.Streams.{PeerType}
use simple_quic.Context.Ledger.{TimeVal}
use simple_quic.Context.Handshake.{Endpoint, create_connection}
use simple_quic.Context.Handshake.Receive.{incoming_msg}
use simple_quic.Context.SocketLoop.{socket_turn}

pub data Event : Type 0 where
  arrives : TimeVal → Packet → Event
  serves : TimeVal → Event
  creates : TimeVal → Event

-- The endpoint after an event. The datagrams of a turn go to the socket.
unfoldable pub happen : PeerType → (fill : ℕ → List ℕ) → Event → Endpoint → Result Endpoint
happen type fill (Event.arrives now p) e = incoming_msg fill now p e
happen type fill (Event.serves now) e = do
  (cs, ds) ← socket_turn type now e.connections
  ok (record e { connections = cs })
happen type fill (Event.creates now) e = create_connection fill now e

unfoldable pub run : PeerType → (fill : ℕ → List ℕ) → List Event → Endpoint → Result Endpoint
unfolding happen
run type fill [] e = ok e
run type fill (x ∷ xs) e = do e' ← happen type fill x e; run type fill xs e'
