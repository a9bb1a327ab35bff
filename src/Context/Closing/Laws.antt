-- ===== src/Context/Closing/Laws.antt =====
-- The state of a connection that is closed or given up.
use simple_quic.Common.{◌≡◌, refl, List, ℕ, Yields, Yields-then, Bool}
use simple_quic.Payload.Packet.Whole.{Packet}
use simple_quic.Context.Congestion.{wait_for_peer_close}
use simple_quic.Context.Queue.{enqueue}
use simple_quic.Context.Ledger.{TimeVal}
use simple_quic.Context.Incoming.{Connection, state_of, set_connection_state}
use simple_quic.Context.Closing.{close_connection, queue_new, close_packet}

pub queue_new-state :
    (p : Packet) (need : Bool) (c : Connection)
    → Yields (λ c'. state_of c' ≡ state_of c) (queue_new p need c)
unfolding queue_new state_of
queue_new-state p need c = Yields-then _ (enqueue p need c.sender.queue) _ (λ q. refl)

-- CloseConnection waits for the peer, whatever the state was.
pub close_connection-state :
    (now : TimeVal) (reason : List ℕ) (error_code : ℕ) (c : Connection)
    → Yields (λ c'. state_of c' ≡ wait_for_peer_close) (close_connection now reason error_code c)
unfolding close_connection state_of set_connection_state
close_connection-state now reason error_code c =
    Yields-then _ (queue_new (close_packet reason error_code c) _ c) _ (λ c'. refl)
