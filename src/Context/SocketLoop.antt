-- ===== src/Context/SocketLoop.antt =====
-- One turn of SocketLoop in context/quic.cc, after the datagrams have been handled: what is done for
-- each connection in turn, and the datagrams that it sends.
pub mod Kept
pub mod Moves
pub mod Events
pub mod Runs
pub mod Flushing
pub mod Waiting
pub mod Examples
use simple_quic.Common.{
  ℕ, zero, suc, List, [], ◌∷◌, ◌++◌, Bool, true, false, ◌||◌, length, Option, none, some, Result,
  ok, ◌>>=◌,
}
use simple_quic.Utils.ByteStream.{ByteStream}
use simple_quic.Payload.Packet.Whole.{Packet}
use simple_quic.Context.Streams.{PeerType}
use simple_quic.Context.Ledger.{TimeVal}
use simple_quic.Context.Sending.{Sends, send_loop, resend, encode_datagram}
use simple_quic.Context.Unsent.{Outbox, queue_unsent}
use simple_quic.Context.Incoming.{Connection, state_of, is_closed}
use simple_quic.Context.Closing.{give_up_waiting}
use simple_quic.Context.Timeouts.{
  get_spe_ack_packet, any_expired, expire_one, expire_pto, idle_timeout, probe,
}

-- The fields that GetPktFromUnsentBuf and AddPacket use.
abbrev pub outbox_of : Connection → Outbox
outbox_of c = record {
  streams = c.streams;
  unsent = c.unsent;
  queue = c.sender.queue;
  remote = c.remote;
  now_pkt_num = c.now_pkt_num;
  congested_by_flow = c.congested_by_flow;
}

abbrev pub with_outbox : Outbox → Connection → Connection
with_outbox o c = record c {
  streams = o.streams;
  unsent = o.unsent;
  sender = record c.sender { queue = o.queue };
  now_pkt_num = o.now_pkt_num;
  congested_by_flow = o.congested_by_flow;
}

-- The loop over the pending packets, with sentWhenCongested from 0.
unfoldable pub send_pending : Bool → TimeVal → Connection → Result (Connection × List ByteStream)
send_pending pto_expired now c = do
  s ←
      send_loop (length c.sender.queue.pending) pto_expired now
        (record { sender = c.sender; sent_when_congested = 0; datagrams = [] })
  ok (record c { sender = s.sender }, s.datagrams)

pub datagrams_of : Option Packet → Result (List ByteStream)
datagrams_of none = ok []
datagrams_of (some p) = do b ← encode_datagram p; ok (b ∷ [])

-- mustACKPkt
unfoldable pub send_ack : TimeVal → Connection → Result (Connection × List ByteStream)
unfolding datagrams_of
send_ack now c = do
  got ← get_spe_ack_packet now c.remote c.sender.ledger
  ds ← datagrams_of got.0
  ok (record c { sender = record c.sender { ledger = got.1 } }, ds)

-- What is left of the turn, unless the connection is CLOSED.
unfoldable pub send_more : Bool → TimeVal → Connection → Result (Connection × List ByteStream)
unfolding send_ack
send_more true now c = ok (c, [])
send_more false now c = do
  (c', ds) ← send_ack now c
  s ← resend now c'.sender
  o ← queue_unsent (outbox_of (record c' { sender = s }))
  ok (with_outbox o (record c' { sender = s }), ds)

-- The turn of a connection once PTO_expired is known.
unfoldable pub serve :
    PeerType → Bool → TimeVal → Connection → Result (Connection × List ByteStream)
unfolding send_pending send_more
serve type pto_expired now c = do
  idle ← idle_timeout type now c
  probed ← probe pto_expired idle
  (sent, ds) ← send_pending pto_expired now probed
  (served, ds') ← send_more (is_closed (state_of sent)) now sent
  ok (served, ds ++ ds')

-- `for (auto& connection : connections)`, for as many further connections as the count says. Those of
-- `front` have had their turn; the timers of all, before and behind, are tested in each turn.
unfoldable pub serve_from :
    ℕ
    → PeerType
    → TimeVal
    → (front : List Connection) → List Connection
    → Result (List Connection × List ByteStream)
unfolding serve
serve_from zero type now front cs = ok (front ++ cs, [])
serve_from (suc n) type now front [] = ok (front, [])
serve_from (suc n) type now front (c ∷ cs) =
    let w = give_up_waiting now c in
    let before = expire_pto now front in
    let behind = expire_pto now cs in
    let own = any_expired now w.sender.ledger.not_acked_sent_pkt_pto in
    do
      (c', ds) ← serve type (before.0 || (own || behind.0)) now (expire_one now w)
      (served, ds') ← serve_from n type now (before.1 ++ (c' ∷ [])) behind.1
      ok (served, ds ++ ds')

unfoldable pub socket_turn :
    PeerType → TimeVal → List Connection → Result (List Connection × List ByteStream)
unfolding serve_from
socket_turn type now cs = serve_from (length cs) type now [] cs
