-- ===== src/Context/Handshake/Receive/Acks.antt =====
-- What incomingMsg of context/quic.cc does with a packet of ACK frames.
use simple_quic.Common.{ℕ, ◌≡◌, ap, ◌∙◌, List, some, ok, ◌>>=◌}
use simple_quic.Payload.Frame.{Frame}
use simple_quic.Payload.Packet.{Header}
use simple_quic.Payload.Packet.Whole.{Packet}
use simple_quic.Context.ConnectionId.{ConnectionId}
use simple_quic.Context.Ledger.{TimeVal}
use simple_quic.Context.Incoming.{Connection}
use simple_quic.Context.Incoming.OneRtt.Acks.{AllAcks, AllSound, KeepsClosed, on_one_rtt-AllSound}
use simple_quic.Context.Handshake.{Endpoint}
use simple_quic.Context.Handshake.Receive.{incoming_msg, incoming_by}

-- A ONE_RTT packet whose frames are ACK frames, each with at least one range and ordered, where the
-- queue and the ledger of every connection are well formed, the sets of packet numbers are ordered and
-- the windows have room for the packets that are out: incomingMsg returns, all of that holds of every
-- connection afterwards, no connection is added or removed, each that was closed is as before, and the
-- generator of identifiers is not used.
pub incoming_msg-AllSound :
    (fill : ℕ → List ℕ) (now : TimeVal) (p : Packet) (e : Endpoint) (n : ℕ) (dst : ConnectionId)
    (num : ℕ) (fs : List Frame)
    → p.header ≡ Header.short n dst num
    → p.payload ≡ some fs
    → AllAcks fs
    → AllSound e.connections
    → (ds : List Connection) × (incoming_msg fill now p e ≡ ok (record e { connections = ds }))
      × AllSound ds
      × KeepsClosed e.connections ds
unfolding incoming_msg incoming_by
incoming_msg-AllSound fill now p e n dst num fs short payload acks sound =
    let (ds, run, sound', kept) = on_one_rtt-AllSound now p fs e.connections payload acks sound in
    (
      ds,
      ap (λ h. incoming_by h fill now p e) short
          ∙ ap (λ r. do cs ← r; ok (record e { connections = cs })) run,
      sound',
      kept,
    )
