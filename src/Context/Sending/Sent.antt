-- ===== src/Context/Sending/Sent.antt =====
-- What the loop over the pending packets does, described by the packets that it sends.
use simple_quic.Common.{ℕ, ◌≤◌, ◌≡◌, List, [], ◌∷◌, ◌++◌, Bool, true, false, Result, ok, ◌>>=◌, ◌⊎◌}
use simple_quic.Utils.Interval.Sets.{IntervalSet, contain}
use simple_quic.Utils.ByteStream.{ByteStream}
use simple_quic.Payload.Packet.Whole.{Packet, packet_len}
use simple_quic.Context.Queue.{num_of}
use simple_quic.Context.Queue.Invariant.{IsQueue}
use simple_quic.Context.Ledger.Invariant.{IsLedger}
use simple_quic.Context.Sending.{Sender, Sends, Turn, encode_datagram}

-- Each packet has a length and a datagram.
abbrev pub AllEncode : List Packet → Type 0
AllEncode [] = Unit {0}
AllEncode (p ∷ ps) =
    ((len : ℕ) × (b : ByteStream) × (packet_len p ≡ ok len) × (encode_datagram p ≡ ok b))
    × AllEncode ps

abbrev pub skip_acked : Bool → Packet → List Packet → List Packet
skip_acked true p ps = ps
skip_acked false p ps = p ∷ ps

-- The packets whose numbers are not in the set.
unfoldable pub unacked_packets : IntervalSet → List Packet → List Packet
unacked_packets acked [] = []
unacked_packets acked (p ∷ ps) = skip_acked (contain acked (num_of p)) p (unacked_packets acked ps)

-- Their datagrams, in order.
unfoldable pub encode_each : List Packet → Result (List ByteStream)
encode_each [] = ok []
encode_each (p ∷ ps) = do b ← encode_datagram p; bs ← encode_each ps; ok (b ∷ bs)

pub record IsSender (s : Sender) : Type 0 where
  pub queue : IsQueue s.queue
  pub ledger : IsLedger s.ledger

-- From `s` to `s'` the packets `front` have left the queue, and `rest` is still there: the datagrams
-- of those in `front` that are not acknowledged have been sent.
pub record HasSent (front rest : List Packet) (s s' : Sends) : Type 0 where
  pub sound : IsSender s'.sender
  pub left : s'.sender.queue.pending ≡ rest
  pub same_acked : s'.sender.ledger.acked_sent_pkt_num ≡ s.sender.ledger.acked_sent_pkt_num
  pub sent : List ByteStream
  pub encoded : encode_each (unacked_packets s.sender.ledger.acked_sent_pkt_num front) ≡ ok sent
  pub appended : s'.datagrams ≡ s.datagrams ++ sent

-- How a turn can end.
abbrev pub Ends : Bool → Packet → List Packet → Sends → Turn → Type 0
Ends pto_expired p rest s (Turn.again s') = HasSent (p ∷ []) rest s s'
Ends pto_expired p rest s (Turn.break s') =
    (HasSent (p ∷ []) rest s s' × (pto_expired ≡ true)) ⊎ ((s' ≡ s) × (2 ≤ s.sent_when_congested))

abbrev pub Turns : Bool → Packet → List Packet → Sends → Result Turn → Type 0
Turns pto_expired p rest s r = (t : Turn) × (r ≡ ok t) × Ends pto_expired p rest s t
