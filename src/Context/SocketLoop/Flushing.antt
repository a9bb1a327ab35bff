-- ===== src/Context/SocketLoop/Flushing.antt =====
-- The turn of SocketLoop for a connection that is CLOSED.
use simple_quic.Common.{
  ◌≡◌, refl, sym, ap, subst, ◌∙◌, List, [], ◌∷◌, ◌++◌, append-nil, Bool, true, false, not, ◌&&◌,
  ◌||◌, Result, ok, ◌>>=◌, Yields,
}
use simple_quic.Utils.ByteStream.{ByteStream}
use simple_quic.Payload.Packet.Whole.{Packet}
use simple_quic.Context.Congestion.{closed}
use simple_quic.Context.Streams.{PeerType, check_valid_stream}
use simple_quic.Context.Queue.{Queue}
use simple_quic.Context.Queue.Invariant.{IsQueue}
use simple_quic.Context.Ledger.{TimeVal, AckTimer, PtoTimer, Ledger}
use simple_quic.Context.Ledger.Invariant.{IsLedger}
use simple_quic.Context.Rtt.{Rtt, update_pto}
use simple_quic.Context.Sending.{Sends}
use simple_quic.Context.Sending.Step.{at_front}
use simple_quic.Context.Sending.Loop.{send_loop-HasSent}
use simple_quic.Context.Sending.Sent.{AllEncode, IsSender, encode_each, unacked_packets}
use simple_quic.Context.Incoming.{Connection, state_of, is_closed}
use simple_quic.Context.Closing.{give_up_waiting}
use simple_quic.Context.Timeouts.{
  any_expired, expire_one, expire_pto, refresh_pto, is_expired, may_ping, is_idle, idle_by,
  defer_idle, close_idle, idle_timeout, idle_queue, probe_if, probe_by, probe, is_client,
  front_is_ping,
}
use simple_quic.Context.SocketLoop.{send_pending, send_more, serve, serve_from, socket_turn}
use simple_quic.Context.SocketLoop.Kept.{if-holds, expire_one-state}
use simple_quic.Context.SocketLoop.Moves.{send_pending-Sent, Sent}

-- What the turn of the only connection comes to.
abbrev pub alone :
    List ByteStream → Connection × List ByteStream → Result (List Connection × List ByteStream)
alone before (c, ds) = ok (c ∷ [], ds ++ [])

pub socket_turn-alone :
    (type : PeerType) (now : TimeVal) (c : Connection)
    → let w = give_up_waiting now c in
      socket_turn type now (c ∷ []) ≡ (
        serve type
          (any_expired now w.sender.ledger.not_acked_sent_pkt_pto || false)
          now
          (expire_one now w)
        >>= alone [])
unfolding socket_turn serve_from expire_pto
socket_turn-alone type now c = refl

-- A closed connection: nothing is queued, what is pending is sent, and nothing more is done.
idle_by-closed :
    (idle : Bool) (ts : List AckTimer) (type : PeerType) (now : TimeVal) (c : Connection)
    → state_of c ≡ closed
    → idle_by idle ts type now c ≡ ok c
unfolding idle_by close_idle defer_idle may_ping is_client
idle_by-closed false ts type now c e = refl
idle_by-closed true [] PeerType.client now c e = ap (λ s. close_idle (may_ping s) now c) e
idle_by-closed true [] PeerType.server now c e = refl
idle_by-closed true (t ∷ ts) type now c e =
    ap (λ s. defer_idle (may_ping s && not (front_is_ping c.sender.queue)) now c) e

idle_queue-returns :
    (q : Queue) (ps : List Packet)
    → IsQueue q
    → q.pending ≡ ps
    → (b : Bool) × (idle_queue ps q ≡ ok b)
unfolding idle_queue
idle_queue-returns q [] i e = (true, refl)
idle_queue-returns q (p ∷ ps) i e =
    let (small, (need, run)) = at_front p ps q i e in (not need, ap (λ r. do n ← r; ok (not n)) run)

nothing_probed :
    (b : Bool) (c : Connection)
    → state_of c ≡ closed
    → probe_if (b && (may_ping (state_of c) && check_valid_stream c.streams.states)) c ≡ ok c
unfolding probe_if may_ping
nothing_probed false c e = refl
nothing_probed true c e = ap (λ s. probe_if (may_ping s && check_valid_stream c.streams.states) c) e

probe-closed :
    (pto_expired : Bool) (c : Connection)
    → state_of c ≡ closed
    → IsQueue c.sender.queue
    → probe pto_expired c ≡ ok c
unfolding probe probe_by
probe-closed false c e i = refl
probe-closed true c e i =
    let (b, run) = idle_queue-returns c.sender.queue c.sender.queue.pending i refl in
    ap
      (λ r. do
        none_waits ← r
        probe_if (none_waits && (may_ping (state_of c) && check_valid_stream c.streams.states)) c)
      run
    ∙ nothing_probed b c e

-- The datagrams of what leaves the queue, in order, of a connection that is CLOSED afterwards.
abbrev pub Flushes : Connection → Connection × List ByteStream → Type 0
Flushes c (d, ds) =
    (state_of d ≡ closed)
    × ((front : List Packet) × (c.sender.queue.pending ≡ front ++ d.sender.queue.pending)
        × (encode_each (unacked_packets c.sender.ledger.acked_sent_pkt_num front) ≡ ok ds))

send_pending-Flushes :
    (pto_expired : Bool) (now : TimeVal) (c : Connection)
    → state_of c ≡ closed
    → IsSender c.sender
    → AllEncode c.sender.queue.pending
    → (r : Connection × List ByteStream) × (send_pending pto_expired now c ≡ ok r) × Flushes c r
unfolding send_pending
send_pending-Flushes pto_expired now c e i a =
    let start : Sends = record { sender = c.sender; sent_when_congested = 0; datagrams = [] } in
    let (s, front, rest, run, split, h, why) = send_loop-HasSent pto_expired now start i a in
    let run' : send_pending pto_expired now c ≡ ok (record c { sender = s.sender }, s.datagrams) =
      ap (λ r. do t ← r; ok (record c { sender = t.sender }, t.datagrams)) run in
    (
      (record c { sender = s.sender }, s.datagrams),
      run',
      (
        subst (Yields (Sent (state_of c))) run' (send_pending-Sent pto_expired now c) ∙ e,
        (front, split ∙ ap (λ l. front ++ l) (sym h.left), h.encoded ∙ ap ok (sym h.appended)),
      ),
    )

serve-Flushes :
    (type : PeerType) (pto_expired : Bool) (now : TimeVal) (c : Connection)
    → state_of c ≡ closed
    → IsSender c.sender
    → AllEncode c.sender.queue.pending
    → (r : Connection × List ByteStream) × (serve type pto_expired now c ≡ ok r) × Flushes c r
unfolding serve idle_timeout send_more is_closed
serve-Flushes type pto_expired now c e i a =
    let ((d, ds), run, (closed', (front, split, sent))) =
      send_pending-Flushes pto_expired now c e i a in
    let last : Connection → List ByteStream → Result (Connection × List ByteStream) =
      λ x bs. (do (y, bs') ← send_more (is_closed (state_of x)) now x; ok (y, bs ++ bs')) in
    let rest : Connection → Result (Connection × List ByteStream) =
      λ x. (do (y, bs) ← send_pending pto_expired now x; last y bs) in
    (
      (d, ds ++ []),
      ap (λ r. r >>= λ x. probe pto_expired x >>= rest)
            (idle_by-closed (is_idle now c.sender && check_valid_stream c.streams.states)
              c.sender.ledger.not_acked_sent_pkt type now c e)
          ∙ ap (λ r. r >>= rest) (probe-closed pto_expired c e i.queue)
          ∙ ap (λ r. do (y, bs) ← r; last y bs) run
          ∙ ap (λ s. do (y, bs') ← send_more (is_closed s) now d; ok (y, ds ++ bs')) closed',
      (closed', (front, split, sent ∙ ap ok (sym (append-nil ds)))),
    )

-- The ledger that the expired timers leave.
abbrev Keeps : Ledger → Ledger → Type 0
Keeps l l' = IsLedger l' × (l'.acked_sent_pkt_num ≡ l.acked_sent_pkt_num)

refresh_pto-Keeps :
    (now : TimeVal) (ts : List PtoTimer) (r : Rtt) (l0 l : Ledger)
    → Keeps l0 l
    → Keeps l0 (refresh_pto now ts r l)
unfolding refresh_pto update_pto
refresh_pto-Keeps now [] r l0 l k = k
refresh_pto-Keeps now (t ∷ ts) r l0 l (i, e) =
    if-holds (Keeps l0) (is_expired now t) (refresh_pto now ts r (update_pto r l))
      (refresh_pto now ts r l)
      (refresh_pto-Keeps now ts r l0 (update_pto r l)
        (record { timed = i.timed; paired = i.paired; ordered = i.ordered }, e))
      (refresh_pto-Keeps now ts r l0 l (i, e))

pub closed_turn :
    (type : PeerType) (now : TimeVal) (c : Connection)
    → state_of (give_up_waiting now c) ≡ closed
    → IsSender (give_up_waiting now c).sender
    → AllEncode (give_up_waiting now c).sender.queue.pending
    → (d : Connection) × (ds : List ByteStream) × (socket_turn type now (c ∷ []) ≡ ok (d ∷ [], ds))
      × Flushes (give_up_waiting now c) (d, ds)
unfolding expire_one
closed_turn type now c e i a =
    let w = give_up_waiting now c in
    let pto : Bool = any_expired now w.sender.ledger.not_acked_sent_pkt_pto || false in
    let (ledger, acked) =
      refresh_pto-Keeps now w.sender.ledger.not_acked_sent_pkt_pto w.rtt w.sender.ledger
        w.sender.ledger (i.ledger, refl) in
    let ((d, ds), run, (closed', (front, split, sent))) =
      serve-Flushes type pto now (expire_one now w) (expire_one-state now w ∙ e)
        (record { queue = i.queue; ledger = ledger }) a in
    (
      d,
      ds ++ [],
      socket_turn-alone type now c ∙ ap (λ r. r >>= alone []) run,
      (
        closed',
        (
          front,
          split,
          ap (λ nums. encode_each (unacked_packets nums front)) (sym acked)
              ∙ sent
              ∙ ap ok (sym (append-nil ds)),
        ),
      ),
    )
