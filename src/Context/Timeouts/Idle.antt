-- ===== src/Context/Timeouts/Idle.antt =====
-- The PING that defers the idle timeout, and the wait for a peer that closes.
use simple_quic.Common.{
  ◌≡◌, refl, ap, ◌∙◌, List, [], ◌∷◌, Bool, true, false, not, ◌&&◌, some, ok, ◌>>=◌, Result, arith,
}
use simple_quic.Payload.Frame.{Frame}
use simple_quic.Payload.Packet.Whole.{Packet}
use simple_quic.Context.Queue.{Queue, enqueue_front}
use simple_quic.Context.Queue.Invariant.{IsQueue, waits, enqueue_front-IsQueue}
use simple_quic.Context.Ledger.{TimeVal, AckTimer}
use simple_quic.Context.Streams.{PeerType, check_valid_stream}
use simple_quic.Context.Sending.{update_idle_time}
use simple_quic.Context.Sending.Datagram.{new_packet-numbered}
use simple_quic.Context.Incoming.{Connection, state_of}
use simple_quic.Context.Closing.{next_pkt_num}
use simple_quic.Context.Closing.Waiting.{IsNextFree}
use simple_quic.Context.Timeouts.{
  ping_front, front_is_ping, front_ping, payload_ping, is_ping, idle_timeout, idle_by, defer_idle,
  is_idle, may_ping,
}

abbrev with_queue : Queue → Connection → Connection
with_queue q c = record c { sender = record c.sender { queue = q }; now_pkt_num = next_pkt_num c }

pub ping_front-front :
    (c : Connection)
    → IsNextFree c
    → (q : Queue) × (p : Packet) × (ping_front c ≡ ok (with_queue q c))
      × IsQueue q
      × (q.pending ≡ p ∷ c.sender.queue.pending)
      × (p.payload ≡ some (Frame.ping ∷ []))
unfolding ping_front
ping_front-front c i =
    let (p, made, num, payload) =
      new_packet-numbered c.remote (next_pkt_num c) (Frame.ping ∷ []) i.small in
    let (q, run, sound, queued) =
      enqueue_front-IsQueue p true c.sender.queue i.queue (omega (arith, num, i.small))
        (ap (waits c.sender.queue.pending) num ∙ i.free) in
    (
      q,
      p,
      ap (λ r. do p' ← r; q' ← enqueue_front p' true c.sender.queue; ok (with_queue q' c)) made
          ∙ ap (λ r. do q' ← r; ok (with_queue q' c)) run,
      sound,
      queued,
      payload,
    )

front_is_ping-ping :
    (q : Queue) (p : Packet) (ps : List Packet)
    → q.pending ≡ p ∷ ps
    → p.payload ≡ some (Frame.ping ∷ [])
    → front_is_ping q ≡ true
unfolding front_is_ping front_ping payload_ping is_ping
front_is_ping-ping q p ps e e' = ap front_ping e ∙ ap payload_ping e'

silent :
    (may front : Bool) (now : TimeVal) (c : Connection)
    → front ≡ true
    → defer_idle (may && not front) now c ≡ ok c
unfolding defer_idle
silent true true now c e = refl
silent false true now c e = refl
silent may false now c e = absurd (ground (arith, e))

idle_by-quiet :
    (b : Bool) (t : AckTimer) (ts : List AckTimer) (type : PeerType) (now : TimeVal)
    (c : Connection)
    → front_is_ping c.sender.queue ≡ true
    → idle_by b (t ∷ ts) type now c ≡ ok c
unfolding idle_by
idle_by-quiet false t ts type now c e = refl
idle_by-quiet true t ts type now c e =
    silent (may_ping (state_of c)) (front_is_ping c.sender.queue) now c e

-- A connection that is idle, neither CREATED nor CLOSED, with a stream that is running, a packet that
-- is not acknowledged, no PING at the front, and a next packet number below 2 ^ 32 that the queue does
-- not hold: the idle timeout puts one packet with a PING frame before the queue, which stays well
-- formed, and however late it comes again, it changes nothing while that packet is at the front.
pub idle_timeout-once :
    (type : PeerType) (now : TimeVal) (c : Connection) (t : AckTimer) (ts : List AckTimer)
    → IsNextFree c
    → is_idle now c.sender && check_valid_stream c.streams.states ≡ true
    → c.sender.ledger.not_acked_sent_pkt ≡ t ∷ ts
    → may_ping (state_of c) ≡ true
    → front_is_ping c.sender.queue ≡ false
    → (c' : Connection) × (p : Packet) × (idle_timeout type now c ≡ ok c')
      × IsQueue c'.sender.queue
      × (c'.sender.queue.pending ≡ p ∷ c.sender.queue.pending)
      × (p.payload ≡ some (Frame.ping ∷ []))
      × (state_of c' ≡ state_of c)
      × ((later : TimeVal) → idle_timeout type later c' ≡ ok c')
unfolding idle_timeout idle_by defer_idle update_idle_time state_of
idle_timeout-once type now c t ts i idle waiting open' front =
    let (q, p, run, sound, queued, payload) = ping_front-front c i in
    let c' : Connection = record (with_queue q c) {
      sender = update_idle_time now false (with_queue q c).sender;
    } in
    (
      c',
      p,
      ap (λ b. idle_by b c.sender.ledger.not_acked_sent_pkt type now c) idle
          ∙ ap (λ l. idle_by true l type now c) waiting
          ∙ ap (λ b. defer_idle (b && not (front_is_ping c.sender.queue)) now c) open'
          ∙ ap (λ f. defer_idle (not f) now c) front
          ∙ ap
              (λ (r : Result Connection). do
                d ← r
                ok (record d { sender = update_idle_time now false d.sender }))
              run,
      sound,
      queued,
      payload,
      refl,
      λ later.
          let b = is_idle later c'.sender && check_valid_stream c'.streams.states in
          ap (λ l. idle_by b l type later c') waiting
          ∙ idle_by-quiet b t ts type later c'
              (front_is_ping-ping q p c.sender.queue.pending queued payload),
    )
