-- ===== src/Context/Closing/Waiting.antt =====
-- How long a connection waits for its peer to close.
use simple_quic.Common.{
  ℕ, ◌+◌, ◌-◌, ◌^◌, ◌<◌, ◌≤◌, ◌≡◌, refl, ap, ◌∙◌, List, [], ◌∷◌, ◌++◌, Bool, true, false, ◌&&◌, ok,
  ◌>>=◌, Result, arith, leb, if◌then◌else◌,
}
use simple_quic.Payload.Packet.{get_pkt_num}
use simple_quic.Payload.Packet.Make.{make_short}
use simple_quic.Context.Congestion.{wait_for_peer_close, closed}
use simple_quic.Context.Queue.{Queue, num_of}
use simple_quic.Context.Queue.Invariant.{IsQueue, waits, enqueue-IsQueue}
use simple_quic.Context.Ledger.{TimeVal, msec_of}
use simple_quic.Context.Rtt.{minus}
use simple_quic.Context.Incoming.{Connection, state_of, set_connection_state, is_waiting}
use simple_quic.Context.Closing.{
  next_pkt_num, with_state, queue_new, close_packet, close_connection, give_up_waiting,
}

-- The next packet number is new to the queue.
pub record IsNextFree (c : Connection) : Type 0 where
  pub queue : IsQueue c.sender.queue
  pub small : next_pkt_num c < 2 ^ 32
  pub free : waits c.sender.queue.pending (next_pkt_num c) ≡ false

num_of-close_packet :
    (reason : List ℕ) (error_code : ℕ) (c : Connection)
    → next_pkt_num c < 2 ^ 32
    → num_of (close_packet reason error_code c) ≡ next_pkt_num c
unfolding close_packet make_short get_pkt_num
num_of-close_packet reason error_code c h = omega (arith, h)

-- The connection that CloseConnection leaves, with its new queue.
abbrev closing : TimeVal → Connection → Queue → Connection
closing now c q =
    record (with_state wait_for_peer_close
      (record c { sender = record c.sender { queue = q }; now_pkt_num = next_pkt_num c })) {
        start_wait_for_peer = msec_of now;
        connection_close_pkt_num = next_pkt_num c;
      }

state_of-closing :
    (now : TimeVal) (c : Connection) (q : Queue) → state_of (closing now c q) ≡ wait_for_peer_close
unfolding state_of with_state set_connection_state
state_of-closing now c q = refl

given_up :
    (b : Bool) (later : TimeVal) (c : Connection)
    → is_waiting (state_of c) && leb 2000 (minus (msec_of later) c.start_wait_for_peer) ≡ b
    → give_up_waiting later c ≡ (if b then with_state closed c else c)
unfolding give_up_waiting
given_up b later c e = ap (λ t. if t then with_state closed c else c) e

minus-of : (a b : ℕ) → b ≤ a → a < 2 ^ 64 → minus a b ≡ a - b
minus-of a b l h = omega (arith, l, h)

-- Where the next packet number is below 2 ^ 32 and the queue, which is well formed, does not hold it,
-- CloseConnection returns: the packet with CONNECTION_CLOSE is the last of the queue, which stays well
-- formed, and the connection waits for its peer. The alarm, which SocketLoop tests first, leaves it as
-- it is less than 2000 ms later; from then on it closes it.
pub close_connection-waits :
    (now soon late : TimeVal) (reason : List ℕ) (error_code : ℕ) (c : Connection)
    → IsNextFree c
    → msec_of now ≤ msec_of soon
    → msec_of soon < msec_of now + 2000
    → msec_of now + 2000 ≤ msec_of late
    → (c' : Connection) × (close_connection now reason error_code c ≡ ok c')
      × IsQueue c'.sender.queue
      × (c'.sender.queue.pending
          ≡ c.sender.queue.pending ++ (close_packet reason error_code c ∷ []))
      × (c'.sender.ledger ≡ set_connection_state wait_for_peer_close c.sender.ledger)
      × (give_up_waiting soon c' ≡ c')
      × (give_up_waiting late c' ≡ with_state closed c')
unfolding close_connection queue_new with_state is_waiting state_of set_connection_state
close_connection-waits now soon late reason error_code c i from before after =
    let p = close_packet reason error_code c in
    let num = num_of-close_packet reason error_code c i.small in
    let (q, run, sound, queued) =
      enqueue-IsQueue p true c.sender.queue i.queue (omega (arith, num, i.small))
        (ap (waits c.sender.queue.pending) num ∙ i.free) in
    let c' = closing now c q in
    let not_yet : leb 2000 (minus (msec_of soon) (msec_of now)) ≡ false =
      ground (arith, minus-of (msec_of soon) (msec_of now) from (omega arith), before) in
    let by_now : leb 2000 (minus (msec_of late) (msec_of now)) ≡ true =
      ground (
        arith,
        minus-of (msec_of late) (msec_of now) (omega (arith, after)) (omega arith),
        after,
      ) in
    (
      c',
      ap
          (λ (r : Result Queue). do
            (d : Connection) ← (do
              q' ← r
              ok (record c {
                sender = record c.sender { queue = q' };
                now_pkt_num = next_pkt_num c;
              }))
            ok (record (with_state wait_for_peer_close d) {
              start_wait_for_peer = msec_of now;
              connection_close_pkt_num = next_pkt_num c;
            }))
          run,
      sound,
      queued,
      refl,
      given_up false soon c' not_yet,
      given_up true late c' by_now,
    )
