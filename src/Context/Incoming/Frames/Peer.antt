-- ===== src/Context/Incoming/Frames/Peer.antt =====
-- What the passive end does with a CONNECTION_CLOSE frame.
use simple_quic.Common.{
  ℕ, ◌^◌, ◌<◌, ◌≡◌, refl, ap, ◌∙◌, [], ◌∷◌, ◌++◌, Bool, true, false, ◌||◌, ◌==◌, some, ok, ◌>>=◌,
  arith,
}
use simple_quic.Utils.Interval.Sets.{IntervalSet, contain, add_interval}
use simple_quic.Utils.Interval.Add.{IsOrdered, contain-add_interval}
use simple_quic.Payload.Frame.{Frame}
use simple_quic.Payload.Packet.Whole.{Packet}
use simple_quic.Context.Congestion.{closed}
use simple_quic.Context.Queue.{Queue, num_of, single, enqueue}
use simple_quic.Context.Queue.Invariant.{IsQueue, waits, enqueue-IsQueue, at_single}
use simple_quic.Context.Ledger.{TimeVal, Ledger, add_rec_pkt, have_received_pkt}
use simple_quic.Context.Ledger.Timers.{AllNumbers}
use simple_quic.Context.Ledger.Received.{is_timed, get_need_ack_rec_pkt-contain}
use simple_quic.Context.Sending.{update_idle_time}
use simple_quic.Context.Sending.Datagram.{new_packet-numbered}
use simple_quic.Context.Closing.{next_pkt_num}
use simple_quic.Context.Closing.Waiting.{IsNextFree}
use simple_quic.Context.Incoming.{Connection, Handling, state_of, is_closed, set_connection_state}
use simple_quic.Context.Incoming.Frames.{
  unless_received, has_received, record_received, received_by, queue_ack, closes, connection_close,
  on_connection_close, refresh_idle, with_ledger,
}

abbrev with_received : Packet → IntervalSet → Ledger → Ledger
with_received p nums l = record l { rec_pkt_num = nums; rec_pkt = l.rec_pkt ++ (p ∷ []) }

record_received-contain :
    (p : Packet) (h : Handling)
    → num_of p < 2 ^ 64
    → IsOrdered h.connection.sender.ledger.rec_pkt_num
    → (nums : IntervalSet) × (record_received p h
        ≡ ok (record (with_ledger (with_received p nums h.connection.sender.ledger) h) {
          have_added_to_ack = true;
        }))
      × IsOrdered nums
      × ((x : ℕ)
          → contain nums x ≡ (x == num_of p) || have_received_pkt x h.connection.sender.ledger)
unfolding record_received add_rec_pkt have_received_pkt
record_received-contain p h small o =
    let l = h.connection.sender.ledger in
    let (nums, run, on, c) =
      contain-add_interval (single (num_of p)) l.rec_pkt_num (omega arith, small) o in
    (
      nums,
      ap
          (λ r. do
            l' ← (do n ← r; ok (with_received p n l))
            ok (record (with_ledger l' h) { have_added_to_ack = true }))
          run,
      on,
      λ x. c x ∙ ap (λ b. b || contain l.rec_pkt_num x) (at_single (num_of p) x),
    )

-- A connection with one more packet in its queue.
abbrev queued : Queue → Connection → Connection
queued q c = record c { sender = record c.sender { queue = q }; now_pkt_num = next_pkt_num c }

queue_ack-queued :
    (acked : IntervalSet) (need : Bool) (c : Connection)
    → IsNextFree c
    → (q : Queue) × (a : Packet) × (queue_ack acked need c ≡ ok (queued q c))
      × IsQueue q
      × (q.pending ≡ c.sender.queue.pending ++ (a ∷ []))
      × (a.payload ≡ some (Frame.ack 0 acked ∷ []))
unfolding queue_ack
queue_ack-queued acked need c i =
    let (a, made, num, payload) =
      new_packet-numbered c.remote (next_pkt_num c) (Frame.ack 0 acked ∷ []) i.small in
    let (q, run, sound, back) =
      enqueue-IsQueue a need c.sender.queue i.queue (omega (arith, num, i.small))
        (ap (waits c.sender.queue.pending) num ∙ i.free) in
    (
      q,
      a,
      ap (λ r. do a' ← r; q' ← enqueue a' need c.sender.queue; ok (queued q' c)) made
          ∙ ap (λ r. do q' ← r; ok (queued q' c)) run,
      sound,
      back,
      payload,
    )

-- The connection once the frame is handled.
abbrev drained : TimeVal → Packet → IntervalSet → Queue → Handling → Handling
drained now p nums q h =
    let l = with_received p nums h.connection.sender.ledger in
    let c = queued q (with_ledger (record l { not_acked_rec_pkt = [] }) h).connection in
    refresh_idle now (
      with_ledger (set_connection_state closed c.sender.ledger)
        (record h { connection = c; have_added_to_ack = true }))

-- The conditions on the connection.
pub record IsReady (p : Packet) (h : Handling) : Type 0 where
  pub next : IsNextFree h.connection
  pub small : num_of p < 2 ^ 64
  pub timers : AllNumbers h.connection.sender.ledger.not_acked_rec_pkt
  pub ordered : IsOrdered h.connection.sender.ledger.rec_pkt_num
  pub alive : is_closed (state_of h.connection) ≡ false
  pub first : h.have_added_to_ack ≡ false
  pub unseen : has_received p h ≡ false

closes-drained :
    (now : TimeVal) (p : Packet) (h : Handling) (nums : IntervalSet)
    → IsReady p h
    → IsOrdered nums
    → (q : Queue) × (a : Packet) × (acked : IntervalSet) × (closes now p
          (record (with_ledger (with_received p nums h.connection.sender.ledger) h) {
            have_added_to_ack = true;
          })
        ≡ ok (drained now p nums q h))
      × IsQueue q
      × (q.pending ≡ h.connection.sender.queue.pending ++ (a ∷ []))
      × (a.payload ≡ some (Frame.ack 0 acked ∷ []))
      × ((x : ℕ)
          → contain acked x
            ≡ (x == num_of p)
              || (is_timed h.connection.sender.ledger.not_acked_rec_pkt x || contain nums x))
unfolding closes have_received_pkt
closes-drained now p h nums i on =
    let l = with_received p nums h.connection.sender.ledger in
    let h' = record (with_ledger l h) { have_added_to_ack = true } in
    let (u, run, ou, c) = get_need_ack_rec_pkt-contain l i.timers on in
    let (acked, run', oa, c') =
      contain-add_interval (single (num_of p)) u (omega arith, i.small) ou in
    let l' = record l { not_acked_rec_pkt = [] } in
    let (q, a, run'', sound, back, payload) =
      queue_ack-queued acked false (with_ledger l' h').connection
        (record { queue = i.next.queue; small = i.next.small; free = i.next.free }) in
    let finish : Connection → Handling = λ d.
      refresh_idle now (
        with_ledger (set_connection_state closed d.sender.ledger) (record h' { connection = d })) in
    (
      q,
      a,
      acked,
      ap
            (λ r. do
              got ← r
              s ← add_interval (single (num_of p)) got.0
              d ← queue_ack s false (with_ledger got.1 h').connection
              ok (finish d))
            run
          ∙ ap (λ r. do s ← r; d ← queue_ack s false (with_ledger l' h').connection; ok (finish d))
              run'
          ∙ ap (λ r. do d ← r; ok (finish d)) run'',
      sound,
      back,
      payload,
      λ x. c' x ∙ ground (arith, c x, at_single (num_of p) x),
    )

received_by-fresh :
    (closed_now added : Bool) (p : Packet) (h : Handling)
    → closed_now ≡ false
    → added ≡ false
    → received_by closed_now added p h ≡ record_received p h
unfolding received_by
received_by-fresh false false p h e e' = refl
received_by-fresh true added p h e e' = absurd (ground (arith, e))
received_by-fresh false true p h e e' = absurd (ground (arith, e'))

has_received-drained :
    (now : TimeVal) (p : Packet) (nums : IntervalSet) (q : Queue) (h : Handling)
    → contain nums (num_of p) ≡ true
    → has_received p (drained now p nums q h) ≡ true
unfolding have_received_pkt update_idle_time set_connection_state
has_received-drained now p nums q h e = e

-- The first CONNECTION_CLOSE frame in a packet that has not been received, on a connection that is not
-- CLOSED, whose queue and sets are well formed and whose next packet number is free and below 2 ^ 32:
-- the connection becomes CLOSED, and a packet is added at the end of the queue, which acknowledges the
-- numbers of this packet, of the packets that wait for an acknowledgement and of all that have been
-- received, and no others. The same packet, whenever it comes again, changes nothing.
pub on_connection_close-drained :
    (now : TimeVal) (p : Packet) (h : Handling)
    → IsReady p h
    → (h' : Handling) × (a : Packet) × (acked : IntervalSet) × (on_connection_close now p h
        ≡ ok (true, h'))
      × (state_of h'.connection ≡ closed)
      × IsQueue h'.connection.sender.queue
      × (h'.connection.sender.queue.pending ≡ h.connection.sender.queue.pending ++ (a ∷ []))
      × (a.payload ≡ some (Frame.ack 0 acked ∷ []))
      × ((x : ℕ)
          → contain acked x
            ≡ (x == num_of p)
              || (is_timed h.connection.sender.ledger.not_acked_rec_pkt x
                  || have_received_pkt x h.connection.sender.ledger))
      × ((later : TimeVal) → on_connection_close later p h' ≡ ok (false, h'))
unfolding on_connection_close unless_received connection_close state_of set_connection_state
    update_idle_time
on_connection_close-drained now p h i =
    let (nums, got, on, c) = record_received-contain p h i.small i.ordered in
    let (q, a, acked, run, sound, back, payload, points) = closes-drained now p h nums i on in
    let h' = drained now p nums q h in
    let seen : has_received p h' ≡ true =
      has_received-drained now p nums q h (c (num_of p) ∙ ground arith) in
    (
      h',
      a,
      acked,
      ap (λ b. unless_received b (connection_close now p) h) i.unseen
          ∙ ap (λ r. do d ← (do d' ← r; closes now p d'); ok (true, d))
              (received_by-fresh (is_closed (state_of h.connection)) h.have_added_to_ack p h i.alive
                i.first)
          ∙ ap (λ r. do d ← (do d' ← r; closes now p d'); ok (true, d)) got
          ∙ ap (λ r. do d ← r; ok (true, d)) run,
      refl,
      sound,
      back,
      payload,
      λ x. points x ∙ ground (arith, c x),
      λ later. ap (λ b. unless_received b (connection_close later p) h') seen,
    )
