-- ===== src/Context/Incoming/Acks.antt =====
-- The handler of ACK frames.
use simple_quic.Common.{
  ℕ, max, ◌≡◌, refl, sym, ap, subst, ◌∙◌, [], ◌∷◌, map, Bool, true, false, ◌||◌, ◌&&◌, Result, ok,
  some, ◌>>=◌, inl,
}
use simple_quic.Utils.Interval.{Interval}
use simple_quic.Utils.Interval.Sets.{IntervalSet, contain, add_interval_set, get_start, get_end}
use simple_quic.Utils.Interval.Add.{IsOrdered}
use simple_quic.Utils.Interval.Union.{contain-add_interval_set}
use simple_quic.Context.Congestion.{is_established}
use simple_quic.Context.Ledger.{
  TimeVal, Ledger, refreshed, add_acked_sent_pkt_num, whether_acked_pkt_num, rem_need_ack_pkt,
  update_largest_acked_packet, larger_end,
}
use simple_quic.Context.Ledger.Timers.{unacked}
use simple_quic.Context.Ledger.Room.{HasRoom, bytes_of}
use simple_quic.Context.Ledger.Invariant.{IsLedger, rem_need_ack_pkt-IsLedger}
use simple_quic.Context.Sending.{update_idle_time}
use simple_quic.Context.Sending.Sent.{IsSender}
use simple_quic.Context.Incoming.{
  Connection, state_of, set_connection_state, is_waiting, closed_by, on_ack,
}

-- The queue, the ledger, the window and the acknowledged numbers of a connection.
pub record IsSound (c : Connection) : Type 0 where
  pub sender : IsSender c.sender
  pub room : HasRoom (bytes_of c.sender.ledger.not_acked_sent_pkt) c.sender.ledger.congestion
  pub ordered : IsOrdered c.sender.ledger.acked_sent_pkt_num

-- The ranges of an ACK frame: ordered, and not empty.
abbrev pub IsAcking : IntervalSet → Type 0
IsAcking [] = ⊥
IsAcking (i ∷ is) = IsOrdered (i ∷ is)

-- A closed connection, or not, with a ledger that differs in the state and the largest number.
abbrev Follows : Ledger → Ledger → Type 0
Follows l l' =
    IsLedger l'
    × HasRoom (bytes_of l'.not_acked_sent_pkt) l'.congestion
    × (l'.not_acked_sent_pkt ≡ l.not_acked_sent_pkt)
    × (l'.acked_sent_pkt_num ≡ l.acked_sent_pkt_num)

closed_by-Follows :
    (b : Bool) (l : Ledger)
    → IsLedger l
    → HasRoom (bytes_of l.not_acked_sent_pkt) l.congestion
    → Follows l (closed_by b l)
unfolding closed_by set_connection_state is_established
closed_by-Follows true l i room =
    (record { timed = i.timed; paired = i.paired; ordered = i.ordered }, inl refl, refl, refl)
closed_by-Follows false l i room = (i, room, refl, refl)

get_start-some : (i : Interval) (is : IntervalSet) → (n : ℕ) × (get_start (i ∷ is) ≡ some n)
unfolding get_start
get_start-some i [] = (i.start, refl)
get_start-some i (j ∷ is) = get_start-some j is

noted_largest :
    (acked : IntervalSet) (l l0 : Ledger)
    → IsAcking acked
    → Follows l0 l
    → (l' : Ledger) × (update_largest_acked_packet acked l ≡ ok l') × Follows l0 l'
unfolding update_largest_acked_packet get_end
noted_largest [] l l0 a f = absurd a
noted_largest (i ∷ is) l l0 a (ledger, room, timers, nums) =
    let (n, e) = get_start-some i is in
    (
      record l { larget_acked_packet = max l.larget_acked_packet (max n i.end) },
      ap
          (λ start. do
            m ← larger_end start (some i.end)
            ok (record l { larget_acked_packet = max l.larget_acked_packet m }))
          e,
      (
        record { timed = ledger.timed; paired = ledger.paired; ordered = ledger.ordered },
        room,
        timers,
        nums,
      ),
    )

-- The handler of an ACK frame with at least one range returns, where the connection's queue and ledger
-- are well formed, the sets of packet numbers are ordered, and the window has room for the packets
-- that are out. All of that holds afterwards, and the queue is as before. The numbers that are noted
-- as acknowledged are those noted before and those of the frame; the timers that stay are the first of
-- each number that the frame does not acknowledge.
pub on_ack-IsSender :
    (now : TimeVal) (acked : IntervalSet) (c : Connection)
    → IsSound c
    → IsAcking acked
    → (c' : Connection) × (on_ack now acked c ≡ ok c')
      × IsSound c'
      × (c'.sender.queue ≡ c.sender.queue)
      × (c'.sender.ledger.not_acked_sent_pkt
          ≡ map (refreshed now) (unacked acked [] c.sender.ledger.not_acked_sent_pkt))
      × ((x : ℕ)
          → whether_acked_pkt_num x c'.sender.ledger
            ≡ whether_acked_pkt_num x c.sender.ledger || contain acked x)
unfolding on_ack add_acked_sent_pkt_num whether_acked_pkt_num update_idle_time
on_ack-IsSender now [] c i a = absurd a
on_ack-IsSender now (first ∷ others) c i o =
    let acked = first ∷ others in
    let l0 = c.sender.ledger in
    let b = is_waiting (state_of c) && contain acked c.connection_close_pkt_num in
    let (l1, run, (ledger, room, timers, nums)) =
      noted_largest acked (closed_by b l0) l0 o (closed_by-Follows b l0 i.sender.ledger i.room) in
    let (l2, run', ledger', room', kept, same) =
      rem_need_ack_pkt-IsLedger now acked l1 ledger room in
    let (set, run'', ordered, points) =
      contain-add_interval_set l2.acked_sent_pkt_num acked
        (subst IsOrdered (sym (same ∙ nums)) i.ordered) o in
    let finish : Ledger → Result Connection = λ l. (do
      l' ← (do
        s ← add_interval_set l.acked_sent_pkt_num acked
        ok (record l { acked_sent_pkt_num = s }))
      ok (record c { sender = update_idle_time now true (record c.sender { ledger = l' }) })) in
    (
      record c {
        sender =
            update_idle_time now true
              (record c.sender { ledger = record l2 { acked_sent_pkt_num = set } });
      },
      ap (λ r. do l ← r; l' ← rem_need_ack_pkt now acked l; finish l') run
          ∙ ap (λ r. do l' ← r; finish l') run'
          ∙ ap
              (λ r. do
                l' ← (do s ← r; ok (record l2 { acked_sent_pkt_num = s }))
                ok (record c {
                  sender = update_idle_time now true (record c.sender { ledger = l' });
                }))
              run'',
      record {
        sender = record {
          queue = i.sender.queue;
          ledger = record {
            timed = ledger'.timed;
            paired = ledger'.paired;
            ordered = ledger'.ordered;
          };
        };
        room = room';
        ordered = ordered;
      },
      refl,
      kept ∙ ap (λ ts. map (refreshed now) (unacked acked [] ts)) timers,
      λ x. points x ∙ ap (λ s. contain s x || contain acked x) (same ∙ nums),
    )
