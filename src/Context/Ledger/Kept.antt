-- ===== src/Context/Ledger/Kept.antt =====
-- The operations on the ledger do not change the state of the connection.
use simple_quic.Common.{
  ◌≡◌, refl, ◌∙◌, List, [], ◌∷◌, Bool, true, false, ◌&&◌, leb, Yields, Yields-bind, Yields-then,
  ◌+◌, ◌%◌, ◌^◌, not,
}
use simple_quic.Utils.Interval.Sets.{
  IntervalSet, add_interval, add_interval_set, contain, get_start, get_end,
}
use simple_quic.Payload.Packet.Whole.{Packet, packet_len}
use simple_quic.Context.Congestion.{
  Congestion, ConnectionState, is_established, packet_acked, packet_miss_callback,
  three_time_no_new_ack_callback,
}
use simple_quic.Context.Congestion.Kept.{if-state, packet_acked-Leaves}
use simple_quic.Context.Queue.{num_of, single}
use simple_quic.Context.Ledger.{
  TimeVal, AckTimer, PtoTimer, Ledger, Sweep, add_rec_pkt, add_need_ack_rec_pkt,
  add_acked_sent_pkt_num, update_largest_acked_packet, larger_end, get_need_ack_rec_pkt, add_timers,
  rem_need_ack_pkt, sweep, sweep_by, new_sweep, after_miss, after_old, count_three,
}

-- The ledger has the same state.
abbrev pub Same : ConnectionState → Ledger → Type 0
Same s l = l.congestion.cur_state ≡ s

pub add_rec_pkt-Same :
    (p : Packet) (l : Ledger) → Yields (Same l.congestion.cur_state) (add_rec_pkt p l)
unfolding add_rec_pkt
add_rec_pkt-Same p l =
    Yields-then _ (add_interval (single (num_of p)) l.rec_pkt_num) _ (λ nums. refl)

pub add_need_ack_rec_pkt-Same :
    (now : TimeVal) (p : Packet) (l : Ledger)
    → Yields (Same l.congestion.cur_state) (add_need_ack_rec_pkt now p l)
unfolding add_need_ack_rec_pkt
add_need_ack_rec_pkt-Same now p l =
    Yields-then _ (add_interval (single (num_of p)) l.rec_pkt_num) _
      λ nums. Yields-then _ (packet_len p) _ (λ len. refl)

pub add_acked_sent_pkt_num-Same :
    (acked : IntervalSet) (l : Ledger)
    → Yields (Same l.congestion.cur_state) (add_acked_sent_pkt_num acked l)
unfolding add_acked_sent_pkt_num
add_acked_sent_pkt_num-Same acked l =
    Yields-then _ (add_interval_set l.acked_sent_pkt_num acked) _ (λ nums. refl)

pub update_largest_acked_packet-Same :
    (acked : IntervalSet) (l : Ledger)
    → Yields (Same l.congestion.cur_state) (update_largest_acked_packet acked l)
unfolding update_largest_acked_packet
update_largest_acked_packet-Same acked l =
    Yields-then _ (larger_end (get_start acked) (get_end acked)) _ (λ n. refl)

pub get_need_ack_rec_pkt-Same :
    (l : Ledger)
    → Yields
        (λ (r : IntervalSet × Ledger). Same l.congestion.cur_state r.1)
        (get_need_ack_rec_pkt l)
unfolding get_need_ack_rec_pkt
get_need_ack_rec_pkt-Same l =
    Yields-then _ (add_timers l.not_acked_rec_pkt []) _
      λ set. Yields-then _ (add_interval_set set l.rec_pkt_num) _ (λ set'. refl)

sweep_by-state :
    (acked added : Bool) (now : TimeVal) (ptos : List PtoTimer) (t : AckTimer) (s : Sweep)
    → Yields
        (λ s'. s'.congestion.cur_state ≡ s.congestion.cur_state)
        (sweep_by acked added now ptos t s)
unfolding sweep_by
sweep_by-state false false now ptos t s =
    Yields-then _ (add_interval (single t.pkt_num) s.added) _ (λ nums. refl)
sweep_by-state true false now ptos t s =
    Yields-then _ (add_interval (single t.pkt_num) s.added) _ λ nums.
      Yields-bind _ _ (packet_acked t.pkt_len s.congestion) _
        (packet_acked-Leaves t.pkt_len s.congestion) (λ c e. e)
sweep_by-state true true now ptos t s = refl
sweep_by-state false true now ptos t s = refl

sweep-state :
    (now : TimeVal) (acked : IntervalSet) (ptos : List PtoTimer) (ts : List AckTimer) (s : Sweep)
    (state : ConnectionState)
    → s.congestion.cur_state ≡ state
    → Yields (λ s'. s'.congestion.cur_state ≡ state) (sweep now acked ptos ts s)
unfolding sweep
sweep-state now acked ptos [] s state e = e
sweep-state now acked ptos (t ∷ ts) s state e =
    Yields-bind _ _ (sweep_by (contain acked t.pkt_num) (contain s.added t.pkt_num) now ptos t s) _
      (sweep_by-state (contain acked t.pkt_num) (contain s.added t.pkt_num) now ptos t s)
      (λ s' e'. sweep-state now acked ptos ts s' state (e' ∙ e))

after_miss-state : (s : Sweep) (c : Congestion) → (after_miss s c).cur_state ≡ c.cur_state
unfolding after_miss packet_miss_callback
after_miss-state s c =
    if-state (s.is_packet_miss && is_established c.cur_state) (packet_miss_callback c) c c.cur_state
      refl refl

count_three-state : (c : Congestion) → (count_three c).cur_state ≡ c.cur_state
unfolding count_three three_time_no_new_ack_callback
count_three-state c =
    let n = (c.three_times_ack + 1) % 2 ^ 64 in
    if-state (leb 13 n) (record (three_time_no_new_ack_callback c) { three_times_ack = 0 })
      (record c { three_times_ack = n }) c.cur_state refl refl

after_old-state : (s : Sweep) (c : Congestion) → (after_old s c).cur_state ≡ c.cur_state
unfolding after_old
after_old-state s c =
    if-state (not s.have_new_acked && (s.have_not_acked && is_established c.cur_state))
      (count_three c) c c.cur_state (count_three-state c) refl

pub rem_need_ack_pkt-Same :
    (now : TimeVal) (acked : IntervalSet) (l : Ledger)
    → Yields (Same l.congestion.cur_state) (rem_need_ack_pkt now acked l)
unfolding rem_need_ack_pkt new_sweep
rem_need_ack_pkt-Same now acked l =
    Yields-bind _ _
      (sweep now acked l.not_acked_sent_pkt_pto l.not_acked_sent_pkt (new_sweep l.congestion)) _
      (sweep-state now acked l.not_acked_sent_pkt_pto l.not_acked_sent_pkt (new_sweep l.congestion)
        l.congestion.cur_state refl)
      (λ s e. after_old-state s (after_miss s s.congestion) ∙ after_miss-state s s.congestion ∙ e)
