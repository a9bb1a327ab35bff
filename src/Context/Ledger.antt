-- ===== src/Context/Ledger.antt =====
-- What a Connection of context/connection.hh records of the packets it has sent and received. A
-- call of gettimeofday is a parameter `now`. The map newlatestACKedSentPktNum, a local variable of
-- remNeedACKPkt that is written only, is left out.
pub mod Timers
pub mod Acked
pub mod Room
pub mod Invariant
pub mod Received
pub mod Kept
pub mod Examples
use simple_quic.Common.{
  ℕ, suc, ◌+◌, ◌-◌, ◌*◌, ◌/◌, ◌%◌, ◌^◌, List, [], ◌∷◌, ◌++◌, Bool, true, false, not, ◌&&◌, ◌||◌,
  length, get_elem?, max, ltb, leb, if◌then◌else◌, Result, ok, err, Error, ◌>>=◌, Option, none,
  some,
}
use simple_quic.Utils.Interval.Sets.{
  IntervalSet, contain, add_interval, add_interval_set, get_start, get_end,
}
use simple_quic.Payload.Packet.Whole.{Packet, packet_len}
use simple_quic.Context.Queue.{num_of, single}
use simple_quic.Context.Congestion.{
  Congestion, is_established, packet_acked, packet_miss_callback, three_time_no_new_ack_callback,
}

pub record TimeVal : Type 0 where
  pub sec : ℕ
  pub usec : ℕ

-- tv_sec * 1000 + tv_usec / 1000
abbrev pub msec_of : TimeVal → ℕ
msec_of now = (now.sec * 1000 + now.usec / 1000) % 2 ^ 64

pub record AckTimer : Type 0 where
  pub pkt_num : ℕ
  pub rem_time : ℕ
  pub idx : ℕ
  pub pkt_len : ℕ

pub record PtoTimer : Type 0 where
  pub pkt_num : ℕ
  pub pto_expire_time : ℕ

pub record Ledger : Type 0 where
  pub sent_pkt : List Packet
  pub rec_pkt : List Packet
  pub sent_pkt_num : IntervalSet
  pub rec_pkt_num : IntervalSet
  pub acked_sent_pkt_num : IntervalSet
  pub not_acked_rec_pkt : List AckTimer
  pub not_acked_sent_pkt : List AckTimer
  pub not_acked_sent_pkt_pto : List PtoTimer
  pub pto : ℕ
  pub latest_rtt : ℕ
  pub larget_acked_packet : ℕ
  pub congestion : Congestion

unfoldable pub add_need_ack_rec_pkt : TimeVal → Packet → Ledger → Result Ledger
add_need_ack_rec_pkt now p l = do
  nums ← add_interval (single (num_of p)) l.rec_pkt_num
  len ← packet_len p
  ok (record l {
    rec_pkt = l.rec_pkt ++ (p ∷ []);
    rec_pkt_num = nums;
    not_acked_rec_pkt =
        l.not_acked_rec_pkt
        ++ (record {
          pkt_num = num_of p;
          rem_time = now.usec;
          idx = length l.rec_pkt;
          pkt_len = len;
        }
            ∷ []);
  })

unfoldable pub add_need_ack_sent_pkt : TimeVal → Packet → Ledger → Result Ledger
add_need_ack_sent_pkt now p l = do
  len ← packet_len p
  ok (record l {
    sent_pkt = l.sent_pkt ++ (p ∷ []);
    not_acked_sent_pkt =
        l.not_acked_sent_pkt
        ++ (record {
          pkt_num = num_of p;
          rem_time = now.sec * 1000 % 2 ^ 64;
          idx = length l.sent_pkt;
          pkt_len = len;
        }
            ∷ []);
    not_acked_sent_pkt_pto =
        l.not_acked_sent_pkt_pto
        ++ (record { pkt_num = num_of p; pto_expire_time = (l.pto + msec_of now) % 2 ^ 64 } ∷ []);
  })

unfoldable pub add_rec_pkt : Packet → Ledger → Result Ledger
add_rec_pkt p l = do
  nums ← add_interval (single (num_of p)) l.rec_pkt_num
  ok (record l { rec_pkt_num = nums; rec_pkt = l.rec_pkt ++ (p ∷ []) })

unfoldable pub add_sent_pkt : Packet → Ledger → Result Ledger
add_sent_pkt p l = do
  nums ← add_interval (single (num_of p)) l.sent_pkt_num
  ok (record l { sent_pkt_num = nums; sent_pkt = l.sent_pkt ++ (p ∷ []) })

-- `sentPkt[idx]` past the end is undefined.
unfoldable pub get_sent_pkt_by_idx : ℕ → Ledger → Result Packet
get_sent_pkt_by_idx i l = elim (get_elem? l.sent_pkt i) [
  | some p ↦ ok p
  | none ↦ err Error.out_of_bounds
]

unfoldable pub have_received_pkt : ℕ → Ledger → Bool
have_received_pkt pn l = contain l.rec_pkt_num pn

unfoldable pub add_acked_sent_pkt_num : IntervalSet → Ledger → Result Ledger
add_acked_sent_pkt_num acked l = do
  nums ← add_interval_set l.acked_sent_pkt_num acked
  ok (record l { acked_sent_pkt_num = nums })

-- GetStart and GetEnd, which are undefined for an empty set, and the larger of them.
pub larger_end : Option ℕ → Option ℕ → Result ℕ
larger_end (some start) (some end) = ok (max start end)
larger_end _ _ = err Error.out_of_bounds

-- updateLargestACKedPacket. A uint64_t never equals INFINITY.
unfoldable pub update_largest_acked_packet : IntervalSet → Ledger → Result Ledger
unfolding larger_end
update_largest_acked_packet acked l = do
  n ← larger_end (get_start acked) (get_end acked)
  ok (record l { larget_acked_packet = max l.larget_acked_packet n })

unfoldable pub whether_acked_pkt_num : ℕ → Ledger → Bool
whether_acked_pkt_num pn l = contain l.acked_sent_pkt_num pn

-- The first loop of getNeedACKRecPkt.
unfoldable pub add_timers : List AckTimer → IntervalSet → Result IntervalSet
add_timers [] set = ok set
add_timers (t ∷ ts) set = do set' ← add_interval (single t.pkt_num) set; add_timers ts set'

-- The set that getNeedACKRecPkt returns and GetACKFrameForRecPackages puts into its frame, and the
-- ledger that both leave.
unfoldable pub get_need_ack_rec_pkt : Ledger → Result (IntervalSet × Ledger)
unfolding add_timers
get_need_ack_rec_pkt l = do
  set ← add_timers l.not_acked_rec_pkt []
  set' ← add_interval_set set l.rec_pkt_num
  ok (set', record l { not_acked_rec_pkt = [] })

-- The local variables of the loop in remNeedACKPkt.
pub record Sweep : Type 0 where
  pub kept : List AckTimer
  pub kept_pto : List PtoTimer
  pub added : IntervalSet
  pub count : ℕ
  pub is_packet_miss : Bool
  pub have_not_acked : Bool
  pub have_new_acked : Bool
  pub congestion : Congestion

-- The element of the inner loop over notACKedSentPktPTO where iterator_count is count, if any.
abbrev pub pto_at : List PtoTimer → ℕ → List PtoTimer
pto_at ptos n = elim (get_elem? ptos n) [ some p ↦ p ∷ [] | none ↦ [] ]

-- The timer that is put into the new list.
abbrev pub refreshed : TimeVal → AckTimer → AckTimer
refreshed now t = record t { rem_time = msec_of now }

-- The body of the loop, where the packet is acknowledged or not and has been added or not.
unfoldable pub sweep_by :
    (acked added : Bool) → TimeVal → List PtoTimer → AckTimer → Sweep → Result Sweep
sweep_by false false now ptos t s = do
  nums ← add_interval (single t.pkt_num) s.added
  ok (record s {
    kept = s.kept ++ (refreshed now t ∷ []);
    kept_pto = s.kept_pto ++ pto_at ptos s.count;
    added = nums;
    count = suc s.count;
  })
sweep_by true false now ptos t s = do
  nums ← add_interval (single t.pkt_num) s.added
  c ← packet_acked t.pkt_len s.congestion
  ok (record s {
    added = nums;
    is_packet_miss = s.is_packet_miss || (s.have_not_acked && not s.have_new_acked);
    have_new_acked = true;
    congestion = c;
    count = suc s.count;
  })
sweep_by acked true now ptos t s = ok (record s { count = suc s.count })

unfoldable pub sweep : TimeVal → IntervalSet → List PtoTimer → List AckTimer → Sweep → Result Sweep
unfolding sweep_by
sweep now acked ptos [] s = ok s
sweep now acked ptos (t ∷ ts) s = do
  s' ← sweep_by (contain acked t.pkt_num) (contain s.added t.pkt_num) now ptos t s
  sweep now acked ptos ts s'

unfoldable pub new_sweep : Congestion → Sweep
new_sweep c = record {
  kept = [];
  kept_pto = [];
  added = [];
  count = 0;
  is_packet_miss = false;
  have_not_acked = false;
  have_new_acked = false;
  congestion = c;
}

-- `if (_isPacketMiss && …)`
after_miss : Sweep → Congestion → Congestion
after_miss s c =
    if s.is_packet_miss && is_established c.cur_state then packet_miss_callback c else c

count_three : Congestion → Congestion
count_three c =
    let n = (c.three_times_ack + 1) % 2 ^ 64 in
    if leb 13 n
    then record (three_time_no_new_ack_callback c) { three_times_ack = 0 }
    else record c { three_times_ack = n }

-- `if (!_haveNewACKed && _haveNotACKed && …)`
after_old : Sweep → Congestion → Congestion
unfolding count_three
after_old s c =
    if not s.have_new_acked && (s.have_not_acked && is_established c.cur_state)
    then count_three c
    else c

unfoldable pub rem_need_ack_pkt : TimeVal → IntervalSet → Ledger → Result Ledger
unfolding after_miss after_old
rem_need_ack_pkt now acked l = do
  s ← sweep now acked l.not_acked_sent_pkt_pto l.not_acked_sent_pkt (new_sweep l.congestion)
  ok (record l {
    not_acked_sent_pkt = s.kept;
    not_acked_sent_pkt_pto = s.kept_pto;
    congestion = after_old s (after_miss s s.congestion);
  })
