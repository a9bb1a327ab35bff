-- ===== src/Context/Ledger/Examples.antt =====
-- A ledger of two packets sent, and the theorems at it.
use simple_quic.Common.{ℕ, ◌≡◌, refl, [], ◌∷◌, map, ok, arith, inr}
use simple_quic.Utils.Interval.Sets.{IntervalSet, contain}
use simple_quic.Context.Queue.{single}
use simple_quic.Utils.Interval.{holds}
use simple_quic.Context.Queue.Examples.{numbered}
use simple_quic.Context.Congestion.{
  Congestion, ConnectionState, CongestionState, packet_acked, is_established,
  update_congestion_window_by_ack,
}
use simple_quic.Context.Ledger.{TimeVal, AckTimer, Ledger, refreshed, rem_need_ack_pkt}
use simple_quic.Context.Ledger.Acked.{rem_need_ack_pkt-unacked, Lands}
use simple_quic.Context.Ledger.Room.{HasRoom, bytes_of}
use simple_quic.Context.Ledger.Timers.{unacked, landed, land_each}
use simple_quic.Context.Ledger.Invariant.{IsLedger, rem_need_ack_pkt-IsLedger}
use simple_quic.Payload.Packet.{get_pkt_num}

abbrev at_ten : TimeVal
at_ten = record { sec = 10; usec = 4000 }

abbrev pub timer : ℕ → ℕ → AckTimer
timer n i = record { pkt_num = n; rem_time = 9000; idx = i; pkt_len = 100 }

abbrev pub open_window : Congestion
open_window = record {
  cur_state = ConnectionState.established;
  window = 4000;
  threshold = 5000;
  state = CongestionState.slow_start;
  on_flight = 200;
  three_times_ack = 0;
}

-- Packet 1 has been sent twice, packet 2 once.
abbrev pub two_sent : Ledger
two_sent = record {
  sent_pkt = numbered 1 ∷ numbered 2 ∷ numbered 1 ∷ [];
  rec_pkt = [];
  sent_pkt_num = [];
  rec_pkt_num = [];
  acked_sent_pkt_num = [];
  not_acked_rec_pkt = [];
  not_acked_sent_pkt = timer 1 0 ∷ timer 2 1 ∷ timer 1 2 ∷ [];
  not_acked_sent_pkt_pto =
      record { pkt_num = 1; pto_expire_time = 9600 }
      ∷ record { pkt_num = 2; pto_expire_time = 9600 }
      ∷ record { pkt_num = 1; pto_expire_time = 9700 }
      ∷ [];
  pto = 600;
  latest_rtt = 0;
  larget_acked_packet = 0;
  congestion = open_window;
}

pub two_sent-IsLedger : IsLedger two_sent
unfolding get_pkt_num
two_sent-IsLedger = record {
  timed = (
    (numbered 1, refl, refl, omega arith),
    ((numbered 2, refl, refl, omega arith), ((numbered 1, refl, refl, omega arith), tt)),
  );
  paired = (refl, (refl, (refl, tt)));
  ordered = tt;
}

abbrev acked_two : IntervalSet
acked_two = single 2 ∷ []

rem_need_ack_pkt-unacked_example :
    Lands at_ten acked_two two_sent
      (land_each (landed acked_two [] two_sent.not_acked_sent_pkt) open_window)
rem_need_ack_pkt-unacked_example =
    rem_need_ack_pkt-unacked at_ten acked_two two_sent
      (omega arith, (omega arith, (omega arith, tt))) (refl, (refl, (refl, tt)))

-- The window of 4000 grows by 100.
lands_two :
    land_each (landed acked_two [] two_sent.not_acked_sent_pkt) open_window
    ≡ ok (record open_window { window = 4100; on_flight = 100 })
unfolding landed contain holds packet_acked is_established update_congestion_window_by_ack
lands_two = refl

pub two_sent-HasRoom : HasRoom (bytes_of two_sent.not_acked_sent_pkt) two_sent.congestion
two_sent-HasRoom = inr (omega arith, omega arith)

rem_need_ack_pkt-IsLedger_example :
    (l' : Ledger) × (rem_need_ack_pkt at_ten acked_two two_sent ≡ ok l')
    × IsLedger l'
    × HasRoom (bytes_of l'.not_acked_sent_pkt) l'.congestion
    × (l'.not_acked_sent_pkt
        ≡ map (refreshed at_ten) (unacked acked_two [] two_sent.not_acked_sent_pkt))
    × (l'.acked_sent_pkt_num ≡ [])
rem_need_ack_pkt-IsLedger_example =
    rem_need_ack_pkt-IsLedger at_ten acked_two two_sent two_sent-IsLedger two_sent-HasRoom

-- Of the two timers of packet 1, the first is kept.
keeps_one :
    map (refreshed at_ten) (unacked acked_two [] two_sent.not_acked_sent_pkt)
    ≡ record (timer 1 0) { rem_time = 10004 } ∷ []
unfolding unacked contain holds
keeps_one = refl
