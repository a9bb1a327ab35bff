-- ===== src/Context/Congestion/Examples.antt =====
-- A connection in two states of its congestion control, and what an acknowledgement does to it.
use simple_quic.Common.{◌≡◌, refl, ok, err, Error}
use simple_quic.Context.Congestion.{
  Congestion, ConnectionState, CongestionState, is_established, update_congestion_window_by_ack,
  three_time_no_new_ack_callback, packet_acked,
}

abbrev starting : Congestion
starting = record {
  cur_state = ConnectionState.established;
  window = 4000;
  threshold = 5000;
  state = CongestionState.slow_start;
  on_flight = 1000;
  three_times_ack = 0;
}

halves : (three_time_no_new_ack_callback starting).window ≡ 2000
unfolding three_time_no_new_ack_callback
halves = refl

lands :
    packet_acked 1080 starting
    ≡ ok (record starting {
      window = 5080;
      state = CongestionState.congestion_avoidance;
      on_flight = 0;
    })
unfolding packet_acked update_congestion_window_by_ack is_established
lands = refl

-- A window of 0 in congestion avoidance.
abbrev without_window : Congestion
without_window = record starting { window = 0; state = CongestionState.congestion_avoidance }

divides : packet_acked 1080 without_window ≡ err Error.division_by_zero
unfolding packet_acked update_congestion_window_by_ack is_established
divides = refl
