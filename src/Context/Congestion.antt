-- ===== src/Context/Congestion.antt =====
-- The congestion control of Connection, context/connection.hh.
pub mod Window
pub mod Kept
pub mod Examples
use simple_quic.Common.{
  ℕ, ◌+◌, ◌*◌, ◌-◌, ◌/◌, ◌%◌, ◌^◌, List, [], ◌∷◌, Bool, true, false, not, ◌||◌, ltb, if◌then◌else◌,
  ◌==◌, Result, ok, err, Error,
}

abbrev pub max_packet_length : ℕ
max_packet_length = 1080

pub data ConnectionState : Type 0 where
  created established peer_established wait_for_peer_close closed : ConnectionState

pub data CongestionState : Type 0 where
  slow_start recovery congestion_avoidance : CongestionState

-- The fields of Connection that congestion control reads and writes.
pub record Congestion : Type 0 where
  pub cur_state : ConnectionState
  pub window : ℕ
  pub threshold : ℕ
  pub state : CongestionState
  pub on_flight : ℕ
  pub three_times_ack : ℕ

unfoldable pub is_established : ConnectionState → Bool
is_established ConnectionState.established = true
is_established _ = false

unfoldable pub init_congestion_state : ℕ → ℕ → Congestion → Congestion
init_congestion_state init_cw init_threshold c = record c {
  window = init_cw;
  threshold = init_threshold;
  state = CongestionState.slow_start;
  on_flight = 0;
  three_times_ack = 0;
}

unfoldable pub packet_miss_callback : Congestion → Congestion
packet_miss_callback c = record c {
  threshold = c.window / 2;
  window = max_packet_length;
  state = CongestionState.slow_start;
}

unfoldable pub three_time_no_new_ack_callback : Congestion → Congestion
three_time_no_new_ack_callback c = record c { window = c.window / 2; threshold = c.window / 2 }

unfoldable pub grown_window : ℕ → Congestion → Congestion
grown_window w c =
    if ltb c.threshold w
    then record c { window = w; state = CongestionState.congestion_avoidance }
    else record c { window = w }

-- The other states than SLOW_START divide by the window.
unfoldable pub divided_window : ℕ → Congestion → Result Congestion
divided_window len c =
    if c.window == 0
    then err Error.division_by_zero
    else ok (record c { window = (c.window + max_packet_length * (len / c.window)) % 2 ^ 64 })

-- The branch of UpdateCongestionWindowByACK for each state.
unfoldable pub window_by : CongestionState → ℕ → Congestion → Result Congestion
unfolding grown_window divided_window
window_by CongestionState.slow_start len c = ok (grown_window ((c.window + len) % 2 ^ 64) c)
window_by _ len c = divided_window len c

unfoldable pub update_congestion_window_by_ack : ℕ → Congestion → Result Congestion
unfolding window_by
update_congestion_window_by_ack len c = window_by c.state len c

-- What remNeedACKPkt does to the bytes in flight and the window for a packet that is newly
-- acknowledged.
unfoldable pub packet_acked : ℕ → Congestion → Result Congestion
unfolding update_congestion_window_by_ack
packet_acked len c =
    let landed =
      if ltb len c.on_flight
      then record c { on_flight = c.on_flight - len }
      else record c { on_flight = 0 } in
    if is_established c.cur_state then update_congestion_window_by_ack len landed else ok c

unfoldable pub update_on_flight : ℕ → Congestion → Congestion
update_on_flight len c =
    if is_established c.cur_state then record c { on_flight = (c.on_flight + len) % 2 ^ 64 } else c

unfoldable pub whether_can_send_pkt : ℕ → Congestion → Bool
whether_can_send_pkt len c =
    not (is_established c.cur_state) || ltb ((c.on_flight + len) % 2 ^ 64) c.window
