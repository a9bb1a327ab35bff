-- ===== src/Context/Congestion/Kept.antt =====
-- Congestion control does not change the state of the connection.
use simple_quic.Common.{
  ℕ, ◌-◌, ◌%◌, ◌^◌, ◌+◌, ◌≡◌, refl, ◌∙◌, Bool, true, false, ltb, if◌then◌else◌, Result, ok, err,
  Error, ◌==◌, Yields, Yields-weaken,
}
use simple_quic.Context.Congestion.{
  Congestion, ConnectionState, CongestionState, is_established, packet_acked, window_by,
  grown_window, divided_window, update_congestion_window_by_ack,
}

pub if-state :
    (b : Bool) (x y : Congestion) (s : ConnectionState)
    → x.cur_state ≡ s
    → y.cur_state ≡ s
    → (if b then x else y).cur_state ≡ s
if-state true x y s e e' = e
if-state false x y s e e' = e'

-- The state is `s`, where the call returns.
abbrev pub Leaves : ConnectionState → Result Congestion → Type 0
Leaves s r = Yields (λ d. d.cur_state ≡ s) r

pub if-Leaves :
    (b : Bool) (x y : Result Congestion) (s : ConnectionState)
    → Leaves s x
    → Leaves s y
    → Leaves s (if b then x else y)
if-Leaves true x y s e e' = e
if-Leaves false x y s e e' = e'

divided_window-Leaves : (len : ℕ) (c : Congestion) → Leaves c.cur_state (divided_window len c)
unfolding divided_window
divided_window-Leaves len c = if-Leaves (c.window == 0) (err Error.division_by_zero) _ _ tt refl

window_by-Leaves :
    (s : CongestionState) (len : ℕ) (c : Congestion) → Leaves c.cur_state (window_by s len c)
unfolding window_by grown_window
window_by-Leaves CongestionState.slow_start len c =
    let w = (c.window + len) % 2 ^ 64 in
    if-state (ltb c.threshold w)
      (record c { window = w; state = CongestionState.congestion_avoidance })
      (record c { window = w }) c.cur_state refl refl
window_by-Leaves CongestionState.recovery len c = divided_window-Leaves len c
window_by-Leaves CongestionState.congestion_avoidance len c = divided_window-Leaves len c

pub packet_acked-Leaves : (len : ℕ) (c : Congestion) → Leaves c.cur_state (packet_acked len c)
unfolding packet_acked update_congestion_window_by_ack
packet_acked-Leaves len c =
    let landed : Congestion =
      if ltb len c.on_flight
      then record c { on_flight = c.on_flight - len }
      else record c { on_flight = 0 } in
    let same : landed.cur_state ≡ c.cur_state =
      if-state (ltb len c.on_flight) (record c { on_flight = c.on_flight - len })
        (record c { on_flight = 0 }) c.cur_state refl refl in
    if-Leaves (is_established c.cur_state) (window_by landed.state len landed) (ok c) c.cur_state
      (Yields-weaken _ _ (window_by landed.state len landed)
        (window_by-Leaves landed.state len landed) (λ d e. e ∙ same))
      refl
