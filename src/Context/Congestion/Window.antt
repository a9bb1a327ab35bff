-- ===== src/Context/Congestion/Window.antt =====
-- What the window allows to send.
use simple_quic.Common.{ℕ, ◌<◌, ◌≡◌, true, arith}
use simple_quic.Context.Congestion.{
  Congestion, is_established, update_on_flight, whether_can_send_pkt,
}

-- A send that WhetherCanSendPkt allows on an established connection leaves the bytes in flight
-- below the window, which it does not move.
pub update_on_flight-window :
    (len : ℕ) (c : Congestion)
    → is_established c.cur_state ≡ true
    → whether_can_send_pkt len c ≡ true
    → ((update_on_flight len c).on_flight < (update_on_flight len c).window)
      × ((update_on_flight len c).window ≡ c.window)
unfolding update_on_flight whether_can_send_pkt
update_on_flight-window len c e h = let h' = rw e at h in rw e (ground (arith, h'))
