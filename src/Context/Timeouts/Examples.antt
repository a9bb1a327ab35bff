-- ===== src/Context/Timeouts/Examples.antt =====
-- An idle connection and a packet that waits for its acknowledgement, and the theorems at them.
use simple_quic.Common.{ℕ, ◌≡◌, refl, [], ◌∷◌, true, false, ◌&&◌, ◌||◌, ok, some, arith}
use simple_quic.Utils.Interval.Sets.{IntervalSet, contain}
use simple_quic.Utils.Interval.Add.{IsOrdered}
use simple_quic.Payload.Frame.{Frame}
use simple_quic.Payload.Packet.Whole.{Packet}
use simple_quic.Payload.Packet.Examples.{some_id}
use simple_quic.Context.Queue.{single}
use simple_quic.Context.Queue.Invariant.{IsQueue}
use simple_quic.Context.Streams.{PeerType, check_valid_stream}
use simple_quic.Context.Ledger.{TimeVal, Ledger, have_received_pkt}
use simple_quic.Context.Ledger.Received.{is_timed}
use simple_quic.Context.Ledger.Examples.{two_sent, timer}
use simple_quic.Context.Incoming.{Connection, state_of}
use simple_quic.Context.Incoming.Examples.{open_one}
use simple_quic.Context.Closing.Examples.{open_one-IsNextFree}
use simple_quic.Context.Timeouts.{
  get_spe_ack_packet, ack_packet, idle_timeout, is_idle, may_ping, front_is_ping,
}
use simple_quic.Context.Timeouts.Acks.{due_timers, other_timers, get_spe_ack_packet-contain}
use simple_quic.Context.Timeouts.Idle.{idle_timeout-once}

abbrev now : TimeVal
now = record { sec = 20; usec = 0 }

-- Packets 4 and 7 have been received, and 7 waits for its acknowledgement.
abbrev some_received : Ledger
some_received = record two_sent {
  rec_pkt_num = single 7 ∷ single 4 ∷ [];
  not_acked_rec_pkt = timer 7 0 ∷ [];
}

get_spe_ack_packet-contain_example :
    (u : IntervalSet) × (get_spe_ack_packet now some_id some_received
      ≡ ok (ack_packet some_id u (other_timers now some_received (timer 7 0 ∷ [])) some_received))
    × IsOrdered u
    × ((x : ℕ)
        → contain u x
          ≡ is_timed (due_timers now some_received (timer 7 0 ∷ [])) x
            || have_received_pkt x some_received)
get_spe_ack_packet-contain_example =
    get_spe_ack_packet-contain now some_id some_received (omega arith, tt)
      (omega arith, omega arith, (omega arith, omega arith, tt))

is_idle-open : is_idle now open_one.sender && check_valid_stream open_one.streams.states ≡ true
unfolding is_idle check_valid_stream
is_idle-open = refl

open_one-may : may_ping (state_of open_one) ≡ true
unfolding may_ping state_of
open_one-may = refl

open_one-front : front_is_ping open_one.sender.queue ≡ false
unfolding front_is_ping
open_one-front = refl

idle_timeout-once_example :
    (c' : Connection) × (p : Packet) × (idle_timeout PeerType.client now open_one ≡ ok c')
    × IsQueue c'.sender.queue
    × (c'.sender.queue.pending ≡ p ∷ open_one.sender.queue.pending)
    × (p.payload ≡ some (Frame.ping ∷ []))
    × (state_of c' ≡ state_of open_one)
    × ((later : TimeVal) → idle_timeout PeerType.client later c' ≡ ok c')
idle_timeout-once_example =
    idle_timeout-once PeerType.client now open_one (timer 1 0) (timer 2 1 ∷ timer 1 2 ∷ [])
      open_one-IsNextFree is_idle-open refl open_one-may open_one-front
