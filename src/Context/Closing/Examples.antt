-- ===== src/Context/Closing/Examples.antt =====
-- A connection that can be closed.
use simple_quic.Common.{◌≡◌, refl, false, arith}
use simple_quic.Payload.Packet.{get_pkt_num}
use simple_quic.Context.Queue.Invariant.{waits}
use simple_quic.Context.Sending.Examples.{one_waits-IsQueue}
use simple_quic.Context.Incoming.Examples.{open_one}
use simple_quic.Context.Closing.Waiting.{IsNextFree}

six_free : waits open_one.sender.queue.pending 6 ≡ false
unfolding get_pkt_num
six_free = refl

pub open_one-IsNextFree : IsNextFree open_one
open_one-IsNextFree = record { queue = one_waits-IsQueue; small = omega arith; free = six_free }
