-- ===== src/Context/Incoming/Frames/Examples.antt =====
-- A connection that its peer closes, and the theorem at it.
use simple_quic.Common.{ℕ, ◌≡◌, refl, [], ◌∷◌, ◌++◌, true, false, ok, some, ◌||◌, ◌==◌, arith}
use simple_quic.Utils.Interval.Sets.{IntervalSet, contain}
use simple_quic.Payload.Frame.{Frame}
use simple_quic.Payload.Packet.{get_pkt_num}
use simple_quic.Payload.Packet.Make.{make_short}
use simple_quic.Payload.Packet.Whole.{Packet}
use simple_quic.Payload.Packet.Examples.{some_id}
use simple_quic.Context.Congestion.{closed}
use simple_quic.Context.Queue.{num_of}
use simple_quic.Context.Queue.Invariant.{IsQueue}
use simple_quic.Context.Ledger.{TimeVal, have_received_pkt}
use simple_quic.Context.Ledger.Received.{is_timed}
use simple_quic.Context.Closing.Examples.{open_one-IsNextFree}
use simple_quic.Context.Incoming.{Handling, state_of, is_closed}
use simple_quic.Context.Incoming.Examples.{open_one}
use simple_quic.Context.Incoming.Frames.{on_connection_close}
use simple_quic.Context.Incoming.Frames.Peer.{IsReady, on_connection_close-drained}

abbrev close_packet_nine : Packet
close_packet_nine = record {
  header = make_short 1 some_id 9;
  payload = some (Frame.connection_close_quic 0 18 [] ∷ []);
}

abbrev at_open : Handling
at_open = record { connection = open_one; have_added_to_ack = false }

abbrev now : TimeVal
now = record { sec = 20; usec = 0 }

at_open-IsReady : IsReady close_packet_nine at_open
unfolding state_of is_closed have_received_pkt contain get_pkt_num make_short
at_open-IsReady = record {
  next = open_one-IsNextFree;
  small = omega arith;
  timers = tt;
  ordered = tt;
  alive = refl;
  first = refl;
  unseen = refl;
}

on_connection_close-drained_example :
    (h' : Handling) × (a : Packet) × (acked : IntervalSet) × (on_connection_close now
        close_packet_nine at_open
      ≡ ok (true, h'))
    × (state_of h'.connection ≡ closed)
    × IsQueue h'.connection.sender.queue
    × (h'.connection.sender.queue.pending ≡ open_one.sender.queue.pending ++ (a ∷ []))
    × (a.payload ≡ some (Frame.ack 0 acked ∷ []))
    × ((x : ℕ)
        → contain acked x
          ≡ (x == num_of close_packet_nine)
            || (is_timed [] x || have_received_pkt x open_one.sender.ledger))
    × ((later : TimeVal) → on_connection_close later close_packet_nine h' ≡ ok (false, h'))
on_connection_close-drained_example =
    on_connection_close-drained now close_packet_nine at_open at_open-IsReady
