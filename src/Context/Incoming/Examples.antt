-- ===== src/Context/Incoming/Examples.antt =====
-- An open and a closed connection, and the theorems at them.
use simple_quic.Common.{ℕ, ◌≡◌, [], ◌∷◌, map, ok, arith, ◌||◌, inl, refl}
use simple_quic.Utils.Interval.Sets.{IntervalSet, contain}
use simple_quic.Payload.Packet.Examples.{some_id}
use simple_quic.Context.Queue.{single}
use simple_quic.Context.Congestion.{ConnectionState, is_established}
use simple_quic.Context.Streams.Examples.{one_stream}
use simple_quic.Context.Ledger.{TimeVal, refreshed, whether_acked_pkt_num}
use simple_quic.Context.Ledger.Timers.{unacked}
use simple_quic.Context.Ledger.Examples.{two_sent, two_sent-IsLedger, two_sent-HasRoom}
use simple_quic.Context.Sending.Examples.{one_waits, one_waits-IsQueue}
use simple_quic.Context.Sending.Sent.{IsSender}
use simple_quic.Context.Incoming.{Connection, on_ack}
use simple_quic.Context.Incoming.Acks.{IsSound, on_ack-IsSender}

abbrev pub open_one : Connection
open_one = record {
  local = some_id;
  remote = some_id;
  sender = one_waits;
  streams = one_stream;
  now_pkt_num = 5;
  connection_close_pkt_num = 0;
  start_wait_for_peer = 0;
  rtt = record {
    latest_acked_sent_pkt_num = [];
    smoothed_rtt = 500;
    rtt_var = 250;
    min_rtt = 0;
    first_rtt_sample = 0;
  };
  unsent = [];
  congested_by_flow = 0;
}

abbrev pub closed_one : Connection
closed_one = record open_one {
  sender = record one_waits {
    ledger = record two_sent {
      congestion = record two_sent.congestion { cur_state = ConnectionState.closed };
    };
  };
}

open_one-IsSender : IsSender open_one.sender
open_one-IsSender = record { queue = one_waits-IsQueue; ledger = two_sent-IsLedger }

closed_one-IsSender : IsSender closed_one.sender
closed_one-IsSender = record {
  queue = one_waits-IsQueue;
  ledger = record {
    timed = two_sent-IsLedger.timed;
    paired = two_sent-IsLedger.paired;
    ordered = two_sent-IsLedger.ordered;
  };
}

abbrev pub now : TimeVal
now = record { sec = 20; usec = 0 }

abbrev pub acked_two : IntervalSet
acked_two = single 2 ∷ []

pub open_one-IsSound : IsSound open_one
open_one-IsSound = record { sender = open_one-IsSender; room = two_sent-HasRoom; ordered = tt }

pub closed_one-IsSound : IsSound closed_one
unfolding is_established
closed_one-IsSound = record { sender = closed_one-IsSender; room = inl refl; ordered = tt }

on_ack-IsSender_example :
    (c' : Connection) × (on_ack now acked_two open_one ≡ ok c')
    × IsSound c'
    × (c'.sender.queue ≡ one_waits.queue)
    × (c'.sender.ledger.not_acked_sent_pkt
        ≡ map (refreshed now) (unacked acked_two [] two_sent.not_acked_sent_pkt))
    × ((x : ℕ)
        → whether_acked_pkt_num x c'.sender.ledger
          ≡ whether_acked_pkt_num x two_sent || contain acked_two x)
on_ack-IsSender_example =
    on_ack-IsSender now acked_two open_one open_one-IsSound (omega arith, omega arith, tt)
