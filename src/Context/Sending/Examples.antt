-- ===== src/Context/Sending/Examples.antt =====
-- A connection with a packet that waits and one that is late, and the theorems at it.
use simple_quic.Common.{◌≤◌, ◌≡◌, refl, ◌∙◌, List, [], ◌∷◌, ◌++◌, true, false, ok, some, arith, ◌⊎◌}
use simple_quic.Utils.ByteStream.{ByteStream, seek, get_free}
use simple_quic.Utils.Interval.Add.{contain-cons}
use simple_quic.Utils.Interval.Sets.{contain}
use simple_quic.Payload.Packet.{get_pkt_num}
use simple_quic.Payload.Packet.Whole.{Packet, parse_packet}
use simple_quic.Payload.Packet.Examples.{
  some_id, some_id-IsWellFormed, some_frames, some_frames-AllSendable, short_header,
}
use simple_quic.Context.Queue.{Queue, single}
use simple_quic.Context.Queue.Invariant.{IsQueue}
use simple_quic.Context.Ledger.{TimeVal, refreshed}
use simple_quic.Context.Ledger.Examples.{two_sent, two_sent-IsLedger}
use simple_quic.Context.Sending.{
  Sender, Sends, late, resend, new_packet, encode_datagram, send_loop,
}
use simple_quic.Context.Sending.Resend.{AllWait, resend-AllWait, late-refreshed}
use simple_quic.Context.Sending.Sent.{AllEncode, HasSent}
use simple_quic.Context.Sending.Loop.{send_loop-HasSent}
use simple_quic.Context.Sending.Datagram.{datagram-parse_packet, new_packet-parse_packet}

abbrev some_packet : Packet
some_packet = record { header = short_header; payload = some some_frames }

abbrev pub one_waits : Sender
one_waits = record {
  queue = record { pending = some_packet ∷ []; need_ack = true ∷ []; to_send = single 5 ∷ [] };
  ledger = two_sent;
  idle_time = 0;
  no_ack_elicity_packet_sent = true;
}

pub one_waits-IsQueue : IsQueue one_waits.queue
unfolding get_pkt_num contain
one_waits-IsQueue = record {
  once = (omega arith, refl, tt);
  ordered = (omega arith, omega arith, tt);
  numbers = λ x. contain-cons (single 5) [] x ∙ ground arith;
  flags = refl;
}

abbrev now : TimeVal
now = record { sec = 20; usec = 0 }

resend-AllWait_example :
    (q : Queue) × (more : List Packet) × (resend now one_waits
      ≡ ok (record one_waits { queue = q }))
    × IsQueue q
    × (q.pending ≡ (some_packet ∷ []) ++ more)
    × AllWait now q.pending two_sent.not_acked_sent_pkt
resend-AllWait_example = resend-AllWait now one_waits one_waits-IsQueue two_sent-IsLedger.timed

late-refreshed_example :
    late
      (record { sec = 20; usec = 5000 })
      (refreshed
        (record { sec = 20; usec = 2000 })
        (record { pkt_num = 1; rem_time = 0; idx = 0; pkt_len = 100 }))
    ≡ true
late-refreshed_example =
    late-refreshed (record { sec = 20; usec = 2000 }) (record { sec = 20; usec = 5000 })
      (record { pkt_num = 1; rem_time = 0; idx = 0; pkt_len = 100 }) refl (omega arith)
      (omega arith) (omega arith)

pub some_packet-AllEncode : AllEncode (some_packet ∷ [])
some_packet-AllEncode =
    let (len, b, size, run, full, back) =
      datagram-parse_packet short_header some_frames (omega arith, some_id-IsWellFormed)
        (refl, omega arith, omega arith) some_frames-AllSendable tt in
    ((len, b, size, run), tt)

abbrev none_sent : Sends
none_sent = record { sender = one_waits; sent_when_congested = 0; datagrams = [] }

send_loop-HasSent_example :
    (s' : Sends) × (front : List Packet) × (rest : List Packet) × (send_loop 1 false now none_sent
      ≡ ok s')
    × (some_packet ∷ [] ≡ front ++ rest)
    × HasSent front rest none_sent s'
    × ((rest ≡ []) ⊎ ((false ≡ true) ⊎ (2 ≤ s'.sent_when_congested)))
send_loop-HasSent_example =
    send_loop-HasSent false now none_sent
      (record { queue = one_waits-IsQueue; ledger = two_sent-IsLedger }) some_packet-AllEncode

new_packet-parse_packet_example :
    (p : Packet) × (b : ByteStream) × (new_packet some_id 5 some_frames ≡ ok p)
    × (encode_datagram p ≡ ok b)
    × (get_free b ≡ 0)
    × (parse_packet (seek 0 b) ≡ ok (p, b))
new_packet-parse_packet_example =
    new_packet-parse_packet some_id 5 some_frames (omega arith) some_id-IsWellFormed refl
      some_frames-AllSendable
