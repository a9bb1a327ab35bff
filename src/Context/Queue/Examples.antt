-- ===== src/Context/Queue/Examples.antt =====
-- A queue of two packets, and the theorems at it.
use simple_quic.Common.{◌≡◌, refl, ◌∙◌, [], ◌∷◌, ◌++◌, true, false, ok, none, replicate, arith, ℕ}
use simple_quic.Context.ConnectionId.{ConnectionId}
use simple_quic.Payload.Packet.{Header, get_pkt_num}
use simple_quic.Payload.Packet.Whole.{Packet}
use simple_quic.Context.Queue.{Queue, single, enqueue}
use simple_quic.Utils.Interval.Sets.{contain}
use simple_quic.Utils.Interval.Add.{contain-cons}
use simple_quic.Context.Queue.Invariant.{IsQueue, enqueue-IsQueue}

abbrev blank_id : ConnectionId
blank_id = record { id = replicate 20 0; valid = true; len = 0 }

abbrev pub numbered : ℕ → Packet
numbered n = record { header = Header.short 0 blank_id n; payload = none }

abbrev waiting : Queue
waiting = record {
  pending = numbered 7 ∷ numbered 3 ∷ [];
  need_ack = true ∷ false ∷ [];
  to_send = record { start = 7; end = 7 } ∷ record { start = 3; end = 3 } ∷ [];
}

waiting-IsQueue : IsQueue waiting
unfolding contain get_pkt_num
waiting-IsQueue = record {
  once = (omega arith, refl, (omega arith, refl, tt));
  ordered = (omega arith, omega arith, (omega arith, omega arith, tt));
  numbers =
      λ x. contain-cons (single 7) (single 3 ∷ []) x ∙ ground (arith, contain-cons (single 3) [] x);
  flags = refl;
}

enqueue-IsQueue_example :
    (q' : Queue) × (enqueue (numbered 5) true waiting ≡ ok q')
    × IsQueue q'
    × (q'.pending ≡ waiting.pending ++ (numbered 5 ∷ []))
unfolding get_pkt_num
enqueue-IsQueue_example =
    enqueue-IsQueue (numbered 5) true waiting waiting-IsQueue (omega arith) refl
