-- ===== src/Context/Queue.antt =====
-- The packets that a Connection of context/connection.hh waits to send: pendingPackets,
-- whetherNeedACK and toSendPktNum. pendingPacketsCallback is left out, since nothing fills it.
pub mod Invariant
pub mod Examples
use simple_quic.Common.{
  ℕ, List, [], ◌∷◌, ◌++◌, Bool, Result, ok, err, Error, ◌>>=◌, Option, none, some,
}
use simple_quic.Utils.Interval.{Interval}
use simple_quic.Utils.Interval.Sets.{IntervalSet, contain, add_interval, remove_interval}
use simple_quic.Payload.Packet.{get_pkt_num}
use simple_quic.Payload.Packet.Whole.{Packet}

pub record Queue : Type 0 where
  pub pending : List Packet
  pub need_ack : List Bool
  pub to_send : IntervalSet

-- Packet::GetPktNum
abbrev pub num_of : Packet → ℕ
num_of p = get_pkt_num p.header

-- [pn, pn]
abbrev pub single : ℕ → Interval
single pn = record { start = pn; end = pn }

unfoldable pub add_packet : Packet → Queue → Result Queue
add_packet p q = do
  set ← add_interval (single (num_of p)) q.to_send
  ok (record q { pending = q.pending ++ (p ∷ []); to_send = set })

unfoldable pub add_packet_to_front : Packet → Queue → Result Queue
add_packet_to_front p q = do
  set ← add_interval (single (num_of p)) q.to_send
  ok (record q { pending = p ∷ q.pending; to_send = set })

unfoldable pub add_whether_need_ack : Bool → Queue → Queue
add_whether_need_ack need q = record q { need_ack = q.need_ack ++ (need ∷ []) }

unfoldable pub add_whether_need_ack_to_front : Bool → Queue → Queue
add_whether_need_ack_to_front need q = record q { need_ack = need ∷ q.need_ack }

-- `front()` of an empty list is undefined.
unfoldable pub first_of : List Bool → Result Bool
first_of [] = err Error.out_of_bounds
first_of (b ∷ bs) = ok b

unfoldable pub get_pending_package_need_ack : Queue → Result Bool
unfolding first_of
get_pending_package_need_ack q = first_of q.need_ack

-- `pop_front()` of an empty list is undefined.
without_first {ℓ} : {A : Type ℓ} → List A → Result (List A)
without_first [] = err Error.out_of_bounds
without_first (b ∷ bs) = ok bs

unfoldable pub pop_whether_need_ack : Queue → Result Queue
unfolding without_first
pop_whether_need_ack q = do flags ← without_first q.need_ack; ok (record q { need_ack = flags })

unfoldable pub pop_pending : Queue → Result Queue
unfolding without_first
pop_pending q = do packets ← without_first q.pending; ok (record q { pending = packets })

unfoldable pub remove_to_send_pkt_num : ℕ → Queue → Result Queue
remove_to_send_pkt_num pn q = do
  set ← remove_interval (single pn) q.to_send
  ok (record q { to_send = set })

unfoldable pub whether_to_send_pkt_num : ℕ → Queue → Bool
whether_to_send_pkt_num pn q = contain q.to_send pn

-- AddPacket and AddWhetherNeedACK, which every caller calls together, and their variants at the
-- front.
unfoldable pub enqueue : Packet → Bool → Queue → Result Queue
unfolding add_packet add_whether_need_ack
enqueue p need q = do q' ← add_packet p q; ok (add_whether_need_ack need q')

unfoldable pub enqueue_front : Packet → Bool → Queue → Result Queue
unfolding add_packet_to_front add_whether_need_ack_to_front
enqueue_front p need q = do q' ← add_packet_to_front p q; ok (add_whether_need_ack_to_front need q')

-- RemoveToSendPktNum, pop_front and PopWhetherNeedACK, in this order, as SocketLoop calls them for
-- the packet at the front.
unfoldable pub dequeue : Packet → Queue → Result Queue
unfolding remove_to_send_pkt_num pop_pending pop_whether_need_ack
dequeue front q = do
  q' ← remove_to_send_pkt_num (num_of front) q
  q'' ← pop_pending q'
  pop_whether_need_ack q''
