-- ===== src/Context/Unsent.antt =====
-- The data that a Connection of context/connection.hh has not put into packets yet: AddToUnsentBuf,
-- GetPktFromUnsentBuf, and SendData of context/quic.cc for one connection.
-- The four vectors are pushed to and erased from together, so they are one list of buffers.
pub mod Chunks
pub mod Examples
use simple_quic.Common.{
  ℕ, ◌+◌, ◌-◌, ◌%◌, ◌^◌, min, List, [], ◌∷◌, ◌++◌, Bool, true, false, leb, if◌then◌else◌, length,
  take, drop, Option, none, some, Result, ok, err, Error, ◌>>=◌,
}
use simple_quic.Context.ConnectionId.{ConnectionId}
use simple_quic.Context.Stream.{Stream, get_update_offset, is_send_permitted}
use simple_quic.Context.Streams.{Streams, stream_at, set_stream, touch, is_send_size_permitted}
use simple_quic.Context.Queue.{Queue, enqueue}
use simple_quic.Context.Sending.{new_packet}
use simple_quic.Payload.Frame.{Frame, make_stream}
use simple_quic.Payload.Packet.Whole.{Packet}

abbrev pub max_packet_data_length : ℕ
max_packet_data_length = 1024

pub record Buffer : Type 0 where
  pub bytes : List ℕ
  pub stream_id : ℕ
  pub fin : Bool

-- The fields of Connection that sending data uses.
pub record Outbox : Type 0 where
  pub streams : Streams
  pub unsent : List Buffer
  pub queue : Queue
  pub remote : ConnectionId
  pub now_pkt_num : ℕ
  pub congested_by_flow : ℕ

unfoldable pub add_to_unsent_buf : Buffer → Outbox → Outbox
add_to_unsent_buf b o = record o { unsent = o.unsent ++ (b ∷ []) }

-- GetNewPktNum: the number, and the connection after it.
unfoldable pub get_new_pkt_num : Outbox → ℕ × Outbox
get_new_pkt_num o = let n = (o.now_pkt_num + 1) % 2 ^ 64 in (n, record o { now_pkt_num = n })

-- The blocks that make a frame for the peer: one in six calls that are blocked queues it.
unfoldable pub blocked_by : Frame → Outbox → Result Outbox
unfolding get_new_pkt_num
blocked_by frame o =
    if leb 5 o.congested_by_flow
    then (do
      p ← new_packet o.remote (get_new_pkt_num o).0 (frame ∷ [])
      q ← enqueue p true o.queue
      ok (record (get_new_pkt_num o).1 { queue = q; congested_by_flow = 0 }))
    else ok (record o { congested_by_flow = o.congested_by_flow + 1 })

-- `unsentBufFin[0]` after the front has been erased: the flag of the next buffer, if there is one.
next_fin : List Buffer → Result Bool
next_fin [] = err Error.out_of_bounds
next_fin (b ∷ bs) = ok b.fin

-- What is unsent after `n` bytes of the front, and the flag of the frame that takes them.
unfoldable pub cut_front : ℕ → Buffer → List Buffer → Result (Bool × List Buffer)
unfolding next_fin
cut_front n b bs =
    if leb (length b.bytes - n) 0
    then (do fin ← next_fin bs; ok (fin, bs))
    else ok (false, record b { bytes = drop n b.bytes } ∷ bs)

-- The rest of the call, once both limits allow `n` bytes.
unfoldable pub send_chunk : ℕ → Buffer → List Buffer → Outbox → Result (Option Packet × Outbox)
unfolding get_new_pkt_num
send_chunk n b bs o = do
  cut ← cut_front n b bs
  let moved = get_update_offset n (stream_at b.stream_id o.streams) in
      let o' : Outbox = record o {
        unsent = cut.1;
        streams = set_stream b.stream_id moved.1 o.streams;
      } in
      do
        p ←
            new_packet o.remote (get_new_pkt_num o').0
              (make_stream b.stream_id (take n b.bytes) moved.0 true cut.0 ∷ [])
        ok (some p, (get_new_pkt_num o').1)

none_with : Outbox → Option Packet × Outbox
none_with o = (none, o)

-- The tests on the limits, of the stream and of the connection.
unfoldable pub try_chunk :
    (stream_permits size_permits : Bool)
    → ℕ
    → Buffer
    → List Buffer
    → Outbox
    → Result (Option Packet × Outbox)
unfolding none_with
try_chunk false size_permits n b bs o = do
  o' ← blocked_by (Frame.stream_data_blocked b.stream_id (n + 32)) o
  ok (none_with o')
try_chunk true false n b bs o = do
  o' ← blocked_by (Frame.data_blocked (n + 32)) o
  ok (none_with o')
try_chunk true true n b bs o = send_chunk n b bs o

-- The stream is looked up, which puts it into the table, before the connection's limit is tested.
unfoldable pub get_from : List Buffer → Outbox → Result (Option Packet × Outbox)
get_from [] o = ok (none, o)
get_from (b ∷ bs) o =
    let n = min (length b.bytes) max_packet_data_length in
    let o' : Outbox = record o { streams = touch b.stream_id o.streams } in
    try_chunk (is_send_permitted n (stream_at b.stream_id o.streams))
      (is_send_size_permitted n o'.streams) n b bs o'

unfoldable pub get_pkt_from_unsent_buf : Outbox → Result (Option Packet × Outbox)
unfolding get_from
get_pkt_from_unsent_buf o = get_from o.unsent o

unfoldable pub queue_some : Option Packet → Outbox → Result Outbox
queue_some none o = ok o
queue_some (some p) o = do q ← enqueue p true o.queue; ok (record o { queue = q })

-- SendData, and what SocketLoop does at the end of a turn when nothing is added.
unfoldable pub queue_unsent : Outbox → Result Outbox
unfolding queue_some
queue_unsent o = do r ← get_pkt_from_unsent_buf o; queue_some r.0 r.1

unfoldable pub send_data : Buffer → Outbox → Result Outbox
unfolding add_to_unsent_buf queue_unsent
send_data b o = queue_unsent (add_to_unsent_buf b o)
