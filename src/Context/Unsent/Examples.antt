-- ===== src/Context/Unsent/Examples.antt =====
-- Data on the first stream of a client, and the theorems at it.
use simple_quic.Common.{ℕ, ◌≡◌, refl, [], ◌∷◌, List, true, err, Error, arith, inr}
use simple_quic.Payload.Packet.Examples.{some_id}
use simple_quic.Context.Stream.{
  make_stream_state, set_max_send_offset, set_max_recv_offset, is_send_permitted,
}
use simple_quic.Context.Streams.{stream_at, touch, set_stream, is_send_size_permitted}
use simple_quic.Context.Streams.Examples.{one_stream}
use simple_quic.Context.Unsent.{Buffer, Outbox, get_pkt_from_unsent_buf}
use simple_quic.Context.Unsent.Chunks.{
  SendsPart, get_pkt_from_unsent_buf-SendsPart, get_pkt_from_unsent_buf-past_end,
}

abbrev buffer : List ℕ → Buffer
buffer bytes = record { bytes = bytes; stream_id = 0; fin = true }

abbrev outbox : List Buffer → Outbox
outbox bs = record {
  streams = one_stream;
  unsent = bs;
  queue = record { pending = []; need_ack = []; to_send = [] };
  remote = some_id;
  now_pkt_num = 1;
  congested_by_flow = 0;
}

get_pkt_from_unsent_buf-SendsPart_example :
    SendsPart
      (1 ∷ 2 ∷ 3 ∷ 4 ∷ [])
      0
      3
      (outbox (buffer (1 ∷ 2 ∷ 3 ∷ []) ∷ buffer (4 ∷ []) ∷ []))
      (get_pkt_from_unsent_buf (outbox (buffer (1 ∷ 2 ∷ 3 ∷ []) ∷ buffer (4 ∷ []) ∷ [])))
unfolding stream_at touch set_stream is_send_permitted is_send_size_permitted make_stream_state
    set_max_send_offset set_max_recv_offset
get_pkt_from_unsent_buf-SendsPart_example =
    get_pkt_from_unsent_buf-SendsPart (1 ∷ 2 ∷ 3 ∷ 4 ∷ []) 3 (buffer (1 ∷ 2 ∷ 3 ∷ []))
      (buffer (4 ∷ []) ∷ []) (outbox (buffer (1 ∷ 2 ∷ 3 ∷ []) ∷ buffer (4 ∷ []) ∷ [])) refl refl
      (inr (buffer (4 ∷ []), [], refl)) (omega arith) (omega arith) (refl, refl) refl refl

get_pkt_from_unsent_buf-past_end_example :
    get_pkt_from_unsent_buf (outbox (buffer (1 ∷ 2 ∷ []) ∷ [])) ≡ err Error.out_of_bounds
unfolding stream_at touch set_stream is_send_permitted is_send_size_permitted make_stream_state
    set_max_send_offset set_max_recv_offset
get_pkt_from_unsent_buf-past_end_example =
    get_pkt_from_unsent_buf-past_end (buffer (1 ∷ 2 ∷ [])) (outbox (buffer (1 ∷ 2 ∷ []) ∷ [])) refl
      (omega arith) refl refl
