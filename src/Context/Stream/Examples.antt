-- ===== src/Context/Stream/Examples.antt =====
-- A stream whose second frame arrives first, and the theorems at it.
use simple_quic.Common.{ℕ, ◌≡◌, refl, List, [], ◌∷◌, true, false, take, arith}
use simple_quic.Context.Stream.{
  Chunk, StreamState, receive_all, make_stream_state, get_buffered_stream, take_at, add_to_buffered,
  update_exp_offset, whether_tp_uper,
}
use simple_quic.Context.Stream.Delivery.{joined, receive_all-in_order}
use simple_quic.Context.Stream.Settled.{IsSettled, receive_all-IsSettled}

abbrev text : List ℕ
text = 10 ∷ 11 ∷ 12 ∷ 13 ∷ []

abbrev late_first : List Chunk
late_first =
    record { bytes = 12 ∷ 13 ∷ []; offset = 2; fin = true }
    ∷ record { bytes = 10 ∷ 11 ∷ []; offset = 0; fin = false }
    ∷ []

both_calls :
    (receive_all late_first (make_stream_state 4 StreamState.running)).0
    ≡ (10 ∷ 11 ∷ [], false) ∷ (12 ∷ 13 ∷ [], true) ∷ []
unfolding receive_all make_stream_state whether_tp_uper add_to_buffered get_buffered_stream take_at
    update_exp_offset
both_calls = refl

receive_all-in_order_example :
    joined (receive_all late_first (make_stream_state 4 StreamState.running)).0
    ≡ take (receive_all late_first (make_stream_state 4 StreamState.running)).1.exp_offset text
receive_all-in_order_example =
    receive_all-in_order text 4 late_first (omega arith)
      ((omega arith, refl), ((omega arith, refl), tt))

receive_all-IsSettled_example :
    IsSettled (receive_all late_first (make_stream_state 4 StreamState.running)).1
receive_all-IsSettled_example = receive_all-IsSettled 4 late_first
