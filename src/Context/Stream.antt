-- ===== src/Context/Stream.antt =====
-- Stream of context/connection.hh, and the loop of SocketLoop in context/quic.cc that hands the
-- data of STREAM frames to the application.
-- The four vectors of what is buffered are pushed to and erased from together, so they are one list
-- of chunks. The callback and ShouldIncRecvLimit, which compares floats, are left out.
pub mod Delivery
pub mod Settled
pub mod Examples
use simple_quic.Common.{
  ℕ, zero, suc, ◌+◌, ◌%◌, ◌^◌, List, [], ◌∷◌, ◌++◌, Bool, ◌==◌, leb, ltb, if◌then◌else◌, Option,
  none, some, length,
}

pub data StreamState : Type 0 where
  undefined running fin : StreamState

pub record Chunk : Type 0 where
  pub bytes : List ℕ
  pub offset : ℕ
  pub fin : Bool

pub record Stream : Type 0 where
  pub stream_id : ℕ
  pub state : StreamState
  pub offset : ℕ
  pub exp_offset : ℕ
  pub buffered : List Chunk
  pub max_recv_offset : ℕ
  pub max_send_offset : ℕ

-- Stream(_streamID, _state)
unfoldable pub make_stream_state : ℕ → StreamState → Stream
make_stream_state id state = record {
  stream_id = id;
  state = state;
  offset = 0;
  exp_offset = 0;
  buffered = [];
  max_recv_offset = 0;
  max_send_offset = 0;
}

unfoldable pub set_stream_state : StreamState → Stream → Stream
set_stream_state state s = record s { state = state }

-- GetUpdateOffset: the offset for the next bytes to send.
unfoldable pub get_update_offset : ℕ → Stream → ℕ × Stream
get_update_offset sent_buf_len s =
    (s.offset, record s { offset = (s.offset + sent_buf_len) % 2 ^ 64 })

unfoldable pub whether_tp_uper : ℕ → Stream → Bool
whether_tp_uper rec_offset s = s.exp_offset == rec_offset

unfoldable pub update_exp_offset : ℕ → Stream → Stream
update_exp_offset rec_buf_len s = record s { exp_offset = (s.exp_offset + rec_buf_len) % 2 ^ 64 }

-- AddToBufferedFin and AddToBufferedStream.
unfoldable pub add_to_buffered : Chunk → Stream → Stream
add_to_buffered c s = record s { buffered = s.buffered ++ (c ∷ []) }

-- The first buffered chunk at an offset, and the others.
keep_chunk : Chunk → Option (Chunk × List Chunk) → Option (Chunk × List Chunk)
keep_chunk c none = none
keep_chunk c (some (found, others)) = some (found, c ∷ others)

unfoldable pub take_at : ℕ → List Chunk → Option (Chunk × List Chunk)
unfolding keep_chunk
take_at e [] = none
take_at e (c ∷ cs) =
    let rest = take_at e cs in if e == c.offset then some (c, cs) else keep_chunk c rest

handed : Stream → Option (Chunk × List Chunk) → Option (Chunk × Stream)
handed s none = none
handed s (some (found, others)) = some (
  found,
  record s { exp_offset = (s.exp_offset + length found.bytes) % 2 ^ 64; buffered = others },
)

unfoldable pub get_buffered_stream : Stream → Option (Chunk × Stream)
unfolding handed
get_buffered_stream s = handed s (take_at s.exp_offset s.buffered)

-- What streamDataReadyCallback is called with, in order.
abbrev pub Calls : Type 0
Calls = List (List ℕ × Bool)

unfoldable pub drain_turn :
    Option (Chunk × Stream) → Stream → (Stream → Calls × Stream) → Calls × Stream
drain_turn none s again = ([], s)
drain_turn (some (c, s')) s again = let rest = again s' in ((c.bytes, c.fin) ∷ rest.0, rest.1)

-- The loop over GetBufferedStream. Each turn takes a chunk out of the buffer.
unfoldable pub drain : ℕ → Stream → Calls × Stream
unfolding drain_turn
drain zero s = ([], s)
drain (suc turns) s = drain_turn (get_buffered_stream s) s (λ s'. drain turns s')

unfoldable pub deliver : Chunk → Stream → Calls × Stream
unfolding drain
deliver c s =
    let rest = drain (length s.buffered) (update_exp_offset (length c.bytes) s) in
    ((c.bytes, c.fin) ∷ rest.0, rest.1)

-- The branches on WhetherTpUper for the data of one STREAM frame.
unfoldable pub receive : Chunk → Stream → Calls × Stream
unfolding deliver
receive c s = if whether_tp_uper c.offset s then deliver c s else ([], add_to_buffered c s)

-- The frames of a stream, in the order in which they arrive.
unfoldable pub receive_all : List Chunk → Stream → Calls × Stream
unfolding receive
receive_all [] s = ([], s)
receive_all (c ∷ cs) s =
    let first = receive c s in let rest = receive_all cs first.1 in (first.0 ++ rest.0, rest.1)

-- Flow control.
unfoldable pub set_max_send_offset : ℕ → Stream → Stream
set_max_send_offset max_offset s =
    if ltb s.max_send_offset max_offset then record s { max_send_offset = max_offset } else s

unfoldable pub set_max_recv_offset : ℕ → Stream → Stream
set_max_recv_offset max_offset s =
    if ltb s.max_recv_offset max_offset then record s { max_recv_offset = max_offset } else s

unfoldable pub is_send_permitted : ℕ → Stream → Bool
is_send_permitted send_buf_len s = leb ((s.offset + send_buf_len) % 2 ^ 64) s.max_send_offset

unfoldable pub is_rec_permitted : ℕ → ℕ → Stream → Bool
is_rec_permitted off rec_buf_len s = leb ((off + rec_buf_len) % 2 ^ 64) s.max_recv_offset
