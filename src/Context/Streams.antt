-- ===== src/Context/Streams.antt =====
-- The streams of a Connection of context/connection.hh: usedStreamID, streamState, streamFeature and
-- streamIDToStream, with the limits that the peers have set.
-- `map[key]` puts a new value under a key that is missing, with StreamState::UNDEFINED.
pub mod Numbers
pub mod Limits
pub mod Examples
use simple_quic.Common.{
  ℕ, zero, suc, ◌+◌, ◌*◌, ◌/◌, ◌%◌, ◌^◌, List, [], ◌∷◌, Bool, true, false, not, ◌&&◌, ◌||◌, ◌==◌,
  leb, ltb, if◌then◌else◌, Dict, lookup, insert, at_or, Result, ok, err, Error,
}
use simple_quic.Context.Stream.{
  Stream, StreamState, make_stream_state, set_stream_state, set_max_send_offset,
  set_max_recv_offset,
}

pub data PeerType : Type 0 where
  client server : PeerType

-- `used` holds the elements of the four sets, each with the number of its set.
pub record Streams : Type 0 where
  pub used : List (ℕ × ℕ)
  pub states : Dict StreamState
  pub features : Dict Bool
  pub streams : Dict Stream
  pub max_recv_stream_offset : ℕ
  pub max_send_stream_offset : ℕ
  pub max_recv_size : ℕ
  pub max_send_size : ℕ
  pub max_recv_stream_num : ℕ
  pub max_send_stream_num : ℕ

-- Stream(): the number of the stream is not set, and never read.
abbrev pub new_stream : Stream
new_stream = make_stream_state 0 StreamState.undefined

-- streamIDToStream[id], and the table after it.
unfoldable pub stream_at : ℕ → Streams → Stream
stream_at id t = at_or new_stream id t.streams

unfoldable pub set_stream : ℕ → Stream → Streams → Streams
set_stream id s t = record t { streams = insert id s t.streams }

unfoldable pub touch : ℕ → Streams → Streams
unfolding stream_at set_stream
touch id t = set_stream id (stream_at id t) t

abbrev pub is_used : List (ℕ × ℕ) → ℕ → ℕ → Bool
is_used [] kind i = false
is_used ((k, j) ∷ us) kind i = ((kind == k) && (i == j)) || is_used us kind i

-- The stream that GenerateStreamID and InsertStream put into the table.
abbrev pub limited : ℕ → Streams → Stream
limited id t =
    set_max_send_offset t.max_send_stream_offset
      (set_max_recv_offset t.max_recv_stream_offset (make_stream_state id StreamState.running))

-- The two lowest bits of a number.
abbrev pub kind_of : PeerType → Bool → ℕ
kind_of PeerType.client true = 0
kind_of PeerType.server true = 1
kind_of PeerType.client false = 2
kind_of PeerType.server false = 3

-- A number that is returned: `((i<<2)&0xFFFFFFFFFFFFFFFC)|type`.
unfoldable pub taken : ℕ → ℕ → Streams → ℕ × Streams
taken kind i t = (
  i * 4 % 2 ^ 64 + kind,
  record t {
    used = (kind, i) ∷ t.used;
    states = insert i StreamState.running t.states;
    streams = insert i (limited i t) t.streams;
  },
)

-- The loop, `count` turns before its end.
unfoldable pub generate_from : (count i kind : ℕ) → Streams → Result (ℕ × Streams)
unfolding taken
generate_from zero i kind t = err Error.runtime_error
generate_from (suc count) i kind t =
    let rest = generate_from count (suc i) kind t in
    if is_used t.used kind i then rest else ok (taken kind i t)

unfoldable pub generate_stream_id : PeerType → Bool → Streams → Result (ℕ × Streams)
unfolding generate_from
generate_stream_id type bidirectional t =
    generate_from t.max_send_stream_num 0 (kind_of type bidirectional) t

-- SetStreamFeature. The direction that a Stream keeps is never read.
unfoldable pub set_stream_feature : ℕ → Bool → Streams → Streams
unfolding touch
set_stream_feature id bidirectional t =
    touch id (record t { features = insert id bidirectional t.features })

-- CreateStream of context/quic.cc, for one connection.
unfoldable pub create_stream : PeerType → Bool → Streams → Result (ℕ × Streams)
unfolding generate_stream_id set_stream_feature
create_stream type bidirectional t = elim (generate_stream_id type bidirectional t) [
  | ok r ↦ ok (r.0, set_stream_feature r.0 bidirectional r.1)
  | err e ↦ err e
]

unfoldable pub set_stream_max_send_offset : ℕ → ℕ → Streams → Streams
set_stream_max_send_offset id max_offset t =
    set_stream id (set_max_send_offset max_offset (stream_at id t)) t

unfoldable pub set_stream_max_recv_offset : ℕ → ℕ → Streams → Streams
set_stream_max_recv_offset id max_offset t =
    set_stream id (set_max_recv_offset max_offset (stream_at id t)) t

unfoldable pub close_stream_by_id : ℕ → Streams → Streams
close_stream_by_id id t =
    set_stream id (set_stream_state StreamState.fin (stream_at id t))
      (record t { states = insert id StreamState.fin t.states })

unfoldable pub is_stream_id_used : ℕ → Streams → Bool
is_stream_id_used id t = is_used t.used (id % 4) (id / 4)

-- InsertStream: the table, and whether the call has succeeded.
unfoldable pub insert_stream : ℕ → Bool → Streams → Bool × Streams
unfolding is_stream_id_used
insert_stream id bidirectional t =
    if leb t.max_send_stream_num id || is_stream_id_used id t then (false, t) else (
      true,
      record t {
        used = (id % 4, id / 4) ∷ t.used;
        streams = insert id (limited id t) t.streams;
        features = insert id bidirectional t.features;
        states = insert id StreamState.running t.states;
      },
    )

is_running : StreamState → Bool
is_running StreamState.running = true
is_running _ = false

-- checkValidStream
unfoldable pub check_valid_stream : Dict StreamState → Bool
unfolding is_running
check_valid_stream [] = false
check_valid_stream (e ∷ d) = is_running e.value || check_valid_stream d

-- The sum of GetSendOffset, and of GetRecvOffset, over the streams.
abbrev pub sent_size : Dict Stream → ℕ
sent_size [] = 0
sent_size (e ∷ d) = e.value.offset + sent_size d

abbrev pub received_size : Dict Stream → ℕ
received_size [] = 0
received_size (e ∷ d) = e.value.exp_offset + received_size d

unfoldable pub is_send_size_permitted : ℕ → Streams → Bool
is_send_size_permitted len t = leb ((sent_size t.streams + len) % 2 ^ 64) t.max_send_size

unfoldable pub is_recv_size_permitted : ℕ → Streams → Bool
is_recv_size_permitted len t = leb ((received_size t.streams + len) % 2 ^ 64) t.max_recv_size

raised : ℕ → ℕ → ℕ
raised limit new = if ltb limit new then new else limit

unfoldable pub set_max_send_size : ℕ → Streams → Streams
unfolding raised
set_max_send_size n t = record t { max_send_size = raised t.max_send_size n }

unfoldable pub set_max_recv_size : ℕ → Streams → Streams
unfolding raised
set_max_recv_size n t = record t { max_recv_size = raised t.max_recv_size n }

unfoldable pub set_max_send_stream_num : ℕ → Streams → Streams
unfolding raised
set_max_send_stream_num n t = record t { max_send_stream_num = raised t.max_send_stream_num n }

unfoldable pub set_max_recv_stream_num : ℕ → Streams → Streams
unfolding raised
set_max_recv_stream_num n t = record t { max_recv_stream_num = raised t.max_recv_stream_num n }
