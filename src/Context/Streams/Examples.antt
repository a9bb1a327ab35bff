-- ===== src/Context/Streams/Examples.antt =====
-- A connection with one stream, and the theorems at it.
use simple_quic.Common.{ℕ, ◌≡◌, refl, [], ◌∷◌, true, ok, err, Error, arith, ◌⊎◌}
use simple_quic.Context.Stream.{StreamState}
use simple_quic.Context.Streams.{
  PeerType, Streams, limited, taken, generate_stream_id, generate_from,
}
use simple_quic.Context.Streams.Numbers.{IsGenerated, AllUsed, generate_stream_id-IsGenerated}

abbrev pub no_streams : Streams
no_streams = record {
  used = [];
  states = [];
  features = [];
  streams = [];
  max_recv_stream_offset = 10240;
  max_send_stream_offset = 10240;
  max_recv_size = 102400;
  max_send_size = 102400;
  max_recv_stream_num = 10;
  max_send_stream_num = 10;
}

-- After the first stream of a client.
abbrev pub one_stream : Streams
one_stream = record no_streams {
  used = (0, 0) ∷ [];
  states = record { key = 0; value = StreamState.running } ∷ [];
  streams = record { key = 0; value = limited 0 no_streams } ∷ [];
}

first_number : generate_stream_id PeerType.client true no_streams ≡ ok (0, one_stream)
unfolding generate_stream_id generate_from taken
first_number = refl

generate_stream_id-IsGenerated_example :
    ((id : ℕ) × (t' : Streams) × (generate_stream_id PeerType.client true one_stream ≡ ok (id, t'))
      × IsGenerated 0 id one_stream t')
    ⊎ ((generate_stream_id PeerType.client true one_stream ≡ err Error.runtime_error)
        × AllUsed 10 0 one_stream)
generate_stream_id-IsGenerated_example =
    generate_stream_id-IsGenerated PeerType.client true one_stream (omega arith)
