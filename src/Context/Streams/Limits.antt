-- ===== src/Context/Streams/Limits.antt =====
-- When a connection raises the limits of its peer: ShouldIncRecvLimit of Stream and of Connection,
-- and ShouldIncStreamNumLimit. MAX_BLOCKED_DELAY_LIMIT is 0, so the counters of delayed requests,
-- which only these functions touch, are never below it.
use simple_quic.Common.{◌%◌, ◌^◌, Bool, length}
use simple_quic.Context.Floats.{reaches_thresh}
use simple_quic.Context.Stream.{Stream}
use simple_quic.Context.Streams.{Streams, received_size}

unfoldable pub should_inc_recv_limit : Stream → Bool
should_inc_recv_limit s = reaches_thresh s.exp_offset s.max_recv_offset

unfoldable pub should_inc_recv_size : Streams → Bool
should_inc_recv_size t = reaches_thresh (received_size t.streams % 2 ^ 64) t.max_recv_size

unfoldable pub should_inc_stream_num_limit : Streams → Bool
should_inc_stream_num_limit t = reaches_thresh (length t.streams) t.max_recv_stream_num
