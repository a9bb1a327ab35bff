-- ===== src/Payload/Frame/Length.antt =====
-- EncodeLen of each class of payload/frame.hh, and the two static lengths of StreamFrame.
use simple_quic.Common.{ℕ, ◌+◌, ◌-◌, List, [], ◌∷◌, Bool, if◌then◌else◌, length, true, not, ◌==◌}
use simple_quic.Common.{Result, ok, ◌>>=◌}
use simple_quic.Utils.Codec.{encode_var_int_len}
use simple_quic.Utils.Interval.{Interval}
use simple_quic.Utils.Interval.Sets.{IntervalSet}
use simple_quic.Context.ConnectionId.{encode_id_len}
use simple_quic.Payload.Frame.{Frame, frame_id}
use simple_quic.Payload.Frame.Encode.{sub64}

-- The sum of the encoded lengths of some values and of a number of plain bytes.
unfoldable pub lens : List ℕ → ℕ → Result ℕ
lens [] n = ok n
lens (v ∷ vs) n = do a ← encode_var_int_len v; b ← lens vs n; ok (a + b)

-- The values that ACKFrame::Encode writes for the intervals behind `prev`.
unfoldable pub range_values : Interval → IntervalSet → List ℕ
range_values prev [] = []
range_values prev (i ∷ is) =
    sub64 (sub64 prev.start i.end) 2 ∷ sub64 i.end i.start ∷ range_values i is

unfoldable pub ack_values : ℕ → IntervalSet → List ℕ
unfolding range_values
ack_values delay [] = []
ack_values delay (i ∷ is) =
    i.end ∷ delay ∷ (length (i ∷ is) - 1) ∷ sub64 i.end i.start ∷ range_values i is

unfoldable pub encode_len : Frame → Result ℕ
encode_len (Frame.padding n) = ok n
encode_len Frame.ping = ok 1
encode_len (Frame.ack delay ranges) = lens (0x02 ∷ ack_values delay ranges) 0
encode_len (Frame.ack_ecn delay ranges ect0 ect1 ectce) = do
  a ← lens (0x03 ∷ ack_values delay ranges) 0
  b ← lens (ect0 ∷ ect1 ∷ ectce ∷ []) 0
  ok (a + b)
encode_len (Frame.reset_stream s e z) = lens (0x04 ∷ s ∷ e ∷ z ∷ []) 0
encode_len (Frame.stop_sending s e) = lens (0x05 ∷ s ∷ e ∷ []) 0
-- The length of the offset stands here twice, and that of the length is missing.
encode_len (Frame.crypto o bs) = lens (0x06 ∷ o ∷ o ∷ []) (length bs)
encode_len (Frame.new_token bs) = lens (0x07 ∷ length bs ∷ []) (length bs)
encode_len (Frame.stream off len fin s o bs) = do
  a ← lens (frame_id (Frame.stream off len fin s o bs) ∷ s ∷ []) 0
  b ← if off then encode_var_int_len o else ok 0
  c ← if len then encode_var_int_len (length bs) else ok 0
  ok (a + (b + (c + length bs)))
encode_len (Frame.max_data m) = lens (0x10 ∷ m ∷ []) 0
encode_len (Frame.max_stream_data s m) = lens (0x11 ∷ s ∷ m ∷ []) 0
encode_len (Frame.max_streams u n) = lens (frame_id (Frame.max_streams u n) ∷ n ∷ []) 0
encode_len (Frame.data_blocked m) = lens (0x14 ∷ m ∷ []) 0
encode_len (Frame.stream_data_blocked s m) = lens (0x15 ∷ s ∷ m ∷ []) 0
encode_len (Frame.streams_blocked u m) = lens (frame_id (Frame.streams_blocked u m) ∷ m ∷ []) 0
encode_len (Frame.new_connection_id s r c t) =
    lens (0x18 ∷ s ∷ r ∷ []) (encode_id_len c true + length t)
encode_len (Frame.retire_connection_id s) = lens (0x19 ∷ s ∷ []) 0
encode_len (Frame.path_challenge d) = lens (0x1a ∷ []) 8
encode_len (Frame.path_response d) = lens (0x1b ∷ []) 8
encode_len (Frame.connection_close_quic e t r) = lens (0x1c ∷ e ∷ t ∷ length r ∷ []) (length r)
encode_len (Frame.connection_close_app e r) = lens (0x1d ∷ e ∷ length r ∷ []) (length r)
encode_len Frame.handshake_done = lens (0x1e ∷ []) 0

-- StreamFrameNonDataLen and StreamFrameLen.
unfoldable pub stream_frame_non_data_len : ℕ → ℕ → ℕ → Bool → Result ℕ
stream_frame_non_data_len stream_id buf_len offset len = do
  a ← encode_var_int_len stream_id
  b ← if not (offset == 0) then encode_var_int_len offset else ok 0
  c ← if len then encode_var_int_len buf_len else ok 0
  ok (1 + a + b + c)

unfoldable pub stream_frame_len : ℕ → ℕ → ℕ → Bool → Result ℕ
unfolding stream_frame_non_data_len
stream_frame_len stream_id buf_len offset len = do
  n ← stream_frame_non_data_len stream_id buf_len offset len
  ok (n + buf_len)
