-- ===== src/Payload/Packet/Frames.antt =====
-- Payload of payload/packet.hh: a list of frames.
use simple_quic.Common.{ℕ, ◌+◌, List, [], ◌∷◌, Bool, true, false, Result, ok, ◌||◌}
use simple_quic.Common.{◌>>=◌}
use simple_quic.Utils.Interval.Sets.{IntervalSet, add_interval_set}
use simple_quic.Payload.Frame.{Frame, FrameType, frame_type}
use simple_quic.Payload.Frame.Length.{encode_len}

-- A sum of two lengths, where one may fail.
abbrev pub plus : Result ℕ → Result ℕ → Result ℕ
plus m n = do a ← m; b ← n; ok (a + b)

-- Payload::EncodeLen
unfoldable pub payload_len : List Frame → Result ℕ
payload_len [] = ok 0
payload_len (f ∷ fs) = plus (encode_len f) (payload_len fs)

-- The test of IsACKEliciting on one frame.
unfoldable pub elicits : FrameType → Bool
elicits FrameType.ack = false
elicits FrameType.connection_close = false
elicits FrameType.padding = false
elicits _ = true

unfoldable pub is_ack_eliciting : List Frame → Bool
is_ack_eliciting [] = false
is_ack_eliciting (f ∷ fs) = elicits (frame_type f) || is_ack_eliciting fs

-- One turn of the loop in CollectACKRange. The frames whose Type() is ACK are those of two classes.
unfoldable pub collect_one : Frame → IntervalSet → Result IntervalSet
collect_one (Frame.ack delay ranges) set = add_interval_set set ranges
collect_one (Frame.ack_ecn delay ranges ect0 ect1 ectce) set = add_interval_set set ranges
collect_one _ set = ok set

unfoldable pub collect_into : IntervalSet → List Frame → Result IntervalSet
unfolding collect_one
collect_into set [] = ok set
collect_into set (f ∷ fs) = do set' ← collect_one f set; collect_into set' fs

unfoldable pub collect_ack_range : List Frame → Result IntervalSet
unfolding collect_into
collect_ack_range fs = collect_into [] fs
