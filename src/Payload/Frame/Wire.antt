-- ===== src/Payload/Frame/Wire.antt =====
-- The wire form of each frame, as a list of bytes, and the frames that have one.
use simple_quic.Common.{ℕ, ◌-◌, List, [], ◌∷◌, ◌++◌, if◌then◌else◌, length, replicate, ◌≡◌}
use simple_quic.Utils.Codec.{be_bytes}
use simple_quic.Utils.Codec.VarInt.{var_bytes, IsVarInt}
use simple_quic.Utils.Interval.{Interval}
use simple_quic.Utils.Interval.Sets.{IntervalSet}
use simple_quic.Context.ConnectionId.RoundTrip.{IsWellFormed, id_bytes}
use simple_quic.Payload.Frame.{Frame, frame_id}
use simple_quic.Payload.Frame.Encode.{sub64}

unfoldable pub range_bytes : Interval → IntervalSet → List ℕ
range_bytes prev [] = []
range_bytes prev (i ∷ is) =
    var_bytes (sub64 (sub64 prev.start i.end) 2)
    ++ (var_bytes (sub64 i.end i.start) ++ range_bytes i is)

unfoldable pub ack_bytes : ℕ → IntervalSet → List ℕ
unfolding range_bytes
ack_bytes delay [] = []
ack_bytes delay (i ∷ is) =
    var_bytes i.end
    ++ (var_bytes delay
        ++ (var_bytes (length (i ∷ is) - 1)
            ++ (var_bytes (sub64 i.end i.start) ++ range_bytes i is)))

abbrev pub buffer_bytes : List ℕ → List ℕ
buffer_bytes bs = var_bytes (length bs) ++ bs

unfoldable pub frame_bytes : Frame → List ℕ
unfolding ack_bytes
frame_bytes (Frame.padding n) = replicate n 0
frame_bytes Frame.ping = var_bytes 0x01
frame_bytes (Frame.ack delay ranges) = var_bytes 0x02 ++ ack_bytes delay ranges
frame_bytes (Frame.ack_ecn delay ranges ect0 ect1 ectce) =
    var_bytes 0x03
    ++ (ack_bytes delay ranges ++ (var_bytes ect0 ++ (var_bytes ect1 ++ var_bytes ectce)))
frame_bytes (Frame.reset_stream s e z) =
    var_bytes 0x04 ++ (var_bytes s ++ (var_bytes e ++ var_bytes z))
frame_bytes (Frame.stop_sending s e) = var_bytes 0x05 ++ (var_bytes s ++ var_bytes e)
frame_bytes (Frame.crypto o bs) = var_bytes 0x06 ++ (var_bytes o ++ buffer_bytes bs)
frame_bytes (Frame.new_token bs) = var_bytes 0x07 ++ buffer_bytes bs
frame_bytes (Frame.stream off len fin s o bs) =
    var_bytes (frame_id (Frame.stream off len fin s o bs))
    ++ (var_bytes s
        ++ ((if off then var_bytes o else [])
            ++ ((if len then var_bytes (length bs) else []) ++ bs)))
frame_bytes (Frame.max_data m) = var_bytes 0x10 ++ var_bytes m
frame_bytes (Frame.max_stream_data s m) = var_bytes 0x11 ++ (var_bytes s ++ var_bytes m)
frame_bytes (Frame.max_streams u n) = var_bytes (frame_id (Frame.max_streams u n)) ++ var_bytes n
frame_bytes (Frame.data_blocked m) = var_bytes 0x14 ++ var_bytes m
frame_bytes (Frame.stream_data_blocked s m) = var_bytes 0x15 ++ (var_bytes s ++ var_bytes m)
frame_bytes (Frame.streams_blocked u m) =
    var_bytes (frame_id (Frame.streams_blocked u m)) ++ var_bytes m
frame_bytes (Frame.new_connection_id s r c t) =
    var_bytes 0x18 ++ (var_bytes s ++ (var_bytes r ++ (id_bytes c ++ t)))
frame_bytes (Frame.retire_connection_id s) = var_bytes 0x19 ++ var_bytes s
frame_bytes (Frame.path_challenge d) = var_bytes 0x1a ++ be_bytes 8 d
frame_bytes (Frame.path_response d) = var_bytes 0x1b ++ be_bytes 8 d
frame_bytes (Frame.connection_close_quic e t r) =
    var_bytes 0x1c ++ (var_bytes e ++ (var_bytes t ++ buffer_bytes r))
frame_bytes (Frame.connection_close_app e r) = var_bytes 0x1d ++ (var_bytes e ++ buffer_bytes r)
frame_bytes Frame.handshake_done = var_bytes 0x1e

abbrev pub FitsRanges : Interval → IntervalSet → Type 0
FitsRanges prev [] = Unit {0}
FitsRanges prev (i ∷ is) =
    IsVarInt (sub64 (sub64 prev.start i.end) 2) × IsVarInt (sub64 i.end i.start) × FitsRanges i is

abbrev pub FitsAck : ℕ → IntervalSet → Type 0
FitsAck delay [] = Unit {0}
FitsAck delay (i ∷ is) =
    IsVarInt i.end
    × IsVarInt delay
    × IsVarInt (length (i ∷ is) - 1)
    × IsVarInt (sub64 i.end i.start)
    × FitsRanges i is

-- Every number in the frame has a variable-length encoding.
abbrev pub Fits : Frame → Type 0
Fits (Frame.padding n) = Unit {0}
Fits Frame.ping = Unit {0}
Fits (Frame.ack delay ranges) = FitsAck delay ranges
Fits (Frame.ack_ecn delay ranges ect0 ect1 ectce) =
    FitsAck delay ranges × IsVarInt ect0 × IsVarInt ect1 × IsVarInt ectce
Fits (Frame.reset_stream s e z) = IsVarInt s × IsVarInt e × IsVarInt z
Fits (Frame.stop_sending s e) = IsVarInt s × IsVarInt e
Fits (Frame.crypto o bs) = IsVarInt o × IsVarInt (length bs)
Fits (Frame.new_token bs) = IsVarInt (length bs)
Fits (Frame.stream off len fin s o bs) = IsVarInt s × IsVarInt o × IsVarInt (length bs)
Fits (Frame.max_data m) = IsVarInt m
Fits (Frame.max_stream_data s m) = IsVarInt s × IsVarInt m
Fits (Frame.max_streams u n) = IsVarInt n
Fits (Frame.data_blocked m) = IsVarInt m
Fits (Frame.stream_data_blocked s m) = IsVarInt s × IsVarInt m
Fits (Frame.streams_blocked u m) = IsVarInt m
Fits (Frame.new_connection_id s r c t) = IsVarInt s × IsVarInt r × IsWellFormed c × (length t ≡ 16)
Fits (Frame.retire_connection_id s) = IsVarInt s
Fits (Frame.path_challenge d) = Unit {0}
Fits (Frame.path_response d) = Unit {0}
Fits (Frame.connection_close_quic e t r) = IsVarInt e × IsVarInt t × IsVarInt (length r)
Fits (Frame.connection_close_app e r) = IsVarInt e × IsVarInt (length r)
Fits Frame.handshake_done = Unit {0}
