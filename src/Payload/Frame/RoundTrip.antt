-- ===== src/Payload/Frame/RoundTrip.antt =====
-- Frame::Parse of payload/frame.hh on what Encode wrote.
use simple_quic.Common.{
  ℕ, ◌^◌, ◌≤◌, ◌<◌, ◌≡◌, refl, sym, subst, List, [], ◌∷◌, ◌++◌, append-nil, Bool, true, false,
  length, arith, ok,
}
use simple_quic.Utils.ByteStream.{ByteStream, ◌>>=◌, remaining, put, seek, get_free, IsValid}
use simple_quic.Utils.ByteStream.Laws.{Reads, peek_bytes_lem, round_trip}
use simple_quic.Utils.Codec.{first_byte}
use simple_quic.Utils.Codec.VarInt.{var_bytes, var_byte}
use simple_quic.Utils.Interval.Add.{IsOrdered}
use simple_quic.Payload.Frame.{Frame, frame_id}
use simple_quic.Payload.Frame.Encode.{encode}
use simple_quic.Payload.Frame.Wire.{frame_bytes, Fits}
use simple_quic.Payload.Frame.Writing.{encode-Writes, frame_id-stream}
use simple_quic.Payload.Frame.Parse.{parse, parse_by, parse_stream}
use simple_quic.Payload.Frame.Reading

-- The frames that a reader gets back with anything behind them. Left out are PADDING, which reads
-- on for a byte that is not zero; ACK_ECN, MAX_STREAMS and STREAMS_BLOCKED, which are never read
-- back; a STREAM frame without a length, and an ACK frame without ranges.
abbrev pub IsReadable : Frame → Type 0
IsReadable (Frame.padding n) = ⊥
IsReadable (Frame.ack delay []) = ⊥
IsReadable (Frame.ack delay (i ∷ is)) = IsOrdered (i ∷ is)
IsReadable (Frame.ack_ecn delay ranges ect0 ect1 ectce) = ⊥
IsReadable (Frame.stream off len fin s o bs) = (len ≡ true) × (off ≡ false → o ≡ 0)
IsReadable (Frame.max_streams u n) = ⊥
IsReadable (Frame.streams_blocked u m) = ⊥
IsReadable (Frame.path_challenge d) = d < 2 ^ 64
IsReadable (Frame.path_response d) = d < 2 ^ 64
IsReadable _ = Unit {0}

-- The first byte chooses the class.
dispatch :
    (n : ℕ) (cs : List ℕ) (f : Frame)
    → n < 0x3f
    → Reads (parse_by n) (var_bytes n ++ cs) f
    → Reads parse (var_bytes n ++ cs) f
unfolding parse first_byte
dispatch n cs f h r s rest e =
    let front : remaining s ≡ (n ∷ []) ++ (cs ++ rest) = rw (var_byte n h) at e in
    rw (peek_bytes_lem s (n ∷ []) (cs ++ rest) front 1 refl, ◌>>=◌) (r s rest e)

dispatch_bare :
    (n : ℕ) (f : Frame)
    → n < 0x3f
    → Reads (parse_by n) (var_bytes n) f
    → Reads parse (var_bytes n) f
dispatch_bare n f h r =
    subst (λ bs. Reads parse bs f) (append-nil (var_bytes n))
      (dispatch n [] f h (subst (λ bs. Reads (parse_by n) bs f) (sym (append-nil (var_bytes n))) r))

parse_by-stream :
    (off len fin : Bool) (s o : ℕ) (bs : List ℕ)
    → parse_by (frame_id (Frame.stream off len fin s o bs)) ≡ parse_stream
unfolding parse_by frame_id
parse_by-stream true true true s o bs = refl
parse_by-stream true true false s o bs = refl
parse_by-stream true false true s o bs = refl
parse_by-stream true false false s o bs = refl
parse_by-stream false true true s o bs = refl
parse_by-stream false true false s o bs = refl
parse_by-stream false false true s o bs = refl
parse_by-stream false false false s o bs = refl

stream-Reads :
    (off fin : Bool) (s o : ℕ) (bs : List ℕ)
    → Fits (Frame.stream off true fin s o bs)
    → (off ≡ false → o ≡ 0)
    → Reads parse
        (frame_bytes (Frame.stream off true fin s o bs))
        (Frame.stream off true fin s o bs)
unfolding frame_bytes
stream-Reads off fin s o bs h z =
    dispatch (frame_id (Frame.stream off true fin s o bs)) _ _
      (omega (arith, frame_id-stream off true fin s o bs))
      (rw (parse_by-stream off true fin s o bs)
        (Reading.parse_stream-Reads off fin s o bs h.0 h.1 h.2 z))

pub parse-Reads : (f : Frame) → Fits f → IsReadable f → Reads parse (frame_bytes f) f
unfolding parse_by frame_bytes
parse-Reads (Frame.padding n) h r = absurd r
parse-Reads Frame.ping h r =
    dispatch_bare 0x01 _ (omega arith) (Reading.parse_bare-Reads 0x01 Frame.ping (omega arith))
parse-Reads (Frame.ack delay []) h r = absurd r
parse-Reads (Frame.ack delay (i ∷ is)) h r =
    dispatch 0x02 _ _ (omega arith) (Reading.parse_ack-Reads delay i is r h)
parse-Reads (Frame.ack_ecn delay ranges ect0 ect1 ectce) h r = absurd r
parse-Reads (Frame.reset_stream s e z) h r =
    dispatch 0x04 _ _ (omega arith) (Reading.parse_reset_stream-Reads s e z h)
parse-Reads (Frame.stop_sending s e) h r =
    dispatch 0x05 _ _ (omega arith) (Reading.parse_stop_sending-Reads s e h)
parse-Reads (Frame.crypto o bs) h r =
    dispatch 0x06 _ _ (omega arith) (Reading.parse_crypto-Reads o bs h)
parse-Reads (Frame.new_token bs) h r =
    dispatch 0x07 _ _ (omega arith) (Reading.parse_new_token-Reads bs h)
parse-Reads (Frame.stream off true fin s o bs) h r = stream-Reads off fin s o bs h r.1
parse-Reads (Frame.stream off false fin s o bs) h r = cc
parse-Reads (Frame.max_data m) h r =
    dispatch 0x10 _ _ (omega arith)
      (Reading.parse_value-Reads 0x10 m Frame.max_data (omega arith) h)
parse-Reads (Frame.max_stream_data s m) h r =
    dispatch 0x11 _ _ (omega arith)
      (Reading.parse_stream_value-Reads 0x11 s m Frame.max_stream_data (omega arith) h.0 h.1)
parse-Reads (Frame.max_streams u n) h r = absurd r
parse-Reads (Frame.data_blocked m) h r =
    dispatch 0x14 _ _ (omega arith)
      (Reading.parse_value-Reads 0x14 m Frame.data_blocked (omega arith) h)
parse-Reads (Frame.stream_data_blocked s m) h r =
    dispatch 0x15 _ _ (omega arith)
      (Reading.parse_stream_value-Reads 0x15 s m Frame.stream_data_blocked (omega arith) h.0 h.1)
parse-Reads (Frame.streams_blocked u m) h r = absurd r
parse-Reads (Frame.new_connection_id s k c t) h r =
    dispatch 0x18 _ _ (omega arith) (Reading.parse_new_connection_id-Reads s k c t h)
parse-Reads (Frame.retire_connection_id s) h r =
    dispatch 0x19 _ _ (omega arith)
      (Reading.parse_value-Reads 0x19 s Frame.retire_connection_id (omega arith) h)
parse-Reads (Frame.path_challenge d) h r =
    dispatch 0x1a _ _ (omega arith)
      (Reading.parse_path-Reads 0x1a d Frame.path_challenge (omega arith) r)
parse-Reads (Frame.path_response d) h r =
    dispatch 0x1b _ _ (omega arith)
      (Reading.parse_path-Reads 0x1b d Frame.path_response (omega arith) r)
parse-Reads (Frame.connection_close_quic e k q) h r =
    dispatch 0x1c _ _ (omega arith) (Reading.parse_close_quic-Reads e k q h)
parse-Reads (Frame.connection_close_app e q) h r =
    dispatch 0x1d _ _ (omega arith) (Reading.parse_close_app-Reads e q h)
parse-Reads Frame.handshake_done h r =
    dispatch_bare 0x1e _ (omega arith)
      (Reading.parse_bare-Reads 0x1e Frame.handshake_done (omega arith))

-- A frame of a readable class, its numbers within the encodings, that is written where there is
-- room is read back, and the parser stops where the encoder did.
pub parse-encode :
    (f : Frame) (s : ByteStream)
    → Fits f
    → IsReadable f
    → IsValid s
    → length (frame_bytes f) ≤ get_free s
    → (t : ByteStream) × (encode f s ≡ ok (tt, t)) × (parse (seek s.pos t) ≡ ok (f, t))
parse-encode f s h r v room =
    let (w, d) =
      round_trip (encode f) parse (frame_bytes f) f (encode-Writes f h) (parse-Reads f h r) s v
        room in
    (put (frame_bytes f) s, w, d)
