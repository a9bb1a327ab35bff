-- ===== src/Payload/Frame/Measure.antt =====
-- EncodeLen against the bytes that Encode writes.
use simple_quic.Common.{
  ℕ, ◌+◌, ◌≤◌, ◌≡◌, ◌≢◌, refl, sym, ap, List, [], ◌∷◌, ◌++◌, Bool, true, false, if◌then◌else◌,
  length, arith, length-append, length-replicate, ok, Result,
}
use native.Mathlib.Nat.{add_assoc}
use simple_quic.Utils.Codec.{encode_var_int_len, be_bytes}
use simple_quic.Utils.Codec.Uint.{length-be_bytes}
use simple_quic.Utils.Codec.VarInt.{var_bytes, IsVarInt, encode_var_int_len-length, var_bytes_small}
use simple_quic.Utils.Interval.{Interval}
use simple_quic.Utils.Interval.Sets.{IntervalSet}
use simple_quic.Context.ConnectionId.RoundTrip.{length-id_bytes, id_bytes}
use simple_quic.Payload.Frame.{Frame, FrameType, frame_id, frame_type}
use simple_quic.Payload.Frame.Length.{encode_len, lens, ack_values, range_values}
use simple_quic.Payload.Frame.Wire.{
  frame_bytes, ack_bytes, range_bytes, Fits, FitsAck, FitsRanges, buffer_bytes,
}
use simple_quic.Payload.Frame.Writing.{frame_id-stream, frame_id-directed, encode-Writes}
use simple_quic.Payload.Frame.Encode.{encode}
use simple_quic.Utils.ByteStream.{ByteStream, IsValid, get_free, put}

abbrev pub Measures : Result ℕ → List ℕ → Type 0
Measures r bs = r ≡ ok (length bs)

lens-cons :
    (v : ℕ) (vs bs : List ℕ) (n : ℕ)
    → IsVarInt v
    → Measures (lens vs n) bs
    → Measures (lens (v ∷ vs) n) (var_bytes v ++ bs)
unfolding lens
lens-cons v vs bs n h m =
    rw (encode_var_int_len-length v h, m) (ap ok (sym (length-append (var_bytes v) bs)))

lens-last : (v : ℕ) → IsVarInt v → Measures (lens (v ∷ []) 0) (var_bytes v)
unfolding lens
lens-last v h = rw (encode_var_int_len-length v h) (ap ok (omega arith))

lens-nil : (n : ℕ) (bs : List ℕ) → n ≡ length bs → Measures (lens [] n) bs
unfolding lens
lens-nil n bs e = ap ok e

lens-buffer :
    (bs : List ℕ)
    → IsVarInt (length bs)
    → Measures (lens (length bs ∷ []) (length bs)) (buffer_bytes bs)
lens-buffer bs h = lens-cons (length bs) [] bs (length bs) h (lens-nil _ bs refl)

range_values-Measures :
    (prev : Interval) (is : IntervalSet)
    → FitsRanges prev is
    → Measures (lens (range_values prev is) 0) (range_bytes prev is)
unfolding range_values range_bytes
range_values-Measures prev [] h = lens-nil 0 [] refl
range_values-Measures prev (i ∷ is) h =
    lens-cons _ _ _ _ h.0 (lens-cons _ _ _ _ h.1 (range_values-Measures i is h.2))

ack_values-Measures :
    (delay : ℕ) (is : IntervalSet)
    → FitsAck delay is
    → Measures (lens (ack_values delay is) 0) (ack_bytes delay is)
unfolding ack_values ack_bytes
ack_values-Measures delay [] h = lens-nil 0 [] refl
ack_values-Measures delay (i ∷ is) h = lens-cons _ _ _ _ h.0 (
    lens-cons _ _ _ _ h.1
      (lens-cons _ _ _ _ h.2 (lens-cons _ _ _ _ h.3 (range_values-Measures i is h.4))))

optional-Measures :
    (b : Bool) (v : ℕ)
    → IsVarInt v
    → Measures (if b then encode_var_int_len v else ok 0) (if b then var_bytes v else [])
optional-Measures true v h = encode_var_int_len-length v h
optional-Measures false v h = refl

-- For every frame but CRYPTO.
pub encode_len-length :
    (f : Frame)
    → Fits f
    → frame_type f ≢ FrameType.crypto
    → encode_len f ≡ ok (length (frame_bytes f))
unfolding encode_len frame_bytes frame_type
encode_len-length (Frame.padding n) h t = ap ok (sym (length-replicate n 0))
encode_len-length Frame.ping h t = ap ok (sym (var_bytes_small 0x01 (omega arith)))
encode_len-length (Frame.ack d r) h t = lens-cons _ _ _ _ (omega arith) (ack_values-Measures d r h)
encode_len-length (Frame.ack_ecn d r x y z) h t =
    rw
      (
        lens-cons 0x03 (ack_values d r) (ack_bytes d r) 0 (omega arith)
            (ack_values-Measures d r h.0),
        lens-cons x (y ∷ z ∷ []) (var_bytes y ++ var_bytes z) 0 h.1
            (lens-cons y (z ∷ []) (var_bytes z) 0 h.2 (lens-last z h.3)),
      )
      (ap ok (
        omega (
          arith,
          length-append (var_bytes 0x03) (ack_bytes d r),
          length-append (ack_bytes d r) (var_bytes x ++ (var_bytes y ++ var_bytes z)),
          length-append (var_bytes 0x03)
              (ack_bytes d r ++ (var_bytes x ++ (var_bytes y ++ var_bytes z))),
        )))
encode_len-length (Frame.reset_stream s e z) h t =
    lens-cons _ _ _ _ (omega arith)
      (lens-cons _ _ _ _ h.0 (lens-cons _ _ _ _ h.1 (lens-last z h.2)))
encode_len-length (Frame.stop_sending s e) h t =
    lens-cons _ _ _ _ (omega arith) (lens-cons _ _ _ _ h.0 (lens-last e h.1))
encode_len-length (Frame.crypto o bs) h t = absurd (t refl)
encode_len-length (Frame.new_token bs) h t = lens-cons _ _ _ _ (omega arith) (lens-buffer bs h)
encode_len-length (Frame.stream off len fin s o bs) h t =
    rw
      (
        lens-cons (frame_id (Frame.stream off len fin s o bs)) (s ∷ []) (var_bytes s) 0
            (omega (arith, frame_id-stream off len fin s o bs)) (lens-last s h.0),
        optional-Measures off o h.1,
        optional-Measures len (length bs) h.2,
      )
      (ap ok (
        join (var_bytes (frame_id (Frame.stream off len fin s o bs))) (var_bytes s)
          (if off then var_bytes o else []) (if len then var_bytes (length bs) else []) bs))
  where
    join :
        (a b c d e : List ℕ)
        → length (a ++ b) + (length c + (length d + length e))
          ≡ length (a ++ (b ++ (c ++ (d ++ e))))
    join a b c d e = simp (length-append, add_assoc)
encode_len-length (Frame.max_data m) h t = lens-cons _ _ _ _ (omega arith) (lens-last m h)
encode_len-length (Frame.max_stream_data s m) h t =
    lens-cons _ _ _ _ (omega arith) (lens-cons _ _ _ _ h.0 (lens-last m h.1))
encode_len-length (Frame.max_streams u n) h t =
    lens-cons _ _ _ _ (omega (arith, frame_id-directed u n)) (lens-last n h)
encode_len-length (Frame.data_blocked m) h t = lens-cons _ _ _ _ (omega arith) (lens-last m h)
encode_len-length (Frame.stream_data_blocked s m) h t =
    lens-cons _ _ _ _ (omega arith) (lens-cons _ _ _ _ h.0 (lens-last m h.1))
encode_len-length (Frame.streams_blocked u m) h t =
    lens-cons _ _ _ _ (omega (arith, frame_id-directed u m)) (lens-last m h)
encode_len-length (Frame.new_connection_id s r c k) h t = lens-cons _ _ _ _ (omega arith) (
    lens-cons _ _ _ _ h.0 (
      lens-cons _ _ _ _ h.1
        (lens-nil _ _ (omega (arith, length-append (id_bytes c) k, length-id_bytes c h.2)))))
encode_len-length (Frame.retire_connection_id s) h t =
    lens-cons _ _ _ _ (omega arith) (lens-last s h)
encode_len-length (Frame.path_challenge d) h t =
    lens-cons _ [] (be_bytes 8 d) 8 (omega arith) (lens-nil _ _ (sym (length-be_bytes 8 d)))
encode_len-length (Frame.path_response d) h t =
    lens-cons _ [] (be_bytes 8 d) 8 (omega arith) (lens-nil _ _ (sym (length-be_bytes 8 d)))
encode_len-length (Frame.connection_close_quic e k r) h t =
    lens-cons _ _ _ _ (omega arith)
      (lens-cons _ _ _ _ h.0 (lens-cons _ _ _ _ h.1 (lens-buffer r h.2)))
encode_len-length (Frame.connection_close_app e r) h t =
    lens-cons _ _ _ _ (omega arith) (lens-cons _ _ _ _ h.0 (lens-buffer r h.1))
encode_len-length Frame.handshake_done h t = lens-last _ (omega arith)

-- Encode writes `m` bytes wherever there is room for them.
abbrev pub WritesOut : Frame → ℕ → Type 0
WritesOut f m =
    (s : ByteStream)
    → IsValid s
    → m ≤ get_free s
    → (t : ByteStream) × (encode f s ≡ ok (tt, t)) × (t.pos ≡ s.pos + m)

encode-WritesOut : (f : Frame) → Fits f → WritesOut f (length (frame_bytes f))
unfolding put
encode-WritesOut f h s v room = (put (frame_bytes f) s, encode-Writes f h s v room, refl)

-- EncodeLen is the number of bytes that Encode writes, on every stream that has room for them: for
-- every frame but CRYPTO whose numbers have encodings.
pub encode_len-encode :
    (f : Frame)
    → Fits f
    → frame_type f ≢ FrameType.crypto
    → (n : ℕ) × (encode_len f ≡ ok n) × WritesOut f n
encode_len-encode f h t = (length (frame_bytes f), encode_len-length f h t, encode-WritesOut f h)

-- EncodeLen of a CRYPTO frame counts the offset twice and the length of the data not at all: what it
-- returns, and the encoded length of that length, are together what Encode writes and the encoded
-- length of the offset.
pub encode_len-crypto :
    (offset : ℕ) (bytes : List ℕ)
    → Fits (Frame.crypto offset bytes)
    → (n m a b : ℕ) × (encode_len (Frame.crypto offset bytes) ≡ ok n)
      × WritesOut (Frame.crypto offset bytes) m
      × (encode_var_int_len (length bytes) ≡ ok a)
      × (encode_var_int_len offset ≡ ok b)
      × (n + a ≡ m + b)
unfolding encode_len frame_bytes
encode_len-crypto o bs h = (
  _,
  length (frame_bytes (Frame.crypto o bs)),
  length (var_bytes (length bs)),
  length (var_bytes o),
  lens-cons 0x06 (o ∷ o ∷ []) (var_bytes o ++ (var_bytes o ++ bs)) (length bs) (omega arith) (
      lens-cons o (o ∷ []) (var_bytes o ++ bs) (length bs) h.0
        (lens-cons o [] bs (length bs) h.0 (lens-nil _ bs refl))),
  encode-WritesOut (Frame.crypto o bs) h,
  encode_var_int_len-length (length bs) h.1,
  encode_var_int_len-length o h.0,
  recount (var_bytes 0x06) (var_bytes o) (var_bytes (length bs)) bs,
)
  where
    recount :
        (a b c d : List ℕ)
        → length (a ++ (b ++ (b ++ d))) + length c ≡ length (a ++ (b ++ (c ++ d))) + length b
    recount a b c d = omega (
      arith,
      length-append a (b ++ (b ++ d)),
      length-append b (b ++ d),
      length-append b d,
      length-append a (b ++ (c ++ d)),
      length-append b (c ++ d),
      length-append c d,
    )
