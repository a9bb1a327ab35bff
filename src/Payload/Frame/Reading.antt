-- ===== src/Payload/Frame/Reading.antt =====
-- The constructors of payload/frame.hh that read a stream, class by class, on the wire form.
use simple_quic.Common.{
  ℕ, ◌/◌, ◌^◌, ◌<◌, ◌≡◌, refl, sym, List, [], ◌∷◌, ◌++◌, Bool, true, false, if◌then◌else◌, length,
  arith, ◌==◌, ok, bit_and,
}
use simple_quic.Utils.ByteStream.{ByteStream, Io, ◌>>=◌, ◌>>◌, pure, read_bytes, get_free}
use simple_quic.Utils.ByteStream.Laws.{
  Reads, Reads-bind, Reads-then, Reads-pure, read_bytes-Reads, get_free-remaining, assert-Reads,
  ReadsAll, ReadsAll-bind, ReadsAll-assert, Reads-ReadsAll,
}
use simple_quic.Utils.Codec.{decode_var_int, be_bytes}
use simple_quic.Utils.Codec.Uint.{decode_uint-Reads}
use simple_quic.Utils.Codec.VarInt.{var_bytes, IsVarInt, decode_var_int-Reads}
use simple_quic.Utils.Interval.{Interval}
use simple_quic.Utils.Interval.Sets.{IntervalSet}
use simple_quic.Utils.Interval.Add.{IsOrdered}
use simple_quic.Context.ConnectionId.RoundTrip.{parse_id-Reads}
use simple_quic.Payload.Frame.{Frame, frame_id}
use simple_quic.Payload.Frame.Wire.{frame_bytes, Fits, FitsAck, buffer_bytes, ack_bytes}
use simple_quic.Payload.Frame.Writing.{frame_id-stream}
use simple_quic.Payload.Frame.Acks.{parse_ack_fields-Reads, expect_id-Reads}
use simple_quic.Payload.Frame.Parse.{
  expect_id, sized_buffer, parse_ack, parse_reset_stream, parse_stop_sending, parse_crypto,
  parse_new_token, parse_stream, parse_value, parse_stream_value, parse_new_connection_id,
  parse_path, parse_close_quic, parse_close_app, parse_bare,
}

-- A value, and what is read behind it.
value_then :
    {B : Type 0} (v : ℕ) (f : ℕ → Io B) (bs : List ℕ) (b : B)
    → IsVarInt v
    → Reads (f v) bs b
    → Reads (decode_var_int >>= f) (var_bytes v ++ bs) b
value_then v f bs b h r = Reads-bind _ _ _ _ _ _ (decode_var_int-Reads v h) r

value_last :
    {B : Type 0} (v : ℕ) (f : ℕ → Io B) (b : B)
    → IsVarInt v
    → ((t : ByteStream) → f v t ≡ ok (b, t))
    → Reads (decode_var_int >>= f) (var_bytes v) b
value_last v f b h r = Reads-then _ _ _ _ _ (decode_var_int-Reads v h) r

id_then :
    {B : Type 0} (n : ℕ) (m : Io B) (bs : List ℕ) (b : B)
    → IsVarInt n
    → Reads m bs b
    → Reads (expect_id n >> m) (var_bytes n ++ bs) b
id_then n m bs b h r = Reads-bind _ _ _ _ _ _ (expect_id-Reads n h) r

sized_buffer-Reads : (bs : List ℕ) → IsVarInt (length bs) → Reads sized_buffer (buffer_bytes bs) bs
sized_buffer-Reads bs h = value_then _ _ _ _ h (read_bytes-Reads (length bs) bs refl)

pub parse_bare-Reads : (n : ℕ) (f : Frame) → IsVarInt n → Reads (parse_bare n f) (var_bytes n) f
parse_bare-Reads n f h = Reads-then _ _ _ _ _ (expect_id-Reads n h) (λ t. refl)

pub parse_value-Reads :
    (n v : ℕ) (make : ℕ → Frame)
    → IsVarInt n
    → IsVarInt v
    → Reads (parse_value n make) (var_bytes n ++ var_bytes v) (make v)
parse_value-Reads n v make h k = id_then _ _ _ _ h (value_last _ _ _ k (λ t. refl))

pub parse_stream_value-Reads :
    (n s v : ℕ) (make : ℕ → ℕ → Frame)
    → IsVarInt n
    → IsVarInt s
    → IsVarInt v
    → Reads (parse_stream_value n make) (var_bytes n ++ (var_bytes s ++ var_bytes v)) (make s v)
parse_stream_value-Reads n s v make h k l =
    id_then _ _ _ _ h (value_then _ _ _ _ k (value_last _ _ _ l (λ t. refl)))

pub parse_path-Reads :
    (n d : ℕ) (make : ℕ → Frame)
    → IsVarInt n
    → d < 2 ^ 64
    → Reads (parse_path n make) (var_bytes n ++ be_bytes 8 d) (make d)
parse_path-Reads n d make h k =
    id_then _ _ _ _ h
      (Reads-then _ _ _ _ _ (decode_uint-Reads d 8 (omega arith) (omega arith) k) (λ t. refl))

pub parse_ack-Reads :
    (delay : ℕ) (i : Interval) (is : IntervalSet)
    → IsOrdered (i ∷ is)
    → FitsAck delay (i ∷ is)
    → Reads parse_ack (var_bytes 0x02 ++ ack_bytes delay (i ∷ is)) (Frame.ack delay (i ∷ is))
unfolding parse_ack
parse_ack-Reads delay i is o h =
    Reads-then _ _ _ _ _ (parse_ack_fields-Reads delay i is o h) (λ t. refl)

pub parse_reset_stream-Reads :
    (s e z : ℕ)
    → Fits (Frame.reset_stream s e z)
    → Reads parse_reset_stream (frame_bytes (Frame.reset_stream s e z)) (Frame.reset_stream s e z)
unfolding parse_reset_stream frame_bytes
parse_reset_stream-Reads s e z h =
    id_then _ _ _ _ (omega arith)
      (value_then _ _ _ _ h.0 (value_then _ _ _ _ h.1 (value_last _ _ _ h.2 (λ t. refl))))

pub parse_stop_sending-Reads :
    (s e : ℕ)
    → Fits (Frame.stop_sending s e)
    → Reads parse_stop_sending (frame_bytes (Frame.stop_sending s e)) (Frame.stop_sending s e)
unfolding parse_stop_sending frame_bytes
parse_stop_sending-Reads s e h =
    id_then _ _ _ _ (omega arith) (value_then _ _ _ _ h.0 (value_last _ _ _ h.1 (λ t. refl)))

pub parse_crypto-Reads :
    (o : ℕ) (bs : List ℕ)
    → Fits (Frame.crypto o bs)
    → Reads parse_crypto (frame_bytes (Frame.crypto o bs)) (Frame.crypto o bs)
unfolding parse_crypto frame_bytes
parse_crypto-Reads o bs h =
    id_then _ _ _ _ (omega arith)
      (value_then _ _ _ _ h.0 (Reads-then _ _ _ _ _ (sized_buffer-Reads bs h.1) (λ t. refl)))

pub parse_new_token-Reads :
    (bs : List ℕ)
    → Fits (Frame.new_token bs)
    → Reads parse_new_token (frame_bytes (Frame.new_token bs)) (Frame.new_token bs)
unfolding parse_new_token frame_bytes
parse_new_token-Reads bs h =
    id_then _ _ _ _ (omega arith) (Reads-then _ _ _ _ _ (sized_buffer-Reads bs h) (λ t. refl))

pub parse_new_connection_id-Reads :
    (s r : ℕ) (c : _) (t : List ℕ)
    → Fits (Frame.new_connection_id s r c t)
    → Reads parse_new_connection_id
        (frame_bytes (Frame.new_connection_id s r c t))
        (Frame.new_connection_id s r c t)
unfolding parse_new_connection_id frame_bytes
parse_new_connection_id-Reads s r c t h = id_then _ _ _ _ (omega arith) (
    value_then _ _ _ _ h.0 (
      value_then _ _ _ _ h.1 (
        Reads-bind _ _ _ _ _ _ (parse_id-Reads c h.2)
          (Reads-then _ _ _ _ _ (read_bytes-Reads 16 t (sym h.3)) (λ u. refl)))))

pub parse_close_quic-Reads :
    (e k : ℕ) (r : List ℕ)
    → Fits (Frame.connection_close_quic e k r)
    → Reads parse_close_quic
        (frame_bytes (Frame.connection_close_quic e k r))
        (Frame.connection_close_quic e k r)
unfolding parse_close_quic frame_bytes
parse_close_quic-Reads e k r h = id_then _ _ _ _ (omega arith) (
    value_then _ _ _ _ h.0
      (value_then _ _ _ _ h.1 (Reads-then _ _ _ _ _ (sized_buffer-Reads r h.2) (λ t. refl))))

pub parse_close_app-Reads :
    (e : ℕ) (r : List ℕ)
    → Fits (Frame.connection_close_app e r)
    → Reads parse_close_app
        (frame_bytes (Frame.connection_close_app e r))
        (Frame.connection_close_app e r)
unfolding parse_close_app frame_bytes
parse_close_app-Reads e r h =
    id_then _ _ _ _ (omega arith)
      (value_then _ _ _ _ h.0 (Reads-then _ _ _ _ _ (sized_buffer-Reads r h.1) (λ t. refl)))

-- The flags come back out of the identifier.
frame_id-flags :
    (off len fin : Bool) (s o : ℕ) (bs : List ℕ)
    → let id = frame_id (Frame.stream off len fin s o bs) in
      ((bit_and id 0x08 == 0x08) ≡ true)
      × ((bit_and id 0x04 / 2 ^ 2 == 1) ≡ off)
      × ((bit_and id 0x02 / 2 ^ 1 == 1) ≡ len)
      × ((bit_and id 0x01 == 1) ≡ fin)
unfolding frame_id
frame_id-flags true true true s o bs = (refl, refl, refl, refl)
frame_id-flags true true false s o bs = (refl, refl, refl, refl)
frame_id-flags true false true s o bs = (refl, refl, refl, refl)
frame_id-flags true false false s o bs = (refl, refl, refl, refl)
frame_id-flags false true true s o bs = (refl, refl, refl, refl)
frame_id-flags false true false s o bs = (refl, refl, refl, refl)
frame_id-flags false false true s o bs = (refl, refl, refl, refl)
frame_id-flags false false false s o bs = (refl, refl, refl, refl)

-- The offset field, read only if its flag is set.
offset-Reads :
    (off : Bool) (o : ℕ)
    → IsVarInt o
    → (off ≡ false → o ≡ 0)
    → Reads (if off then decode_var_int else pure 0) (if off then var_bytes o else []) o
offset-Reads true o h z = decode_var_int-Reads o h
offset-Reads false o h z = rw (z refl) (Reads-pure 0)

module _ (off fin : Bool) (s o : ℕ) (bs : List ℕ) (hs : IsVarInt s) (ho : IsVarInt o)
    (hb : IsVarInt (length bs)) (hz : off ≡ false → o ≡ 0) where
  -- With a length, what follows the data stays in the stream.
  pub parse_stream-Reads :
      Reads parse_stream
        (frame_bytes (Frame.stream off true fin s o bs))
        (Frame.stream off true fin s o bs)
  unfolding parse_stream frame_bytes
  parse_stream-Reads =
      let (mark, e_off, e_len, e_fin) = frame_id-flags off true fin s o bs in
      value_then (frame_id (Frame.stream off true fin s o bs)) _ _ _
        (omega (arith, frame_id-stream off true fin s o bs))
        (assert-Reads _ _ _ _ mark (
          value_then _ _ _ _ hs (
            rw (e_off, e_len, e_fin)
              (Reads-bind (if off then decode_var_int else pure 0) _ _ _ o _
                (offset-Reads off o ho hz)
                (value_then _ _ _ _ hb
                  (Reads-then _ _ _ _ _ (read_bytes-Reads (length bs) bs refl) (λ t. refl)))))))

  rest_of_stream :
      ReadsAll
        (do
          n ← λ t. ok (get_free t, t)
          bytes ← read_bytes n
          pure (Frame.stream off false fin s o bytes))
        bs
        (Frame.stream off false fin s o bs)
  rest_of_stream t e =
      rw (get_free-remaining t, e)
        (Reads-ReadsAll _ _ _
          (Reads-then _ (λ bytes. pure (Frame.stream off false fin s o bytes)) _ _ _
            (read_bytes-Reads (length bs) bs refl) (λ u. refl))
          t e)

  -- Without one the data runs to the end of the stream.
  pub parse_stream-ReadsAll :
      ReadsAll parse_stream
        (frame_bytes (Frame.stream off false fin s o bs))
        (Frame.stream off false fin s o bs)
  unfolding parse_stream frame_bytes
  parse_stream-ReadsAll =
      let (mark, e_off, e_len, e_fin) = frame_id-flags off false fin s o bs in
      ReadsAll-bind _ _ _ _ _ _
        (decode_var_int-Reads (frame_id (Frame.stream off false fin s o bs))
          (omega (arith, frame_id-stream off false fin s o bs)))
        (ReadsAll-assert _ _ _ _ mark (
          ReadsAll-bind _ _ _ _ _ _ (decode_var_int-Reads s hs) (
            rw (e_off, e_len, e_fin)
              (ReadsAll-bind (if off then decode_var_int else pure 0) _ _ _ o _
                (offset-Reads off o ho hz) rest_of_stream))))
