-- ===== src/Payload/Frame/Faults.antt =====
-- The classes of payload/frame.hh that Frame::Parse treats apart: PADDING, ACK_ECN, MAX_STREAMS and
-- STREAMS_BLOCKED.
use simple_quic.Common.{
  ℕ, zero, suc, ◌+◌, ◌<◌, ◌≤◌, ◌≡◌, ◌≢◌, refl, sym, ap, ◌∙◌, List, [], ◌∷◌, ◌++◌, false, length,
  arith, ok, err, Error, Result, replicate, length-replicate, length-append, ◌==◌,
}
use simple_quic.Utils.ByteStream.{
  ByteStream, ◌>>=◌, remaining, advance, get_free, IsValid, put, seek,
}
use simple_quic.Utils.ByteStream.Laws.{
  peek_bytes_lem, read_bytes_lem, remaining-seek-put, remaining-advance, get_free-remaining,
}
use simple_quic.Utils.Codec.{first_byte}
use simple_quic.Utils.Codec.VarInt.{var_bytes, var_byte, decode_var_int-Reads}
use simple_quic.Payload.Frame.{Frame}
use simple_quic.Payload.Frame.Wire.{frame_bytes, Fits}
use simple_quic.Payload.Frame.Writing.{frame_id-directed, encode-Writes}
use simple_quic.Payload.Frame.Encode.{encode}
use simple_quic.Payload.Frame.Parse.{
  parse, parse_by, parse_padding, padding_loop, parse_ack_ecn, parse_ack_fields,
}

-- The first byte of what is left in the stream.
parse-first :
    (s : ByteStream) (b : ℕ) (rest : List ℕ) → remaining s ≡ b ∷ rest → parse s ≡ parse_by b s
unfolding parse first_byte
parse-first s b rest e = rw (peek_bytes_lem s (b ∷ []) rest e 1 refl, ◌>>=◌)

padding_loop_turn :
    (s : ByteStream) (rest : List ℕ) (turns len : ℕ)
    → remaining s ≡ 0 ∷ rest
    → padding_loop (suc turns) len s ≡ padding_loop turns (len + 1) (advance 1 s)
unfolding padding_loop first_byte
padding_loop_turn s rest turns len e =
    rw (peek_bytes_lem s (0 ∷ []) rest e 1 refl, ◌>>=◌)
      (rw (read_bytes_lem s (0 ∷ []) rest e 1 refl, ◌>>=◌))

padding_loop_stop :
    (s : ByteStream) (b : ℕ) (rest : List ℕ) (turns len : ℕ)
    → remaining s ≡ b ∷ rest
    → b ≢ 0
    → padding_loop (suc turns) len s ≡ ok (len, s)
unfolding padding_loop first_byte
padding_loop_stop s b rest turns len e h =
    let other : (b == 0x00) ≡ false = ground arith in
    rw (peek_bytes_lem s (b ∷ []) rest e 1 refl, ◌>>=◌) (rw other)

padding_loop_run :
    (n : ℕ) (s : ByteStream) (b : ℕ) (rest : List ℕ) (turns len : ℕ)
    → remaining s ≡ replicate n 0 ++ (b ∷ rest)
    → b ≢ 0
    → n < turns
    → padding_loop turns len s ≡ ok (len + n, advance n s)
padding_loop_run n s b rest zero len e h k = absurd (omega arith)
padding_loop_run zero s b rest (suc turns) len e h k =
    padding_loop_stop s b rest turns len e h ∙ unfold advance in ground arith
padding_loop_run (suc n) s b rest (suc turns) len e h k =
    padding_loop_turn s (replicate n 0 ++ (b ∷ rest)) turns len e
    ∙ padding_loop_run n (advance 1 s) b rest turns (len + 1)
        (remaining-advance s (0 ∷ []) (replicate n 0 ++ (b ∷ rest)) e 1 refl) h (omega arith)
    ∙ unfold advance in ground arith

padding_loop_end :
    (n : ℕ) (s : ByteStream) (len : ℕ)
    → remaining s ≡ replicate n 0
    → padding_loop n len s ≡ err Error.assertion
padding_loop_end zero s len e = unfold padding_loop in refl
padding_loop_end (suc n) s len e =
    padding_loop_turn s (replicate n 0) n len e
    ∙ padding_loop_end n (advance 1 s) (len + 1)
        (remaining-advance s (0 ∷ []) (replicate n 0) e 1 refl)

-- A run of zero bytes with another byte behind it is one PADDING frame of its length.
pub parse-padding :
    (n b : ℕ) (rest : List ℕ) (s : ByteStream)
    → 0 < n
    → b ≢ 0
    → remaining s ≡ replicate n 0 ++ (b ∷ rest)
    → parse s ≡ ok (Frame.padding n, advance n s)
unfolding parse_by parse_padding
parse-padding zero b rest s h hb e = absurd (omega arith)
parse-padding (suc n) b rest s h hb e =
    parse-first s 0 (replicate n 0 ++ (b ∷ rest)) e
    ∙ rw (padding_loop_run (suc n) s b rest (get_free s) 0 e hb enough, ◌>>=◌)
        (unfold advance in ground arith)
  where
    enough : suc n < get_free s
    enough = omega (
      arith,
      get_free-remaining s,
      ap length e,
      length-append {A = ℕ} (replicate n 0) (b ∷ rest),
      length-replicate {A = ℕ} n 0,
    )

-- A run of zero bytes up to the end of the stream is not read: the parser looks for the byte
-- behind it, and its assertion fails.
pub parse-padding_at_end :
    (n : ℕ) (s : ByteStream) → 0 < n → remaining s ≡ replicate n 0 → parse s ≡ err Error.assertion
unfolding parse_by parse_padding
parse-padding_at_end zero s h e = absurd (omega arith)
parse-padding_at_end (suc n) s h e =
    let free : get_free s ≡ suc n =
      omega (arith, get_free-remaining s, ap length e, length-replicate {A = ℕ} n 0) in
    parse-first s 0 (replicate n 0) e ∙ rw (free, padding_loop_end (suc n) s 0 e, ◌>>=◌)

-- An ACK frame with ECN counts is never read: the constructor of the base class asserts the
-- identifier of an ACK frame without them.
pub parse-ack_ecn :
    (s : ByteStream) (rest : List ℕ) → remaining s ≡ 0x03 ∷ rest → parse s ≡ err Error.assertion
unfolding parse_by parse_ack_ecn parse_ack_fields
parse-ack_ecn s rest e =
    let bytes : remaining s ≡ var_bytes 0x03 ++ rest = rw (var_byte 0x03 (omega arith)) e in
    parse-first s 0x03 rest e ∙ rw (decode_var_int-Reads 0x03 (omega arith) s rest bytes, ◌>>=◌)

-- A parsed padding frame is no other frame.
parse_padding-kind :
    (s t : ByteStream) (f : Frame) → parse_padding s ≡ ok (f, t) → (n : ℕ) × (f ≡ Frame.padding n)
unfolding parse_padding
parse_padding-kind s t f e = by_count (padding_loop (get_free s) 0 s) e
  where
    by_count :
        (r : Result (ℕ × ByteStream))
        → (elim r as (λ _. Result (Frame × ByteStream)) [
          | ok (n, u) ↦ ok (Frame.padding n, u)
          | err x ↦ err x
        ])
          ≡ ok (f, t)
        → (n : ℕ) × (f ≡ Frame.padding n)
    by_count (ok (n, u)) q = (n, cc)
    by_count (err x) q = cc

-- The two classes with a direction bit.
abbrev pub IsDirected : Frame → Type 0
IsDirected (Frame.max_streams u n) = Unit {0}
IsDirected (Frame.streams_blocked u n) = Unit {0}
IsDirected _ = ⊥

directed_bytes : (f : Frame) → IsDirected f → (bs : List ℕ) × (frame_bytes f ≡ 0 ∷ bs)
unfolding frame_bytes
directed_bytes (Frame.max_streams u n) h =
    (var_bytes n, rw ((frame_id-directed u n).0, var_byte 0 (omega arith)))
directed_bytes (Frame.streams_blocked u n) h =
    (var_bytes n, rw ((frame_id-directed u n).1, var_byte 0 (omega arith)))
directed_bytes (Frame.padding n) h = absurd h
directed_bytes _ h = absurd h

directed_padding : (f : Frame) (n : ℕ) → IsDirected f → f ≢ Frame.padding n
directed_padding (Frame.max_streams u m) n h e = cc
directed_padding (Frame.streams_blocked u m) n h e = cc
directed_padding (Frame.padding m) n h e = absurd h
directed_padding _ n h e = absurd h

unread :
    (f : Frame) (s t : ByteStream) (rest : List ℕ)
    → IsDirected f
    → remaining s ≡ frame_bytes f ++ rest
    → parse s ≢ ok (f, t)
unfolding parse_by
unread f s t rest h e r =
    let (bs, q) = directed_bytes f h in
    let front : remaining s ≡ 0 ∷ (bs ++ rest) = e ∙ ap (λ xs. xs ++ rest) q in
    let (n, k) = parse_padding-kind s t f (sym (parse-first s 0 (bs ++ rest) front) ∙ r) in
    directed_padding f n h k

-- A MAX_STREAMS or STREAMS_BLOCKED frame whose number has an encoding does not survive: Encode writes
-- it where there is room, and whatever the parser makes of what is written is not the frame.
pub parse-directed :
    (f : Frame) (s : ByteStream)
    → IsDirected f
    → Fits f
    → IsValid s
    → length (frame_bytes f) ≤ get_free s
    → (t : ByteStream) × (encode f s ≡ ok (tt, t))
      × ((u : ByteStream) → parse (seek s.pos t) ≢ ok (f, u))
parse-directed f s h fits v room = (
  put (frame_bytes f) s,
  encode-Writes f fits s v room,
  λ u.
      unread f (seek s.pos (put (frame_bytes f) s)) u _ h
        (remaining-seek-put s v (frame_bytes f) room),
)
