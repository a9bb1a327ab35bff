-- ===== src/Payload/Packet/Loop.antt =====
-- The loops that read a payload, on the bytes of the frames that were written.
use simple_quic.Common.{
  ℕ, zero, suc, ◌+◌, ◌-◌, ◌≤◌, ◌<◌, ◌≡◌, refl, sym, ap, ◌∙◌, List, [], ◌∷◌, ◌++◌, append_assoc,
  append-nil, not, Bool, ltb, lt→ltb, length, length-append, ok, err, Error, arith,
}
use simple_quic.Utils.ByteStream.{
  ByteStream, ◌>>=◌, remaining, advance, make, get_free, peek_bytes, fetch, check_free, IsValid,
  empty,
}
use simple_quic.Utils.ByteStream.Laws.{
  Writes, Writes-seq, pure-Writes, Reads, Reads-pure, remaining-advance, advance-advance,
  get_free-remaining,
}
use simple_quic.Payload.Frame.{Frame}
use simple_quic.Payload.Frame.Length.{encode_len}
use simple_quic.Payload.Frame.Parse.{parse}
use simple_quic.Payload.Frame.Wire.{frame_bytes, Fits}
use simple_quic.Payload.Frame.Writing.{encode-Writes}
use simple_quic.Payload.Frame.RoundTrip.{IsReadable, parse-Reads}
use simple_quic.Payload.Packet.Frames.{payload_len}
use simple_quic.Payload.Packet.Writing.{check_room_once}
use simple_quic.Payload.Packet.Whole.{
  encode_frames, encode_payload, parse_while, parse_payload, parse_payload_of,
}

-- A frame that is read back, and whose EncodeLen is right, as it is for every class but CRYPTO.
abbrev pub IsSendable : Frame → Type 0
IsSendable f = Fits f × IsReadable f × (encode_len f ≡ ok (length (frame_bytes f)))

abbrev pub AllSendable : List Frame → Type 0
AllSendable [] = Unit {0}
AllSendable (f ∷ fs) = IsSendable f × AllSendable fs

abbrev pub payload_bytes : List Frame → List ℕ
payload_bytes [] = []
payload_bytes (f ∷ fs) = frame_bytes f ++ payload_bytes fs

pub payload_len-length :
    (fs : List Frame) → AllSendable fs → payload_len fs ≡ ok (length (payload_bytes fs))
unfolding payload_len
payload_len-length [] a = refl
payload_len-length (f ∷ fs) (h, a) =
    rw (h.2, payload_len-length fs a)
      (ap ok (sym (length-append (frame_bytes f) (payload_bytes fs))))

encode_frames-Writes :
    (fs : List Frame) → AllSendable fs → Writes (encode_frames fs) (payload_bytes fs)
unfolding encode_frames
encode_frames-Writes [] a = pure-Writes
encode_frames-Writes (f ∷ fs) (h, a) =
    Writes-seq _ _ _ _ (encode-Writes f h.0) (encode_frames-Writes fs a)

nothing_parses : parse (make 0) ≡ err Error.assertion
unfolding parse make peek_bytes fetch check_free get_free
nothing_parses = refl

bytes-nonempty : (f : Frame) (bs : List ℕ) → Reads parse bs f → 0 < length bs
bytes-nonempty f [] r =
    let eq = sym nothing_parses ∙ r (make 0) [] (unfold make in refl) in absurd (ground (arith, eq))
bytes-nonempty f (b ∷ bs) r = omega arith

frame_bytes-nonempty : (f : Frame) → IsSendable f → 0 < length (frame_bytes f)
frame_bytes-nonempty f h = bytes-nonempty f (frame_bytes f) (parse-Reads f h.0 h.1)

module _ (more : ByteStream → Bool) (buffer : List ℕ) (start total : ℕ)
    (on : (t : ByteStream) (n : ℕ)
      → t.buffer ≡ buffer
      → start ≤ t.pos
      → t.pos + n ≡ total
      → more t ≡ ltb 0 n) where
  pub parse_while-Reads :
      (fs : List Frame) (fuel : ℕ) (t : ByteStream) (rest : List ℕ)
      → AllSendable fs
      → length (payload_bytes fs) ≤ fuel
      → t.buffer ≡ buffer
      → start ≤ t.pos
      → t.pos + length (payload_bytes fs) ≡ total
      → remaining t ≡ payload_bytes fs ++ rest
      → parse_while more fuel t ≡ ok (fs, advance (length (payload_bytes fs)) t)
  unfolding parse_while
  parse_while-Reads [] zero t rest a room b o e r = rw (on t 0 b o e) (Reads-pure [] t rest r)
  parse_while-Reads [] (suc fuel) t rest a room b o e r = rw (on t 0 b o e) (Reads-pure [] t rest r)
  parse_while-Reads (f ∷ fs) zero t rest (h, a) room b o e r =
      absurd
        (omega (arith, frame_bytes-nonempty f h, length-append (frame_bytes f) (payload_bytes fs)))
  parse_while-Reads (f ∷ fs) (suc fuel) t rest (h, a) room b o e r =
      let size = length-append (frame_bytes f) (payload_bytes fs) in
      let some_byte = frame_bytes-nonempty f h in
      let front : remaining t ≡ frame_bytes f ++ (payload_bytes fs ++ rest) =
        r ∙ append_assoc (frame_bytes f) (payload_bytes fs) rest in
      let next = advance (length (frame_bytes f)) t in
      let behind : parse_while more fuel next ≡ ok (fs, advance (length (payload_bytes fs)) next) =
        parse_while-Reads fs fuel next rest a (omega arith) (unfold advance in b)
          (unfold advance in omega arith) (unfold advance in omega arith)
          (remaining-advance t (frame_bytes f) (payload_bytes fs ++ rest) front _ refl) in
      rw
        (
          on t _ b o e,
          lt→ltb 0 (length (frame_bytes f ++ payload_bytes fs)) (omega arith),
          parse-Reads f h.0 h.1 t (payload_bytes fs ++ rest) front,
          ◌>>=◌,
          behind,
        )
        (ap (λ u. ok (f ∷ fs, u))
          (advance-advance (length (frame_bytes f)) (length (payload_bytes fs)) t
            ∙ ap (λ k. advance k t) (sym size)))

pub encode_payload-Writes :
    (fs : List Frame) → AllSendable fs → Writes (encode_payload fs) (payload_bytes fs)
unfolding encode_payload
encode_payload-Writes fs a =
    check_room_once (payload_len fs) _ _ (payload_len-length fs a) (encode_frames-Writes fs a)

-- Both constructors of Payload from a stream. One reads to the end of the stream, the other up to
-- a length.
module _ (fs : List Frame) (a : AllSendable fs) (t : ByteStream) where
  pub parse_payload-Reads :
      IsValid t
      → remaining t ≡ payload_bytes fs
      → parse_payload t ≡ ok (fs, advance (length (payload_bytes fs)) t)
  unfolding parse_payload empty
  parse_payload-Reads v r =
      let size : length (payload_bytes fs) ≡ get_free t =
        ap length (sym r) ∙ sym (get_free-remaining t) in
      parse_while-Reads (λ s. not (empty s)) t.buffer 0 (length t.buffer)
        (λ u n b o e. ends u n (ap length b) e) fs (get_free t) t [] a (omega arith) refl
        (omega arith) (unfold get_free in omega arith) (r ∙ sym (append-nil (payload_bytes fs)))
    where
      ends :
          (u : ByteStream) (n : ℕ)
          → length u.buffer ≡ length t.buffer
          → u.pos + n ≡ length t.buffer
          → not (empty u) ≡ ltb 0 n
      ends u n b e = ground arith

  pub parse_payload_of-Reads :
      (rest : List ℕ)
      → remaining t ≡ payload_bytes fs ++ rest
      → parse_payload_of (length (payload_bytes fs)) t
        ≡ ok (fs, advance (length (payload_bytes fs)) t)
  unfolding parse_payload_of
  parse_payload_of-Reads rest r =
      parse_while-Reads (λ s. ltb (s.pos - t.pos) (length (payload_bytes fs))) t.buffer t.pos
        (t.pos + length (payload_bytes fs)) (λ u n b o e. ground arith) fs (get_free t) t rest a
        (omega (arith, get_free-remaining t, ap length r, length-append (payload_bytes fs) rest))
        refl (omega arith) refl r
