-- ===== src/Payload/Packet/Trip.antt =====
-- A whole packet through Encode and back.
use simple_quic.Common.{
  ℕ, ◌+◌, ◌≡◌, refl, sym, ap, ◌∙◌, List, [], ◌∷◌, ◌++◌, append-nil, length, length-append,
  length-drop, ok, some, arith, drop,
}
use simple_quic.Utils.ByteStream.{
  ByteStream, ◌>>=◌, IsValid, get_free, seek, put, advance, remaining,
}
use simple_quic.Utils.ByteStream.Laws.{
  Writes, Writes-seq, remaining-seek-put, remaining-advance, length-put, advance-advance,
  get_free-put,
}
use simple_quic.Payload.Frame.{Frame}
use simple_quic.Payload.Packet.{Header, packet_type, payload_length}
use simple_quic.Payload.Packet.Wire.{header_bytes, FitsHeader}
use simple_quic.Payload.Packet.Writing.{header_len-length, encode_header-Writes, check_room_once}
use simple_quic.Payload.Packet.RoundTrip.{IsReadableHeader, parse_header-Reads}
use simple_quic.Payload.Packet.Loop.{
  AllSendable, payload_bytes, payload_len-length, encode_payload-Writes, parse_payload-Reads,
  parse_payload_of-Reads,
}
use simple_quic.Payload.Packet.Whole.{
  Packet, encode_packet, packet_len, parse_packet, parse_behind, some_len, encode_some,
}

-- The Length field of a long header counts the packet number and the frames.
abbrev pub IsCounted : Header → ℕ → Type 0
IsCounted (Header.short n dst num) size = Unit {0}
IsCounted h size = payload_length h ≡ size

module _ (h : Header) (fs : List Frame) (fh : FitsHeader h) (a : AllSendable fs) where
  abbrev packet : Packet
  packet = record { header = h; payload = some fs }

  abbrev bytes : List ℕ
  bytes = header_bytes h ++ payload_bytes fs

  pub packet_len-length : packet_len packet ≡ ok (length bytes)
  unfolding packet_len some_len
  packet_len-length =
      rw (header_len-length h fh, payload_len-length fs a)
        (ap ok (sym (length-append (header_bytes h) (payload_bytes fs))))

  pub encode_packet-Writes : Writes (encode_packet packet) bytes
  unfolding encode_packet encode_some
  encode_packet-Writes =
      check_room_once (packet_len packet) _ bytes packet_len-length
        (Writes-seq _ _ _ _ (encode_header-Writes h fh) (encode_payload-Writes fs a))

parse_behind-Reads :
    (h : Header) (fs : List Frame) (t : ByteStream)
    → IsReadableHeader h
    → AllSendable fs
    → IsCounted h (length (payload_bytes fs))
    → IsValid t
    → remaining t ≡ payload_bytes fs
    → parse_behind (packet_type h) h t
      ≡ ok (record { header = h; payload = some fs }, advance (length (payload_bytes fs)) t)
unfolding parse_behind packet_type
parse_behind-Reads (Header.short n dst num) fs t i a c v r =
    rw (parse_payload-Reads fs a t v r, ◌>>=◌) refl
parse_behind-Reads (Header.initial l token len num) fs t i a c v r =
    rw (c, parse_payload_of-Reads fs a t [] (r ∙ sym (append-nil (payload_bytes fs))), ◌>>=◌) refl
parse_behind-Reads (Header.zero_rtt l len num) fs t i a c v r =
    rw (c, parse_payload_of-Reads fs a t [] (r ∙ sym (append-nil (payload_bytes fs))), ◌>>=◌) refl
parse_behind-Reads (Header.handshake l len num) fs t i a c v r =
    rw (c, parse_payload_of-Reads fs a t [] (r ∙ sym (append-nil (payload_bytes fs))), ◌>>=◌) refl
parse_behind-Reads (Header.retry l token tag) fs t i a c v r = absurd i

nil_of : (bs : List ℕ) → length bs ≡ 0 → bs ≡ []
nil_of [] e = refl
nil_of (b ∷ bs) e = absurd (omega arith)

seek-put :
    (a b : List ℕ) (s : ByteStream)
    → advance (length b) (advance (length a) (seek s.pos (put (a ++ b) s))) ≡ put (a ++ b) s
seek-put a b s =
    advance-advance (length a) (length b) (seek s.pos (put (a ++ b) s))
    ∙ ap (λ k. advance k (seek s.pos (put (a ++ b) s))) (sym (length-append a b))
    ∙ (unfold advance put in refl)

-- A packet whose header and frames are readable, written to a stream with just the room that
-- EncodeLen asks for, fills the stream and is read back. The Length field of a long header has to
-- be that of the packet number and the frames.
pub parse_packet-encode_packet :
    (h : Header) (fs : List Frame) (s : ByteStream)
    → FitsHeader h
    → IsReadableHeader h
    → AllSendable fs
    → IsCounted h (length (payload_bytes fs))
    → IsValid s
    → packet_len (record { header = h; payload = some fs }) ≡ ok (get_free s)
    → (t : ByteStream) × (encode_packet (record { header = h; payload = some fs }) s ≡ ok (tt, t))
      × (get_free t ≡ 0)
      × (parse_packet (seek s.pos t) ≡ ok (record { header = h; payload = some fs }, t))
unfolding parse_packet
parse_packet-encode_packet h fs s fh i a c v e =
    let all = header_bytes h ++ payload_bytes fs in
    let size : length all ≡ get_free s = ground (arith, packet_len-length h fs fh a) in
    let t = put all s in
    let end : drop (s.pos + length all) s.buffer ≡ [] =
      nil_of _ (unfold get_free in omega (arith, length-drop (s.pos + length all) s.buffer)) in
    let whole : remaining (seek s.pos t) ≡ header_bytes h ++ payload_bytes fs =
      remaining-seek-put s v all (omega arith) ∙ ap (λ r. all ++ r) end ∙ append-nil all in
    let behind =
      remaining-advance (seek s.pos t) (header_bytes h) (payload_bytes fs) whole _ refl in
    let valid : IsValid (advance (length (header_bytes h)) (seek s.pos t)) =
      unfold advance get_free in
      omega (
        arith,
        length-put s v all (omega arith),
        length-append (header_bytes h) (payload_bytes fs),
      ) in
    (
      t,
      encode_packet-Writes h fs fh a s v (omega arith),
      get_free-put s v all (omega arith) ∙ omega arith,
      rw
          (
            parse_header-Reads h fh i (seek s.pos t) (payload_bytes fs) whole,
            ◌>>=◌,
            parse_behind-Reads h fs (advance (length (header_bytes h)) (seek s.pos t)) i a c valid
                behind,
          )
          (ap (λ u. ok (record { header = h; payload = some fs }, u))
            (seek-put (header_bytes h) (payload_bytes fs) s)),
    )
