-- ===== src/Context/Sending/Datagram.antt =====
-- The packets that a connection builds, and their datagrams.
use simple_quic.Common.{
  ℕ, ◌+◌, ◌*◌, ◌%◌, ◌<◌, ◌^◌, ◌≡◌, refl, sym, ap, ◌∙◌, List, ◌++◌, length, length-replicate, ltb,
  ok, ◌>>=◌, some, arith, Bool-cases, inl, inr,
}
use simple_quic.Utils.ByteStream.{ByteStream, make, seek, get_free, put}
use simple_quic.Utils.Codec.{encode_var_int_len, encode_index, encode_params, size_at}
use simple_quic.Context.ConnectionId.{ConnectionId, local_connection_id_length}
use simple_quic.Context.ConnectionId.RoundTrip.{IsWellFormed}
use simple_quic.Payload.Frame.{Frame}
use simple_quic.Payload.Packet.{Header}
use simple_quic.Payload.Packet.Make.{make_short}
use simple_quic.Payload.Packet.Wire.{FitsHeader, header_bytes}
use simple_quic.Payload.Packet.RoundTrip.{IsReadableHeader}
use simple_quic.Payload.Packet.Loop.{AllSendable, payload_bytes}
use simple_quic.Payload.Packet.Trip.{
  packet_len-length, parse_packet-encode_packet, encode_packet-Writes, IsCounted,
}
use simple_quic.Payload.Packet.Whole.{Packet, packet_len, encode_packet, parse_packet}
use simple_quic.Payload.Packet.{get_pkt_num}
use simple_quic.Context.Queue.{num_of}
use simple_quic.Context.Sending.{new_packet, encode_datagram}

-- The length of a packet number as a variable-length integer leaves room for the number in a short
-- header, which has at most 4 bytes for it.
record NumberFits (n : ℕ) : Type 0 where
  size : ℕ
  found : encode_var_int_len n ≡ ok size
  fits : n < 2 ^ (8 * ((size + 3) % 4 + 1))

number-fits : (n : ℕ) → n < 2 ^ 32 → NumberFits n
unfolding encode_var_int_len encode_index encode_params size_at
number-fits n h = elim (Bool-cases (ltb n 0x3f)) [
  | inl a ↦ record { size = 1; found = rw a refl; fits = ground (arith, a) }
  | inr a ↦ elim (Bool-cases (ltb n 0x3fff)) [
    | inl b ↦ record { size = 2; found = rw a (rw b refl); fits = ground (arith, b) }
    | inr b ↦ elim (Bool-cases (ltb n 0x3fff_ffff)) [
      | inl c ↦ record { size = 4; found = rw a (rw b (rw c refl)); fits = omega arith }
      | inr c ↦ record { size = 8; found = ground (arith, a, b, c); fits = omega arith }
    ]
  ]
]

pub get_free-make : (n : ℕ) → get_free (make n) ≡ n
unfolding get_free make
get_free-make n = omega (arith, length-replicate {A = ℕ} n 0)

-- A packet that a connection builds with a number below 2^32 has the frames that it is given.
pub new_packet-payload :
    (dst : ConnectionId) (n : ℕ) (fs : List Frame)
    → n < 2 ^ 32
    → (h : Header) × (new_packet dst n fs ≡ ok (record { header = h; payload = some fs }))
unfolding new_packet
new_packet-payload dst n fs h =
    let k = number-fits n h in
    (
      make_short k.size dst (n % 2 ^ 32),
      ap
          (λ r. do
            len ← r
            ok (record { header = make_short len dst (n % 2 ^ 32); payload = some fs }))
          k.found,
    )

-- It has that number, too.
pub new_packet-numbered :
    (dst : ConnectionId) (n : ℕ) (fs : List Frame)
    → n < 2 ^ 32
    → (p : Packet) × (new_packet dst n fs ≡ ok p) × (num_of p ≡ n) × (p.payload ≡ some fs)
unfolding new_packet make_short get_pkt_num
new_packet-numbered dst n fs h =
    let k = number-fits n h in
    (
      record { header = make_short k.size dst (n % 2 ^ 32); payload = some fs },
      ap
          (λ r. do
            len ← r
            ok (record { header = make_short len dst (n % 2 ^ 32); payload = some fs }))
          k.found,
      omega (arith, h),
      refl,
    )

-- The datagram of a packet.
pub encode_datagram-put :
    (h : Header) (fs : List Frame)
    → FitsHeader h
    → AllSendable fs
    → encode_datagram (record { header = h; payload = some fs })
      ≡ ok (
          put
            (header_bytes h ++ payload_bytes fs)
            (make (length (header_bytes h ++ payload_bytes fs))))
unfolding encode_datagram make
encode_datagram-put h fs fh a =
    let bytes = header_bytes h ++ payload_bytes fs in
    let size = packet_len-length h fs fh a in
    ap
      (λ r. do
        len ← r
        out ← encode_packet (record { header = h; payload = some fs }) (make len)
        ok out.1)
      size
    ∙ ap (λ r. do out ← r; ok out.1)
        (encode_packet-Writes h fs fh a (make (length bytes)) (omega arith)
          (omega (arith, get_free-make (length bytes))))

-- A packet with a readable header has a length and a datagram, which reads as the packet.
pub datagram-parse_packet :
    (h : Header) (fs : List Frame)
    → FitsHeader h
    → IsReadableHeader h
    → AllSendable fs
    → IsCounted h (length (payload_bytes fs))
    → (len : ℕ) × (b : ByteStream) × (packet_len (record { header = h; payload = some fs })
        ≡ ok len)
      × (encode_datagram (record { header = h; payload = some fs }) ≡ ok b)
      × (get_free b ≡ 0)
      × (parse_packet (seek 0 b) ≡ ok (record { header = h; payload = some fs }, b))
unfolding encode_datagram make
datagram-parse_packet h fs fh i a c =
    let size = packet_len-length h fs fh a in
    let bytes : ℕ = length (header_bytes h ++ payload_bytes fs) in
    let (t, run, full, back) =
      parse_packet-encode_packet h fs (make bytes) fh i a c (omega arith)
        (size ∙ ap ok (sym (get_free-make bytes))) in
    (
      bytes,
      t,
      size,
      ap
            (λ r. do
              len ← r
              out ← encode_packet (record { header = h; payload = some fs }) (make len)
              ok out.1)
            size
          ∙ ap (λ r. do out ← r; ok out.1) run,
      full,
      back,
    )

-- A packet that a connection builds with a packet number below 2^32, for a well-formed identifier of
-- the length of its own and frames that can be sent, is built and its datagram is encoded. Reading
-- the datagram from its start gives the same packet back.
pub new_packet-parse_packet :
    (dst : ConnectionId) (n : ℕ) (fs : List Frame)
    → n < 2 ^ 32
    → IsWellFormed dst
    → dst.len ≡ local_connection_id_length
    → AllSendable fs
    → (p : Packet) × (b : ByteStream) × (new_packet dst n fs ≡ ok p)
      × (encode_datagram p ≡ ok b)
      × (get_free b ≡ 0)
      × (parse_packet (seek 0 b) ≡ ok (p, b))
unfolding new_packet make_short
new_packet-parse_packet dst n fs h wf len a =
    let k = number-fits n h in
    let header : Header = Header.short ((k.size + 3) % 4) dst n in
    let (bytes, t, size, run, full, back) =
      datagram-parse_packet header fs (omega arith, wf) (len, h, k.fits) a tt in
    (
      record { header = header; payload = some fs },
      t,
      ap
            (λ r. do
              len' ← r
              ok (record { header = make_short len' dst (n % 2 ^ 32); payload = some fs }))
            k.found
          ∙ ap
              (λ (m : ℕ).
                ok (record { header = Header.short ((k.size + 3) % 4) dst m; payload = some fs }))
              (omega arith),
      run,
      full,
      back,
    )
