-- ===== src/Context/Unsent/Chunks.antt =====
-- The STREAM frames that GetPktFromUnsentBuf makes of the data.
use native.Mathlib.Nat.{mod-eq_of_lt}
use simple_quic.Common.{
  take_within, drop_within, drop_all, drop-drop, ℕ, ◌+◌, ◌-◌, ◌%◌, ◌^◌, ◌≤◌, ◌<◌, ◌≡◌, refl, sym,
  ap, ◌∙◌, min, List, [], ◌∷◌, ◌++◌, Bool, true, false, leb, ◌==◌, ==-refl, if◌then◌else◌, length,
  take, drop, length-take, length-drop, length-append, Option, none, some, lookup-insert_self,
  Result, ok, err, Error, ◌>>=◌, arith, ◌⊎◌, inl, inr, Bool-cases,
}
use simple_quic.Context.Stream.{Stream, Chunk, get_update_offset, is_send_permitted}
use simple_quic.Context.Stream.Delivery.{IsPart}
use simple_quic.Context.Streams.{
  Streams, stream_at, set_stream, touch, new_stream, is_send_size_permitted,
}
use simple_quic.Context.Sending.{new_packet}
use simple_quic.Context.Sending.Datagram.{new_packet-payload}
use simple_quic.Payload.Frame.{make_stream}
use simple_quic.Payload.Packet.Whole.{Packet}
use simple_quic.Context.Unsent.{
  Buffer, Outbox, max_packet_data_length, cut_front, next_fin, send_chunk, try_chunk, get_from,
  get_new_pkt_num, get_pkt_from_unsent_buf,
}

-- The unsent bytes of a stream.
abbrev pub bytes_of : ℕ → List Buffer → List ℕ
bytes_of id [] = []
bytes_of id (b ∷ bs) = if b.stream_id == id then b.bytes ++ bytes_of id bs else bytes_of id bs

-- There is a flag to read once the front is gone, or it is not gone yet.
abbrev pub HasFlag : Buffer → List Buffer → Type 0
HasFlag b bs =
    (max_packet_data_length < length b.bytes) ⊎ ((c : Buffer) × (cs : List Buffer) × (bs ≡ c ∷ cs))

stream_at-set_stream : (id : ℕ) (s : Stream) (t : Streams) → stream_at id (set_stream id s t) ≡ s
unfolding stream_at set_stream
stream_at-set_stream id s t =
    ap (λ o. elim o [ none ↦ new_stream | some v ↦ v ]) (lookup-insert_self id s t.streams)

front_bytes :
    (b : Buffer) (bs : List Buffer)
    → bytes_of b.stream_id (b ∷ bs) ≡ b.bytes ++ bytes_of b.stream_id bs
front_bytes b bs = rw (==-refl b.stream_id) refl

-- The front is cut after `n` bytes.
Cuts : ℕ → Buffer → List Buffer → Type 0
Cuts n b bs =
    (fin : Bool) × (left : List Buffer) × (cut_front n b bs ≡ ok (fin, left))
    × (bytes_of b.stream_id left ≡ drop n b.bytes ++ bytes_of b.stream_id bs)

cut_lem :
    (n : ℕ) (b : Buffer) (bs : List Buffer)
    → n ≡ min (length b.bytes) max_packet_data_length
    → HasFlag b bs
    → Cuts n b bs
unfolding Cuts cut_front next_fin
cut_lem n b bs e h = elim (Bool-cases (leb (length b.bytes - n) 0)) [
  | inl gone ↦ elim h [
    | inl more ↦ absurd (ground (arith, gone, e, more))
    | inr (c, cs, q) ↦ (
      c.fin,
      bs,
      rw gone (ap (λ r. do fin ← r; ok (fin, bs)) (ap next_fin q)),
      ap (λ xs. xs ++ bytes_of b.stream_id bs) (sym (drop_all n b.bytes (ground (arith, gone)))),
    )
  ]
  | inr more ↦ (
    false,
    record b { bytes = drop n b.bytes } ∷ bs,
    rw more refl,
    front_bytes (record b { bytes = drop n b.bytes }) bs,
  )
]

-- The unsent bytes of the stream are what follows its offset in the data.
abbrev pub IsUnsent : List ℕ → ℕ → Outbox → Type 0
IsUnsent data_sent id o =
    let s = stream_at id o.streams in
    (drop s.offset data_sent ≡ bytes_of id o.unsent)
    × (s.offset + length (bytes_of id o.unsent) ≡ length data_sent)

-- A packet of one STREAM frame that holds `n` bytes of the data at the offset of the stream, and
-- what is left.
abbrev pub SendsPart : List ℕ → ℕ → ℕ → Outbox → Result (Option Packet × Outbox) → Type 0
SendsPart data_sent id n o r =
    (p : Packet) × (c : Chunk) × (o' : Outbox) × (r ≡ ok (some p, o'))
    × (p.payload ≡ some (make_stream id c.bytes c.offset true c.fin ∷ []))
    × (c.offset ≡ (stream_at id o.streams).offset)
    × (length c.bytes ≡ n)
    × IsPart data_sent c
    × ((stream_at id o'.streams).offset ≡ c.offset + n)
    × IsUnsent data_sent id o'

send_chunk-SendsPart :
    (data_sent : List ℕ) (n : ℕ) (b : Buffer) (bs : List Buffer) (o : Outbox)
    → n ≡ min (length b.bytes) max_packet_data_length
    → HasFlag b bs
    → length data_sent < 2 ^ 64
    → o.now_pkt_num + 1 < 2 ^ 32
    → drop (stream_at b.stream_id o.streams).offset data_sent ≡ b.bytes ++ bytes_of b.stream_id bs
    → (stream_at b.stream_id o.streams).offset + length (b.bytes ++ bytes_of b.stream_id bs)
      ≡ length data_sent
    → SendsPart data_sent b.stream_id n o (send_chunk n b bs o)
unfolding Cuts send_chunk get_new_pkt_num get_update_offset
send_chunk-SendsPart data_sent n b bs o e flag short small same size =
    let id = b.stream_id in
    let s : Stream = stream_at id o.streams in
    let (fin, left, run, kept) = cut_lem n b bs e flag in
    let long : n + length (bytes_of id bs) ≤ length (b.bytes ++ bytes_of id bs) =
      omega (arith, e, length-append b.bytes (bytes_of id bs)) in
    let o' : Bool × List Buffer → Outbox = λ cut. record o {
      unsent = cut.1;
      streams = set_stream id (record s { offset = (s.offset + n) % 2 ^ 64 }) o.streams;
      now_pkt_num = (o.now_pkt_num + 1) % 2 ^ 64;
    } in
    let (h, built) =
      new_packet-payload o.remote ((o.now_pkt_num + 1) % 2 ^ 64)
        (make_stream id (take n b.bytes) s.offset true fin ∷ []) (omega arith) in
    let counted : length (take n b.bytes) ≡ n = length-take n b.bytes ∙ omega (arith, e) in
    let room : n ≤ length b.bytes = omega (arith, e) in
    let moved : (stream_at id (o' (fin, left)).streams).offset ≡ s.offset + n =
      ap (λ (st : Stream). st.offset)
        (stream_at-set_stream id (record s { offset = (s.offset + n) % 2 ^ 64 }) o.streams)
      ∙ mod-eq_of_lt (omega (arith, long, size)) in
    (
      record {
        header = h;
        payload = some (make_stream id (take n b.bytes) s.offset true fin ∷ []);
      },
      record { bytes = take n b.bytes; offset = s.offset; fin = fin },
      o' (fin, left),
      ap
            (λ r. do
              cut ← r
              p ←
                  new_packet o.remote ((o.now_pkt_num + 1) % 2 ^ 64)
                    (make_stream id (take n b.bytes) s.offset true cut.0 ∷ [])
              ok (some p, o' cut))
            run
          ∙ ap (λ r. do p ← r; ok (some p, o' (fin, left))) built,
      refl,
      refl,
      counted,
      (
        omega (arith, counted, long, size),
        sym (
            ap (λ k. take k (drop s.offset data_sent)) counted
            ∙ ap (take n) same
            ∙ take_within n b.bytes (bytes_of id bs) room),
      ),
      moved,
      (
        ap (λ k. drop k data_sent) moved
            ∙ sym (drop-drop s.offset n data_sent)
            ∙ ap (drop n) same
            ∙ drop_within n b.bytes (bytes_of id bs) room
            ∙ sym kept,
        omega (
          arith,
          moved,
          ap (λ xs. length xs) kept,
          length-append (drop n b.bytes) (bytes_of id bs),
          length-drop n b.bytes,
          length-append b.bytes (bytes_of id bs),
          size,
          room,
        ),
      ),
    )

touched : (id : ℕ) (t : Streams) → stream_at id (touch id t) ≡ stream_at id t
unfolding touch
touched id t = stream_at-set_stream id (stream_at id t) t

allowed :
    (n : ℕ) (b : Buffer) (bs : List Buffer) (o : Outbox)
    → o.unsent ≡ b ∷ bs
    → n ≡ min (length b.bytes) max_packet_data_length
    → is_send_permitted n (stream_at b.stream_id o.streams) ≡ true
    → is_send_size_permitted n (touch b.stream_id o.streams) ≡ true
    → get_pkt_from_unsent_buf o
      ≡ send_chunk n b bs (record o { streams = touch b.stream_id o.streams })
unfolding get_pkt_from_unsent_buf get_from try_chunk
allowed n b bs o front e stream_permits size_permits =
    let o' : Outbox = record o { streams = touch b.stream_id o.streams } in
    let s = stream_at b.stream_id o.streams in
    ap (λ xs. get_from xs o) front
    ∙ ap (λ k. try_chunk (is_send_permitted k s) (is_send_size_permitted k o'.streams) k b bs o')
        (sym e)
    ∙ ap (λ f. try_chunk f (is_send_size_permitted n o'.streams) n b bs o') stream_permits
    ∙ ap (λ f. try_chunk true f n b bs o') size_permits

-- GetPktFromUnsentBuf, where the limits of the stream and of the connection allow what the front
-- buffer gives, at most 1024 bytes, there is a flag to read, the packet number fits 32 bits and the
-- data 64: it returns a packet of one STREAM frame. The frame holds the bytes of the data at the
-- offset of the stream, which moves on by their number; what follows the new offset is what is still
-- unsent.
pub get_pkt_from_unsent_buf-SendsPart :
    (data_sent : List ℕ) (n : ℕ) (b : Buffer) (bs : List Buffer) (o : Outbox)
    → o.unsent ≡ b ∷ bs
    → n ≡ min (length b.bytes) max_packet_data_length
    → HasFlag b bs
    → length data_sent < 2 ^ 64
    → o.now_pkt_num + 1 < 2 ^ 32
    → IsUnsent data_sent b.stream_id o
    → is_send_permitted n (stream_at b.stream_id o.streams) ≡ true
    → is_send_size_permitted n (touch b.stream_id o.streams) ≡ true
    → SendsPart data_sent b.stream_id n o (get_pkt_from_unsent_buf o)
get_pkt_from_unsent_buf-SendsPart data_sent n b bs o front e flag short small u stream_permits
      size_permits =
    let id = b.stream_id in
    let o' : Outbox = record o { streams = touch id o.streams } in
    let there = touched id o.streams in
    let all : bytes_of id o.unsent ≡ b.bytes ++ bytes_of id bs =
      ap (bytes_of id) front ∙ front_bytes b bs in
    let (p, c, o'', run, payload, off, counted, part, moved, unsent) =
      send_chunk-SendsPart data_sent n b bs o' e flag short small
        (ap (λ (s : Stream). drop s.offset data_sent) there ∙ u.0 ∙ all)
        (ap (λ (s : Stream). s.offset + length (b.bytes ++ bytes_of id bs)) there
          ∙ sym (ap (λ bytes. (stream_at id o.streams).offset + length bytes) all)
          ∙ u.1) in
    (
      p,
      c,
      o'',
      allowed n b bs o front e stream_permits size_permits ∙ run,
      payload,
      off ∙ ap (λ (s : Stream). s.offset) there,
      counted,
      part,
      moved,
      unsent,
    )

-- The last packet of the only buffer: where at most 1024 bytes are unsent in all and both limits
-- allow them, GetPktFromUnsentBuf reads a flag behind the end of unsentBufFin.
pub get_pkt_from_unsent_buf-past_end :
    (b : Buffer) (o : Outbox)
    → o.unsent ≡ b ∷ []
    → length b.bytes ≤ max_packet_data_length
    → is_send_permitted (length b.bytes) (stream_at b.stream_id o.streams) ≡ true
    → is_send_size_permitted (length b.bytes) (touch b.stream_id o.streams) ≡ true
    → get_pkt_from_unsent_buf o ≡ err Error.out_of_bounds
unfolding send_chunk cut_front next_fin
get_pkt_from_unsent_buf-past_end b o front short stream_permits size_permits =
    let gone : leb (length b.bytes - length b.bytes) 0 ≡ true = ground arith in
    allowed (length b.bytes) b [] o front (omega (arith, short)) stream_permits size_permits
    ∙ rw gone refl
