-- ===== src/Context/ConnectionId/RoundTrip.antt =====
-- The wire form of a connection identifier, written and read.
use simple_quic.Common.{
  ℕ, ◌%◌, ◌≤◌, ◌≡◌, sym, ap, ◌∙◌, List, [], ◌++◌, true, false, ok, arith, le→leb, length, take,
  length-append,
}
use simple_quic.Utils.ByteStream.{◌>>=◌, advance}
use simple_quic.Utils.ByteStream.Laws.{
  Reads, Writes, Reads-bind, read_bytes-Reads, Writes-seq, write_bytes-Writes, assert-Reads,
  check_free-Writes, pure-Writes,
}
use simple_quic.Utils.Codec.{be_bytes}
use simple_quic.Utils.Codec.Uint.{encode_uint-Writes, decode_uint-Reads, length-be_bytes}
use simple_quic.Context.ConnectionId.{
  ConnectionId, connection_id_max_size, padded, parse_sized, parse_id, encode_id, encode_id_len,
}

-- An identifier as a parser builds it: at most 20 bytes, the rest of the array zero.
pub record IsWellFormed (c : ConnectionId) : Type 0 where
  pub short : c.len ≤ connection_id_max_size
  pub counted : length (take c.len c.id) ≡ c.len
  pub zeros : padded (take c.len c.id) ≡ c.id
  pub set : c.valid ≡ true

abbrev pub sized_bytes : ConnectionId → List ℕ
sized_bytes c = take c.len c.id

ConnectionId-path :
    (c : ConnectionId) {xs : List ℕ} {n : ℕ}
    → xs ≡ c.id
    → n ≡ c.len
    → c.valid ≡ true
    → ◌≡◌ {A = ConnectionId} (record { id = xs; valid = true; len = n }) c
ConnectionId-path c e f g i = record { id = e i; valid = sym g i; len = f i }

pub parse_sized-Reads :
    (c : ConnectionId) → IsWellFormed c → Reads (parse_sized c.len) (sized_bytes c) c
unfolding parse_sized
parse_sized-Reads c w =
    let same : c.len % 128 ≡ c.len = omega (arith, w.short) in
    assert-Reads _ _ _ _ (le→leb (c.len % 128) connection_id_max_size (omega arith)) λ s rest e.
      rw (read_bytes-Reads (c.len % 128) (sized_bytes c) (same ∙ sym w.counted) s rest e, ◌>>=◌)
        (ap (λ d. ok (d, advance (length (sized_bytes c)) s))
          (ConnectionId-path c w.zeros same w.set))

unfoldable pub id_bytes : ConnectionId → List ℕ
id_bytes c = be_bytes 1 c.len ++ sized_bytes c

pub length-id_bytes :
    (c : ConnectionId) → IsWellFormed c → length (id_bytes c) ≡ encode_id_len c true
unfolding id_bytes encode_id_len
length-id_bytes c w =
    omega
      (arith, length-append (be_bytes 1 c.len) (sized_bytes c), length-be_bytes 1 c.len, w.counted)

pub parse_id-Reads : (c : ConnectionId) → IsWellFormed c → Reads parse_id (id_bytes c) c
unfolding parse_id id_bytes
parse_id-Reads c w =
    Reads-bind _ _ _ _ _ _
      (decode_uint-Reads c.len 1 (omega arith) (omega arith) (omega (arith, w.short)))
      (parse_sized-Reads c w)

pub encode_id-Writes : (c : ConnectionId) → IsWellFormed c → Writes (encode_id c true) (id_bytes c)
unfolding encode_id id_bytes
encode_id-Writes c w = check_free-Writes _ _ _ (omega (arith, length-id_bytes c w)) (
    Writes-seq _ _ _ _ (encode_uint-Writes c.len 1 (omega arith) (omega arith))
      (write_bytes-Writes (sized_bytes c)))

pub encode_sized-Writes :
    (c : ConnectionId) → IsWellFormed c → Writes (encode_id c false) (sized_bytes c)
unfolding encode_id encode_id_len
encode_sized-Writes c w =
    check_free-Writes _ _ _ (omega (arith, w.counted))
      (Writes-seq _ _ [] _ pure-Writes (write_bytes-Writes (sized_bytes c)))
