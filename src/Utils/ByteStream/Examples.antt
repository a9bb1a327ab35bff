-- ===== src/Utils/ByteStream/Examples.antt =====
-- Streams on concrete buffers.
use simple_quic.Common.{◌≡◌, ◌+◌, refl, [], ◌∷◌, ok, err, Error}
use simple_quic.Utils.ByteStream.{
  ByteStream, make, read_bytes, write_bytes, get_free, reset, seek, get_buffer_len,
}

four_bytes : ByteStream
four_bytes = record { buffer = 1 ∷ 2 ∷ 3 ∷ 4 ∷ []; pos = 1 }

reads_two : read_bytes 2 four_bytes ≡ ok (2 ∷ 3 ∷ [], seek 3 four_bytes)
unfolding four_bytes read_bytes
reads_two = refl

reads_past_end : read_bytes 4 four_bytes ≡ err Error.assertion
unfolding four_bytes read_bytes
reads_past_end = refl

writes_two :
    write_bytes (8 ∷ 9 ∷ []) four_bytes ≡ ok (tt, record { buffer = 1 ∷ 8 ∷ 9 ∷ 4 ∷ []; pos = 3 })
unfolding four_bytes write_bytes
writes_two = refl

fresh_is_free : get_free (make 5) ≡ get_buffer_len (reset four_bytes) + 1
unfolding four_bytes get_free make get_buffer_len reset
fresh_is_free = refl
