-- ===== src/Utils/ByteStream.antt =====
-- utils/bytestream.hh: a cursor over an owned buffer, and the actions that read and write it.
-- `len` is the length of the buffer, as all three constructors have it. The asserts are those of a
-- build without NDEBUG, which is what CMakeLists.txt asks for.
pub mod Laws
pub mod Examples
use simple_quic.Common.{ℕ, ◌+◌, ◌-◌, ◌≤◌, List, ◌++◌, Bool, leb, ◌==◌, if◌then◌else◌}
use simple_quic.Common.{length, take, drop, replicate, Result, Error, ok, err}

pub record ByteStream : Type 0 where
  pub buffer : List ℕ
  pub pos : ℕ

-- A call that works on a stream: its result and the new stream, or how it stopped.
abbrev pub Io : Type 0 → Type 0
Io A = ByteStream → Result (A × ByteStream)

infixl 5 ◌>>=◌ ◌>>◌
abbrev pub ◌>>=◌ : {A B : Type 0} → Io A → (A → Io B) → Io B
◌>>=◌ m f s = elim (m s) [ ok (a, t) ↦ f a t | err e ↦ err e ]

abbrev pub ◌>>◌ : {A B : Type 0} → Io A → Io B → Io B
m >> k = m >>= λ _. k

abbrev pub pure : {A : Type 0} → A → Io A
pure a s = ok (a, s)

abbrev pub throw : {A : Type 0} → Error → Io A
throw e s = err e

abbrev pub assert : Bool → Io (Unit {0})
assert b s = if b then ok (tt, s) else err Error.assertion

-- ByteStream(size_t len): a fresh buffer of zeros.
unfoldable pub make : ℕ → ByteStream
make n = record { buffer = replicate n 0; pos = 0 }

unfoldable pub get_buffer_len : ByteStream → ℕ
get_buffer_len s = length s.buffer

unfoldable pub get_free : ByteStream → ℕ
get_free s = length s.buffer - s.pos

unfoldable pub empty : ByteStream → Bool
empty s = s.pos == length s.buffer

unfoldable pub is_none : ByteStream → Bool
is_none s = length s.buffer == 0

unfoldable pub reset : ByteStream → ByteStream
reset s = record s { pos = 0 }

unfoldable pub check_free : ℕ → Io (Unit {0})
unfolding get_free
check_free n s = if leb n (get_free s) then ok (tt, s) else err Error.assertion

-- The range [pos, pos + n) of the buffer, as its two ends.
unfoldable pub fetch : ℕ → Io (ℕ × ℕ)
unfolding check_free
fetch n = do check_free n; λ s. ok ((s.pos, s.pos + n), s)

unfoldable pub consume : ℕ → Io (ℕ × ℕ)
unfolding check_free
consume n = do check_free n; λ s. ok ((s.pos, s.pos + n), record s { pos = s.pos + n })

-- std::copy out of a range of the buffer, and into the buffer from an index on.
unfoldable pub copy_out : ℕ × ℕ → Io (List ℕ)
copy_out (first, last) s = ok (take (last - first) (drop first s.buffer), s)

unfoldable pub copy_in : ℕ → List ℕ → Io (Unit {0})
copy_in first bs s =
    ok (tt, record s { buffer = take first s.buffer ++ (bs ++ drop (first + length bs) s.buffer) })

-- The bytes of the next `n` places, left in the stream or used up.
unfoldable pub peek_bytes : ℕ → Io (List ℕ)
unfolding fetch copy_out
peek_bytes n = do r ← fetch n; copy_out r

unfoldable pub read_bytes : ℕ → Io (List ℕ)
unfolding consume copy_out
read_bytes n = do r ← consume n; copy_out r

unfoldable pub write_bytes : List ℕ → Io (Unit {0})
unfolding consume copy_in
write_bytes bs = do r ← consume (length bs); copy_in r.0 bs

-- The cursor stays inside the buffer.
abbrev pub IsValid : ByteStream → Type 0
IsValid s = s.pos ≤ length s.buffer

-- The bytes that are still to be read.
abbrev pub remaining : ByteStream → List ℕ
remaining s = drop s.pos s.buffer

unfoldable pub advance : ℕ → ByteStream → ByteStream
advance n s = record s { pos = s.pos + n }

-- The stream after `bs` has been written over the next places.
unfoldable pub put : List ℕ → ByteStream → ByteStream
put bs s = record {
  buffer = take s.pos s.buffer ++ (bs ++ drop (s.pos + length bs) s.buffer);
  pos = s.pos + length bs;
}

-- The stream moved back to an earlier position.
abbrev pub seek : ℕ → ByteStream → ByteStream
seek p s = record s { pos = p }
