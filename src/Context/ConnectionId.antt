-- ===== src/Context/ConnectionId.antt =====
-- context/connection_id.hh and .cc: the identifiers of connections, and their wire form.
pub mod RoundTrip
pub mod Order
pub mod Generator
pub mod Fresh
pub mod Examples
use simple_quic.Common.{
  ℕ, ◌+◌, ◌-◌, ◌%◌, List, [], ◌∷◌, ◌++◌, Bool, true, false, leb, ltb, ◌==◌, ◌&&◌, ◌||◌,
  if◌then◌else◌, length, take, replicate,
}
use simple_quic.Utils.ByteStream.{
  ByteStream, Io, ◌>>=◌, ◌>>◌, pure, assert, check_free, read_bytes, write_bytes,
}
use simple_quic.Utils.Codec.{encode_uint, decode_uint}

abbrev pub connection_id_max_size : ℕ
connection_id_max_size = 20

-- The length of the identifiers that a program gives out.
abbrev pub local_connection_id_length : ℕ
local_connection_id_length = 8

-- `id` is the whole array of 20 bytes, of which the first `len` count.
pub record ConnectionId : Type 0 where
  pub id : List ℕ
  pub valid : Bool
  pub len : ℕ

-- ConnectionId(): no identifier.
unfoldable pub no_id : ConnectionId
no_id = record { id = replicate connection_id_max_size 0; valid = false; len = 0 }

-- std::copy of the bytes into the array that was filled with zeros.
unfoldable pub padded : List ℕ → List ℕ
padded bs = bs ++ replicate (connection_id_max_size - length bs) 0

-- The constructor with a given length. `len` is a field of 7 bits.
unfoldable pub parse_sized : ℕ → Io ConnectionId
unfolding padded
parse_sized connection_id_len = do
  let n = connection_id_len % 128
  assert (leb n connection_id_max_size)
  bs ← read_bytes n
  pure (record { id = padded bs; valid = true; len = n })

-- The constructor that reads the length first.
unfoldable pub parse_id : Io ConnectionId
unfolding parse_sized
parse_id = do n ← decode_uint 1; parse_sized n

unfoldable pub encode_id_len : ConnectionId → Bool → ℕ
encode_id_len c with_id_len = c.len + (if with_id_len then 1 else 0)

unfoldable pub encode_id : ConnectionId → Bool → Io (Unit {0})
unfolding encode_id_len
encode_id c with_id_len = do
  check_free (encode_id_len c with_id_len)
  if with_id_len then encode_uint c.len 1 else pure tt
  write_bytes (take c.len c.id)

same_bytes : List ℕ → List ℕ → Bool
same_bytes [] [] = true
same_bytes (a ∷ as') (b ∷ bs) = (a == b) && same_bytes as' bs
same_bytes _ _ = false

-- operator== of ConnectionID
unfoldable pub same_id : ConnectionId → ConnectionId → Bool
unfolding same_bytes
same_id a b = (a.len == b.len) && same_bytes a.id b.id

-- operator< of std::array
less_bytes : List ℕ → List ℕ → Bool
less_bytes [] [] = false
less_bytes [] (b ∷ bs) = true
less_bytes (a ∷ as') [] = false
less_bytes (a ∷ as') (b ∷ bs) = ltb a b || (a == b) && less_bytes as' bs

-- operator< of ConnectionID, the order of std::set<ConnectionID>.
unfoldable pub less_id : ConnectionId → ConnectionId → Bool
unfolding less_bytes same_bytes
less_id a b = ltb a.len b.len || (a.len == b.len) && less_bytes a.id b.id
