-- ===== src/Utils/Codec/Uint.antt =====
-- encodeUInt and decodeUint: what they write and read.
use native.Mathlib.Nat.{
  pow-suc, mod-lt, one-le-pow, div-add-mod, add-mul-mod_self_left, mod-eq_of_lt,
}
use native.Mathlib.Numerals.{towards_suc}
use simple_quic.Common.{
  ℕ, zero, suc, ◌+◌, ◌*◌, ◌/◌, ◌%◌, ◌^◌, ◌≤◌, ◌<◌, ◌≡◌, refl, sym, ap, ◌∙◌, arith, le→leb, length,
  ok, err, Error, ◌⊎◌, false,
}
use simple_quic.Common.Bits.{bit_or-shift}
use simple_quic.Utils.ByteStream.{
  ByteStream, ◌>>=◌, put, get_free, consume, copy_in, copy_out, read_bytes, IsValid, seek,
}
use simple_quic.Utils.ByteStream.Laws.{Writes, Reads, round_trip, read_bytes-Reads, check_free_ok}
use simple_quic.Utils.Codec.{be_bytes, be_value, encode_uint, decode_uint, one_to_eight}

pub length-be_bytes : (n v : ℕ) → length (be_bytes n v) ≡ n
unfolding be_bytes
length-be_bytes zero v = refl
length-be_bytes (suc n) v = ap suc (length-be_bytes n v)

-- The remainder by a product, from the digits of base `p` and 256.
mod-mul : (v p : ℕ) → 0 < p → v % (p * 256) ≡ v % p + v / p % 256 * p
mod-mul v p h =
    let low : v % p < p = mod-lt v h in
    let whole : v ≡ v % p + v / p % 256 * p + p * 256 * (v / p / 256) =
      omega (arith, div-add-mod v p, ap (λ (t : ℕ). p * t) (div-add-mod (v / p) 256)) in
    let small : v % p + v / p % 256 * p < p * 256 = digit (v % p) (v / p % 256) low (omega arith) in
    ap (λ t. t % (p * 256)) whole
    ∙ add-mul-mod_self_left (v % p + v / p % 256 * p) (p * 256) (v / p / 256)
    ∙ mod-eq_of_lt small
  where
    digit : (r z : ℕ) → r < p → z < 256 → r + z * p < p * 256
    digit r z hr hz = grind arith

two_pow_byte : (n : ℕ) → 2 ^ (8 * suc n) ≡ 2 ^ (8 * n) * 256
two_pow_byte n = ap (λ k. 2 ^ k) (split n) ∙ grown (8 * n)
  where
    split : (m : ℕ) → 8 * suc m ≡ 8 * m + 8
    split m = omega arith

    grown : (s : ℕ) → 2 ^ (s + 8) ≡ 2 ^ s * 256
    grown s = simp (towards_suc, pow-suc) (omega arith)

-- Reading the bytes of a value gives its remainder by 2 ^ (8 * n).
pub be_value-be_bytes : (n v : ℕ) → be_value (be_bytes n v) ≡ v % 2 ^ (8 * n)
unfolding be_value be_bytes
be_value-be_bytes zero v = omega arith
be_value-be_bytes (suc n) v =
    rw (be_value-be_bytes n v, length-be_bytes n v)
      (bit_or-shift (8 * n) (v % 2 ^ (8 * n)) (v / 2 ^ (8 * n) % 256)
          (mod-lt v (one-le-pow (8 * n) 2 (omega arith)))
        ∙ sym (mod-mul v (2 ^ (8 * n)) (one-le-pow (8 * n) 2 (omega arith)))
        ∙ ap (λ t. v % t) (sym (two_pow_byte n)))

pub encode_uint-Writes : (v n : ℕ) → 1 ≤ n → n ≤ 8 → Writes (encode_uint v n) (be_bytes n v)
unfolding encode_uint put consume copy_in
encode_uint-Writes v n lo hi s valid room =
    rw (check_free_ok n s (omega (arith, length-be_bytes n v)), ◌>>=◌)
      (rw (le→leb 1 n lo, le→leb n 8 hi) (rw (length-be_bytes n v)))

pub decode_uint-Reads_mod :
    (v n : ℕ) → 1 ≤ n → n ≤ 8 → Reads (decode_uint n) (be_bytes n v) (v % 2 ^ (8 * n))
unfolding decode_uint
decode_uint-Reads_mod v n lo hi s rest e =
    rw (read_bytes-Reads n (be_bytes n v) (sym (length-be_bytes n v)) s rest e, ◌>>=◌)
      (rw (le→leb 1 n lo, le→leb n 8 hi, be_value-be_bytes n v))

pub decode_uint-Reads :
    (v n : ℕ) → 1 ≤ n → n ≤ 8 → v < 2 ^ (8 * n) → Reads (decode_uint n) (be_bytes n v) v
decode_uint-Reads v n lo hi small = rw (mod-eq_of_lt small) at (decode_uint-Reads_mod v n lo hi)

-- An integer of 1 to 8 bytes that was written where there is room is read back modulo
-- 2 ^ (8 * n), and the reader stops where the writer did, `n` bytes further on.
pub decode_uint-encode_uint :
    (v n : ℕ) (s : ByteStream)
    → 1 ≤ n
    → n ≤ 8
    → IsValid s
    → n ≤ get_free s
    → (t : ByteStream) × (encode_uint v n s ≡ ok (tt, t))
      × (decode_uint n (seek s.pos t) ≡ ok (v % 2 ^ (8 * n), t))
      × (t.pos ≡ s.pos + n)
decode_uint-encode_uint v n s lo hi valid room =
    let (w, r) =
      round_trip (encode_uint v n) (decode_uint n) (be_bytes n v) (v % 2 ^ (8 * n))
        (encode_uint-Writes v n lo hi) (decode_uint-Reads_mod v n lo hi) s valid
        (omega (arith, length-be_bytes n v)) in
    (put (be_bytes n v) s, w, r, unfold put in omega (arith, length-be_bytes n v))

-- Where there is room for `n` bytes and `n` is 0 or above 8, both functions throw
-- std::invalid_argument.
pub encode_uint-bad_size :
    (v n : ℕ) (s : ByteStream)
    → n ≡ 0 ⊎ 8 < n
    → n ≤ get_free s
    → (encode_uint v n s ≡ err Error.invalid_argument)
      × (decode_uint n s ≡ err Error.invalid_argument)
unfolding encode_uint decode_uint consume copy_out read_bytes
encode_uint-bad_size v n s h room =
    let bad : one_to_eight n ≡ false = ground arith in
    (rw (check_free_ok n s room, ◌>>=◌) (rw bad), rw (check_free_ok n s room, ◌>>=◌) (rw bad))
