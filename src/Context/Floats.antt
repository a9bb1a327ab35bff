-- ===== src/Context/Floats.antt =====
-- The floating-point tests and products of context/connection.hh and context/quic.cc, as IEEE 754
-- gives them for natural numbers: FLOW_CONTROL_THRESH is the float 0.7, that is 11744051 / 2^24, and
-- 1.414 the double 6368089873101881 / 2^52.
pub mod Rounding
use simple_quic.Common.{
  ℕ, zero, suc, ◌+◌, ◌*◌, ◌/◌, ◌%◌, ◌^◌, ltb, leb, Bool, ◌&&◌, ◌||◌, ◌==◌, if◌then◌else◌,
}

-- By how many bits a number is longer than `bits`, up to `most`.
unfoldable pub excess : (most bits n : ℕ) → ℕ
excess zero bits n = 0
excess (suc most) bits n =
    let rest = excess most bits (n / 2) in if ltb n (2 ^ bits) then 0 else suc rest

-- `n / 2 ^ (suc k)`, to the nearest, a tie to the even number.
unfoldable pub nearest : (k n : ℕ) → ℕ
nearest k n =
    let q = n / 2 ^ suc k in
    let r = n % 2 ^ suc k in if ltb (2 ^ k) r || (r == 2 ^ k) && (q % 2 == 1) then suc q else q

round_by : ℕ → ℕ → ℕ
unfolding nearest
round_by zero n = n
round_by (suc k) n = nearest k n * 2 ^ suc k

-- The nearest number that `bits` bits of precision can hold, for n below 2 ^ (128 + bits).
unfoldable pub round_to : (bits n : ℕ) → ℕ
unfolding excess round_by
round_to bits n = round_by (excess 128 bits n) n

-- `size >= limit * FLOW_CONTROL_THRESH`, where the numbers become floats.
unfoldable pub reaches_thresh : (size limit : ℕ) → Bool
unfolding round_to
reaches_thresh size limit =
    leb (round_to 24 (round_to 24 limit * 11744051)) (round_to 24 size * 2 ^ 24)

-- `uint64_t(limit * 1.414)`. A product from 2 ^ 64 on has no value in C++.
unfoldable pub scaled_limit : ℕ → ℕ
unfolding round_to
scaled_limit limit = round_to 53 (round_to 53 limit * 6368089873101881) / 2 ^ 52
