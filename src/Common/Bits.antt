-- ===== src/Common/Bits.antt =====
-- `|` of disjoint fields and the masks of one byte, as arithmetic.
use Prim.Native.Nat.{
  ℕ, zero, suc, ◌+◌, ◌*◌, ◌/◌, ◌%◌, ◌^◌, ◌≤◌, ◌<◌, max, digits, bit_and, bit_or, bit_or-bitwise,
}
use mathlib.Core.Path.{◌≡◌, refl, ap, ◌∙◌}
use mathlib.Core.Bool.{Bool, true, false}
use native.Mathlib.Nat.{pow-suc}
use native.Mathlib.Omega.{arith}
use simple_quic.Common.Tests.{◌==◌, ==→eq, if◌then◌else◌}

-- The native `|` stands for a recursion on the digits of its first operand. Digits of `q` that
-- start at the k-th place are met only when those of `r` are used up.
merged : (n r k q : ℕ) → r ≤ n → r < 2 ^ k → digits (λ y. y) max n r (q * 2 ^ k) ≡ r + q * 2 ^ k
merged zero r k q h lt = omega arith
merged (suc n) zero k q h lt = omega arith
merged (suc n) (suc r) zero q h lt = absurd (omega arith)
merged (suc n) (suc r) (suc k) q h lt =
    let twice : q * 2 ^ suc k ≡ 2 * (q * 2 ^ k) =
      omega (arith, ap (λ (t : ℕ). q * t) (pow-suc 2 k)) in
    let rest : digits (λ y. y) max n (suc r / 2) (q * 2 ^ suc k / 2) ≡ suc r / 2 + q * 2 ^ k =
      ap (digits (λ y. y) max n (suc r / 2)) (omega arith)
      ∙ merged n (suc r / 2) k q (omega arith) (omega (arith, pow-suc 2 k)) in
    omega arith

-- `r | (q << k)` is a sum when `r` fits `k` bits.
pub bit_or-shift : (k r q : ℕ) → r < 2 ^ k → bit_or r (q * 2 ^ k) ≡ r + q * 2 ^ k
bit_or-shift k r q h = bit_or-bitwise r (q * 2 ^ k) ∙ merged r r k q (omega arith) h

-- Two functions agree on the numbers below a bound, as a test.
abbrev pub agree : (ℕ → ℕ) → (ℕ → ℕ) → ℕ → Bool
agree f g zero = true
agree f g (suc n) = if f n == g n then agree f g n else false

pub by_table : (f g : ℕ → ℕ) (n : ℕ) → agree f g n ≡ true → (x : ℕ) → x < n → f x ≡ g x
by_table f g zero t x h = absurd (omega arith)
by_table f g (suc n) t x h = grind (arith, ==→eq (f n) (g n), by_table f g n)

-- b & 0x3f, b & 0xc0, b & 0x80, b & 0x30, ... on a byte.
pub bit_and-3f : (b : ℕ) → b < 256 → bit_and b 0x3f ≡ b % 64
bit_and-3f = by_table _ _ 256 refl

pub bit_and-c0 : (b : ℕ) → b < 256 → bit_and b 0xc0 ≡ b / 64 * 64
bit_and-c0 = by_table _ _ 256 refl
