-- ===== src/Common/Bits.antt =====
-- `|` and `&` of the program as arithmetic: a shifted number with its low seven bits filled, and
-- masks on a byte.
use Prim.Native.Nat.{
  ℕ, zero, suc, ◌+◌, ◌*◌, ◌/◌, ◌%◌, ◌≤◌, ◌<◌, max, bit_and, bit_or, digits, bit_or-bitwise,
}
use mathlib.Core.Path.{◌≡◌, refl}
use mathlib.Core.Bool.{Bool, true, ◌&&◌}
use native.Mathlib.Omega.{arith}
use bitcoin_query_py.Common.Tests.{◌==◌}

abbrev or_digits : ℕ → ℕ → ℕ → ℕ
or_digits fuel a b = digits (λ y. y) max fuel a b

-- The answer does not depend on the count of rounds, once it covers the first number.
or_digits_enough : (j k a b : ℕ) → a ≤ j → a ≤ k → or_digits j a b ≡ or_digits k a b
or_digits_enough zero zero a b h g = refl
or_digits_enough zero (suc k) zero b h g = refl
or_digits_enough zero (suc k) (suc a) b h g = absurd (omega arith)
or_digits_enough (suc j) zero zero b h g = refl
or_digits_enough (suc j) zero (suc a) b h g = absurd (omega arith)
or_digits_enough (suc j) (suc k) zero b h g = refl
or_digits_enough (suc j) (suc k) (suc a) b h g =
    omega (arith, or_digits_enough j k (suc a / 2) (b / 2) (omega arith) (omega arith))

zero-bit_or : (b : ℕ) → bit_or 0 b ≡ b
zero-bit_or b = bit_or-bitwise 0 b

-- One binary digit of `|`, where the first number is even.
bit_or_even : (a q b : ℕ) → a ≡ q * 2 → bit_or a b ≡ bit_or q (b / 2) * 2 + b % 2
bit_or_even zero zero b e = omega (arith, zero-bit_or b, zero-bit_or (b / 2))
bit_or_even zero (suc q) b e = absurd (omega arith)
bit_or_even (suc a) zero b e = absurd (omega arith)
bit_or_even (suc a) (suc q) b e =
    let half : suc a / 2 ≡ suc q = omega arith in
    let odd : max (suc a % 2) (b % 2) ≡ b % 2 = omega arith in
    let lower : or_digits a (suc a / 2) (b / 2) ≡ or_digits (suc q) (suc q) (b / 2) =
      rw half (or_digits_enough a (suc q) (suc q) (b / 2) (omega arith) (omega arith)) in
    omega (arith, bit_or-bitwise (suc a) b, bit_or-bitwise (suc q) (b / 2), lower, odd)

bit_or-zero_enough : (k a : ℕ) → a ≤ k → or_digits k a 0 ≡ a
bit_or-zero_enough zero zero h = refl
bit_or-zero_enough zero (suc a) h = absurd (omega arith)
bit_or-zero_enough (suc k) zero h = refl
bit_or-zero_enough (suc k) (suc a) h = omega (arith, bit_or-zero_enough k (suc a / 2) (omega arith))

bit_or-none : (m r : ℕ) → r ≡ 0 → bit_or m r ≡ m
bit_or-none m r e = rw e (omega (arith, bit_or-bitwise m 0, bit_or-zero_enough m m (omega arith)))

-- `(m << 7) | r` for a group `r` of seven bits is a sum.
pub bit_or-shift_seven : (m r : ℕ) → r < 128 → bit_or (m * 128) r ≡ m * 128 + r
bit_or-shift_seven m r h = omega (
  arith,
  bit_or_even (m * 128) (m * 64) r (omega arith),
  bit_or_even (m * 64) (m * 32) (r / 2) (omega arith),
  bit_or_even (m * 32) (m * 16) (r / 2 / 2) (omega arith),
  bit_or_even (m * 16) (m * 8) (r / 2 / 2 / 2) (omega arith),
  bit_or_even (m * 8) (m * 4) (r / 2 / 2 / 2 / 2) (omega arith),
  bit_or_even (m * 4) (m * 2) (r / 2 / 2 / 2 / 2 / 2) (omega arith),
  bit_or_even (m * 2) m (r / 2 / 2 / 2 / 2 / 2 / 2) (omega arith),
  bit_or-none m (r / 2 / 2 / 2 / 2 / 2 / 2 / 2) (omega arith),
)

-- A test that holds at every number below `n`, found by running through them.
holds_below : ℕ → (ℕ → Bool) → Bool
holds_below zero test = true
holds_below (suc n) test = test n && holds_below n test

holds_below→holds :
    (n : ℕ) (test : ℕ → Bool) (x : ℕ) → holds_below n test ≡ true → x < n → test x ≡ true
unfolding holds_below
holds_below→holds zero test x h below = absurd (omega arith)
holds_below→holds (suc n) test x h below = ground (arith, holds_below→holds n test x)

equal_of_test : (a b : ℕ) → (a == b) ≡ true → a ≡ b
equal_of_test a b h = ground arith

low_table : holds_below 256 (λ b. bit_and b 0x7f == b % 128) ≡ true
unfolding holds_below
low_table = refl

top_table : holds_below 256 (λ b. bit_and b 0x80 == b / 128 * 128) ≡ true
unfolding holds_below
top_table = refl

-- The group of a byte, and its continuation bit.
pub bit_and-group : (b : ℕ) → b < 256 → bit_and b 0x7f ≡ b % 128
bit_and-group b h = equal_of_test _ _ (holds_below→holds 256 _ b low_table h)

pub bit_and-continuation : (b : ℕ) → b < 256 → bit_and b 0x80 ≡ b / 128 * 128
bit_and-continuation b h = equal_of_test _ _ (holds_below→holds 256 _ b top_table h)
