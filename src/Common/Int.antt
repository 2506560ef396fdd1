-- ===== src/Common/Int.antt =====
-- Signed integers over the native numbers, and the fixed-width conversions of Rust's `as`.
use Prim.Native.Nat.{ℕ, suc, ◌+◌, ◌-◌, ◌%◌, ◌^◌, ◌≤◌, ◌<◌}
use mathlib.Core.Path.{◌≡◌}
use mathlib.Core.Bool.{Bool, true, false}
use native.Mathlib.Decide.{ℕ_discrete}
use native.Mathlib.Omega.{arith}
use bitcoin_query_py.Common.Tests.{ltb, ◌==◌, if◌then◌else◌}
use mathlib.Core.Logic.{◌↔◌}

-- `negsuc n` is -(n + 1).
pub data ℤ : Type 0 where
  pos : ℕ → ℤ
  negsuc : ℕ → ℤ

abbrev pub pos_part : ℤ → ℕ
pos_part (pos n) = n
pos_part (negsuc n) = 0

abbrev pub neg_part : ℤ → ℕ
neg_part (pos n) = 0
neg_part (negsuc n) = suc n

infix 50 ◌≤ℤ◌
abbrev pub ◌≤ℤ◌ : ℤ → ℤ → Type 0
a ≤ℤ b = pos_part a + neg_part b ≤ pos_part b + neg_part a

abbrev pub ltb_ℤ : ℤ → ℤ → Bool
ltb_ℤ a b = ltb (pos_part a + neg_part b) (pos_part b + neg_part a)

-- `usize as u32`: the low 32 bits.
abbrev pub to_u32 : ℕ → ℕ
to_u32 n = n % 2 ^ 32

-- `usize as i32`: the low 32 bits in two's complement.
abbrev pub to_i32 : ℕ → ℤ
to_i32 n = let w = n % 2 ^ 32 in if ltb w (2 ^ 31) then pos w else negsuc (2 ^ 32 - w - 1)

-- `i32 as usize`, on a 64-bit target: sign extension.
abbrev pub to_usize : ℤ → ℕ
to_usize (pos n) = n
to_usize (negsuc n) = 2 ^ 64 - suc n

abbrev pub IsByte : ℕ → Type 0
IsByte b = b < 2 ^ 8

abbrev pub IsU32 : ℕ → Type 0
IsU32 n = n < 2 ^ 32

abbrev pub IsU64 : ℕ → Type 0
IsU64 n = n < 2 ^ 64

abbrev pub IsI32 : ℤ → Type 0
IsI32 z = (pos_part z < 2 ^ 31) × (neg_part z ≤ 2 ^ 31)

unfoldable pub ℤ_discrete : Discrete ℤ
ℤ_discrete = hlevel ℕ_discrete

pub to_i32-IsI32 : (n : ℕ) → IsI32 (to_i32 n)
to_i32-IsI32 n = ground arith

-- The conversion to `usize` loses nothing of an `i32`.
pub to_i32-to_usize : (z : ℤ) → IsI32 z → to_i32 (to_usize z) ≡ z
to_i32-to_usize (pos n) h = ground arith
to_i32-to_usize (negsuc n) h = ground arith

abbrev pub eqb_ℤ : ℤ → ℤ → Bool
eqb_ℤ a b = (pos_part a + neg_part b) == (pos_part b + neg_part a)

pub eqb_ℤ_iff : (a b : ℤ) → (eqb_ℤ a b ≡ true) ↔ (a ≡ b)
eqb_ℤ_iff (pos n) (pos m) = ground arith
eqb_ℤ_iff (pos n) (negsuc m) = ground arith
eqb_ℤ_iff (negsuc n) (pos m) = ground arith
eqb_ℤ_iff (negsuc n) (negsuc m) = ground arith

pub ≤ℤ_trans : (a b c : ℤ) → a ≤ℤ b → b ≤ℤ c → a ≤ℤ c
≤ℤ_trans a b c h k = omega arith

pub le_of_ltb : (a b : ℤ) → ltb_ℤ a b ≡ true → a ≤ℤ b
le_of_ltb a b h = ground arith

pub le_of_not_ltb : (a b : ℤ) → ltb_ℤ a b ≡ false → b ≤ℤ a
le_of_not_ltb a b h = ground arith

infix 50 ◌<ℤ◌
abbrev pub ◌<ℤ◌ : ℤ → ℤ → Type 0
a <ℤ b = pos_part a + neg_part b < pos_part b + neg_part a

pub ≤ℤ_antisymm : (a b : ℤ) → a ≤ℤ b → b ≤ℤ a → a ≡ b
≤ℤ_antisymm (pos n) (pos m) h k = ground arith
≤ℤ_antisymm (pos n) (negsuc m) h k = absurd (omega arith)
≤ℤ_antisymm (negsuc n) (pos m) h k = absurd (omega arith)
≤ℤ_antisymm (negsuc n) (negsuc m) h k = ground arith

pub pos-injective : {n m : ℕ} → pos n ≡ pos m → n ≡ m
pos-injective h = ground arith

pub to_usize-IsU64 : (z : ℤ) → IsI32 z → IsU64 (to_usize z)
to_usize-IsU64 (pos n) h = omega arith
to_usize-IsU64 (negsuc n) h = omega arith
