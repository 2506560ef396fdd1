-- ===== src/Reader/Varint.antt =====
-- `read_varint` on any input, and one round of its loop in arithmetic.
use bitcoin_query_py.Common.{
  ℕ, ◌+◌, ◌*◌, ◌%◌, ◌^◌, ◌≤◌, ◌<◌, ◌≡◌, refl, arith, [], ◌∷◌, ok, bit_and, length, All, ◌>>=◌,
  if◌then◌else◌, ltb,
}
use bitcoin_query_py.Common.Int.{IsByte, IsU64}
use bitcoin_query_py.Common.Bits.{bit_or-shift_seven, bit_and-group, bit_and-continuation}
use bitcoin_query_py.Reader.{Bytes, read_u8, push_group, read_varint_loop}

-- The loop is the source's: each round reads a byte by `read_u8`, and goes on or leaves.
read_varint_loop_lem :
    (n : ℕ) (bytes : Bytes)
    → read_varint_loop n bytes ≡ (
        read_u8 bytes >>= λ (ch, rest).
        if ltb 0 (bit_and ch 0x80)
        then read_varint_loop ((push_group n ch + 1) % 2 ^ 64) rest
        else ok (push_group n ch, rest))
unfolding read_varint_loop read_u8
read_varint_loop_lem n [] = refl
read_varint_loop_lem n (ch ∷ rest) = ground arith

-- A group is pushed behind the others, and the bits past the 64th are lost.
pub push_group_lem : (n ch : ℕ) → IsByte ch → push_group n ch ≡ n % 2 ^ 57 * 128 + ch % 128
unfolding push_group
push_group_lem n ch byte =
    let shifted : n * 2 ^ 7 % 2 ^ 64 ≡ n % 2 ^ 57 * 128 = omega arith in
    rw (shifted, bit_and-group ch byte) (bit_or-shift_seven (n % 2 ^ 57) (ch % 128) (omega arith))

-- A round on a byte whose continuation bit is set, and on one where it is clear.
pub read_varint_loop-more :
    (n ch : ℕ) (rest : Bytes)
    → IsByte ch
    → 128 ≤ ch
    → read_varint_loop n (ch ∷ rest)
      ≡ read_varint_loop ((n % 2 ^ 57 * 128 + ch % 128 + 1) % 2 ^ 64) rest
unfolding read_varint_loop
read_varint_loop-more n ch rest byte high =
    ground (arith, bit_and-continuation ch byte, push_group_lem n ch byte)

pub read_varint_loop-last :
    (n ch : ℕ) (rest : Bytes)
    → ch < 128
    → read_varint_loop n (ch ∷ rest) ≡ ok (n % 2 ^ 57 * 128 + ch, rest)
unfolding read_varint_loop
read_varint_loop-last n ch rest low =
    ground (arith, bit_and-continuation ch (omega arith), push_group_lem n ch (omega arith))

pub read_varint_loop_takes :
    (bytes : Bytes) (acc n : ℕ) (rest : Bytes)
    → All IsByte bytes
    → read_varint_loop acc bytes ≡ ok (n, rest)
    → IsU64 n × (length rest < length bytes) × All IsByte rest
unfolding read_varint_loop
read_varint_loop_takes [] acc n rest all e = cc
read_varint_loop_takes (ch ∷ bs) acc n rest all e = ground (
  arith,
  push_group_lem acc ch,
  read_varint_loop_takes bs ((push_group acc ch + 1) % 2 ^ 64) n rest,
)
