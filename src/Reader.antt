-- ===== src/Reader.antt =====
-- src/parser/reader.rs: reading numbers and byte runs off a cursor.
-- A reader takes the bytes that the cursor has not passed and returns what it read with the bytes
-- that are left. Every caller gives the cursor up after an error, so an error keeps no bytes.
-- `read_block`, `read_transaction` and `read_block_header` call the decoders of the `bitcoin`
-- crate, which are arguments here; `none` is that crate's `encode::Error`.
-- `usize` has 64 bits, and its sums wrap, as in the release builds that are published.
pub mod Varint
pub mod RoundTrip
pub mod Wrap
use bitcoin_query_py.Common.{
  ℕ, zero, suc, ◌+◌, ◌*◌, ◌%◌, ◌^◌, List, [], ◌∷◌, Bool, ok, err, panic, ◌>>=◌, Option, none, some,
  ltb, leb, if◌then◌else◌, bit_and, bit_or, length, take, drop,
}
use bitcoin_query_py.Common.Int.{ℤ, to_i32}
use bitcoin_query_py.Errors.{OpResult, unexpected_eof, from_io, from_encode_error}

abbrev pub Bytes : Type 0
Bytes = List ℕ

abbrev pub Reader : Type 0 → Type 0
Reader A = Bytes → OpResult (A × Bytes)

-- `read_exact` into a buffer of `n` bytes.
unfoldable pub read_exact : ℕ → Reader Bytes
read_exact n bytes =
    if leb n (length bytes) then ok (take n bytes, drop n bytes) else err (from_io unexpected_eof)

-- `slice[0]`.
abbrev pub first_byte : Bytes → OpResult ℕ
first_byte [] = panic "index out of bounds"
first_byte (b ∷ _) = ok b

unfoldable pub read_u8 : Reader ℕ
unfolding read_exact
read_u8 bytes = do (slice, rest) ← read_exact 1 bytes; ok ((← first_byte slice), rest)

-- `(n << 7) | (ch & 0x7F) as usize`; the shift drops the high bits.
unfoldable pub push_group : ℕ → ℕ → ℕ
push_group n ch = bit_or (n * 2 ^ 7 % 2 ^ 64) (bit_and ch 0x7f)

-- The loop, which takes a byte each round.
unfoldable pub read_varint_loop : ℕ → Reader ℕ
unfolding push_group
read_varint_loop n [] = err (from_io unexpected_eof)
read_varint_loop n (ch ∷ rest) =
    let more = read_varint_loop ((push_group n ch + 1) % 2 ^ 64) rest in
    if ltb 0 (bit_and ch 0x80) then more else ok (push_group n ch, rest)

unfoldable pub read_varint : Reader ℕ
unfolding read_varint_loop
read_varint bytes = read_varint_loop 0 bytes

unfoldable pub read_u256 : Reader Bytes
unfolding read_exact
read_u256 bytes = read_exact 32 bytes

-- Little endian.
abbrev pub from_le_bytes : Bytes → ℕ
from_le_bytes [] = 0
from_le_bytes (b ∷ bs) = b + 256 * from_le_bytes bs

unfoldable pub read_u32 : Reader ℕ
unfolding read_exact
read_u32 bytes = do (word, rest) ← read_exact 4 bytes; ok (from_le_bytes word, rest)

unfoldable pub read_i32 : Reader ℤ
unfolding read_exact
read_i32 bytes = do (word, rest) ← read_exact 4 bytes; ok (to_i32 (from_le_bytes word), rest)

unfoldable pub read_u8_vec : ℕ → Reader Bytes
unfolding read_exact
read_u8_vec count bytes = read_exact count bytes

module _ {A : Type 0} (consensus_decode : Bytes → Option (A × Bytes)) where
  -- `read_block`, `read_transaction` and `read_block_header`, by their decoder.
  unfoldable pub read_decoded : Reader A
  read_decoded bytes = elim (consensus_decode bytes) [
    | none ↦ err from_encode_error
    | some (a, rest) ↦ ok (a, rest)
  ]
