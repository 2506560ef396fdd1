-- ===== src/BlkFile/Read.antt =====
-- Reading a block at the position that the block index names.
use bitcoin_query_py.Common.{
  ℕ, ◌+◌, ◌-◌, ◌/◌, ◌%◌, ◌^◌, ◌<◌, ◌≡◌, ap, arith, [], ◌∷◌, ◌++◌, Option, some, ok, length, drop,
  take_append, drop_append, length-append, leb_of_le, ltb_of_lt,
}
use bitcoin_query_py.Common.Int.{ℤ, ℤ_discrete, IsU32}
use bitcoin_query_py.Common.Maps.{get}
use bitcoin_query_py.Reader.{Bytes, read_exact, read_u32, read_u8_vec, from_le_bytes, read_decoded}
use bitcoin_query_py.BlkFile.{FileSystem, Files, read_raw_block, read_block, seek, read_transaction}

-- A number in four bytes, lowest first.
abbrev pub to_le_bytes : ℕ → Bytes
to_le_bytes n = n % 256 ∷ n / 256 % 256 ∷ n / 65536 % 256 ∷ n / 16777216 % 256 ∷ []

pub from_le_bytes-to_le_bytes : (n : ℕ) → IsU32 n → from_le_bytes (to_le_bytes n) ≡ n
from_le_bytes-to_le_bytes n h = omega arith

read_u32-to_le_bytes :
    (n : ℕ) (rest : Bytes) → IsU32 n → read_u32 (to_le_bytes n ++ rest) ≡ ok (n, rest)
unfolding read_u32 read_exact
read_u32-to_le_bytes n rest h =
    rw (leb_of_le 4 (length (to_le_bytes n ++ rest)) (omega arith))
      (ap (λ x. ok (x, rest)) (from_le_bytes-to_le_bytes n h))

read_u8_vec-append :
    (bytes rest : Bytes) → read_u8_vec (length bytes) (bytes ++ rest) ≡ ok (bytes, rest)
unfolding read_u8_vec read_exact
read_u8_vec-append bytes rest = rw (
  leb_of_le (length bytes) (length (bytes ++ rest)) (omega (arith, length-append bytes rest)),
  take_append,
  drop_append,
)

seek_in_range : (n : ℕ) (file : Bytes) → n < 2 ^ 63 → seek n file ≡ ok (drop n file)
seek_in_range n file h = rw (ltb_of_lt n (2 ^ 63) h)

drop_in_front : (n : ℕ) (front rest : Bytes) → n ≡ length front → drop n (front ++ rest) ≡ rest
drop_in_front n front rest e = rw e (drop_append front rest)

module _ (fs : FileSystem) where
  open fs use {PathBuf, open_file}

  -- The bytes in front of a block in its file are those before its size, and the size.
  module _ (files : Files fs) (n_file : ℤ) {path : PathBuf} (front block back : Bytes)
      (known : get ℤ_discrete n_file files ≡ some path)
      (stored : open_file path ≡ ok (front ++ (to_le_bytes (length block) ++ (block ++ back))))
      (size : IsU32 (length block)) where
    -- A block that stands in its blk file behind its size, at a position that fits 32 bits, is read
    -- exactly.
    pub read_raw_block_lem :
        IsU32 (length front + 4) → read_raw_block fs files n_file (length front + 4) ≡ ok block
    unfolding read_raw_block
    read_raw_block_lem fits =
        let at : (length front + 4 + (2 ^ 64 - 4)) % 2 ^ 64 ≡ length front = omega arith in
        rw (
          known,
          read_raw_block,
          stored,
          at,
          seek_in_range (length front) _ (omega arith),
          drop_append front,
          read_u32-to_le_bytes (length block) (block ++ back) size,
          read_u8_vec-append block back,
        )

    -- And its decoded form is what the decoder makes of those bytes.
    pub read_block_lem :
        {Block : Type 0} (decode_block : Bytes → Option (Block × Bytes)) {decoded : Block}
        {left : Bytes}
        → IsU32 (length front + 4)
        → decode_block block ≡ some (decoded, left)
        → read_block fs decode_block files n_file (length front + 4) ≡ ok decoded
    unfolding read_block read_decoded
    read_block_lem decode_block fits decodes = rw (read_raw_block_lem fits, decodes, read_decoded)

  -- A transaction is decoded from the bytes behind the block header and the offset.
  pub read_transaction_lem :
      {Transaction : Type 0} (decode_transaction : Bytes → Option (Transaction × Bytes))
      (files : Files fs) (n_file : ℤ) (n_pos n_tx_offset : ℕ) {path : PathBuf} (front rest : Bytes)
      {tx : Transaction} {left : Bytes}
      → get ℤ_discrete n_file files ≡ some path
      → open_file path ≡ ok (front ++ rest)
      → IsU32 n_pos
      → IsU32 n_tx_offset
      → length front ≡ n_pos + 80 + n_tx_offset
      → decode_transaction rest ≡ some (tx, left)
      → read_transaction fs decode_transaction files n_file n_pos n_tx_offset ≡ ok tx
  unfolding read_transaction read_decoded
  read_transaction_lem decode files n_file n_pos n_tx_offset front rest known stored p q at
        decodes =
      let place : (n_pos + n_tx_offset + 80) % 2 ^ 64 ≡ length front = omega arith in
      rw (
        known,
        read_transaction,
        stored,
        place,
        seek_in_range (length front) _ (omega arith),
        drop_append front,
        decodes,
        read_decoded,
      )
