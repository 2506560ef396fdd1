-- ===== src/Tests/Numbers.antt =====
-- Variable-length numbers.
use bitcoin_query_py.Common.{◌≡◌, ◌%◌, ◌^◌, refl, [], ◌∷◌, ◌++◌, ok, err, arith}
use bitcoin_query_py.Common.Int.{negsuc}
use bitcoin_query_py.Errors.{unexpected_eof, from_io}
use bitcoin_query_py.Reader.{
  Bytes, read_u8, read_varint, read_u32, read_i32, read_u256, read_u8_vec,
}
use bitcoin_query_py.Reader.Wrap.{varint_value, read_varint-varint_value}
use bitcoin_query_py.Reader.RoundTrip.{
  higher_groups, write_varint, read_varint-write_varint, read_varint_canonical,
}

-- The examples of Bitcoin Core's description of the format.
write_65535 : write_varint 65535 ≡ 0x82 ∷ 0xfe ∷ 0x7f ∷ []
unfolding write_varint higher_groups
write_65535 = refl

read_65535 : read_varint (0x82 ∷ 0xfe ∷ 0x7f ∷ 1 ∷ 2 ∷ []) ≡ ok (65535, 1 ∷ 2 ∷ [])
unfolding read_varint
read_65535 = refl

read_cut : read_varint (0x82 ∷ 0xfe ∷ []) ≡ err (from_io unexpected_eof)
unfolding read_varint
read_cut = refl

words :
    (read_u32 (1 ∷ 2 ∷ 0 ∷ 0 ∷ 9 ∷ []) ≡ ok (513, 9 ∷ []))
    × (read_i32 (0xfe ∷ 0xff ∷ 0xff ∷ 0xff ∷ []) ≡ ok (negsuc 1, []))
    × (read_u8 [] ≡ err (from_io unexpected_eof))
    × (read_u8_vec 2 (1 ∷ 2 ∷ 3 ∷ []) ≡ ok (1 ∷ 2 ∷ [], 3 ∷ []))
    × (read_u256 (1 ∷ []) ≡ err (from_io unexpected_eof))
unfolding read_u32 read_i32 read_u8 read_u8_vec read_u256
words = (refl, refl, refl, refl, refl)

read_varint-write_varint_example : read_varint (write_varint 65535 ++ (7 ∷ [])) ≡ ok (65535, 7 ∷ [])
read_varint-write_varint_example = read_varint-write_varint 65535 (7 ∷ []) (omega arith)

read_varint_canonical_example : 0x82 ∷ 0xfe ∷ 0x7f ∷ 1 ∷ 2 ∷ [] ≡ write_varint 65535 ++ 1 ∷ 2 ∷ []
read_varint_canonical_example =
    read_varint_canonical (0x82 ∷ 0xfe ∷ 0x7f ∷ 1 ∷ 2 ∷ []) 65535 (1 ∷ 2 ∷ []) (omega arith)
      (omega arith) read_65535

-- Ten groups and a last byte: the bits past the 64th are lost.
abbrev ten_groups : Bytes
ten_groups = 0x80 ∷ 0x80 ∷ 0x80 ∷ 0x80 ∷ 0x80 ∷ 0x80 ∷ 0x80 ∷ 0x80 ∷ 0xff ∷ 0xfe ∷ []

wrapped :
    (varint_value ten_groups 5 ≡ 1189887617730936323973)
    × (read_varint (ten_groups ++ 5 ∷ 9 ∷ []) ≡ ok (9295997013525020549, 9 ∷ []))
unfolding varint_value read_varint
wrapped = (refl, refl)

read_varint-varint_value_example :
    (read_varint (ten_groups ++ 5 ∷ 9 ∷ []) ≡ ok (varint_value ten_groups 5 % 2 ^ 64, 9 ∷ []))
    × (read_varint ten_groups ≡ err (from_io unexpected_eof))
read_varint-varint_value_example =
    read_varint-varint_value ten_groups 5 (9 ∷ []) (omega arith) (omega arith)
