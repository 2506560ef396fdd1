-- ===== src/BlockIndex/Record.antt =====
-- `BlockIndexRecord::from` against the layout that Bitcoin Core writes (`CDiskBlockIndex`): seven
-- variable-length numbers, three of them only under their flags, and the header.
use bitcoin_query_py.Common.{
  ℕ, ◌≡◌, refl, sym, ap, arith, ◌++◌, Bool, true, false, some, ok, if◌then◌else◌, bit_or,
}
use bitcoin_query_py.Common.Int.{
  negsuc, IsI32, IsU32, IsU64, to_usize, to_i32, to_u32, to_i32-to_usize, to_usize-IsU64,
}
use bitcoin_query_py.Reader.{Bytes, read_decoded}
use bitcoin_query_py.Reader.RoundTrip.{write_varint, read_varint-write_varint}
use bitcoin_query_py.Bitcoin.{Headers}
use bitcoin_query_py.BlockIndex.{
  BlockIndexRecord, Record, has_flag, read_if, from, block_have_data, block_have_undo, u32_max,
}

unfoldable pub write_if : Bool → ℕ → Bytes → Bytes
write_if b n rest = if b then write_varint n ++ rest else rest

-- The bytes of a record in front of its header, and those of the header.
unfoldable pub write_record : {BlockHeader : Type 0} → BlockIndexRecord BlockHeader → Bytes → Bytes
write_record r header =
    write_varint (to_usize r.n_version)
    ++ (write_varint (to_usize r.n_height)
        ++ (write_varint r.n_status
            ++ (write_varint r.n_tx
                ++ write_if (has_flag r.n_status (bit_or block_have_data block_have_undo))
                    (to_usize r.n_file)
                    (write_if (has_flag r.n_status block_have_data) r.n_data_pos
                      (write_if (has_flag r.n_status block_have_undo) r.n_undo_pos header)))))

-- The fields fit their types, and a field whose flag is clear has its default.
pub record FitsLayout {BlockHeader : Type 0} (r : BlockIndexRecord BlockHeader) : Type 0 where
  pub version : IsI32 r.n_version
  pub height : IsI32 r.n_height
  pub status : IsU32 r.n_status
  pub tx : IsU32 r.n_tx
  pub file : IsI32 r.n_file
  pub data_pos : IsU32 r.n_data_pos
  pub undo_pos : IsU32 r.n_undo_pos
  pub no_file :
      has_flag r.n_status (bit_or block_have_data block_have_undo) ≡ false → r.n_file ≡ negsuc 0
  pub no_data : has_flag r.n_status block_have_data ≡ false → r.n_data_pos ≡ u32_max
  pub no_undo : has_flag r.n_status block_have_undo ≡ false → r.n_undo_pos ≡ u32_max

read_if-write_if :
    {A : Type 0} (b : Bool) (convert : ℕ → A) (other a : A) (n : ℕ) (rest : Bytes)
    → IsU64 n
    → convert n ≡ a
    → (b ≡ false → a ≡ other)
    → read_if b convert other (write_if b n rest) ≡ ok (a, rest)
unfolding read_if write_if
read_if-write_if true convert other a n rest fits same default =
    rw (read_varint-write_varint n rest fits) (ap (λ x. ok (x, rest)) same)
read_if-write_if false convert other a n rest fits same default =
    ap (λ x. ok (x, rest)) (sym (default refl))

to_u32_small : (n : ℕ) → IsU32 n → to_u32 n ≡ n
to_u32_small n h = omega arith

u32-IsU64 : (n : ℕ) → IsU32 n → IsU64 n
u32-IsU64 n h = omega arith

module _ (lib : Headers) where
  open lib use {decode_header}

  read_decoded-some :
      {header : lib.BlockHeader} {rest : Bytes} (bytes : Bytes)
      → decode_header bytes ≡ some (header, rest)
      → read_decoded decode_header bytes ≡ ok (header, rest)
  unfolding read_decoded
  read_decoded-some bytes h = rw (h, read_decoded)

  -- A record that fits the layout is read back from its bytes, if the decoder of the header reads
  -- back the header.
  pub from-write_record :
      (r : Record lib) (header left : Bytes)
      → FitsLayout r
      → decode_header header ≡ some (r.block_header, left)
      → from lib (write_record r header) ≡ ok r
  unfolding from write_record
  from-write_record r header left fit decodes =
      let b = has_flag r.n_status block_have_undo in
      let undo = write_if b r.n_undo_pos header in
      let d = has_flag r.n_status block_have_data in
      let data_rest = write_if d r.n_data_pos undo in
      let f = has_flag r.n_status (bit_or block_have_data block_have_undo) in
      let file = write_if f (to_usize r.n_file) data_rest in
      let tx = write_varint r.n_tx ++ file in
      let status = write_varint r.n_status ++ tx in
      let height = write_varint (to_usize r.n_height) ++ status in
      rw
        (
          read_varint-write_varint (to_usize r.n_version) height (to_usize-IsU64 _ fit.version),
          read_varint-write_varint (to_usize r.n_height) status (to_usize-IsU64 _ fit.height),
          read_varint-write_varint r.n_status tx (u32-IsU64 _ fit.status),
          read_varint-write_varint r.n_tx file (u32-IsU64 _ fit.tx),
          to_i32-to_usize r.n_version fit.version,
          to_i32-to_usize r.n_height fit.height,
          to_u32_small r.n_status fit.status,
          to_u32_small r.n_tx fit.tx,
          read_if-write_if f to_i32 (negsuc 0) r.n_file (to_usize r.n_file) data_rest
              (to_usize-IsU64 _ fit.file) (to_i32-to_usize r.n_file fit.file) fit.no_file,
          read_if-write_if d to_u32 u32_max r.n_data_pos r.n_data_pos undo
              (u32-IsU64 _ fit.data_pos) (to_u32_small r.n_data_pos fit.data_pos) fit.no_data,
          read_if-write_if b to_u32 u32_max r.n_undo_pos r.n_undo_pos header
              (u32-IsU64 _ fit.undo_pos) (to_u32_small r.n_undo_pos fit.undo_pos) fit.no_undo,
          read_decoded-some header decodes,
        )
        refl
