-- ===== src/BlkFile.antt =====
-- src/parser/blk_file.rs: the index of the blk files, and reading at a position of one of them.
-- The file system is an argument. A file is its bytes; a seek sets how many of them are passed.
pub mod Name
pub mod Read
pub mod Scan
use bitcoin_query_py.Common.{
  ℕ, zero, suc, ◌+◌, ◌-◌, ◌*◌, ◌%◌, ◌^◌, List, [], ◌∷◌, Bool, true, false, ◌&&◌, Result, ok, err,
  panic, ◌>>=◌, lift, Option, none, some, ltb, leb, ◌==◌, if◌then◌else◌, length, take, drop,
  reverse,
}
use bitcoin_query_py.Common.Int.{ℤ, pos, negsuc, ℤ_discrete}
use bitcoin_query_py.Common.Maps.{get, insert}
use bitcoin_query_py.Errors.{
  IoError, invalid_input, OpResult, from_io, from_str, runtime_error, new, join_msg,
}
use bitcoin_query_py.Reader.{Bytes, read_u32, read_u8_vec, read_decoded}

pub record FileSystem : Type 1 where
  pub PathBuf : Type 0
  pub DirEntry : Type 0
  pub read_dir : PathBuf → Result IoError (List (Result IoError DirEntry))
  pub is_symlink : DirEntry → Result IoError Bool
  pub entry_path : DirEntry → PathBuf
  pub read_link : PathBuf → Result IoError PathBuf
  pub is_file : PathBuf → Bool
  -- `file_name` and its `to_str`, as bytes.
  pub file_name : PathBuf → Option Bytes
  pub open_file : PathBuf → Result IoError Bytes

-- `?` on an `io::Result`.
abbrev pub io : {A : Type 0} → Result IoError A → OpResult A
io r = elim r [ ok a ↦ ok a | err e ↦ err (from_io e) | panic text ↦ panic text ]

-- `str::starts_with` and `str::ends_with`.
abbrev pub starts_with : Bytes → Bytes → Bool
starts_with text [] = true
starts_with [] (p ∷ ps) = false
starts_with (c ∷ text) (p ∷ ps) = c == p && starts_with text ps

abbrev pub ends_with : Bytes → Bytes → Bool
ends_with text suffix = starts_with (reverse text) (reverse suffix)

-- `&text[from..to]`, where `to` is a difference that must not be below 0.
abbrev pub slice : Bytes → ℕ → ℕ → ℕ → Result ⊥ Bytes
slice text from len cut =
    if leb (from + cut) len then ok (take (len - cut - from) (drop from text)) else panic "slice"

-- The digits of `str::parse::<i32>`, with the checked arithmetic of the standard library.
unfoldable pub parse_digits : ℕ → ℕ → Bytes → Option ℕ
parse_digits limit acc [] = some acc
parse_digits limit acc (c ∷ cs) =
    let next = acc * 10 + (c - b'0') in
    let rest = parse_digits limit next cs in
    if leb b'0' c && leb c b'9' && leb next limit then rest else none

-- `-v`.
abbrev pub negate : ℕ → ℤ
negate zero = pos 0
negate (suc v) = negsuc v

-- A sign needs a digit behind it, and so does a number without one.
unfoldable pub parse_i32 : Bytes → Option ℤ
parse_i32 [] = none
parse_i32 (c ∷ []) = elim (parse_digits 0x7fff_ffff 0 (c ∷ [])) [
  | none ↦ none
  | some v ↦ some (pos v)
]
parse_i32 (c ∷ d ∷ cs) =
    if c == b'-'
    then elim (parse_digits 0x8000_0000 0 (d ∷ cs)) [ none ↦ none | some v ↦ some (negate v) ]
    else (elim (parse_digits 0x7fff_ffff 0 (if c == b'+' then d ∷ cs else c ∷ d ∷ cs)) [
      | none ↦ none
      | some v ↦ some (pos v)
    ])

-- "blk" and ".dat"
abbrev pub prefix : Bytes
prefix = b'b' ∷ b'l' ∷ b'k' ∷ []

abbrev pub ext : Bytes
ext = b'.' ∷ b'd' ∷ b'a' ∷ b't' ∷ []

unfoldable pub parse_blk_index : Bytes → Result ⊥ (Option ℤ)
parse_blk_index file_name =
    if starts_with file_name prefix && ends_with file_name ext
    then (slice file_name (length prefix) (length file_name) (length ext) >>= λ text.
        ok (parse_i32 text))
    else ok none

-- `seek(SeekFrom::Start(n))`; the system refuses an offset that is negative as an `i64`.
abbrev pub seek : ℕ → Bytes → OpResult Bytes
seek n file = if ltb n (2 ^ 63) then ok (drop n file) else err (from_io invalid_input)

module _ (fs : FileSystem) where
  open fs use {PathBuf, DirEntry, is_symlink, entry_path, read_link, is_file, file_name, open_file}

  abbrev pub Files : Type 0
  Files = List (ℤ × PathBuf)

  unfoldable pub resolve_path : DirEntry → Result IoError PathBuf
  resolve_path entry = do
    link ← is_symlink entry
    if link then read_link (entry_path entry) else ok (entry_path entry)

  -- A file whose name is no text, or has no index, is passed over.
  unfoldable pub add_file : Files → PathBuf → Option Bytes → OpResult Files
  add_file collected path none = ok collected
  add_file collected path (some name) = do
    index ← lift (parse_blk_index name)
    ok (elim index [ none ↦ collected | some i ↦ insert ℤ_discrete i path collected ])

  -- The body of the loop of `scan_path`.
  unfoldable pub scan_entry : Files → Result IoError DirEntry → OpResult Files
  scan_entry collected entry = do
    de ← io entry
    path ← io (resolve_path de)
    if is_file path then add_file collected path (file_name path) else ok collected

  unfoldable pub scan_entries : Files → List (Result IoError DirEntry) → OpResult Files
  scan_entries collected [] = ok collected
  scan_entries collected (e ∷ es) = do more ← scan_entry collected e; scan_entries more es

  -- `collected.is_empty()`
  abbrev pub check_found : Files → OpResult Files
  check_found [] = err (join_msg (new runtime_error) "No blk files found!")
  check_found (f ∷ files) = ok (f ∷ files)

  unfoldable pub scan_path : PathBuf → OpResult Files
  scan_path path = do
    entries ← io (fs.read_dir path)
    collected ← scan_entries [] entries
    check_found collected

  -- `offset as u64 - 4` wraps in release builds.
  unfoldable pub read_raw_block : Files → ℤ → ℕ → OpResult Bytes
  read_raw_block files n_file offset = elim (get ℤ_discrete n_file files) [
    | none ↦ err (from_str "blk file not found, sync with bitcoin core")
    | some blk_path ↦ do
      file ← io (open_file blk_path)
      r ← seek ((offset + (2 ^ 64 - 4)) % 2 ^ 64) file
      (block_size, r') ← read_u32 r
      (block, _) ← read_u8_vec block_size r'
      ok block
  ]

  module _ {Block : Type 0} (decode_block : Bytes → Option (Block × Bytes)) where
    unfoldable pub read_block : Files → ℤ → ℕ → OpResult Block
    read_block files n_file offset = do
      raw ← read_raw_block files n_file offset
      (block, _) ← read_decoded decode_block raw
      ok block

  module _ {Transaction : Type 0} (decode_transaction : Bytes → Option (Transaction × Bytes)) where
    unfoldable pub read_transaction : Files → ℤ → ℕ → ℕ → OpResult Transaction
    read_transaction files n_file n_pos n_tx_offset = elim (get ℤ_discrete n_file files) [
      | none ↦ err (from_str "blk file not found, sync with bitcoin core")
      | some blk_path ↦ do
        file ← io (open_file blk_path)
        r ← seek ((n_pos + n_tx_offset + 80) % 2 ^ 64) file
        (tx, _) ← read_decoded decode_transaction r
        ok tx
    ]
