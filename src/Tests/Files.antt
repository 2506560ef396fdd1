-- ===== src/Tests/Files.antt =====
-- A folder with two blk files, one behind a link, and the transactions of a block in the first.
use bitcoin_query_py.Common.{
  ℕ, zero, suc, ◌+◌, true, false, ◌≡◌, ◌≢◌, refl, [], ◌∷◌, ◌++◌, Option, none, some, ok, err, arith,
  ℕ_discrete, ◌==◌, if◌then◌else◌,
}
use bitcoin_query_py.Common.Int.{pos, ℤ_discrete}
use bitcoin_query_py.Common.Maps.{insert, delete}
use bitcoin_query_py.Errors.{not_found}
use bitcoin_query_py.Reader.{Bytes}
use bitcoin_query_py.BlkFile.{
  FileSystem, Files, prefix, ext, parse_blk_index, parse_i32, parse_digits, resolve_path, add_file,
  scan_entry, scan_entries, scan_path,
}
use bitcoin_query_py.BlkFile.Name.{parse_blk_index-decimal}
use bitcoin_query_py.BlkFile.Scan.{IsIndex, Lists, scan_path-IsIndex}
use bitcoin_query_py.BlkFile.Read.{to_le_bytes}

abbrev digits : ℕ → Bytes
digits n = b'0' ∷ b'0' ∷ (b'0' + n) ∷ []

abbrev pub zeros : ℕ → Bytes
zeros zero = []
zeros (suc n) = 0 ∷ zeros n

-- A header of 80 bytes, the count of the transactions, and one transaction.
abbrev pub block : Bytes
block = zeros 80 ++ (1 ∷ 9 ∷ [])

abbrev pub magic : Bytes
magic = 0xf9 ∷ 0xbe ∷ 0xb4 ∷ 0xd9 ∷ []

abbrev pub content : Bytes
content = magic ++ (to_le_bytes 82 ++ (block ++ []))

-- Paths are numbers: 0 and 2 are blk files, 1 is a link to 2, and 3 is a folder.
abbrev names : ℕ → Option Bytes
names p = if p == 3 then none else some (prefix ++ (digits p ++ ext))

abbrev pub fs : FileSystem
fs = record {
  PathBuf = ℕ;
  DirEntry = ℕ;
  read_dir = λ p. if p == 3 then ok (ok 0 ∷ ok 1 ∷ ok 3 ∷ []) else err not_found;
  is_symlink = λ e. ok (e == 1);
  entry_path = λ e. e;
  read_link = λ p. ok 2;
  is_file = λ p. if p == 3 then false else true;
  file_name = names;
  open_file = λ p. if p == 0 then ok content else err not_found;
}

abbrev pub files : Files fs
files = (pos 2, 2) ∷ (pos 0, 0) ∷ []

pub scanned : scan_path fs 3 ≡ ok files
unfolding scan_path scan_entries scan_entry resolve_path add_file parse_blk_index parse_i32
    parse_digits insert delete ℤ_discrete ℕ_discrete
scanned = refl

scan_path-IsIndex_example : IsIndex fs (Lists fs (ok 0 ∷ ok 1 ∷ ok 3 ∷ [])) files × (files ≢ [])
scan_path-IsIndex_example = scan_path-IsIndex fs 3 (ok 0 ∷ ok 1 ∷ ok 3 ∷ []) files refl scanned

parse_blk_index-decimal_example :
    parse_blk_index (prefix ++ ((b'0' ∷ b'4' ∷ b'2' ∷ []) ++ ext)) ≡ ok (some (pos 42))
parse_blk_index-decimal_example =
    parse_blk_index-decimal (b'0' ∷ b'4' ∷ b'2' ∷ [])
      ((omega arith, omega arith), ((omega arith, omega arith), ((omega arith, omega arith), tt)))
      (omega arith) (omega arith)
