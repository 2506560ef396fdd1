-- ===== src/Errors.antt =====
-- src/parser/errors.rs: the error type of the crate, its constructors, the conversions that `?`
-- applies, and the text of an error.
-- `io::Error` is the standard library's: here the cases that the crate meets. The payloads of
-- `FromUtf8Error` and of leveldb's error are their texts.
pub mod Display
use Prim.Native.String
use bitcoin_query_py.Common.{String, Result, ok, err, panic, Option, none, some}
use bitcoin_query_py.Common.Int.{ℤ}

pub data IoError : Type 0 where
  unexpected_eof : IoError
  not_found : IoError
  invalid_input : IoError
  raw_os : ℤ → IoError

pub data OpErrorKind : Type 0 where
  no_kind : OpErrorKind
  io_error : IoError → OpErrorKind
  utf8_error : String → OpErrorKind
  runtime_error : OpErrorKind
  poison_error : OpErrorKind
  send_error : OpErrorKind

pub record OpError : Type 0 where
  pub kind : OpErrorKind
  pub message : String

abbrev pub OpResult {ℓ} : Type ℓ → Type ℓ
OpResult A = Result OpError A

abbrev pub new : OpErrorKind → OpError
new kind = record { kind = kind; message = "" }

abbrev pub join_msg : OpError → String → OpError
join_msg e msg = record { kind = e.kind; message = String.◌++◌ e.message msg }

-- `impl From<…> for OpError`, one for each source type.
abbrev pub from_io : IoError → OpError
from_io e = new (io_error e)

abbrev pub from_str : String → OpError
from_str s = join_msg (new no_kind) s

abbrev pub from_encode_error : OpError
from_encode_error = from_str "block decode error"

abbrev pub from_hex_error : OpError
from_hex_error = from_str "not a valid hash"

abbrev pub from_hashes_error : OpError
from_hashes_error = from_str "bitcoin_hash error"

abbrev pub from_raw_os_error : ℤ → OpError
from_raw_os_error code = from_io (raw_os code)

abbrev pub from_poison_error : OpError
from_poison_error = new poison_error

abbrev pub from_send_error : OpError
from_send_error = new send_error

abbrev pub from_utf8_error : String → OpError
from_utf8_error e = new (utf8_error e)

-- leveldb's error is kept as its text.
abbrev pub from_leveldb_error : String → OpError
from_leveldb_error text = from_str text
