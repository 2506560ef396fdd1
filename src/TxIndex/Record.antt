-- ===== src/TxIndex/Record.antt =====
-- `TransactionRecord::from` against the layout that Bitcoin Core writes (`CDiskTxPos`), and lookups.
use bitcoin_query_py.Common.{ℕ, ◌≡◌, refl, arith, [], ◌++◌, some, ok}
use bitcoin_query_py.Common.Int.{ℤ, IsI32, IsU32, to_usize, to_u32, to_i32-to_usize, to_usize-IsU64}
use bitcoin_query_py.Reader.{Bytes}
use bitcoin_query_py.Reader.RoundTrip.{write_varint, read_varint-write_varint}
use bitcoin_query_py.Bitcoin.{Transactions}
use bitcoin_query_py.TxIndex.{TxDb, Database, TransactionRecord, from, get_tx_record, tx_key}

-- Three variable-length numbers.
abbrev pub write_position : ℤ → ℕ → ℕ → Bytes
write_position n_file n_pos n_tx_offset =
    write_varint (to_usize n_file) ++ (write_varint n_pos ++ (write_varint n_tx_offset ++ []))

to_u32_same : (n : ℕ) → IsU32 n → to_u32 n ≡ n
to_u32_same n h = omega arith

module _ (lib : Transactions) where
  open lib use {txid_from_slice, as_inner}

  -- The fields fit their types, and the database holds the record under "t" and the bytes of the id.
  pub record IsStored (tx_db : TxDb) (r : TransactionRecord lib) : Type 0 where
    pub file : IsI32 r.n_file
    pub place : IsU32 r.n_pos
    pub offset : IsU32 r.n_tx_offset
    pub id : txid_from_slice (as_inner r.txid) ≡ some r.txid
    pub db : Database
    pub opened : tx_db.db ≡ some db
    pub stored : db (tx_key lib r.txid) ≡ ok (some (write_position r.n_file r.n_pos r.n_tx_offset))

  from-write_position :
      (r : TransactionRecord lib) (key : Bytes)
      → IsI32 r.n_file
      → IsU32 r.n_pos
      → IsU32 r.n_tx_offset
      → txid_from_slice key ≡ some r.txid
      → from lib key (write_position r.n_file r.n_pos r.n_tx_offset) ≡ ok r
  unfolding from
  from-write_position r key file place offset id =
      let last = write_varint r.n_tx_offset ++ [] in
      rw
        (
          id,
          read_varint-write_varint (to_usize r.n_file) (write_varint r.n_pos ++ last)
              (to_usize-IsU64 _ file),
          read_varint-write_varint r.n_pos last (omega arith),
          read_varint-write_varint r.n_tx_offset [] (omega arith),
          to_i32-to_usize r.n_file file,
          to_u32_same r.n_pos place,
          to_u32_same r.n_tx_offset offset,
        )
        refl

  -- A record that is stored is found and read back whole.
  pub get_tx_record_lem :
      (tx_db : TxDb) (r : TransactionRecord lib)
      → IsStored tx_db r
      → get_tx_record lib tx_db r.txid ≡ ok r
  unfolding get_tx_record
  get_tx_record_lem tx_db r s =
      rw (s.opened, get_tx_record, s.stored)
        (from-write_position r (as_inner r.txid) s.file s.place s.offset s.id)
