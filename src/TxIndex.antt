-- ===== src/TxIndex.antt =====
-- src/parser/tx_index.rs: the record of a transaction in the leveldb of `txindex=1`, its lookup, and
-- the map from the position of a block in its file to its height.
-- An open database is its function `get`: an error with its text, or the value of a key if any.
pub mod Record
pub mod Heights
use Prim.Native.String
use bitcoin_query_py.Common.{
  ℕ, List, [], ◌∷◌, drop, Bool, true, false, String, Result, ok, err, panic, ◌>>=◌, Option, none,
  some, if◌then◌else◌, ite, ℕ_discrete,
}
use bitcoin_query_py.Common.Int.{ℤ, to_i32, to_u32, to_usize, ℤ_discrete}
use bitcoin_query_py.Common.Maps.{get}
use bitcoin_query_py.Common.InsertAll.{insert_all}
use bitcoin_query_py.Errors.{OpResult, from_str, from_hashes_error}
use bitcoin_query_py.Reader.{Bytes, read_varint}
use bitcoin_query_py.Bitcoin.{Headers, Transactions}
use bitcoin_query_py.BlockIndex.{BlockIndexRecord, BlockIndex}

abbrev pub Position : Type 0
Position = ℤ × ℕ

unfoldable pub position_discrete : Discrete Position
position_discrete = hlevel (ℤ_discrete, ℕ_discrete)

abbrev pub Database : Type 0
Database = Bytes → Result String (Option Bytes)

-- Where a block stands: the file, and the position in it.
abbrev pub position : {BlockHeader : Type 0} → BlockIndexRecord BlockHeader → Position
position b = (b.n_file, b.n_data_pos)

-- The map of positions that `new` builds from the records of the blocks.
unfoldable pub index_positions :
    {BlockHeader : Type 0} → List (BlockIndexRecord BlockHeader) → List (Position × ℤ)
index_positions records = insert_all position_discrete position (λ b. b.n_height) records []

pub record TxDb : Type 0 where
  pub db : Option Database
  pub file_pos_to_height : List (Position × ℤ)

unfoldable pub null : TxDb
null = record { db = none; file_pos_to_height = [] }

-- From what `try_open_db` returns.
unfoldable pub new : (headers : Headers) → Option Database → BlockIndex headers → TxDb
new headers none blk_index = null
new headers (some db) blk_index = record {
  db = some db;
  file_pos_to_height = index_positions blk_index.records;
}

unfoldable pub is_open : TxDb → Bool
is_open tx_db = elim tx_db.db [ none ↦ false | some _ ↦ true ]

module _ (lib : Transactions) where
  open lib use {Txid, txid_discrete, as_inner, txid_from_slice, txid_text, genesis_txid}

  pub record TransactionRecord : Type 0 where
    pub txid : Txid
    pub n_file : ℤ
    pub n_pos : ℕ
    pub n_tx_offset : ℕ

  unfoldable pub from : Bytes → Bytes → OpResult TransactionRecord
  from key values = do
    txid ← elim (txid_from_slice key) [ none ↦ err from_hashes_error | some t ↦ ok t ]
    (n_file, r₁) ← read_varint values
    (n_pos, r₂) ← read_varint r₁
    (n_tx_offset, _) ← read_varint r₂
    ok (record {
      txid = txid;
      n_file = to_i32 n_file;
      n_pos = to_u32 n_pos;
      n_tx_offset = to_u32 n_tx_offset;
    })

  unfoldable pub is_genesis_tx : Txid → Bool
  is_genesis_tx txid = ite (txid_discrete txid genesis_txid) true false

  abbrev pub tx_key : Txid → Bytes
  tx_key txid = b't' ∷ as_inner txid

  abbrev pub value_not_found : String → OpResult TransactionRecord
  value_not_found text = err (from_str (String.◌++◌ "value not found for txid: " text))

  unfoldable pub get_tx_record : TxDb → Txid → OpResult TransactionRecord
  get_tx_record tx_db txid = elim (tx_db.db) [
    | none ↦ err (from_str "TxDB not open")
    | some db ↦ elim (db (tx_key txid)) [
      | ok (some value) ↦ from (drop 1 (tx_key txid)) value
      | ok none ↦ value_not_found (txid_text txid)
      | err e ↦ value_not_found e
      | panic text ↦ panic text
    ]
  ]

  -- The height of a record's position.
  abbrev pub height_at : TxDb → TransactionRecord → OpResult ℕ
  height_at tx_db r = elim (get position_discrete (r.n_file, r.n_pos) tx_db.file_pos_to_height) [
    | none ↦ err (from_str "transaction not found")
    | some pos_height ↦ ok (to_usize pos_height)
  ]

  unfoldable pub get_block_height_of_tx : TxDb → Txid → OpResult ℕ
  get_block_height_of_tx tx_db txid =
      if is_genesis_tx txid then ok 0 else (get_tx_record tx_db txid >>= height_at tx_db)
