-- ===== src/Api.antt =====
-- src/api/mod.rs: the queries of `BitcoinDB`.
pub mod Heights
pub mod Stored
pub mod Connected
pub mod Open
use bitcoin_query_py.Common.{
  ℕ, zero, suc, ◌+◌, List, [], ◌∷◌, ok, err, panic, ◌>>=◌, Option, none, some, ◌==◌, if◌then◌else◌,
  length, get_elem?,
}
use bitcoin_query_py.Common.Int.{ℤ, to_usize}
use bitcoin_query_py.Common.Maps.{get}
use bitcoin_query_py.Errors.{OpResult, from_str}
use bitcoin_query_py.Bitcoin.{Headers, Transactions}
use bitcoin_query_py.Reader.{Bytes}
use bitcoin_query_py.BlkFile.{FileSystem, Files, read_raw_block, read_block, read_transaction}
use bitcoin_query_py.TxIndex.{TxDb, is_open, is_genesis_tx, get_tx_record, get_block_height_of_tx}
use bitcoin_query_py.BlockIndex.{BlockIndexRecord, Record, BlockIndex}

module _ (lib : Headers) where
  open lib use {BlockHash, hash_discrete, block_hash}

  unfoldable pub get_max_height : BlockIndex lib → ℕ
  get_max_height index = length index.records

  -- `for h in 0..records`, from the height `h` on; the end of the list is the end of the range.
  unfoldable pub count_from : ℕ → List (Record lib) → ℕ
  count_from h [] = h
  count_from h (r ∷ rs) = let rest = count_from (h + 1) rs in if r.n_tx == 0 then h else rest

  unfoldable pub get_block_count : BlockIndex lib → ℕ
  get_block_count index = count_from 0 index.records

  unfoldable pub get_header : BlockIndex lib → ℕ → OpResult (Record lib)
  get_header index height = elim (get_elem? index.records height) [
    | none ↦ err (from_str "height not found")
    | some header ↦ ok header
  ]

  unfoldable pub get_hash_from_height : BlockIndex lib → ℕ → OpResult BlockHash
  get_hash_from_height index height = elim (get_elem? index.records height) [
    | none ↦ err (from_str "height not found")
    | some s ↦ ok (block_hash s.block_header)
  ]

  unfoldable pub get_height_from_hash : BlockIndex lib → BlockHash → OpResult ℕ
  get_height_from_hash index hash = elim (get hash_discrete hash index.hash_to_height) [
    | none ↦ err (from_str "hash not found")
    | some h ↦ ok (to_usize h)
  ]

  -- The queries that read the disk, of a `BitcoinDB` of an index, blk files and a transaction index.
  module _ (fs : FileSystem) (index : BlockIndex lib) (blk_file : Files fs) where
    unfoldable pub get_raw_block : ℕ → OpResult Bytes
    get_raw_block height = elim (get_elem? index.records height) [
      | none ↦ err (from_str "height not found")
      | some b ↦ read_raw_block fs blk_file b.n_file b.n_data_pos
    ]

    module _ (txs : Transactions) where
      open txs use {Txid, Transaction, Block, txdata, decode_block, decode_transaction}

      -- With the conversion that the type parameter asks for.
      unfoldable pub get_block : {T : Type 0} → (Block → T) → ℕ → OpResult T
      get_block into height = elim (get_elem? index.records height) [
        | none ↦ err (from_str "height not found")
        | some b ↦
            read_block fs decode_block blk_file b.n_file b.n_data_pos >>= λ blk. ok (into blk)
      ]

      -- `txdata.swap_remove(0)`
      abbrev pub first_transaction : List Transaction → OpResult Transaction
      first_transaction [] = panic "swap_remove index (is 0) should be < len (is 0)"
      first_transaction (tx ∷ _) = ok tx

      unfoldable pub get_transaction : {T : Type 0} → (Transaction → T) → TxDb → Txid → OpResult T
      get_transaction into tx_db txid =
          if is_open tx_db
          then (if is_genesis_tx txs txid
              then (do
                block ← get_block (λ b. b) 0
                tx ← first_transaction (txdata block)
                ok (into tx))
              else (do
                r ← get_tx_record txs tx_db txid
                tx ← read_transaction fs decode_transaction blk_file r.n_file r.n_pos r.n_tx_offset
                ok (into tx)))
          else err (from_str "TxDB not open")

unfoldable pub get_height_of_transaction : (txs : Transactions) → TxDb → txs.Txid → OpResult ℕ
get_height_of_transaction txs tx_db txid =
    if is_open tx_db then get_block_height_of_tx txs tx_db txid else err (from_str "TxDB not open")
