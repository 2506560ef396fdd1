-- ===== src/Api/Connected.antt =====
-- src/api/connected.rs: the queries for connected blocks and transactions.
use bitcoin_query_py.Common.{ℕ, ◌≡◌, refl, err, ◌>>=◌, if◌then◌else◌, true, some}
use bitcoin_query_py.Errors.{OpResult, from_str}
use bitcoin_query_py.Bitcoin.{Headers, Transactions}
use bitcoin_query_py.BlockIndex.{BlockIndex}
use bitcoin_query_py.BlkFile.{FileSystem, Files}
use bitcoin_query_py.TxIndex.{TxDb, is_open}
use bitcoin_query_py.Reader.{Bytes}
use bitcoin_query_py.Api.Stored.{HasBlock, get_block_lem}
use bitcoin_query_py.Api.{get_block, get_transaction}

-- `connect` is `T::connect` of the format that the type parameter asks for.
module _ (lib : Headers) (fs : FileSystem) (index : BlockIndex lib) (blk_file : Files fs)
    (txs : Transactions) (tx_db : TxDb) {T : Type 0} where
  open txs use {Txid, Transaction, Block}

  unfoldable pub get_connected_block : (Block → OpResult T) → ℕ → OpResult T
  get_connected_block connect height =
      if is_open tx_db
      then (get_block lib fs index blk_file txs (λ b. b) height >>= connect)
      else err (from_str "TxDB not open")

  unfoldable pub get_connected_transaction : (Transaction → OpResult T) → Txid → OpResult T
  get_connected_transaction connect txid =
      if is_open tx_db
      then (get_transaction lib fs index blk_file txs (λ t. t) tx_db txid >>= connect)
      else err (from_str "TxDB not open")

  -- A block that lies in its file where the index says is connected, if the transaction index is open.
  pub get_connected_block_lem :
      (connect : Block → OpResult T) (height : ℕ) (block : Bytes) {decoded : Block} {left : Bytes}
      → is_open tx_db ≡ true
      → HasBlock lib fs index blk_file height block
      → txs.decode_block block ≡ some (decoded, left)
      → get_connected_block connect height ≡ connect decoded
  unfolding get_connected_block
  get_connected_block_lem connect height block opened has decodes =
      rw (opened, (get_block_lem lib fs index blk_file txs (λ b. b) height block has decodes).1)
        refl
