-- ===== src/Proto/FConnected.antt =====
-- src/parser/proto/connected_proto.rs: the full format of connected blocks and transactions.
use bitcoin_query_py.Common.{ℕ, List, [], ◌∷◌, ◌++◌, Result, ok, ◌>>=◌, lift, String}
use bitcoin_query_py.Common.Int.{ℤ}
use bitcoin_query_py.Errors.{OpResult}
use bitcoin_query_py.Bitcoin.{Headers, Transactions, Scripts, Fields}
use bitcoin_query_py.BlockIndex.{BlockIndex}
use bitcoin_query_py.BlkFile.{FileSystem, Files}
use bitcoin_query_py.TxIndex.{TxDb}
use bitcoin_query_py.Connect.{connect_tx_inputs, connect_block_inputs}
use bitcoin_query_py.Proto.{convert_all}
use bitcoin_query_py.Proto.Full.{FBlockHeader, FTxOut, parse, from_tx_out}

module _ (lib : Headers) (txs : Transactions) (scripts : Scripts)
    (fields : Fields lib txs scripts) where
  open lib use {BlockHash, BlockHeader, block_hash}
  open txs use {Txid, TxOut, Transaction, Block, txid, is_coin_base, input, output, txdata}

  pub record FConnectedTransaction : Type 0 where
    pub version : ℤ
    pub lock_time : ℕ
    pub txid : Txid
    pub input : List (FTxOut lib txs scripts fields)
    pub output : List (FTxOut lib txs scripts fields)

  pub record FConnectedBlock : Type 0 where
    pub header : FBlockHeader lib txs scripts fields
    pub txdata : List FConnectedTransaction

  -- `ConnectedTx::from` and `add_input`.
  unfoldable pub from_tx : Transaction → Result ⊥ FConnectedTransaction
  from_tx tx = do
    outs ← convert_all (from_tx_out lib txs scripts fields) (output tx)
    ok (record {
      version = fields.version tx;
      lock_time = fields.lock_time tx;
      txid = txid tx;
      input = [];
      output = outs;
    })

  unfoldable pub add_input :
      FConnectedTransaction → FTxOut lib txs scripts fields → FConnectedTransaction
  add_input tx o = record tx { input = tx.input ++ o ∷ [] }

  -- `tx.add_input(o.into())`
  unfoldable pub add_output : FConnectedTransaction → TxOut → Result ⊥ FConnectedTransaction
  add_output tx o = do c ← from_tx_out lib txs scripts fields o; ok (add_input tx c)

  -- `ConnectedBlock::from` and `add_tx`.
  unfoldable pub from_header : BlockHeader → BlockHash → FConnectedBlock
  from_header block_header hash = record {
    header = parse lib txs scripts fields block_header hash;
    txdata = [];
  }

  unfoldable pub add_tx : FConnectedBlock → FConnectedTransaction → FConnectedBlock
  add_tx block tx = record block { txdata = block.txdata ++ tx ∷ [] }

  module _ (fs : FileSystem) (tx_db : TxDb) (blk_index : BlockIndex lib) (blk_file : Files fs) where
    -- `text` stands for the message of `connect_tx_inputs`.
    unfoldable pub connect_tx : (ℕ → ℕ → String) → Transaction → OpResult FConnectedTransaction
    connect_tx text tx = do
      found ←
          connect_tx_inputs lib fs txs tx_db blk_index blk_file text (input tx) (is_coin_base tx)
      ins ← lift (convert_all (from_tx_out lib txs scripts fields) found)
      outs ← lift (convert_all (from_tx_out lib txs scripts fields) (output tx))
      ok (record {
        version = fields.version tx;
        lock_time = fields.lock_time tx;
        txid = txid tx;
        input = ins;
        output = outs;
      })

    unfoldable pub connect_block : Block → OpResult FConnectedBlock
    connect_block block = do
      connected ←
          connect_block_inputs lib fs txs tx_db blk_index blk_file from_tx add_output (txdata block)
      ok (record {
        header =
            parse lib txs scripts fields (fields.header block) (block_hash (fields.header block));
        txdata = connected;
      })
