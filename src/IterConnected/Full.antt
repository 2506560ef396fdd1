-- ===== src/IterConnected/Full.antt =====
-- The full format: a block of the iteration is the block that the query gives.
use bitcoin_query_py.Common.{◌≡◌, refl, List, [], ◌∷◌, ◌++◌, ok, lift, Option}
use bitcoin_query_py.Bitcoin.{Headers, Transactions, Scripts, Fields}
use bitcoin_query_py.BlockIndex.{BlockIndex}
use bitcoin_query_py.BlkFile.{FileSystem, Files}
use bitcoin_query_py.TxIndex.{TxDb}
use bitcoin_query_py.Outputs.{OutputSet, outputs_of_block}
use bitcoin_query_py.Connect.{connect_input}
use bitcoin_query_py.Proto.Full
use bitcoin_query_py.Proto.Full.{FTxOut, FBlockHeader}
use bitcoin_query_py.Proto.FConnected
use bitcoin_query_py.Proto.FConnected.{FConnectedTransaction, FConnectedBlock}
use bitcoin_query_py.IterConnected.Assemble.{assemble}
use bitcoin_query_py.IterConnected.Format.{connect_block_inputs-assemble}
use bitcoin_query_py.IterConnected.Agree.{converted, FindsAll}

module _ (lib : Headers) (fs : FileSystem) (txs : Transactions) (tx_db : TxDb)
    (blk_index : BlockIndex lib) (blk_file : Files fs) (raw : OutputSet txs txs.TxOut)
    (connected : txs.TxIn → Option txs.TxOut)
    (runs : (x : txs.TxIn) → connect_input lib fs txs tx_db blk_index blk_file x ≡ ok (connected x))
    (scripts : Scripts) (fields : Fields lib txs scripts)
    (into : txs.TxOut → FTxOut lib txs scripts fields)
    (conv_into : (o : txs.TxOut) → Full.from_tx_out lib txs scripts fields o ≡ ok (into o)) where
  open txs use {TxOut, Transaction, Block, txdata}

  -- `ConnectedBlock::from` of the block's header and hash.
  abbrev pub output_block : Block → FConnectedBlock lib txs scripts fields
  output_block block =
      FConnected.from_header lib txs scripts fields (fields.header block)
        (lib.block_hash (fields.header block))

  abbrev make :
      Transaction
      → List (FTxOut lib txs scripts fields)
      → List (FTxOut lib txs scripts fields)
      → FConnectedTransaction lib txs scripts fields
  make tx ins outs = record {
    version = fields.version tx;
    lock_time = fields.lock_time tx;
    txid = txs.txid tx;
    input = ins;
    output = outs;
  }

  pushes :
      (tx : Transaction) (ins outs : List (FTxOut lib txs scripts fields))
      (o : FTxOut lib txs scripts fields)
      → FConnected.add_input lib txs scripts fields (make tx ins outs) o
        ≡ make tx (ins ++ o ∷ []) outs
  unfolding FConnected.add_input
  pushes tx ins outs o = refl

  adds :
      (header : FBlockHeader lib txs scripts fields)
      (done : List (FConnectedTransaction lib txs scripts fields))
      (tx : FConnectedTransaction lib txs scripts fields)
      → FConnected.add_tx lib txs scripts fields (record { header = header; txdata = done }) tx
        ≡ record { header = header; txdata = done ++ tx ∷ [] }
  unfolding FConnected.add_tx
  adds header done tx = refl

  -- If connecting an input by way of the transaction index does not panic, gives for each input of a
  -- block the output that a set has, and finds all but those of coinbases, then the block that the
  -- iteration builds from the outputs of this set is the block that `FConnectedBlock::connect` gives.
  pub connect_block-assemble :
      (block : Block)
      → FindsAll txs connected raw (txdata block)
      → FConnected.connect_block lib txs scripts fields fs tx_db blk_index blk_file block
        ≡ lift (
            assemble
              (FConnected.from_tx lib txs scripts fields)
              (FConnected.add_input lib txs scripts fields)
              (FConnected.add_tx lib txs scripts fields)
              (output_block block)
              (txdata block)
              (outputs_of_block txs (converted txs into raw) (txdata block)))
  unfolding FConnected.connect_block FConnected.from_tx FConnected.add_output FConnected.from_header
  connect_block-assemble block finds =
      connect_block_inputs-assemble lib fs txs tx_db blk_index blk_file raw connected runs
        (Full.from_tx_out lib txs scripts fields) make (FConnected.add_input lib txs scripts fields)
        pushes into conv_into (FConnected.add_tx lib txs scripts fields)
        (λ header done. record { header = header; txdata = done }) adds
        (Full.parse lib txs scripts fields (fields.header block)
          (lib.block_hash (fields.header block)))
        (txdata block) finds
