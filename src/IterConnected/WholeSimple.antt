-- ===== src/IterConnected/WholeSimple.antt =====
-- From the steps of the worker threads to the blocks that a caller gets in the simple format.
use bitcoin_query_py.Common.{ℕ, ◌≡◌, sym, ap, ◌∙◌, List, Option, some, ok, lift, get_elem?, length}
use bitcoin_query_py.Errors.{OpResult}
use bitcoin_query_py.Bitcoin.{Headers, Transactions, Scripts, Fields}
use bitcoin_query_py.BlockIndex.{BlockIndex}
use bitcoin_query_py.BlkFile.{FileSystem, Files}
use bitcoin_query_py.TxIndex.{TxDb}
use bitcoin_query_py.Outputs.Store.{OutputStore}
use bitcoin_query_py.Connect.{connect_input}
use bitcoin_query_py.Proto.Simple
use bitcoin_query_py.Proto.Simple.{STxOut}
use bitcoin_query_py.Proto.SConnected
use bitcoin_query_py.IterConnected.{Threads, Reach}
use bitcoin_query_py.IterConnected.Chain.{IsChain, all_outputs}
use bitcoin_query_py.IterConnected.Invariant.{IsServed}
use bitcoin_query_py.IterConnected.Handed.{Reach-outputs_of_block}
use bitcoin_query_py.IterConnected.Assemble.{assemble}
use bitcoin_query_py.IterConnected.Agree.{FindsAll}
use bitcoin_query_py.IterConnected.Simple.{output_block, connect_block-assemble}

module _ (lib : Headers) (fs : FileSystem) (txs : Transactions) (tx_db : TxDb)
    (blk_index : BlockIndex lib) (blk_file : Files fs) (scripts : Scripts)
    (fields : Fields lib txs scripts) (connected : txs.TxIn → Option txs.TxOut)
    (runs : (x : txs.TxIn) → connect_input lib fs txs tx_db blk_index blk_file x ≡ ok (connected x))
    (into : txs.TxOut → STxOut lib txs scripts fields)
    (conv_into : (o : txs.TxOut) → Simple.from_tx_out lib txs scripts fields o ≡ ok (into o)) where
  open txs use {Block, txdata}

  -- Whatever the order of the steps and whichever the store, on a chain whose blocks are all readable:
  -- the simple block that the iteration builds of a height is the block that
  -- `SConnectedBlock::connect` gives by way of the transaction index, if the index gives for each
  -- input of the block the output of the chain, finds all but those of coinbases, and does not panic.
  pub Reach-connect_simple :
      (get_block : ℕ → OpResult Block) (blocks : List Block) (unspent : OutputStore txs into)
      {s : Threads txs into unspent get_block} (h i : ℕ) (block : Block)
      {outs : List (List (STxOut lib txs scripts fields))}
      → IsChain txs blocks
      → IsServed txs into unspent get_block blocks
      → Reach txs into unspent get_block (length blocks) s
      → get_elem? s.connected i ≡ some (h, outs)
      → get_elem? blocks h ≡ some block
      → FindsAll txs connected (all_outputs txs (λ o. o) blocks) (txdata block)
      → SConnected.connect_block lib txs scripts fields fs tx_db blk_index blk_file block
        ≡ lift (
            assemble
              (SConnected.from_tx lib txs scripts fields)
              (SConnected.add_input lib txs scripts fields)
              (SConnected.add_tx lib txs scripts fields)
              (output_block lib fs txs tx_db blk_index blk_file
                (all_outputs txs (λ o. o) blocks)
                connected
                runs
                scripts
                fields
                into
                conv_into
                block)
              (txdata block)
              outs)
  Reach-connect_simple get_block blocks unspent h i block chain served reached here known finds =
      let raw = all_outputs txs (λ o. o) blocks in
      connect_block-assemble lib fs txs tx_db blk_index blk_file raw connected runs scripts fields
        into conv_into block finds
      ∙ ap
          (λ o. lift (
            assemble (SConnected.from_tx lib txs scripts fields)
              (SConnected.add_input lib txs scripts fields)
              (SConnected.add_tx lib txs scripts fields)
              (output_block lib fs txs tx_db blk_index blk_file raw connected runs scripts fields
                into conv_into block)
              (txdata block) o))
          (sym (
            Reach-outputs_of_block txs into get_block blocks unspent h i block chain served reached
              here known))
