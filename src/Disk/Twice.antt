-- ===== src/Disk/Twice.antt =====
-- Where the two stores differ: a block that spends an output twice.
use bitcoin_query_py.Common.{◌≡◌, ◌≢◌, List, ok}
use bitcoin_query_py.Bitcoin.{Transactions}
use bitcoin_query_py.Outputs.{SpendsOnce, inputs_of, Holds, outputs_of_block}
use bitcoin_query_py.Utxo.{Unspent, connect_outpoints}
use bitcoin_query_py.Utxo.Spend.{IsStore}
use bitcoin_query_py.Utxo.Blocks.{connect_outpoints-AreSpent}
use bitcoin_query_py.Disk.{RocksDb, OutputCodec, connect_on_disk}
use bitcoin_query_py.Disk.Keys.{IsCodec, IsHealthy}
use bitcoin_query_py.Disk.Implements.{held, connect_on_disk-IsTaken}

module _ (txs : Transactions) (codec : OutputCodec txs) (is_codec : IsCodec txs codec)
    {TOut : Type 0} (into : txs.TxOut → TOut) (rocks : RocksDb) (healthy : IsHealthy rocks) where
  open txs use {Transaction}

  -- A block that spends an output twice is never connected in memory. In a database that works it is, if
  -- the database has the outputs that its inputs name, and each input gets its output, the second of the
  -- two as the first.
  pub connect_on_disk-connect_outpoints :
      (db : rocks.Db) (unspent : Unspent txs into) (ts : List Transaction)
      → IsStore txs into unspent
      → Holds txs (held txs codec is_codec into rocks healthy db) (inputs_of txs ts)
      → ¬ SpendsOnce txs (inputs_of txs ts)
      → ((last : rocks.Db) × (connect_on_disk txs codec into rocks db ts
            ≡ ok (outputs_of_block txs (held txs codec is_codec into rocks healthy db) ts, last)))
        × ((outs : List (List TOut)) (left : Unspent txs into)
            → connect_outpoints txs into unspent ts ≢ ok (outs, left))
  connect_on_disk-connect_outpoints db unspent ts store holds twice =
      let (last, runs, _) =
        connect_on_disk-IsTaken txs codec is_codec into rocks healthy db ts holds in
      (
        (last, runs),
        λ outs left e.
            twice (connect_outpoints-AreSpent txs into unspent left ts outs store e).once,
      )
