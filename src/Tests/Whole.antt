-- ===== src/Tests/Whole.antt =====
-- The chain with a transaction index: connected blocks by the index and by the iteration.
use bitcoin_query_py.Common.{◌≡◌, refl, [], ◌∷◌, ok, lift, mapped, ◌>>=◌}
use bitcoin_query_py.Connect.Blocks.{for_block}
use bitcoin_query_py.Proto.{convert_all}
use bitcoin_query_py.Proto.Blocks.{full-connect_block}
use bitcoin_query_py.Proto.Full
use bitcoin_query_py.Proto.Full.{FTxOut}
use bitcoin_query_py.Proto.Simple
use bitcoin_query_py.Proto.FConnected
use bitcoin_query_py.Proto.SConnected
use bitcoin_query_py.Proto.Forget.{forget_block, forget_connected_block, from_block-forget_block}
use bitcoin_query_py.Proto.ForgetConnected.{connect_block-forget_connected_block}
use bitcoin_query_py.IterConnected.Chain.{all_outputs}
use bitcoin_query_py.IterConnected.Assemble.{assemble}
use bitcoin_query_py.IterConnected.Full.{output_block}
use bitcoin_query_py.IterConnected.Whole.{Reach-connect_block}
use bitcoin_query_py.IterConnected.WholeSimple.{Reach-connect_simple}
use bitcoin_query_py.IterConnected.Simple as Simple_run
use bitcoin_query_py.Tests.Query.{
  connected, runs, fields, full_into, full_into_runs, simple_into, simple_into_runs, memory,
  blocks-IsServed, memory_reach, paid-FindsAll,
}
use bitcoin_query_py.Tests.Files.{fs, files}
use bitcoin_query_py.Tests.Index.{lib, index}
use bitcoin_query_py.Tests.Scripts
use bitcoin_query_py.Tests.Stored.{tx_db}
use bitcoin_query_py.Tests.Chain.{txs, mined, paid, blocks, get_block, blocks-IsChain}

Reach-connect_block_example :
    FConnected.connect_block lib txs Scripts.lib fields fs tx_db index files (paid ∷ [])
    ≡ lift (
        assemble
          (FConnected.from_tx lib txs Scripts.lib fields)
          (FConnected.add_input lib txs Scripts.lib fields)
          (FConnected.add_tx lib txs Scripts.lib fields)
          (output_block lib fs txs tx_db index files
            (all_outputs txs (λ o. o) blocks)
            connected
            runs
            Scripts.lib
            fields
            full_into
            full_into_runs
            (paid ∷ []))
          (paid ∷ [])
          ((full_into 11 ∷ []) ∷ []))
Reach-connect_block_example =
    Reach-connect_block lib fs txs tx_db index files Scripts.lib fields connected runs full_into
      full_into_runs get_block blocks (memory full_into) 1 0 (paid ∷ []) blocks-IsChain
      (blocks-IsServed full_into) (memory_reach full_into).1 (memory_reach full_into).2 refl
      paid-FindsAll

Reach-connect_simple_example :
    SConnected.connect_block lib txs Scripts.lib fields fs tx_db index files (paid ∷ [])
    ≡ lift (
        assemble
          (SConnected.from_tx lib txs Scripts.lib fields)
          (SConnected.add_input lib txs Scripts.lib fields)
          (SConnected.add_tx lib txs Scripts.lib fields)
          (Simple_run.output_block lib fs txs tx_db index files
            (all_outputs txs (λ o. o) blocks)
            connected
            runs
            Scripts.lib
            fields
            simple_into
            simple_into_runs
            (paid ∷ []))
          (paid ∷ [])
          ((simple_into 11 ∷ []) ∷ []))
Reach-connect_simple_example =
    Reach-connect_simple lib fs txs tx_db index files Scripts.lib fields connected runs simple_into
      simple_into_runs get_block blocks (memory simple_into) 1 0 (paid ∷ []) blocks-IsChain
      (blocks-IsServed simple_into) (memory_reach simple_into).1 (memory_reach simple_into).2 refl
      paid-FindsAll

from_block-forget_block_example :
    Simple.from_block lib txs Scripts.lib fields (paid ∷ [])
    ≡ mapped
        (forget_block lib txs Scripts.lib fields)
        (Full.from_block lib txs Scripts.lib fields (paid ∷ []))
from_block-forget_block_example = from_block-forget_block lib txs Scripts.lib fields (paid ∷ [])

connect_block-forget_connected_block_example :
    SConnected.connect_block lib txs Scripts.lib fields fs tx_db index files (paid ∷ [])
    ≡ mapped
        (forget_connected_block lib txs Scripts.lib fields)
        (FConnected.connect_block lib txs Scripts.lib fields fs tx_db index files (paid ∷ []))
connect_block-forget_connected_block_example =
    connect_block-forget_connected_block lib txs Scripts.lib fields fs tx_db index files (paid ∷ [])

full-connect_block_example :
    FConnected.connect_block lib txs Scripts.lib fields fs tx_db index files (mined ∷ paid ∷ []) ≡ (
      convert_all
        (λ tx. for_block (
          FConnected.connect_tx lib txs Scripts.lib fields fs tx_db index files
            (λ e n. "missing")
            tx))
        (mined ∷ paid ∷ [])
      >>= λ each.
          ok (record { header = Full.parse lib txs Scripts.lib fields (3, 2) 3; txdata = each }))
full-connect_block_example =
    full-connect_block lib fs txs tx_db index files Scripts.lib fields Scripts.starts connected runs
      (λ e n. "missing") (mined ∷ paid ∷ [])
