-- ===== src/Proto/ForgetConnected.antt =====
-- The simple format of a connected block is its full format with fields left out.
use bitcoin_query_py.Common.{◌≡◌, refl, [], ◌∷◌, mapped, Result-cases, inl, inr}
use mathlib.Core.List.{map-append}
use bitcoin_query_py.Bitcoin.{Headers, Transactions, Scripts, Fields}
use bitcoin_query_py.BlockIndex.{BlockIndex}
use bitcoin_query_py.BlkFile.{FileSystem, Files}
use bitcoin_query_py.TxIndex.{TxDb}
use bitcoin_query_py.Connect.{connect_block_inputs}
use bitcoin_query_py.Connect.Formats.{connect_block_inputs-mapped}
use bitcoin_query_py.Proto.{convert_all}
use bitcoin_query_py.Proto.Full
use bitcoin_query_py.Proto.Simple
use bitcoin_query_py.Proto.FConnected
use bitcoin_query_py.Proto.FConnected.{FConnectedTransaction}
use bitcoin_query_py.Proto.SConnected
use bitcoin_query_py.Proto.Forget.{
  forget_out, forget_connected, forget_connected_block, from_tx_out-mapped, outs-mapped,
}

module _ (lib : Headers) (txs : Transactions) (scripts : Scripts)
    (fields : Fields lib txs scripts) where
  open txs use {TxOut, Transaction, Block, txdata, output}

  from_tx-mapped :
      (tx : Transaction)
      → SConnected.from_tx lib txs scripts fields tx
        ≡ mapped
            (forget_connected lib txs scripts fields)
            (FConnected.from_tx lib txs scripts fields tx)
  unfolding SConnected.from_tx FConnected.from_tx
  from_tx-mapped tx =
      elim (Result-cases (convert_all (Full.from_tx_out lib txs scripts fields) (output tx))) [
        | inl (outs, e) ↦ rw (outs-mapped lib txs scripts fields (output tx), e) refl
        | inr (inl (impossible, e)) ↦ absurd impossible
        | inr (inr (text, e)) ↦ rw (outs-mapped lib txs scripts fields (output tx), e) refl
      ]

  add_output-mapped :
      (tx : FConnectedTransaction lib txs scripts fields) (o : TxOut)
      → SConnected.add_output lib txs scripts fields (forget_connected lib txs scripts fields tx) o
        ≡ mapped
            (forget_connected lib txs scripts fields)
            (FConnected.add_output lib txs scripts fields tx o)
  unfolding SConnected.add_output FConnected.add_output SConnected.add_input FConnected.add_input
  add_output-mapped tx o = elim (Result-cases (Full.from_tx_out lib txs scripts fields o)) [
    | inl (c, e) ↦
        rw
          (
            from_tx_out-mapped lib txs scripts fields o,
            e,
            map-append (forget_out lib txs scripts fields) tx.input (c ∷ []),
          )
          refl
    | inr (inl (impossible, e)) ↦ absurd impossible
    | inr (inr (text, e)) ↦ rw (from_tx_out-mapped lib txs scripts fields o, e) refl
  ]

  -- A connected block in the simple format is the one in the full format with the fields left out that
  -- the simple format does not have; errors and panics are the same.
  pub connect_block-forget_connected_block :
      (fs : FileSystem) (tx_db : TxDb) (blk_index : BlockIndex lib) (blk_file : Files fs)
      (block : Block)
      → SConnected.connect_block lib txs scripts fields fs tx_db blk_index blk_file block
        ≡ mapped
            (forget_connected_block lib txs scripts fields)
            (FConnected.connect_block lib txs scripts fields fs tx_db blk_index blk_file block)
  unfolding SConnected.connect_block FConnected.connect_block Simple.parse Full.parse
  connect_block-forget_connected_block fs tx_db blk_index blk_file block =
      let same =
        connect_block_inputs-mapped lib fs txs tx_db blk_index blk_file
          (forget_connected lib txs scripts fields) (FConnected.from_tx lib txs scripts fields)
          (FConnected.add_output lib txs scripts fields) (SConnected.from_tx lib txs scripts fields)
          (SConnected.add_output lib txs scripts fields) from_tx-mapped add_output-mapped
          (txdata block) in
      elim (Result-cases (
        connect_block_inputs lib fs txs tx_db blk_index blk_file
          (FConnected.from_tx lib txs scripts fields) (FConnected.add_output lib txs scripts fields)
          (txdata block))) [
            | inl (connected, e) ↦ rw (same, e) refl
            | inr (inl (_, e)) ↦ rw (same, e) refl
            | inr (inr (_, e)) ↦ rw (same, e) refl
          ]
