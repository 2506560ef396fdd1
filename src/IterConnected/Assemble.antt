-- ===== src/IterConnected/Assemble.antt =====
-- The block that `connect_outpoints` builds from the outputs that the inputs spend.
use bitcoin_query_py.Common.{List, [], ◌∷◌, Result, ok, ◌>>=◌}

-- The format: `ConnectedTx::from` and `add_input`, and `add_tx` of a connected block.
module _ {Transaction TBlock Tx TOut : Type 0} (from : Transaction → Result ⊥ Tx)
    (add_input : Tx → TOut → Tx) (add_tx : TBlock → Tx → TBlock) where
  unfoldable pub add_all : Tx → List TOut → Tx
  add_all tx [] = tx
  add_all tx (o ∷ outs) = add_all (add_input tx o) outs

  -- The loop over the transactions, each with the outputs that its inputs spend.
  unfoldable pub assemble : TBlock → List Transaction → List (List TOut) → Result ⊥ TBlock
  assemble output_block [] outs = ok output_block
  assemble output_block (tx ∷ rest) [] = ok output_block
  assemble output_block (tx ∷ rest) (outs ∷ more) = do
    output_tx ← from tx
    assemble (add_tx output_block (add_all output_tx outs)) rest more
