-- ===== src/IterConnected/Format.antt =====
-- A format of connected blocks: a block of the iteration is the block that the query gives.
use bitcoin_query_py.Common.{
  ◌≡◌, sym, ap, ◌∙◌, List, [], ◌∷◌, ◌++◌, Result, ok, ◌>>=◌, lift, Option,
}
use mathlib.Core.List.{append-nil, append_assoc}
use bitcoin_query_py.Bitcoin.{Headers, Transactions}
use bitcoin_query_py.BlockIndex.{BlockIndex}
use bitcoin_query_py.BlkFile.{FileSystem, Files}
use bitcoin_query_py.TxIndex.{TxDb}
use bitcoin_query_py.Outputs.{OutputSet, outputs_of_block}
use bitcoin_query_py.Connect.{connect_input, connect_block_inputs}
use bitcoin_query_py.Connect.Blocks.{connect_block_inputs-connect_each}
use bitcoin_query_py.Proto.Blocks.{from_of, push_of}
use bitcoin_query_py.IterConnected.Assemble.{assemble}
use bitcoin_query_py.IterConnected.Agree.{
  converted, FindsAll, with_all, connect_each-built, assemble-built,
}

-- The format: `make` and `block_of` build a transaction and a block of their parts, `push` and `add_tx`
-- are `add_input` and `add_tx`, and `conv` is the conversion of an output.
module _ (lib : Headers) (fs : FileSystem) (txs : Transactions) (tx_db : TxDb)
    (blk_index : BlockIndex lib) (blk_file : Files fs) (raw : OutputSet txs txs.TxOut)
    (connected : txs.TxIn → Option txs.TxOut)
    (runs : (x : txs.TxIn) → connect_input lib fs txs tx_db blk_index blk_file x ≡ ok (connected x))
    {O Tx TBlock Header : Type 0} (conv : txs.TxOut → Result ⊥ O)
    (make : txs.Transaction → List O → List O → Tx) (push : Tx → O → Tx)
    (pushes : (tx : txs.Transaction) (ins outs : List O) (o : O)
      → push (make tx ins outs) o ≡ make tx (ins ++ o ∷ []) outs)
    (into : txs.TxOut → O) (conv_into : (o : txs.TxOut) → conv o ≡ ok (into o))
    (add_tx : TBlock → Tx → TBlock) (block_of : Header → List Tx → TBlock)
    (adds : (header : Header) (done : List Tx) (tx : Tx)
      → add_tx (block_of header done) tx ≡ block_of header (done ++ tx ∷ [])) where
  -- `ConnectedTx::from`, and `tx.add_input(o.into())`.
  abbrev from : txs.Transaction → Result ⊥ Tx
  from =
      from_of lib fs txs tx_db blk_index blk_file conv make push pushes (λ o. (into o, conv_into o))

  abbrev add : Tx → txs.TxOut → Result ⊥ Tx
  add =
      push_of lib fs txs tx_db blk_index blk_file conv make push pushes (λ o. (into o, conv_into o))

  with_all-block_of :
      (header : Header) (done more : List Tx)
      → with_all lib fs txs tx_db blk_index blk_file raw connected runs conv make push pushes into
          conv_into add_tx
          (block_of header done)
          more
        ≡ block_of header (done ++ more)
  with_all-block_of header done [] = ap (block_of header) (sym (append-nil done))
  with_all-block_of header done (tx ∷ more) =
      rw (adds header done tx, with_all-block_of header (done ++ tx ∷ []) more)
        (ap (block_of header) (append_assoc done (tx ∷ []) more))

  -- If connecting an input by way of the transaction index does not panic, gives for each input of the
  -- transactions the output that a set has, and finds all but those of coinbases, then the block that
  -- the iteration builds from the outputs of this set is the block of the transactions that the query
  -- connects.
  pub connect_block_inputs-assemble :
      (header : Header) (ts : List txs.Transaction)
      → FindsAll txs connected raw ts
      → (connect_block_inputs lib fs txs tx_db blk_index blk_file from add ts >>= λ done.
          ok (block_of header done))
        ≡ lift (
            assemble from push add_tx
              (block_of header [])
              ts
              (outputs_of_block txs (converted txs into raw) ts))
  connect_block_inputs-assemble header ts finds =
      let each =
        connect_block_inputs-connect_each lib fs txs tx_db blk_index blk_file connected runs from
          add (λ e n. "") ts
        ∙ connect_each-built lib fs txs tx_db blk_index blk_file raw connected runs conv make push
            pushes into conv_into add_tx (λ e n. "") ts finds in
      let whole =
        assemble-built lib fs txs tx_db blk_index blk_file raw connected runs conv make push pushes
          into conv_into add_tx ts (block_of header []) in
      ap (λ outcome. outcome >>= λ done. ok (block_of header done)) each
      ∙ sym (ap lift (whole ∙ ap ok (with_all-block_of header [] _)))
