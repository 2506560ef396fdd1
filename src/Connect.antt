-- ===== src/Connect.antt =====
-- src/parser/proto/connected_proto.rs: replacing the inputs of transactions by the outputs that they
-- spend, by way of the transaction index.
-- `par_iter` keeps the order of its list; a panic in one of its calls is a panic of the whole.
pub mod Blocks
pub mod Inputs
pub mod Formats
use bitcoin_query_py.Common.{
  ℕ, zero, suc, List, [], ◌∷◌, ◌++◌, Bool, true, false, Result, ok, err, panic, ◌>>=◌, lift, Option,
  none, some, leb, ◌==◌, if◌then◌else◌, length, get_elem?, String,
}
use bitcoin_query_py.Common.Int.{to_u32}
use bitcoin_query_py.Errors.{OpResult, from_str}
use bitcoin_query_py.Bitcoin.{Headers, Transactions}
use bitcoin_query_py.BlockIndex.{BlockIndexRecord, Record, BlockIndex}
use bitcoin_query_py.BlkFile.{FileSystem, Files, read_block, read_transaction}
use bitcoin_query_py.TxIndex.{TxDb, is_genesis_tx, get_tx_record}

-- What a read gives, a failure being `None`.
abbrev pub or_none : {A B : Type 0} → OpResult A → (A → Result ⊥ (Option B)) → Result ⊥ (Option B)
or_none outcome next = elim outcome [ ok a ↦ next a | err e ↦ ok none | panic text ↦ panic text ]

-- `swap_remove`, of which only the removed element is used.
abbrev pub swap_remove : {A : Type 0} → List A → ℕ → Result ⊥ A
swap_remove xs n = elim (get_elem? xs n) [
  | none ↦ panic "swap_remove index should be < len"
  | some x ↦ ok x
]

module _ (lib : Headers) (fs : FileSystem) (txs : Transactions) (tx_db : TxDb)
    (blk_index : BlockIndex lib) (blk_file : Files fs) where
  open txs use {
    Txid, TxIn, TxOut, Transaction, Block, previous_txid, previous_vout, is_null, input, output,
    is_coin_base, txdata, decode_block, decode_transaction,
  }

  -- The first output of the first transaction of a block.
  abbrev pub first_output : Block → Result ⊥ (Option TxOut)
  first_output blk = do
    tx ← swap_remove (txdata blk) 0
    out ← swap_remove (output tx) 0
    ok (some out)

  abbrev pub genesis_output : Result ⊥ (Option TxOut)
  genesis_output = elim (get_elem? blk_index.records 0) [
    | none ↦ ok none
    | some b ↦ or_none (read_block fs decode_block blk_file b.n_file b.n_data_pos) first_output
  ]

  abbrev pub output_at : ℕ → Transaction → Result ⊥ (Option TxOut)
  output_at n tx =
      if leb (to_u32 (length (output tx))) n
      then ok none
      else (swap_remove (output tx) n >>= λ out. ok (some out))

  unfoldable pub connect_input : TxIn → Result ⊥ (Option TxOut)
  connect_input tx_in =
      if is_null tx_in
      then ok none
      else if is_genesis_tx txs (previous_txid tx_in)
      then genesis_output
      else or_none (get_tx_record txs tx_db (previous_txid tx_in)) (λ r.
        or_none (read_transaction fs decode_transaction blk_file r.n_file r.n_pos r.n_tx_offset)
          (output_at (previous_vout tx_in)))

  -- `par_iter().map(connect_input).collect()`
  unfoldable pub connect_all : List TxIn → Result ⊥ (List (Option TxOut))
  connect_all [] = ok []
  connect_all (x ∷ xs) = do out ← connect_input x; outs ← connect_all xs; ok (out ∷ outs)

  -- `filter_map` keeps what is found.
  unfoldable pub found : List (Option TxOut) → List TxOut
  found [] = []
  found (none ∷ outs) = found outs
  found (some out ∷ outs) = out ∷ found outs

  abbrev pub outpoints_count : Bool → List TxIn → ℕ
  outpoints_count is_coinbase tx_in = if is_coinbase then 0 else length tx_in

  -- `text` stands for the formatted message.
  unfoldable pub connect_tx_inputs : (ℕ → ℕ → String) → List TxIn → Bool → OpResult (List TxOut)
  connect_tx_inputs text tx_in is_coinbase = do
    outs ← lift (connect_all tx_in)
    let received = length (found outs)
    let expected = outpoints_count is_coinbase tx_in
    if received == expected then ok (found outs) else err (from_str (text expected received))

  -- `all_tx_in`
  unfoldable pub all_inputs : List Transaction → List TxIn
  all_inputs [] = []
  all_inputs (tx ∷ rest) = input tx ++ all_inputs rest

  -- The loop that takes the outputs of one transaction off the queue.
  unfoldable pub pop_outputs : ℕ → List (Option TxOut) → Result ⊥ (List TxOut × List (Option TxOut))
  pop_outputs zero queue = ok ([], queue)
  pop_outputs (suc n) [] = panic "called `Option::unwrap()` on a `None` value"
  pop_outputs (suc n) (none ∷ queue) = pop_outputs n queue
  pop_outputs (suc n) (some out ∷ queue) = do
    (outs, rest) ← pop_outputs n queue
    ok (out ∷ outs, rest)

  -- The formats of a connected transaction: `Tx::from`, and `add_input` of a converted output. The
  -- conversions may panic.
  module _ {Tx : Type 0} (from : Transaction → Result ⊥ Tx)
      (add_input : Tx → TxOut → Result ⊥ Tx) where
    unfoldable pub add_inputs : Tx → List TxOut → Result ⊥ Tx
    add_inputs tx [] = ok tx
    add_inputs tx (o ∷ outs) = add_input tx o >>= λ next. add_inputs next outs

    -- A transaction with the outputs that its inputs spend.
    abbrev pub with_inputs : Transaction → List TxOut → Result ⊥ Tx
    with_inputs tx outs = from tx >>= λ blank. add_inputs blank outs

    -- The loop that reconstructs the block.
    unfoldable pub reconstruct : List Transaction → List (Option TxOut) → OpResult (List Tx)
    reconstruct [] queue = ok []
    reconstruct (tx ∷ rest) queue = do
      (outputs, left) ← lift (pop_outputs (length (input tx)) queue)
      connected ←
          if length outputs == outpoints_count (is_coin_base tx) (input tx)
          then lift (with_inputs tx outputs)
          else err (from_str "some outpoints aren't found, tx_index is not fully synced")
      more ← reconstruct rest left
      ok (connected ∷ more)

    unfoldable pub connect_block_inputs : List Transaction → OpResult (List Tx)
    connect_block_inputs transactions = do
      connected_outputs ← lift (connect_all (all_inputs transactions))
      reconstruct transactions connected_outputs
